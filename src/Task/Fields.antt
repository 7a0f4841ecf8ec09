-- ===== src/Task/Fields.antt =====
-- The fields of a task that is set up, appended or freed.
use boi_os.Prelude.{
  ℕ, ◌≡◌, ◌≢◌, Option, none, some, refl, sym, inl, inr, Bool-cases, ==→eq, ◌==◌, arith, eq→==,
  ne→==,
}
use boi_os.Task.{
  Task, Tasks, task_free, task_init, first_registers, program_virtual_address, task_append,
  task_list_remove,
}

-- task_free is the removal from the list and two addresses to free.
pub task_free_list : (s : Tasks) (task : ℕ) → (task_free s task).0 ≡ task_list_remove s task
unfolding task_free
task_free_list s task = refl

-- A task that task_init sets up has no neighbours.
pub task_init_fields :
    (directory process : ℕ) (entry : Option ℕ) (t : Task)
    → task_init directory entry process ≡ some t
    → (t.next ≡ 0) × (t.prev ≡ 0) × (t.process ≡ process) × (t.page_directory ≡ directory)
unfolding task_init
task_init_fields directory process entry t e = elim (Bool-cases (directory == 0)) [
  | inl z ↦ absurd (ground arith)
  | inr nz ↦ ground arith
]

-- An appended task keeps what is no link.
pub task_append_process :
    (s : Tasks) (task : ℕ) (t : Task) → ((task_append s task t).store_of task).process ≡ t.process
unfolding task_append
task_append_process s task t = elim (Bool-cases (s.task_head == 0)) [
  | inl z ↦ rw (z, eq→== task task refl) refl
  | inr nz ↦
      rw (nz, eq→== task task refl)
        (elim (Bool-cases (task == s.task_tail)) [
          | inl q ↦ rw (q, eq→== s.task_tail task (sym (==→eq task s.task_tail q))) refl
          | inr q ↦ rw q refl
        ])
]

pub task_append_directory :
    (s : Tasks) (task : ℕ) (t : Task)
    → ((task_append s task t).store_of task).page_directory ≡ t.page_directory
unfolding task_append
task_append_directory s task t = elim (Bool-cases (s.task_head == 0)) [
  | inl z ↦ rw (z, eq→== task task refl) refl
  | inr nz ↦
      rw (nz, eq→== task task refl)
        (elim (Bool-cases (task == s.task_tail)) [
          | inl q ↦ rw (q, eq→== s.task_tail task (sym (==→eq task s.task_tail q))) refl
          | inr q ↦ rw q refl
        ])
]

-- With a directory task_init sets a task up.
pub task_init-some :
    (directory process : ℕ) (entry : Option ℕ)
    → directory ≢ 0
    → (t : Task) × (task_init directory entry process ≡ some t) × (t.page_directory ≡ directory)
unfolding task_init
task_init-some directory process entry ne =
    let t : Task = record {
      page_directory = directory;
      registers = first_registers (elim entry [ none ↦ program_virtual_address | some e ↦ e ]);
      next = 0;
      prev = 0;
      process = process;
    } in
    (t, rw (ne→== directory 0 ne, task_init) refl, refl)
