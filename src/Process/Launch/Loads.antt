-- ===== src/Process/Launch/Loads.antt =====
-- What the load of a process leaves behind process_load_data, on success and on every error.
use boi_os.Prelude.{
  ℕ, ◌≡◌, ◌≢◌, refl, sym, ap, ◌∙◌, inl, inr, Option, none, some, List, [], ◌∷◌, ◌++◌, ◌==◌,
  Bool-cases, Option-cases, ==→ne, eq→==,
}
use mathlib.Core.Path.{subst}
use boi_os.Prelude.Mem.{Mem}
use boi_os.Prelude.Slots.{set_slot}
use boi_os.Status.{Response, ok, err, enomem}
use boi_os.File.{Files}
use boi_os.Task.{Tasks, task_init, task_append, task_list_remove}
use boi_os.Task.Append.{IsTaskList, Fresh, task_append-IsTaskList}
use boi_os.Task.Rollback.{Back, task_list_remove-task_append}
use boi_os.Task.Fields.{task_free_list, task_init_fields, task_append_process}
use boi_os.Process.{Processes}
use boi_os.Process.Image.{Program, process_map_memory}
use boi_os.Process.Image.Total.{HasHeaders, process_map_memory-Returns}
use boi_os.Process.Launch.Binary.{named, tasked, task_new-some}
use boi_os.Process.Launch.{
  LoadOps, LoadedProcess, System, task_new, release_task, load_mapped, load_task, load_stack,
  load_data, entry_of,
}

-- The system behind a load into the slot. An error leaves the table and the list of tasks as they were; a
-- success puts the process into the slot and its task behind the others.
abbrev pub Loads : {W P : Type 0} → System W P → List ℕ → ℕ → Response × ℕ × System W P → Type 0
Loads s ts slot (err e, process, s') = (s'.table ≡ s.table) × Back s.tasks ts s'.tasks
Loads s ts slot (ok r, process, s') =
    (s'.table ≡ record s.table { processes = set_slot s.table.processes slot process })
    × ((s'.process_at process).pid ≡ slot)
    × IsTaskList s'.tasks (ts ++ ((s'.process_at process).task ∷ []))
    × ((s'.tasks.store_of (s'.process_at process).task).process ≡ process)

abbrev pub Every : {A : Type 0} → (A → Type 0) → Option A → Type 0
Every P none = Unit
Every P (some x) = P x

-- The address of a new task is not in use.
abbrev pub IsNew : Tasks → List ℕ → ℕ → Type 0
IsNew tasks ts a = Fresh a ts × (a ≢ tasks.task_tail) × (a ≢ tasks.current_task)

-- What task_new gives: the list with a task of the process.
abbrev Appended : Tasks → List ℕ → ℕ → Tasks → ℕ → Type 0
Appended tasks ts process tasks' task =
    IsTaskList tasks' (ts ++ (task ∷ []))
    × ((tasks'.store_of task).process ≡ process)
    × Back tasks ts (task_list_remove tasks' task)

task_new-Appended :
    {W : Type 0} (ops : LoadOps W) (elf_entry : Option ℕ) (process : ℕ) (w : W) (tasks : Tasks)
    (ts : List ℕ)
    → IsTaskList tasks ts
    → IsNew tasks ts (ops.kernel.kzalloc w 64).0
    → Every
        (λ (r : ℕ × W × Tasks). Appended tasks ts process r.2 r.0)
        (task_new ops elf_entry process w tasks)
unfolding task_new
task_new-Appended {W} ops elf_entry process w tasks ts list new =
    let P : ℕ × W × Tasks → Type 0 = λ r. Appended tasks ts process r.2 r.0 in
    let task = (ops.kernel.kzalloc w 64).0 in
    let (directory, w2) = ops.paging_new_4gb (ops.kernel.kzalloc w 64).1 0b101 in
    elim (Bool-cases (task == 0)) [
      | inl z ↦
          let null : task_new ops elf_entry process w tasks ≡ none = rw (z, task_new) refl in
          subst (Every P) (sym null) tt
      | inr nz ↦ elim (Option-cases (task_init directory elf_entry process)) [
        | inl e ↦
            let null : task_new ops elf_entry process w tasks ≡ none = rw (nz, task_new, e) refl in
            subst (Every P) (sym null) tt
        | inr (t, e) ↦
            let (next, prev, owner, dir) = task_init_fields directory process elf_entry t e in
            let (fresh, tail, current) = new in
            let made : task_new ops elf_entry process w tasks
                ≡ some (task, w2, task_append tasks task t) =
              rw (nz, task_new, e) refl in
            subst (Every P) (sym made) (
              task_append-IsTaskList tasks ts task t list fresh (==→ne task 0 nz) tail next,
              task_append_process tasks task t ∙ owner,
              task_list_remove-task_append tasks ts task t list fresh tail current next prev,
            )
      ]
    ]

module _ {W P : Type 0} (ops : LoadOps W) where
  load_mapped-Loads :
      (slot process task : ℕ) (s0 s : System W P) (ts : List ℕ) (r : Option (Response × Mem))
      → s.table ≡ s0.table
      → ((s.process_at process).pid ≡ slot)
      → ((s.process_at process).task ≡ task)
      → Appended s0.tasks ts process s.tasks task
      → Every (Loads s0 ts slot) (load_mapped ops slot process task s r)
  unfolding load_mapped release_task
  load_mapped-Loads slot process task s0 s ts none same pid at a = tt
  load_mapped-Loads slot process task s0 s ts (some (err e, words)) same pid at
        (list, owner, back) =
      (same, subst (Back s0.tasks ts) (sym (task_free_list s.tasks task)) back)
  load_mapped-Loads slot process task s0 s ts (some (ok r, words)) same pid at (list, owner, back) =
      (
        ap (λ (t : Processes). record t { processes = set_slot t.processes slot process }) same,
        pid,
        rw at list,
        rw at owner,
      )

  load_task-Loads :
      (slot process stack : ℕ) (program : Program) (s0 s : System W P) (ts : List ℕ)
      (r : Option (ℕ × W × Tasks))
      → s.table ≡ s0.table
      → Every (λ (r : ℕ × W × Tasks). Appended s0.tasks ts process r.2 r.0) r
      → Every (Loads s0 ts slot) (load_task ops slot process program stack s r)
  unfolding load_task
  load_task-Loads slot process stack program s0 s ts none same a = tt
  load_task-Loads slot process stack program s0 s ts (some (task, w, tasks)) same a =
      let p : LoadedProcess = record {
        program = some program;
        stack = stack;
        pid = slot;
        task = task;
      } in
      let at : set_slot s.process_at process p process ≡ p = rw (eq→== process process refl) refl in
      load_mapped-Loads slot process task s0
        (record s { world = w; tasks = tasks; process_at = set_slot s.process_at process p }) ts
        (process_map_memory (ops.mem_of w) (ops.words_of w)
          (ops.chunk_at w (tasks.store_of task).page_directory) program stack)
        same (ap (λ (x : LoadedProcess). x.pid) at) (ap (λ (x : LoadedProcess). x.task) at) a

  load_mapped-some :
      (slot process task : ℕ) (s : System W P) (r : Response × Mem)
      → (x : Response × ℕ × System W P) × (load_mapped ops slot process task s (some r) ≡ some x)
  unfolding load_mapped
  load_mapped-some slot process task s (err e, words) = (_, refl)
  load_mapped-some slot process task s (ok r, words) = (_, refl)

  load_task-some :
      (slot process stack task : ℕ) (program : Program) (s : System W P) (w : W) (tasks : Tasks)
      → HasHeaders (ops.mem_of w) program
      → (x : Response × ℕ × System W P) × (load_task ops slot process program stack s
            (some (task, w, tasks))
          ≡ some x)
  unfolding load_task
  load_task-some slot process stack task program s w tasks headers =
      let p : LoadedProcess = record {
        program = some program;
        stack = stack;
        pid = slot;
        task = task;
      } in
      let s' : System W P = record s {
        world = w;
        tasks = tasks;
        process_at = set_slot s.process_at process p;
      } in
      let (r, e) =
        process_map_memory-Returns (ops.mem_of w) (ops.words_of w)
          (ops.chunk_at w (tasks.store_of task).page_directory) program stack headers in
      let (x, e') = load_mapped-some slot process task s' r in
      (x, ap (load_mapped ops slot process task s') e ∙ e')

  -- Behind process_load_data of a program, which has headers if it is an ELF file in memory: where the task and its
  -- directory find room and the task's address is not in use, the load goes on to an end. On an error, also one of
  -- the maps behind the making of the task, the table of processes and the list of tasks are as before; on a
  -- success the process has its slot, and its task stands at the end of the list.
  pub load_data-Loads :
      (filename slot process : ℕ) (program : Program) (s : System W P) (ts : List ℕ)
      (files : Files W P) (w : W)
      → IsTaskList s.tasks ts
      → (ops.kernel.kzalloc (named ops filename process w) 64).0 ≢ 0
      → IsNew s.tasks ts (ops.kernel.kzalloc (named ops filename process w) 64).0
      → (ops.paging_new_4gb (tasked ops filename process w) 5).0 ≢ 0
      → HasHeaders (ops.mem_of (ops.paging_new_4gb (tasked ops filename process w) 5).1) program
      → (x : Response × ℕ × System W P) × (load_data ops filename slot process s
            (some (ok 0, some program, files, w))
          ≡ some x)
        × Loads s ts slot x
  unfolding load_data load_stack
  load_data-Loads filename slot process program s ts files w list some_task new some_directory
        headers =
      let (stack, w1) = ops.kernel.kzalloc w 16384 in
      let w2 = named ops filename process w in
      let entry = entry_of (ops.mem_of w2) program in
      let (task, w3) = ops.kernel.kzalloc w2 64 in
      let (directory, w4) = ops.paging_new_4gb w3 5 in
      let s1 : System W P = record s { world = w1; files = files } in
      let (t, made, dir) = task_new-some ops entry process w2 s.tasks some_task some_directory in
      let tasks = task_append s.tasks task t in
      let (x, e) = load_task-some slot process stack task program s1 w4 tasks headers in
      let appended = task_new-Appended ops entry process w2 s.tasks ts list new in
      let loads =
        load_task-Loads slot process stack program s s1 ts (some (task, w4, tasks)) refl
          (rw made at appended) in
      elim (Bool-cases (stack == 0)) [
        | inl z ↦ ((err enomem, 0, s1), rw z refl, (refl, (list, inr refl)))
        | inr nz ↦ (x, rw (nz, made) e, rw e at loads)
      ]
