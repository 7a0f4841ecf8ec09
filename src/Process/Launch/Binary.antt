-- ===== src/Process/Launch/Binary.antt =====
-- The load of a binary goes through to the end where there is room.
use boi_os.Prelude.{
  ℕ, ◌+◌, ◌-◌, ◌%◌, ◌^◌, ◌<◌, ◌≡◌, ◌≢◌, refl, ◌∙◌, Option, none, some, eq→==, ne→==,
}
use boi_os.Prelude.Mem.{Mem}
use boi_os.Prelude.Slots.{set_slot}
use boi_os.Status.{ok}
use boi_os.CString.{strncpy}
use boi_os.Paging.{paging_get_physical_address}
use boi_os.Paging.Directory.{IsDirectory}
use boi_os.File.{Files}
use boi_os.Task.{Task, Tasks, task_append}
use boi_os.Task.Fields.{task_init-some, task_append_directory}
use boi_os.Process.Image.{binary_program}
use boi_os.Process.Image.Translates.{process_map_memory-Translates}
use boi_os.Process.Launch.{
  LoadOps, LoadedProcess, System, task_new, load_mapped, load_task, load_stack, load_data,
}

-- The memory behind the allocation of the stack and the copy of the name, and behind that of the task.
abbrev pub named : {W : Type 0} → LoadOps W → ℕ → ℕ → W → W
named ops filename process w =
    let w1 = (ops.kernel.kzalloc w 16384).1 in
    ops.set_mem w1 (strncpy (ops.mem_of w1) (process + 2) filename 128)

abbrev pub tasked : {W : Type 0} → LoadOps W → ℕ → ℕ → W → W
tasked ops filename process w = (ops.kernel.kzalloc (named ops filename process w) 64).1

-- What the allocations of this load give, from `w` on: the heap a page below 4 GiB for the stack and memory for
-- the task, and paging_new_4gb a well-formed directory.
pub record HasRoom {W : Type 0} (ops : LoadOps W) (filename process : ℕ) (w : W) : Type 0 where
  pub stack : (ops.kernel.kzalloc w 16384).0 ≢ 0
  pub page : (ops.kernel.kzalloc w 16384).0 % 4096 ≡ 0
  pub below : (ops.kernel.kzalloc w 16384).0 + 16384 + 4096 < 2 ^ 32
  pub task : (ops.kernel.kzalloc (named ops filename process w) 64).0 ≢ 0
  pub directory : (ops.paging_new_4gb (tasked ops filename process w) 5).0 ≢ 0
  pub tables :
      let (directory, v') = ops.paging_new_4gb (tasked ops filename process w) 5 in
      IsDirectory (ops.words_of v') (ops.chunk_at v' directory).directory_entry

pub task_new-some :
    {W : Type 0} (ops : LoadOps W) (entry : Option ℕ) (process : ℕ) (w : W) (tasks : Tasks)
    → (ops.kernel.kzalloc w 64).0 ≢ 0
    → (ops.paging_new_4gb (ops.kernel.kzalloc w 64).1 5).0 ≢ 0
    → let (task, w1) = ops.kernel.kzalloc w 64 in
      let (directory, w2) = ops.paging_new_4gb w1 5 in
      (t : Task) × (task_new ops entry process w tasks ≡ some (task, w2, task_append tasks task t))
      × (t.page_directory ≡ directory)
unfolding task_new
task_new-some ops entry process w tasks some_task some_directory =
    let (task, w1) = ops.kernel.kzalloc w 64 in
    let (t, e, d) = task_init-some (ops.paging_new_4gb w1 5).0 process entry some_directory in
    (t, rw (ne→== task 0 some_task, task_new, e) refl, d)

-- The process runs in slot `slot`, with the program and the stack where its directory leads.
pub record Runs {W P : Type 0} (ops : LoadOps W) (slot process ptr size : ℕ) (s' : System W P)
    : Type 0 where
  pub world : W
  pub words : Mem
  pub memory : s'.world ≡ ops.set_words world words
  pub table : s'.table.processes slot ≡ process
  pub pid : (s'.process_at process).pid ≡ slot
  pub stack_page : (s'.process_at process).stack % 4096 ≡ 0
  pub code :
      (x : ℕ)
      → x < size
      → paging_get_physical_address words
          (ops.chunk_at world
            (s'.tasks.store_of (s'.process_at process).task).page_directory).directory_entry
          (0x400000 + x)
        ≡ ptr + x
  pub stack :
      (x : ℕ)
      → x < 16384
      → paging_get_physical_address words
          (ops.chunk_at world
            (s'.tasks.store_of (s'.process_at process).task).page_directory).directory_entry
          (0x3FF000 - 16384 + x)
        ≡ (s'.process_at process).stack + x

module _ {W P : Type 0} (ops : LoadOps W) where
  load_task-Runs :
      (slot process ptr size stack task : ℕ) (s : System W P) (w : W) (tasks : Tasks)
      → IsDirectory
          (ops.words_of w)
          (ops.chunk_at w (tasks.store_of task).page_directory).directory_entry
      → ptr % 4096 ≡ 0
      → ptr + size + 4096 < 2 ^ 32
      → 0x400000 + size + 4096 < 2 ^ 32
      → stack % 4096 ≡ 0
      → stack + 16384 + 4096 < 2 ^ 32
      → (s' : System W P) × (load_task ops slot process
            (binary_program ptr size)
            stack
            s
            (some (task, w, tasks))
          ≡ some (ok 0, process, s'))
        × Runs ops slot process ptr size s'
  unfolding load_task load_mapped
  load_task-Runs slot process ptr size stack task s w tasks d pa small fits sa top =
      let c = ops.chunk_at w (tasks.store_of task).page_directory in
      let (words', e, code, stack_map) =
        process_map_memory-Translates (ops.mem_of w) (ops.words_of w) c ptr size stack d pa small
          fits sa top in
      let p : LoadedProcess = record {
        program = some (binary_program ptr size);
        stack = stack;
        pid = slot;
        task = task;
      } in
      let at : set_slot s.process_at process p process ≡ p = rw (eq→== process process refl) refl in
      let s' : System W P = record s {
        world = ops.set_words w words';
        tasks = tasks;
        table = record s.table { processes = set_slot s.table.processes slot process };
        process_at = set_slot s.process_at process p;
      } in
      (
        s',
        rw e refl,
        record {
          world = w;
          words = words';
          memory = refl;
          table = rw (eq→== slot slot refl) refl;
          pid = rw at refl;
          stack_page = rw at sa;
          code = λ x lt. rw at (code x lt);
          stack = λ x lt. rw at (stack_map x lt);
        },
      )

  -- After process_load_data of a binary, where the allocations for the stack, the task and its directory find
  -- room, process_load_for_slot goes on to success: the process has its slot, and in its task's directory
  -- the addresses of the program lead to its bytes and those of the stack to the stack's. The binary starts a page
  -- and lies below 4 GiB with a page to spare, also where it is mapped.
  pub load_data-Runs :
      (filename slot process ptr size : ℕ) (s : System W P) (files : Files W P) (w : W)
      → HasRoom ops filename process w
      → ptr % 4096 ≡ 0
      → ptr + size + 4096 < 2 ^ 32
      → 0x400000 + size + 4096 < 2 ^ 32
      → (s' : System W P) × (load_data ops filename slot process s
            (some (ok 0, some (binary_program ptr size), files, w))
          ≡ some (ok 0, process, s'))
        × Runs ops slot process ptr size s'
  unfolding load_data load_stack
  load_data-Runs filename slot process ptr size s files w room pa small fits =
      let (stack, w1) = ops.kernel.kzalloc w 16384 in
      let w2 = ops.set_mem w1 (strncpy (ops.mem_of w1) (process + 2) filename 128) in
      let (task, w3) = ops.kernel.kzalloc w2 64 in
      let (t, made, dir) = task_new-some ops none process w2 s.tasks room.task room.directory in
      let (directory, w4) = ops.paging_new_4gb w3 5 in
      let at : ((task_append s.tasks task t).store_of task).page_directory ≡ directory =
        task_append_directory s.tasks task t ∙ dir in
      let (s', e, runs) =
        load_task-Runs slot process ptr size stack task (record s { world = w1; files = files }) w4
          (task_append s.tasks task t) (rw at room.tables) pa small fits room.page room.below in
      (s', rw (ne→== stack 0 room.stack, made) e, runs)
