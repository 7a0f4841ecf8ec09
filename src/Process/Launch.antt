-- ===== src/Process/Launch.antt =====
-- process_load: a process and its task from a file. The processes are a store from addresses, as the tasks
-- are; `none` is a panic, a use of a pointer that is null or not set, or fuel that ran out. A process that fails to load is leaked.
pub mod Loads
pub mod Binary
mod Tests
use boi_os.Prelude.{ℕ, zero, suc, ◌+◌, true, false, Option, none, some, ◌==◌, if◌then◌else◌}
use boi_os.Prelude.Int.{pos}
use boi_os.Prelude.Mem.{Mem}
use boi_os.Prelude.Slots.{set_slot}
use boi_os.Status.{Response, ok, err, enomem}
use boi_os.Memory.{memset}
use boi_os.CString.{strncpy}
use boi_os.Paging.{Chunk}
use boi_os.File.{Files, Filesystem, FileStat}
use boi_os.Elf.{header_at}
use boi_os.Task.{Task, Tasks, task_init, task_append, task_free}
use boi_os.Process.{KernelOps, Processes, process_get, process_get_free_slot, process_switch}
use boi_os.Process.Image.{
  Program, elf_program, binary_program, process_map_memory, user_program_stack_size,
}
use boi_os.Process.Load.{process_load_data}

-- `sizeof(struct process)`, `sizeof(struct task)`, and where and how long `filename` is.
abbrev pub size_of_process : ℕ
size_of_process = 9384

abbrev pub size_of_task : ℕ
size_of_task = 64

abbrev pub filename_offset : ℕ
filename_offset = 2

abbrev pub max_path : ℕ
max_path = 128

-- What the load calls besides the heap: the bytes and the page tables in the kernel's memory, and
-- paging_new_4gb and paging_free_4gb by the address of the chunk, 0 for null.
pub record LoadOps (W : Type 0) : Type 0 where
  pub kernel : KernelOps W
  pub mem_of : W → Mem
  pub set_mem : W → Mem → W
  pub words_of : W → Mem
  pub set_words : W → Mem → W
  pub paging_new_4gb : W → ℕ → ℕ × W
  pub chunk_at : W → ℕ → Chunk
  pub paging_free_4gb : W → ℕ → W

-- `struct process`, as far as the load sets it.
pub record LoadedProcess : Type 0 where
  pub program : Option Program
  pub stack : ℕ
  pub pid : ℕ
  pub task : ℕ

pub record System (W P : Type 0) : Type 0 where
  pub world : W
  pub files : Files W P
  pub tasks : Tasks
  pub table : Processes
  pub process_at : ℕ → LoadedProcess

-- The address of the task, the memory and the list. On an error task_new calls task_free with a task that is
-- null or has no directory.
pub task_new : {W : Type 0} → LoadOps W → Option ℕ → ℕ → W → Tasks → Option (ℕ × W × Tasks)
task_new ops elf_entry process w tasks =
    let (task, w1) = ops.kernel.kzalloc w size_of_task in
    let (directory, w2) = ops.paging_new_4gb w1 0b101 in
    elim (task == 0) [
      | true ↦ none
      | false ↦ elim (task_init directory elf_entry process) [
        | none ↦ none
        | some t ↦ some (task, w2, task_append tasks task t)
      ]
    ]

-- task_free with its calls of paging_free_4gb and kfree.
pub release_task : {W P : Type 0} → LoadOps W → ℕ → System W P → System W P
release_task ops task s =
    let (tasks, directory, address) = task_free s.tasks task in
    record s {
      tasks = tasks;
      world = ops.kernel.kfree (ops.paging_free_4gb s.world directory) address;
    }

-- Behind process_map_memory: the response, the process and the system.
pub load_mapped :
    {W P : Type 0}
    → LoadOps W
    → ℕ
    → ℕ
    → ℕ
    → System W P
    → Option (Response × Mem)
    → Option (Response × ℕ × System W P)
unfolding release_task
load_mapped ops slot process task s none = none
load_mapped ops slot process task s (some (err e, words)) =
    some (err e, 0, release_task ops task (record s { world = ops.set_words s.world words }))
load_mapped ops slot process task s (some (ok r, words)) = some (
  ok r,
  process,
  record s {
    world = ops.set_words s.world words;
    table = record s.table { processes = set_slot s.table.processes slot process };
  },
)

-- Behind task_new.
pub load_task :
    {W P : Type 0}
    → LoadOps W
    → ℕ
    → ℕ
    → Program
    → ℕ
    → System W P
    → Option (ℕ × W × Tasks)
    → Option (Response × ℕ × System W P)
unfolding load_mapped
load_task ops slot process program stack s none = none
load_task ops slot process program stack s (some (task, w, tasks)) =
    let p : LoadedProcess = record {
      program = some program;
      stack = stack;
      pid = slot;
      task = task;
    } in
    load_mapped ops slot process task
      (record s { world = w; tasks = tasks; process_at = set_slot s.process_at process p })
      (process_map_memory (ops.mem_of w) (ops.words_of w)
        (ops.chunk_at w (tasks.store_of task).page_directory) program stack)

-- The entry point that task_init reads from an ELF file.
pub entry_of : Mem → Program → Option ℕ
entry_of m (elf_program elf_file) = some (header_at m elf_file.elf_memory).e_entry
entry_of m (binary_program ptr size) = none

-- Behind the kzalloc of the stack. A process without a program has a null ELF file, whose header is read.
pub load_stack :
    {W P : Type 0}
    → LoadOps W
    → ℕ
    → ℕ
    → ℕ
    → Option Program
    → System W P
    → ℕ × W
    → Option (Response × ℕ × System W P)
unfolding load_task task_new entry_of
load_stack ops filename slot process none s (stack, w) =
    if stack == 0 then some (err enomem, 0, record s { world = w }) else none
load_stack ops filename slot process (some program) s (stack, w) =
    let w' = ops.set_mem w (strncpy (ops.mem_of w) (process + filename_offset) filename max_path) in
    if stack == 0
    then some (err enomem, 0, record s { world = w })
    else load_task ops slot process program stack s
        (task_new ops (entry_of (ops.mem_of w') program) process w' s.tasks)

-- Behind process_load_data.
pub load_data :
    {W P : Type 0}
    → LoadOps W
    → ℕ
    → ℕ
    → ℕ
    → System W P
    → Option (Response × Option Program × Files W P × W)
    → Option (Response × ℕ × System W P)
unfolding load_stack
load_data ops filename slot process s none = none
load_data ops filename slot process s (some (err e, program, files, w)) =
    some (err e, 0, record s { world = w; files = files })
load_data ops filename slot process s (some (ok r, program, files, w)) =
    load_stack ops filename slot process program (record s { world = w; files = files })
      (ops.kernel.kzalloc w user_program_stack_size)

-- The slot is not in use. Where it is, the clean-up reads `_process` before it is set.
pub process_load_for_slot :
    {W P : Type 0}
    → LoadOps W
    → FileStat
    → Option (Filesystem W P)
    → ℕ
    → ℕ
    → ℕ
    → ℕ
    → System W P
    → Option (Response × ℕ × System W P)
unfolding load_data
process_load_for_slot ops stat disk_filesystem mode_r fuel filename slot s =
    let (process, w) = ops.kernel.kzalloc s.world size_of_process in
    let w' = ops.set_mem w (memset (ops.mem_of w) process 0x00 size_of_process) in
    elim (process_get s.table (pos slot) == 0) [
      | false ↦ none
      | true ↦ elim (process == 0) [
        | true ↦ some (err enomem, 0, record s { world = w })
        | false ↦ load_data ops filename slot process s (
            process_load_data ops.kernel.kzalloc ops.kernel.kfree ops.mem_of stat s.files
              disk_filesystem w' filename mode_r fuel)
      ]
    ]

pub process_load :
    {W P : Type 0}
    → LoadOps W
    → FileStat
    → Option (Filesystem W P)
    → ℕ
    → ℕ
    → ℕ
    → System W P
    → Option (Response × ℕ × System W P)
unfolding process_load_for_slot
process_load ops stat disk_filesystem mode_r fuel filename s =
    elim (process_get_free_slot s.table) [
      | none ↦ some (err enomem, 0, s)
      | some slot ↦ process_load_for_slot ops stat disk_filesystem mode_r fuel filename slot s
    ]

-- Only the response 0 switches to the process.
switch_to : {W P : Type 0} → Response × ℕ × System W P → Response × ℕ × System W P
switch_to (err e, process, s) = (err e, process, s)
switch_to (ok zero, process, s) =
    (ok zero, process, record s { table = process_switch s.table process })
switch_to (ok (suc n), process, s) = (ok (suc n), process, s)

pub process_load_switch :
    {W P : Type 0}
    → LoadOps W
    → FileStat
    → Option (Filesystem W P)
    → ℕ
    → ℕ
    → ℕ
    → System W P
    → Option (Response × ℕ × System W P)
unfolding process_load switch_to
process_load_switch ops stat disk_filesystem mode_r fuel filename s =
    elim (process_load ops stat disk_filesystem mode_r fuel filename s) [
      | none ↦ none
      | some loaded ↦ some (switch_to loaded)
    ]
