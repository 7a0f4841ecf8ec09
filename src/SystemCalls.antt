-- ===== src/SystemCalls.antt =====
-- src/isr80h: the table of system calls, the sum, and the path of the program that a command names. The bodies of
-- the other calls are a parameter.
pub mod Dispatch
pub mod Path
mod Tests
use boi_os.Prelude.{ℕ, ◌+◌, ◌*◌, ◌%◌, ◌^◌, Option, none, some, if◌then◌else◌}
use boi_os.Prelude.Do.{◌>>=◌}
use boi_os.Prelude.Int.{pos}
use boi_os.Prelude.Mem.{Mem, read32}
use boi_os.CString.{strcpy, strncpy}
use boi_os.Paging.{Chunk, paging_get_physical_address}
use boi_os.Task.{Registers}
use boi_os.Interrupts.{Command, isr80h_register_command}

-- The functions of the calls, by their names.
pub record Commands (W : Type 0) : Type 0 where
  pub sum : Command W
  pub print : Command W
  pub get_key : Command W
  pub putchar : Command W
  pub malloc : Command W
  pub free : Command W
  pub process_load_start : Command W
  pub invoke_system_command : Command W
  pub get_program_arguments : Command W
  pub exit : Command W
  pub open_file : Command W
  pub sleep : Command W
  pub clr_terminal : Command W

-- The table, or `none` for a panic.
pub isr80h_register_commands :
    {W : Type 0} → Commands W → (ℕ → Option (Command W)) → Option (ℕ → Option (Command W))
isr80h_register_commands c table =
    (isr80h_register_command table (pos 0) c.sum >>= λ t.
    isr80h_register_command t (pos 1) c.print >>= λ t.
    isr80h_register_command t (pos 2) c.get_key >>= λ t.
    isr80h_register_command t (pos 3) c.putchar >>= λ t.
    isr80h_register_command t (pos 4) c.malloc >>= λ t.
    isr80h_register_command t (pos 5) c.free >>= λ t.
    isr80h_register_command t (pos 6) c.process_load_start >>= λ t.
    isr80h_register_command t (pos 7) c.invoke_system_command >>= λ t.
    isr80h_register_command t (pos 8) c.get_program_arguments >>= λ t.
    isr80h_register_command t (pos 9) c.exit >>= λ t.
    isr80h_register_command t (pos 10) c.open_file >>= λ t.
    isr80h_register_command t (pos 11) c.sleep >>= λ t.
    isr80h_register_command t (pos 12) c.clr_terminal)

-- The word at the index of a task's stack, read in the task's directory. The switches of directories are left out.
pub task_get_stack_item : Mem → Mem → Chunk → Registers → ℕ → ℕ
task_get_stack_item m words page_directory registers index = read32 m (
    paging_get_physical_address words page_directory.directory_entry
      ((registers.esp + 4 * index) % 2 ^ 32))

pub isr80h_command0_sum : Mem → Mem → Chunk → Registers → ℕ
unfolding task_get_stack_item
isr80h_command0_sum m words page_directory registers =
    let v2 = task_get_stack_item m words page_directory registers 1 in
    let v1 = task_get_stack_item m words page_directory registers 0 in (v1 + v2) % 2 ^ 32

-- `sizeof(path)`
abbrev pub path_size : ℕ
path_size = 128

-- The path of the program that isr80h_command7_invoke_system_command starts, from the text "0:/" at `drive`.
pub program_path : Mem → ℕ → ℕ → ℕ → ℕ → Option Mem
program_path m path drive program_name fuel =
    strcpy m path drive fuel >>= λ m'. some (strncpy m' (path + 3) program_name path_size)
