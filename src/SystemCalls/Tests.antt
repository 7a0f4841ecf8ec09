-- ===== src/SystemCalls/Tests.antt =====
-- A table of system calls, and the path of "boi".
use boi_os.Prelude.{
  ℕ, ◌+◌, ◌-◌, ◌<◌, ◌≡◌, inr, Option, none, some, List, [], ◌∷◌, ◌++◌, take, get_elem?, arith, ltb,
  if◌then◌else◌,
}
use boi_os.Prelude.Int.{pos}
use boi_os.Prelude.Mem.{Mem}
use boi_os.CString.Laws.{IsString, Copied}
use boi_os.Task.{InterruptFrame, Tasks}
use boi_os.Interrupts.{Command, isr80h_handle_command}
use boi_os.SystemCalls.{Commands, isr80h_register_commands, program_path}
use boi_os.SystemCalls.Dispatch.{in_order, isr80h_register_commands-in_order}
use boi_os.SystemCalls.Path.{drive_root, program_path-Copied}

-- A call that adds its number to the state.
abbrev counts : ℕ → Command ℕ
counts n frame (tasks, w) = (n, tasks, w + n)

abbrev commands : Commands ℕ
commands = record {
  sum = counts 0;
  print = counts 1;
  get_key = counts 2;
  putchar = counts 3;
  malloc = counts 4;
  free = counts 5;
  process_load_start = counts 6;
  invoke_system_command = counts 7;
  get_program_arguments = counts 8;
  exit = counts 9;
  open_file = counts 10;
  sleep = counts 11;
  clr_terminal = counts 12;
}

isr80h_register_commands-in_order_example :
    (table : ℕ → Option (Command ℕ)) × (isr80h_register_commands commands (λ i. none) ≡ some table)
    × ((id : ℕ) (frame : InterruptFrame) (tasks : Tasks) (w : ℕ)
        → id < 1024
        → isr80h_handle_command table (pos id) frame (tasks, w)
          ≡ (elim (get_elem? (in_order commands) id) [
            | none ↦ (0, tasks, w)
            | some command ↦ command frame (tasks, w)
          ]))
isr80h_register_commands-in_order_example = isr80h_register_commands-in_order commands

abbrev boi : List ℕ
boi = b'b' ∷ b'o' ∷ b'i' ∷ []

abbrev byte_or_zero : Option ℕ → ℕ
byte_or_zero none = 0
byte_or_zero (some c) = c

-- "0:/" at 100 and "boi" at 200.
abbrev texts : Mem
texts a =
    if ltb a 200
    then byte_or_zero (get_elem? drive_root (a - 100))
    else byte_or_zero (get_elem? boi (a - 200))

drive-IsString : IsString texts 100 drive_root
drive-IsString = omega arith

boi-IsString : IsString texts 200 boi
boi-IsString = omega arith

program_path-Copied_example :
    (m' : Mem) × (program_path texts 300 100 200 4 ≡ some m')
    × Copied texts 300 (drive_root ++ take 127 boi) m'
program_path-Copied_example =
    program_path-Copied boi texts 300 100 200 4 drive-IsString boi-IsString (inr (omega arith))
      (inr (omega arith)) (omega arith)
