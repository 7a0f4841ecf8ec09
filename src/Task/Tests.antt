-- ===== src/Task/Tests.antt =====
-- task.c on the tasks at 100 and 200.
use boi_os.Prelude.{ℕ, refl, [], ◌∷◌, arith, ◌==◌, if◌then◌else◌}
use boi_os.Task.{Task, Tasks, first_registers, task_append, task_list_remove}
use boi_os.Task.Rollback.{Back, task_list_remove-task_append}
use boi_os.Task.Append.{IsTaskList, task_append-IsTaskList}

abbrev task_with : ℕ → ℕ → Task
task_with next prev = record {
  page_directory = 1;
  registers = first_registers 0x400000;
  next = next;
  prev = prev;
  process = 7;
}

abbrev one : Tasks
one = record { store_of = λ a. task_with 0 0; current_task = 100; task_tail = 100; task_head = 100 }

one-IsTaskList : IsTaskList one (100 ∷ [])
one-IsTaskList = (refl, omega arith, refl, refl)

task_append-IsTaskList_example : IsTaskList (task_append one 200 (task_with 0 0)) (100 ∷ 200 ∷ [])
task_append-IsTaskList_example =
    task_append-IsTaskList one (100 ∷ []) 200 (task_with 0 0) one-IsTaskList (omega arith, tt)
      (omega arith) (omega arith) refl

abbrev two : Tasks
two = record {
  store_of = λ a. if a == 100 then task_with 200 0 else task_with 0 100;
  current_task = 100;
  task_tail = 200;
  task_head = 100;
}

two-IsTaskList : IsTaskList two (100 ∷ 200 ∷ [])
two-IsTaskList = (refl, omega arith, omega arith, (refl, omega arith, refl, refl))

task_list_remove-task_append_example :
    Back two (100 ∷ 200 ∷ []) (task_list_remove (task_append two 300 (task_with 0 0)) 300)
task_list_remove-task_append_example =
    task_list_remove-task_append two (100 ∷ 200 ∷ []) 300 (task_with 0 0) two-IsTaskList
      (omega arith, (omega arith, tt)) (omega arith) (omega arith) refl refl
