-- ===== src/Task.antt =====
-- src/task/task.c: the list of tasks, with the registers that a task has while it does not run. A task is
-- known by its address, and 0 is the null pointer; the tasks are a store from addresses to tasks.
pub mod Append
pub mod Remove
pub mod Rollback
pub mod Fields
pub mod Strings
mod Tests
use boi_os.Prelude.{ℕ, ◌+◌, ◌==◌, if◌then◌else◌, Option, none, some}

-- `struct registers`
pub record Registers : Type 0 where
  pub edi : ℕ
  pub esi : ℕ
  pub ebp : ℕ
  pub ebx : ℕ
  pub edx : ℕ
  pub ecx : ℕ
  pub eax : ℕ
  pub ip : ℕ
  pub cs : ℕ
  pub flags : ℕ
  pub esp : ℕ
  pub ss : ℕ

-- `struct interrupt_frame`
pub record InterruptFrame : Type 0 where
  pub edi : ℕ
  pub esi : ℕ
  pub ebp : ℕ
  pub reserved : ℕ
  pub ebx : ℕ
  pub edx : ℕ
  pub ecx : ℕ
  pub eax : ℕ
  pub ip : ℕ
  pub cs : ℕ
  pub flags : ℕ
  pub esp : ℕ
  pub ss : ℕ

-- `struct task`, by the addresses of its directory, its neighbours and its process.
pub record Task : Type 0 where
  pub page_directory : ℕ
  pub registers : Registers
  pub next : ℕ
  pub prev : ℕ
  pub process : ℕ

-- The tasks and the three globals.
pub record Tasks : Type 0 where
  pub store_of : ℕ → Task
  pub current_task : ℕ
  pub task_tail : ℕ
  pub task_head : ℕ

abbrev pub write_task : (ℕ → Task) → ℕ → Task → ℕ → Task
write_task tasks a t b = if b == a then t else tasks b

abbrev pub with_next : Task → ℕ → Task
with_next t next = record {
  page_directory = t.page_directory;
  registers = t.registers;
  next = next;
  prev = t.prev;
  process = t.process;
}

abbrev pub with_prev : Task → ℕ → Task
with_prev t prev = record {
  page_directory = t.page_directory;
  registers = t.registers;
  next = t.next;
  prev = prev;
  process = t.process;
}

abbrev pub with_registers : Task → Registers → Task
with_registers t registers = record {
  page_directory = t.page_directory;
  registers = registers;
  next = t.next;
  prev = t.prev;
  process = t.process;
}

abbrev pub program_virtual_address : ℕ
program_virtual_address = 0x400000

abbrev pub program_virtual_stack_address_start : ℕ
program_virtual_stack_address_start = 0x3FF000

abbrev pub user_data_segment : ℕ
user_data_segment = 0x23

abbrev pub user_code_segment : ℕ
user_code_segment = 0x1B

-- The registers after the memset, with `ip` the entry point.
abbrev pub first_registers : ℕ → Registers
first_registers ip = record {
  edi = 0;
  esi = 0;
  ebp = 0;
  ebx = 0;
  edx = 0;
  ecx = 0;
  eax = 0;
  ip = ip;
  cs = user_code_segment;
  flags = 0;
  esp = program_virtual_stack_address_start;
  ss = user_data_segment;
}

-- `page_directory` is what paging_new_4gb returned, and `elf_entry` the entry point of an ELF file;
-- `none` is -EIO.
pub task_init : ℕ → Option ℕ → ℕ → Option Task
task_init page_directory elf_entry process =
    if page_directory == 0
    then none
    else some (record {
      page_directory = page_directory;
      registers = first_registers (elim elf_entry [ none ↦ program_virtual_address | some e ↦ e ]);
      next = 0;
      prev = 0;
      process = process;
    })

-- The task behind the tail: `task_tail->next = task; task->prev = task_tail;`
abbrev pub link_tail : (ℕ → Task) → ℕ → ℕ → Task → ℕ → Task
link_tail tasks tail task t =
    let linked =
      write_task (write_task tasks task t) tail (with_next (write_task tasks task t tail) task) in
    write_task linked task (with_prev (linked task) tail)

-- The list with a task that task_init has set up at `task`.
pub task_append : Tasks → ℕ → Task → Tasks
task_append s task t =
    if s.task_head == 0
    then record {
      store_of = write_task s.store_of task t;
      current_task = task;
      task_tail = task;
      task_head = task;
    }
    else record {
      store_of = link_tail s.store_of s.task_tail task t;
      current_task = s.current_task;
      task_tail = task;
      task_head = s.task_head;
    }

-- The task that comes next; the list is walked round.
pub task_get_next : Tasks → ℕ
task_get_next s =
    if (s.store_of s.current_task).next == 0 then s.task_head else (s.store_of s.current_task).next

unlink_prev : Tasks → ℕ → Tasks
unlink_prev s task =
    let t = s.store_of task in
    if t.prev == 0 then s else record {
      store_of = write_task s.store_of t.prev (with_next (s.store_of t.prev) t.next);
      current_task = s.current_task;
      task_tail = s.task_tail;
      task_head = s.task_head;
    }

move_head : Tasks → ℕ → Tasks
move_head s task = record {
  store_of = s.store_of;
  current_task = s.current_task;
  task_tail = s.task_tail;
  task_head = if task == s.task_head then (s.store_of task).next else s.task_head;
}

move_tail : Tasks → ℕ → Tasks
move_tail s task = record {
  store_of = s.store_of;
  current_task = s.current_task;
  task_tail = if task == s.task_tail then (s.store_of task).prev else s.task_tail;
  task_head = s.task_head;
}

move_current : Tasks → ℕ → Tasks
unfolding task_get_next
move_current s task = record {
  store_of = s.store_of;
  current_task = if task == s.current_task then task_get_next s else s.current_task;
  task_tail = s.task_tail;
  task_head = s.task_head;
}

-- The four statements in their order; `next->prev` is not written.
pub task_list_remove : Tasks → ℕ → Tasks
unfolding unlink_prev move_head move_tail move_current
task_list_remove s task = move_current (move_tail (move_head (unlink_prev s task) task) task) task

-- The list afterwards, the directory that goes to paging_free_4gb and the address that goes to kfree.
pub task_free : Tasks → ℕ → Tasks × ℕ × ℕ
task_free s task = (task_list_remove s task, (s.store_of task).page_directory, task)

-- The load of the task's page directory is left out.
unfoldable pub task_switch : Tasks → ℕ → Tasks
task_switch s task = record {
  store_of = s.store_of;
  current_task = task;
  task_tail = s.task_tail;
  task_head = s.task_head;
}

-- The task that runs next, or `none` for the panic where there is none; the entry to user mode is left
-- out.
pub task_next : Tasks → Option Tasks
unfolding task_get_next task_switch
task_next s =
    let next_task = task_get_next s in
    if next_task == 0 then none else some (task_switch s next_task)

pub task_save_state : Tasks → ℕ → InterruptFrame → Tasks
task_save_state s task frame = record {
  store_of = write_task s.store_of task (
      with_registers (s.store_of task) (record {
        edi = frame.edi;
        esi = frame.esi;
        ebp = frame.ebp;
        ebx = frame.ebx;
        edx = frame.edx;
        ecx = frame.ecx;
        eax = frame.eax;
        ip = frame.ip;
        cs = frame.cs;
        flags = frame.flags;
        esp = frame.esp;
        ss = frame.ss;
      }));
  current_task = s.current_task;
  task_tail = s.task_tail;
  task_head = s.task_head;
}

-- `none` is the panic without a current task.
pub task_current_save_state : Tasks → InterruptFrame → Option Tasks
unfolding task_save_state
task_current_save_state s frame =
    if s.current_task == 0 then none else some (task_save_state s s.current_task frame)
