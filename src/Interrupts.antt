-- ===== src/Interrupts.antt =====
-- src/idt/idt.c: the descriptor table of interrupts, the table of their callbacks and the one of system
-- calls. A callback or a command changes the tasks and a state `W` of the rest of the kernel. Port writes,
-- the load of the table and the switches of page directories are left out.
pub mod Descriptors
pub mod Commands
use boi_os.Prelude.{
  ℕ, zero, suc, ◌+◌, ◌/◌, ◌%◌, ◌^◌, Bool, true, false, Option, none, some, leb, ltb, ◌==◌,
  if◌then◌else◌, bit_and,
}
use boi_os.Prelude.Int.{ℤ, pos, negsuc}
use boi_os.Prelude.Slots.{set_slot}
use boi_os.Status.{Response, ok, err, einvarg}
use boi_os.Task.{InterruptFrame, Tasks, task_current_save_state, task_switch}

abbrev pub total_interrupts : ℕ
total_interrupts = 512

abbrev pub max_isr80h_commands : ℕ
max_isr80h_commands = 1024

-- `struct idt_desc`
pub record IdtDesc : Type 0 where
  pub offset_1 : ℕ
  pub selector : ℕ
  pub zero_byte : ℕ
  pub type_attr : ℕ
  pub offset_2 : ℕ

-- The table with the descriptor of an interrupt set; KERNEL_CODE_SELECTOR is 0x08.
pub idt_set : (ℕ → IdtDesc) → ℕ → ℕ → ℕ → IdtDesc
idt_set idt_descriptors interrupt_no address = set_slot idt_descriptors interrupt_no (record {
  offset_1 = bit_and address 0x0000FFFF;
  selector = 0x08;
  zero_byte = 0;
  type_attr = 0xEE;
  offset_2 = address / 2 ^ 16;
})

-- `k` rounds of the loop that fills the table are left, at the interrupt `i`.
set_loop : (ℕ → IdtDesc) → (ℕ → ℕ) → ℕ → ℕ → ℕ → IdtDesc
set_loop idt_descriptors interrupt_pointer_table i zero = idt_descriptors
set_loop idt_descriptors interrupt_pointer_table i (suc k) =
    set_loop (idt_set idt_descriptors i (interrupt_pointer_table i)) interrupt_pointer_table (i + 1)
      k

-- The table after the memset, the loop and the two calls behind it; `idt_zero` and `isr80h_wrapper` are
-- addresses.
pub idt_init : (ℕ → ℕ) → ℕ → ℕ → ℕ → IdtDesc
unfolding set_loop
idt_init interrupt_pointer_table idt_zero isr80h_wrapper =
    let cleared : ℕ → IdtDesc =
      λ i. record { offset_1 = 0; selector = 0; zero_byte = 0; type_attr = 0; offset_2 = 0 } in
    idt_set (idt_set (set_loop cleared interrupt_pointer_table 0 total_interrupts) 0 idt_zero) 0x80
      isr80h_wrapper

-- A callback of an interrupt, and a system call, which returns a number.
abbrev pub Callback : Type 0 → Type 0
Callback W = InterruptFrame → Tasks × W → Tasks × W

abbrev pub Command : Type 0 → Type 0
Command W = InterruptFrame → Tasks × W → ℕ × Tasks × W

-- The number as an index of a table of `size` slots.
abbrev pub index_in : ℕ → ℤ → Option ℕ
index_in size (pos n) = if leb size n then none else some n
index_in size (negsuc n) = none

callback_at :
    {W : Type 0}
    → (ℕ → Option (Callback W))
    → Option ℕ
    → Option (Callback W)
    → Response × (ℕ → Option (Callback W))
callback_at interrupt_callbacks none callback = (err einvarg, interrupt_callbacks)
callback_at interrupt_callbacks (some i) callback = (ok 0, set_slot interrupt_callbacks i callback)

pub idt_retgister_interrupt_callback :
    {W : Type 0} → (ℕ → Option (Callback W)) → ℤ → Callback W → Response × (ℕ → Option (Callback W))
unfolding callback_at
idt_retgister_interrupt_callback interrupt_callbacks interrupt interrupt_callback =
    callback_at interrupt_callbacks (index_in total_interrupts interrupt) (some interrupt_callback)

pub idt_unregister_interrupt_callback :
    {W : Type 0} → (ℕ → Option (Callback W)) → ℤ → Response × (ℕ → Option (Callback W))
unfolding callback_at
idt_unregister_interrupt_callback interrupt_callbacks interrupt =
    callback_at interrupt_callbacks (index_in total_interrupts interrupt) none

-- The current task is switched to again; with the directory's load left out nothing else happens.
task_page : {W : Type 0} → Tasks × W → Tasks × W
task_page (tasks, w) = (task_switch tasks tasks.current_task, w)

called : {W : Type 0} → Option Tasks → W → (Tasks × W → Tasks × W) → Option (Tasks × W)
unfolding task_page
called none w callback = none
called (some tasks) w callback = some (task_page (callback (tasks, w)))

-- `none` is the panic of task_current_save_state. The interrupt is an index of the table.
pub interrupt_handler :
    {W : Type 0} → (ℕ → Option (Callback W)) → ℕ → InterruptFrame → Tasks → W → Option (Tasks × W)
unfolding called task_page
interrupt_handler interrupt_callbacks interrupt frame tasks w =
    elim (interrupt_callbacks interrupt) [
      | none ↦ some (task_page (tasks, w))
      | some callback ↦ called (task_current_save_state tasks frame) w (callback frame)
    ]

command_at :
    {W : Type 0} → (ℕ → Option (Command W)) → Option ℕ → Command W → Option (ℕ → Option (Command W))
command_at isr80h_commands none command = none
command_at isr80h_commands (some i) command = elim (isr80h_commands i) [
  | none ↦ some (set_slot isr80h_commands i (some command))
  | some other ↦ none
]

-- The table, or `none` for a panic.
pub isr80h_register_command :
    {W : Type 0} → (ℕ → Option (Command W)) → ℤ → Command W → Option (ℕ → Option (Command W))
unfolding command_at
isr80h_register_command isr80h_commands command_id command =
    command_at isr80h_commands (index_in max_isr80h_commands command_id) command

handle_at :
    {W : Type 0} → (ℕ → Option (Command W)) → Option ℕ → InterruptFrame → Tasks × W → ℕ × Tasks × W
handle_at isr80h_commands none frame (tasks, w) = (0, tasks, w)
handle_at isr80h_commands (some i) frame (tasks, w) = elim (isr80h_commands i) [
  | none ↦ (0, tasks, w)
  | some command_func ↦ command_func frame (tasks, w)
]

pub isr80h_handle_command :
    {W : Type 0} → (ℕ → Option (Command W)) → ℤ → InterruptFrame → Tasks × W → ℕ × Tasks × W
unfolding handle_at
isr80h_handle_command isr80h_commands command frame state =
    handle_at isr80h_commands (index_in max_isr80h_commands command) frame state

paged : {W : Type 0} → ℕ × Tasks × W → ℕ × Tasks × W
unfolding task_page
paged (res, tasks, w) = let (tasks', w') = task_page (tasks, w) in (res, tasks', w')

-- `none` is the panic of task_current_save_state.
pub isr80h_handler :
    {W : Type 0}
    → (ℕ → Option (Command W))
    → ℤ
    → InterruptFrame
    → Tasks
    → W
    → Option (ℕ × Tasks × W)
unfolding paged
isr80h_handler isr80h_commands command frame tasks w = elim (task_current_save_state tasks frame) [
  | none ↦ none
  | some saved ↦ some (paged (isr80h_handle_command isr80h_commands command frame (saved, w)))
]
