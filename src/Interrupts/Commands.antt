-- ===== src/Interrupts/Commands.antt =====
-- The tables of system calls and of callbacks.
use boi_os.Prelude.{
  ℕ, ◌<◌, ◌≡◌, ◌≢◌, refl, ap, inl, inr, false, leb, Option, none, some, arith, eq→==, ne→==,
  Bool-cases,
}
use boi_os.Prelude.Int.{ℤ, pos, negsuc}
use boi_os.Prelude.Slots.{set_slot}
use boi_os.Status.{ok}
use boi_os.Task.{InterruptFrame, Tasks, task_switch}
use boi_os.Interrupts.{
  Callback, Command, index_in, callback_at, idt_retgister_interrupt_callback,
  idt_unregister_interrupt_callback, interrupt_handler, task_page, command_at,
  isr80h_register_command, handle_at, isr80h_handle_command,
}

-- What a registration does to the system calls.
pub record Registered {W : Type 0} (isr80h_commands : ℕ → Option (Command W)) (id : ℕ)
    (command : Command W) (commands' : ℕ → Option (Command W)) : Type 0 where
  pub runs :
      (frame : InterruptFrame) (state : Tasks × W)
      → isr80h_handle_command commands' (pos id) frame state ≡ command frame state
  pub others :
      (other : ℤ) (frame : InterruptFrame) (state : Tasks × W)
      → other ≢ pos id
      → isr80h_handle_command commands' other frame state
        ≡ isr80h_handle_command isr80h_commands other frame state
  pub once : (again : Command W) → isr80h_register_command commands' (pos id) again ≡ none

index_inside : (id : ℕ) → id < 1024 → index_in 1024 (pos id) ≡ some id
index_inside id lt = ground arith

handle_other :
    {W : Type 0} (commands : ℕ → Option (Command W)) (id : ℕ) (x : Option (Command W)) (other : ℤ)
    (frame : InterruptFrame) (state : Tasks × W)
    → other ≢ pos id
    → isr80h_handle_command (set_slot commands id x) other frame state
      ≡ isr80h_handle_command commands other frame state
unfolding isr80h_handle_command handle_at
handle_other commands id x (negsuc n) frame (tasks, w) ne = refl
handle_other commands id x (pos n) frame (tasks, w) ne = elim (Bool-cases (leb 1024 n)) [
  | inl t ↦ rw t
  | inr f ↦ rw (f, handle_at, ne→== n id (λ e. ne (ap pos e)))
]

-- A system call that is registered in a free slot below 1024 is the one that runs for its number, the other
-- numbers run what they ran before, and a second registration of the number panics.
pub isr80h_register_command-Registered :
    {W : Type 0} (commands : ℕ → Option (Command W)) (id : ℕ) (command : Command W)
    → id < 1024
    → commands id ≡ none
    → (commands' : ℕ → Option (Command W)) × (isr80h_register_command commands (pos id) command
        ≡ some commands')
      × Registered commands id command commands'
unfolding isr80h_register_command command_at isr80h_handle_command handle_at
isr80h_register_command-Registered commands id command lt free = (
  set_slot commands id (some command),
  rw (index_inside id lt, free, command_at),
  record {
    runs = λ frame (tasks, w). rw (index_inside id lt, eq→== id id refl, handle_at);
    others = λ other frame state ne. handle_other commands id (some command) other frame state ne;
    once = λ again. rw (index_inside id lt, eq→== id id refl, command_at);
  },
)

-- After a callback of an interrupt was registered and unregistered again, the handler of the interrupt
-- changes nothing, and the other interrupts have the callbacks that they had.
pub idt_unregister_interrupt_callback-idt_retgister_interrupt_callback :
    {W : Type 0} (callbacks : ℕ → Option (Callback W)) (n : ℕ) (callback : Callback W)
    (frame : InterruptFrame) (tasks : Tasks) (w : W)
    → n < 512
    → let (r, callbacks1) = idt_retgister_interrupt_callback callbacks (pos n) callback in
      let (r', callbacks2) = idt_unregister_interrupt_callback callbacks1 (pos n) in
      (r ≡ ok 0)
      × (r' ≡ ok 0)
      × (interrupt_handler callbacks2 n frame tasks w ≡ some (tasks, w))
      × ((other : ℕ) → other ≢ n → callbacks2 other ≡ callbacks other)
unfolding idt_retgister_interrupt_callback idt_unregister_interrupt_callback callback_at
    interrupt_handler task_page task_switch
idt_unregister_interrupt_callback-idt_retgister_interrupt_callback callbacks n callback frame tasks
      w lt =
    let inside : leb 512 n ≡ false = ground arith in
    rw (inside, interrupt_handler, eq→== n n refl)
      (refl, refl, refl, λ other ne. rw (ne→== other n ne))

-- The table behind a registration in a free slot.
pub isr80h_register_command-some :
    {W : Type 0} (commands : ℕ → Option (Command W)) (id : ℕ) (command : Command W)
    → id < 1024
    → commands id ≡ none
    → isr80h_register_command commands (pos id) command ≡ some (set_slot commands id (some command))
unfolding isr80h_register_command command_at
isr80h_register_command-some commands id command lt free =
    rw (index_inside id lt, free, command_at) refl

-- The call of a number below 1024 is looked up in the table.
pub isr80h_handle_command_lookup :
    {W : Type 0} (commands : ℕ → Option (Command W)) (id : ℕ) (frame : InterruptFrame)
    (tasks : Tasks) (w : W)
    → id < 1024
    → isr80h_handle_command commands (pos id) frame (tasks, w)
      ≡ (elim (commands id) [ none ↦ (0, tasks, w) | some command ↦ command frame (tasks, w) ])
unfolding isr80h_handle_command handle_at
isr80h_handle_command_lookup commands id frame tasks w lt = rw (index_inside id lt, handle_at) refl
