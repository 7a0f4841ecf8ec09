-- ===== src/SystemCalls/Dispatch.antt =====
-- Which function a system call's number leads to.
use boi_os.Prelude.{
  ℕ, suc, ◌+◌, ◌-◌, ◌<◌, ◌≤◌, ◌≡◌, refl, ◌∙◌, inl, inr, Option, none, some, List, [], ◌∷◌, length,
  get_elem?, ltb, ◌==◌, if◌then◌else◌, arith, Bool-cases, ltb→lt, ltb→le, lt→ltb, le→ltb, ne→==,
  ==→eq, ==→ne,
}
use boi_os.Prelude.Do.{◌>>=◌}
use boi_os.Prelude.Int.{pos}
use boi_os.Prelude.Slots.{set_slot}
use boi_os.Task.{InterruptFrame, Tasks}
use boi_os.Interrupts.{Command, isr80h_register_command, isr80h_handle_command}
use boi_os.Interrupts.Commands.{isr80h_register_command-some, isr80h_handle_command_lookup}
use boi_os.SystemCalls.{Commands, isr80h_register_commands}

-- Commands registered one behind the other from the number `n` on.
abbrev registered :
    {W : Type 0}
    → List (Command W)
    → Command W
    → ℕ
    → (ℕ → Option (Command W))
    → Option (ℕ → Option (Command W))
registered [] c n table = isr80h_register_command table (pos n) c
registered (d ∷ cs) c n table =
    isr80h_register_command table (pos n) c >>= λ t. registered cs d (n + 1) t

-- The functions in the order of their numbers.
abbrev pub in_order : {W : Type 0} → Commands W → List (Command W)
in_order c =
    c.sum ∷ c.print ∷ c.get_key ∷ c.putchar ∷ c.malloc ∷ c.free ∷ c.process_load_start
    ∷ c.invoke_system_command ∷ c.get_program_arguments ∷ c.exit ∷ c.open_file ∷ c.sleep
    ∷ c.clr_terminal ∷ []

module _ {W : Type 0} where
  slot_of : (ℕ → Option (Command W)) → ℕ → List (Command W) → ℕ → Option (Command W)
  slot_of table n cs i = if ltb i n then table i else get_elem? cs (i - n)

  slot_of-cons :
      (table : ℕ → Option (Command W)) (n : ℕ) (c : Command W) (cs : List (Command W)) (i : ℕ)
      → slot_of (set_slot table n (some c)) (n + 1) cs i ≡ slot_of table n (c ∷ cs) i
  unfolding slot_of
  slot_of-cons table n c cs i = elim (Bool-cases (ltb i n)) [
    | inl t ↦
        let h = ltb→lt i n t in
        rw (t, lt→ltb i (n + 1) (omega arith), ne→== i n (λ e. absurd (omega arith))) refl
    | inr f ↦ elim (Bool-cases (i == n)) [
      | inl q ↦
          let e = ==→eq i n q in
          let z : i - n ≡ 0 = omega arith in rw (f, lt→ltb i (n + 1) (omega arith), q, z) refl
      | inr q ↦
          let ne = ==→ne i n q in
          let h = ltb→le i n f in
          let later : n + 1 ≤ i = omega arith in
          let e : i - n ≡ suc (i - (n + 1)) = omega arith in rw (f, le→ltb i (n + 1) later, e) refl
    ]
  ]

  slot_of-last :
      (table : ℕ → Option (Command W)) (n : ℕ) (c : Command W)
      → ((i : ℕ) → n ≤ i → table i ≡ none)
      → (i : ℕ) → set_slot table n (some c) i ≡ slot_of table n (c ∷ []) i
  unfolding slot_of
  slot_of-last table n c free i = elim (Bool-cases (ltb i n)) [
    | inl t ↦ let h = ltb→lt i n t in rw (t, ne→== i n (λ e. absurd (omega arith))) refl
    | inr f ↦ elim (Bool-cases (i == n)) [
      | inl q ↦ let e = ==→eq i n q in let z : i - n ≡ 0 = omega arith in rw (f, q, z) refl
      | inr q ↦
          let ne = ==→ne i n q in
          let h = ltb→le i n f in
          let e : i - n ≡ suc (i - (n + 1)) = omega arith in rw (f, q, e) (free i h)
    ]
  ]

  slot_of-zero :
      (table : ℕ → Option (Command W)) (cs : List (Command W)) (i : ℕ)
      → slot_of table 0 cs i ≡ get_elem? cs i
  unfolding slot_of
  slot_of-zero table cs i = let z : i - 0 ≡ i = omega arith in rw (le→ltb i 0 (omega arith), z) refl

  registered-slot_of :
      (cs : List (Command W)) (c : Command W) (n : ℕ) (table : ℕ → Option (Command W))
      → n + length cs < 1024
      → ((i : ℕ) → n ≤ i → table i ≡ none)
      → (table' : ℕ → Option (Command W)) × (registered cs c n table ≡ some table')
        × ((i : ℕ) → table' i ≡ slot_of table n (c ∷ cs) i)
  registered-slot_of [] c n table lt free = (
    set_slot table n (some c),
    isr80h_register_command-some table n c (omega arith) (free n (omega arith)),
    λ i. slot_of-last table n c free i,
  )
  registered-slot_of (d ∷ cs) c n table lt free =
      let t1 = set_slot table n (some c) in
      let (table', e, at) =
        registered-slot_of cs d (n + 1) t1 (omega arith)
          (λ i le. rw (ne→== i n (λ q. absurd (omega arith))) (free i (omega arith))) in
      (
        table',
        rw (isr80h_register_command-some table n c (omega arith) (free n (omega arith))) e,
        λ i. at i ∙ slot_of-cons table n c (d ∷ cs) i,
      )

-- From an empty table the registration of the system calls succeeds, and then a number below 1024 runs the
-- function that stands at it in the order sum, print, get_key, putchar, malloc, free, process_load_start,
-- invoke_system_command, get_program_arguments, exit, open_file, sleep, clr_terminal; a number behind them
-- gives 0 and changes nothing.
pub isr80h_register_commands-in_order :
    {W : Type 0} (c : Commands W)
    → (table : ℕ → Option (Command W)) × (isr80h_register_commands c (λ i. none) ≡ some table)
      × ((id : ℕ) (frame : InterruptFrame) (tasks : Tasks) (w : W)
          → id < 1024
          → isr80h_handle_command table (pos id) frame (tasks, w)
            ≡ (elim (get_elem? (in_order c) id) [
              | none ↦ (0, tasks, w)
              | some command ↦ command frame (tasks, w)
            ]))
unfolding isr80h_register_commands
isr80h_register_commands-in_order c =
    let (table, e, at) =
      registered-slot_of
        (c.print ∷ c.get_key ∷ c.putchar ∷ c.malloc ∷ c.free ∷ c.process_load_start
          ∷ c.invoke_system_command ∷ c.get_program_arguments ∷ c.exit ∷ c.open_file ∷ c.sleep
          ∷ c.clr_terminal ∷ [])
        c.sum 0 (λ i. none) (omega arith) (λ i le. refl) in
    (
      table,
      e,
      λ id frame tasks w lt.
          rw
            (
              isr80h_handle_command_lookup table id frame tasks w lt,
              at id ∙ slot_of-zero (λ i. none) (in_order c) id,
            )
            refl,
    )
