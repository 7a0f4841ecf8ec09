-- ===== src/Process/Slots.antt =====
-- The table of processes.
use boi_os.Prelude.{
  ℕ, zero, suc, ◌+◌, ◌<◌, ◌≤◌, ◌≡◌, ◌≢◌, refl, ap, sym, ◌∙◌, ◌⊎◌, inl, inr, false, some, ◌==◌,
  arith, Bool-cases, ==→eq, ==→ne, eq→==, ne→==,
}
use boi_os.Prelude.Slots.{set_slot}
use boi_os.Process.{Processes, find_slot, process_switch, process_switch_to_any, process_unlink}

find_slot-taken :
    (k i l : ℕ) (processes : ℕ → ℕ)
    → i ≤ l
    → l < i + k
    → processes l ≢ 0
    → (j : ℕ) × (find_slot processes false i k ≡ some j) × (j < i + k) × (processes j ≢ 0)
unfolding find_slot
find_slot-taken zero i l processes lo hi ne = absurd (omega arith)
find_slot-taken (suc k) i l processes lo hi ne = elim (Bool-cases (processes i == 0)) [
  | inl t ↦
      let e = ==→eq (processes i) 0 t in
      let later : i + 1 ≤ l = elim (Bool-cases (i == l)) [
        | inl q ↦ absurd (ne (ap processes (sym (==→eq i l q)) ∙ e))
        | inr q ↦ let other = ==→ne i l q in omega (arith, other, lo)
      ] in
      let (j, found, small, taken) = find_slot-taken k (i + 1) l processes later (omega arith) ne in
      (j, rw (find_slot, t) found, omega arith, taken)
  | inr f ↦ (i, rw (find_slot, f), omega arith, ==→ne (processes i) 0 f)
]

-- What unlinking a process leaves: its slot is empty, the other ones are as before, and the current process is
-- the one that it was, or, where that was unlinked, another process of the table.
pub record Unlinked (s : Processes) (process pid : ℕ) (s' : Processes) : Type 0 where
  pub gone : s'.processes pid ≡ 0
  pub others : (i : ℕ) → i ≢ pid → s'.processes i ≡ s.processes i
  pub current :
      ((s.current_process ≢ process) × (s'.current_process ≡ s.current_process))
      ⊎ ((s.current_process ≡ process)
          × ((j : ℕ) × (j < 12) × (s'.processes j ≢ 0) × (s'.current_process ≡ s'.processes j)))

-- process_unlink of a process does not panic where the table has another one, and leaves what Unlinked says.
pub process_unlink-Unlinked :
    (s : Processes) (process pid l : ℕ)
    → l < 12
    → l ≢ pid
    → s.processes l ≢ 0
    → (s' : Processes) × (process_unlink s process pid ≡ some s') × Unlinked s process pid s'
unfolding process_unlink process_switch_to_any process_switch
process_unlink-Unlinked s process pid l lt other taken =
    let cleared = set_slot s.processes pid 0x00 in
    elim (Bool-cases (s.current_process == process)) [
      | inl t ↦
          let still : cleared l ≢ 0 = rw (ne→== l pid other) taken in
          let (j, found, small, nonzero) =
            find_slot-taken 12 0 l cleared (omega arith) (omega arith) still in
          (
            record s { processes = cleared; current_process = cleared j },
            rw (process_unlink, t, process_switch_to_any, found),
            record {
              gone = rw (eq→== pid pid refl);
              others = λ i ne. rw (ne→== i pid ne);
              current =
                  inr (==→eq s.current_process process t, (j, omega (arith, small), nonzero, refl));
            },
          )
      | inr f ↦ (
        record s { processes = cleared },
        rw (process_unlink, f),
        record {
          gone = rw (eq→== pid pid refl);
          others = λ i ne. rw (ne→== i pid ne);
          current = inl (==→ne s.current_process process f, refl);
        },
      )
    ]
