-- ===== src/Heap/Search.antt =====
-- heap_get_start_block
use boi_os.Prelude.{
  ℕ, zero, suc, ◌+◌, ◌-◌, ◌≤◌, ◌<◌, ◌≡◌, refl, sym, ◌⊎◌, inl, inr, Bool, true, false, Option, none,
  some, ltb, ◌==◌, arith, tests, Bool-cases, ==→eq,
}
use boi_os.Prelude.Mem.{Mem}
use boi_os.Status.{ok, err, enomem}
use boi_os.Heap.{Heap, start_block_loop, heap_get_start_block, heap_get_entry_type, entry_free}

-- Entry `i` of a table at `entries` is free.
abbrev pub is_free : Mem → ℕ → ℕ → Bool
is_free m entries i = heap_get_entry_type (m (entries + i)) == entry_free

-- The `n` entries from `s` on are free.
abbrev pub FreeRun : (ℕ → Bool) → ℕ → ℕ → Type 0
FreeRun f s n = (i : ℕ) → s ≤ i → i < s + n → f i ≡ true

-- The entry in front of `s`, if there is one, is not free.
abbrev pub BusyBefore : (ℕ → Bool) → ℕ → Type 0
BusyBefore f s = (j : ℕ) → suc j ≡ s → f j ≡ false

-- Below `e` no run of `n` free entries fits.
abbrev pub NoRun : (ℕ → Bool) → ℕ → ℕ → Type 0
NoRun f n e = (s : ℕ) → s + n ≤ e → ¬ FreeRun f s n

-- What the loop knows in front of entry `i`.
abbrev Scanned : (ℕ → Bool) → ℕ → ℕ → ℕ → Option ℕ → Type 0
Scanned f n i cur none = (cur ≡ 0) × BusyBefore f i
Scanned f n i cur (some s) =
    (s + cur ≡ i) × (0 < cur) × (cur < n) × FreeRun f s cur × BusyBefore f s

-- The loop found the first run of `n`, or none fits below `e` and it is left with the free tail.
abbrev Tail : (ℕ → Bool) → ℕ → Option ℕ → Type 0
Tail f e none = BusyBefore f e
Tail f e (some s) = (s < e) × FreeRun f s (e - s)

-- The first run of `n` free entries below `e` is the one that `r` names.
abbrev First : (ℕ → Bool) → ℕ → ℕ → Option ℕ → Type 0
First f n e r =
    (s : ℕ) × (r ≡ some s) × (s + n ≤ e) × FreeRun f s n × ((t : ℕ) → FreeRun f t n → s ≤ t)

abbrev Outcome : (ℕ → Bool) → ℕ → ℕ → Option ℕ → Type 0
Outcome f n e r = First f n e r ⊎ (NoRun f n e × Tail f e r)

-- A run is not behind a busy entry unless it starts there.
start-le : (f : ℕ → Bool) (n s t : ℕ) → BusyBefore f s → s ≤ t + n → FreeRun f t n → s ≤ t
start-le f n zero t b it run = omega arith
start-le f n (suc s) t b it run = elim (Bool-cases (ltb t (suc s))) [
  | inl h ↦ absurd (ground (arith, b s refl, run s))
  | inr h ↦ omega tests
]

NoRun-suc :
    (f : ℕ → Bool) (n i s : ℕ)
    → BusyBefore f s
    → 0 < n
    → i + 1 < s + n
    → s ≤ i + 1
    → NoRun f n i
    → NoRun f n (i + 1)
NoRun-suc f n i s b pn small si earlier t fit run = elim (Bool-cases (t + n == i + 1)) [
  | inl h ↦
      let e : t + n ≡ i + 1 = ==→eq (t + n) (i + 1) h in
      let le : s ≤ t = start-le f n s t b (omega arith) run in omega arith
  | inr h ↦ earlier t (omega tests) run
]

FreeRun-suc :
    (f : ℕ → Bool) (s c i : ℕ) → s + c ≡ i → f i ≡ true → FreeRun f s c → FreeRun f s (c + 1)
FreeRun-suc f s c i e free run j sj js = elim (Bool-cases (j == i)) [
  | inl h ↦ rw (==→eq j i h) free
  | inr h ↦ run j sj (omega (tests))
]

BusyBefore-suc : (f : ℕ → Bool) (i : ℕ) → f i ≡ false → BusyBefore f (i + 1)
BusyBefore-suc f i busy j e = let e' : j ≡ i = omega arith in rw e' busy

-- The run that the loop is in has grown to `n`: it is the first.
found :
    (f : ℕ → Bool) (n i e s cur : ℕ)
    → s + cur ≡ i
    → i < e
    → f i ≡ true
    → FreeRun f s cur
    → BusyBefore f s
    → NoRun f n i
    → (cur + 1 == n) ≡ true
    → First f n e (some s)
found f n i e s cur sc ie free run b nr full =
    let size : cur + 1 ≡ n = ==→eq (cur + 1) n full in
    (s, refl, omega arith, rw (← size) (FreeRun-suc f s cur i sc free run), least)
  where
    least : (t : ℕ) → FreeRun f t n → s ≤ t
    least t run' = elim (Bool-cases (ltb i (t + n))) [
      | inl h ↦ start-le f n s t b (omega tests) run'
      | inr h ↦ absurd (nr t (omega tests) run')
    ]

module _ (m : Mem) (entries n : ℕ) (pn : 0 < n) where
  start_block_loop-Outcome :
      (k i cur e : ℕ) (st : Option ℕ)
      → i + k ≡ e
      → Scanned (is_free m entries) n i cur st
      → NoRun (is_free m entries) n i
      → Outcome (is_free m entries) n e (start_block_loop m entries n k i cur st)
  unfolding start_block_loop
  start_block_loop-Outcome zero i cur e none ie sc nr =
      let ie' : i ≡ e = omega arith in inr (rw (← ie') nr, rw (← ie') (sc.1))
  start_block_loop-Outcome zero i cur e (some s) ie (sc, pc, small, run, b) nr =
      let ie' : i ≡ e = omega arith in
      let left : e - s ≡ cur = omega arith in inr (rw (← ie') nr, (omega arith, rw left run))
  start_block_loop-Outcome (suc k) i cur e none ie (zc, b) nr =
      elim (Bool-cases (is_free m entries i)) [
        | inl h ↦
            rw (h, start_block_loop)
              (elim (Bool-cases (cur + 1 == n)) [
                | inl full ↦ rw full (
                    inl (
                      found _ n i e i cur (omega arith) (omega arith) h
                        (λ j ij ji. absurd (omega arith)) b nr full))
                | inr short ↦ rw short (
                    let grown : suc cur ≤ n = omega arith in
                    let lt : cur + 1 < n = omega tests in
                    let run' : FreeRun (is_free m entries) i (cur + 1) =
                      FreeRun-suc _ i cur i (omega arith) h (λ j ij ji. absurd (omega arith)) in
                    start_block_loop-Outcome k (i + 1) (cur + 1) e (some i) (omega arith)
                      (omega arith, omega arith, lt, run', b)
                      (NoRun-suc _ n i i b pn (omega arith) (omega arith) nr))
              ])
        | inr h ↦
            rw (h, start_block_loop)
              (start_block_loop-Outcome k (i + 1) 0 e none (omega arith)
                (refl, BusyBefore-suc _ i h)
                (NoRun-suc _ n i (i + 1) (BusyBefore-suc _ i h) pn (omega arith) (omega arith) nr))
      ]
  start_block_loop-Outcome (suc k) i cur e (some s) ie (sc, pc, small, run, b) nr =
      elim (Bool-cases (is_free m entries i)) [
        | inl h ↦
            rw (h, start_block_loop)
              (elim (Bool-cases (cur + 1 == n)) [
                | inl full ↦
                    rw full (inl (found _ n i e s cur (omega arith) (omega arith) h run b nr full))
                | inr short ↦ rw short (
                    let grown : suc cur ≤ n = omega arith in
                    let lt : cur + 1 < n = omega tests in
                    let run' : FreeRun (is_free m entries) s (cur + 1) =
                      FreeRun-suc _ s cur i (omega arith) h run in
                    start_block_loop-Outcome k (i + 1) (cur + 1) e (some s) (omega arith)
                      (omega arith, omega arith, lt, run', b)
                      (NoRun-suc _ n i s b pn (omega arith) (omega arith) nr))
              ])
        | inr h ↦
            rw (h, start_block_loop)
              (start_block_loop-Outcome k (i + 1) 0 e none (omega arith)
                (refl, BusyBefore-suc _ i h)
                (NoRun-suc _ n i (i + 1) (BusyBefore-suc _ i h) pn (omega arith) (omega arith) nr))
      ]

  -- The loop over the whole table.
  search-Outcome :
      (total : ℕ)
      → Outcome (is_free m entries) n total (start_block_loop m entries n total 0 0 none)
  search-Outcome total =
      start_block_loop-Outcome total 0 0 total none (omega arith)
        (refl, λ j e. absurd (omega arith)) (λ s fit run. absurd (omega arith))

-- The entries of the table of `heap` that are free in `m`.
abbrev pub free_in : Heap → Mem → ℕ → Bool
free_in heap m = is_free m heap.table.entries

-- Where a run of `n > 0` free entries lies in the table, heap_get_start_block returns the start of
-- such a run, and of the first one.
pub heap_get_start_block-first_fit :
    (heap : Heap) (m : Mem) (n t : ℕ)
    → 0 < n
    → t + n ≤ heap.table.total_entries
    → FreeRun (free_in heap m) t n
    → (s : ℕ) × (heap_get_start_block heap m n ≡ ok s)
      × (s ≤ t)
      × (s + n ≤ heap.table.total_entries)
      × FreeRun (free_in heap m) s n
unfolding heap_get_start_block
heap_get_start_block-first_fit heap m n t pn fit run =
    elim (search-Outcome m heap.table.entries n pn heap.table.total_entries) [
      | inl (s, e, fit', run', least) ↦ (s, rw (e, heap_get_start_block), least t run, fit', run')
      | inr (nr, tail) ↦ absurd (nr t fit run)
    ]

Tail-busy : (f : ℕ → Bool) (e : ℕ) (r : Option ℕ) → BusyBefore f e → Tail f e r → r ≡ none
Tail-busy f e none b tail = refl
Tail-busy f zero (some s) b tail = absurd (omega arith)
Tail-busy f (suc e) (some s) b (lt, run) =
    absurd (ground (arith, b e refl, run e (omega arith) (omega arith)))

Tail-free :
    (f : ℕ → Bool) (n e last : ℕ) (r : Option ℕ)
    → e ≡ suc last
    → f last ≡ true
    → NoRun f n e
    → Tail f e r
    → (s : ℕ) × (r ≡ some s) × (s < e) × (e < s + n)
Tail-free f n e last none size free nr tail = absurd (ground (arith, tail last (sym size)))
Tail-free f n e last (some s) size free nr (lt, run) = (s, refl, lt, over)
  where
    over : e < s + n
    over = elim (Bool-cases (ltb e (s + n))) [
      | inl h ↦ omega tests
      | inr h ↦ absurd (nr s (omega tests) (λ i si is. run i si (omega tests)))
    ]

-- Where no run of `n > 0` free entries lies in the table and its last entry is taken,
-- heap_get_start_block returns -ENOMEM.
pub heap_get_start_block-enomem :
    (heap : Heap) (m : Mem) (n : ℕ)
    → 0 < n
    → NoRun (free_in heap m) n heap.table.total_entries
    → BusyBefore (free_in heap m) heap.table.total_entries
    → heap_get_start_block heap m n ≡ err enomem
unfolding heap_get_start_block
heap_get_start_block-enomem heap m n pn nr b =
    elim (search-Outcome m heap.table.entries n pn heap.table.total_entries) [
      | inl (s, e, fit, run, least) ↦ absurd (nr s fit run)
      | inr (_, tail) ↦ rw (Tail-busy _ _ _ b tail, heap_get_start_block)
    ]

-- Where no run of `n > 0` free entries lies in the table but its last entry is free,
-- heap_get_start_block does not fail: it returns the start of the free tail, from where `n` blocks
-- reach past the end of the table.
pub heap_get_start_block-overrun :
    (heap : Heap) (m : Mem) (n last : ℕ)
    → 0 < n
    → heap.table.total_entries ≡ suc last
    → free_in heap m last ≡ true
    → NoRun (free_in heap m) n heap.table.total_entries
    → (s : ℕ) × (heap_get_start_block heap m n ≡ ok s)
      × (s < heap.table.total_entries)
      × (heap.table.total_entries < s + n)
unfolding heap_get_start_block
heap_get_start_block-overrun heap m n last pn size free nr =
    elim (search-Outcome m heap.table.entries n pn heap.table.total_entries) [
      | inl (s, e, fit, run, least) ↦ absurd (nr s fit run)
      | inr (_, tail) ↦
          let (s, e, lt, over) = Tail-free (free_in heap m) n _ last _ size free nr tail in
          (s, rw (e, heap_get_start_block), lt, over)
    ]
