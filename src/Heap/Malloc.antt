-- ===== src/Heap/Malloc.antt =====
-- heap_malloc and heap_free together.
use boi_os.Prelude.{
  ℕ, ◌+◌, ◌-◌, ◌*◌, ◌/◌, ◌^◌, ◌≤◌, ◌<◌, ◌≡◌, refl, ◌⊎◌, inl, inr, true, false, ltb, if◌then◌else◌,
  arith, tests, Bool-cases, ap, ◌∙◌, sym,
}
use boi_os.Prelude.Mem.{Mem}
use boi_os.Status.{Response, ok, err}
use boi_os.Heap.{
  heap_get_start_block, Heap, entry_free, heap_get_entry_type, malloc_at, heap_malloc_blocks,
  heap_malloc, heap_mark_blocks_taken, heap_free, heap_block_to_address, heap_align_value_to_upper,
}
use boi_os.Heap.Search.{free_in, FreeRun, heap_get_start_block-first_fit}
use boi_os.Heap.Marks.{
  Fits, within, heap_mark_blocks_taken_lem, heap_mark_blocks_free_lem,
  heap_mark_blocks_taken-IsChain, heap_address_to_block-heap_block_to_address,
}

-- An allocation of `n` blocks at the first free run: its start, the address and the marks.
pub record Allocates (heap : Heap) (m : Mem) (n s : ℕ) : Type 0 where
  pub result :
      heap_malloc_blocks heap m n
      ≡ (heap_block_to_address heap s, heap_mark_blocks_taken heap m s n)
  pub in_table : s + n ≤ heap.table.total_entries
  pub was_free : FreeRun (free_in heap m) s n

-- Where a run of `n > 0` free blocks lies in the table, heap_malloc_blocks returns the address of
-- the first such run and marks its blocks.
pub heap_malloc_blocks-Allocates :
    (heap : Heap) (m : Mem) (n t : ℕ)
    → 0 < n
    → t + n ≤ heap.table.total_entries
    → FreeRun (free_in heap m) t n
    → (s : ℕ) × (s ≤ t) × Allocates heap m n s
unfolding heap_malloc_blocks
heap_malloc_blocks-Allocates heap m n t pn fit run =
    let (s, e, le, fit', run') = heap_get_start_block-first_fit heap m n t pn fit run in
    (
      s,
      le,
      record { result = rw (e, heap_malloc_blocks, malloc_at); in_table = fit'; was_free = run' },
    )

-- The free entries of the table hold zero.
abbrev pub FreeIsZero : Heap → Mem → Type 0
FreeIsZero heap m =
    (i : ℕ)
    → i < heap.table.total_entries
    → free_in heap m i ≡ true
    → m (heap.table.entries + i) ≡ entry_free

module _ (heap : Heap) (m : Mem) (n s : ℕ) where
  abbrev here : ℕ
  here = heap.table.entries + s

  free-mark :
      Fits heap
      → 0 < n
      → s + n ≤ heap.table.total_entries
      → (a : ℕ)
      → heap_free heap (heap_mark_blocks_taken heap m s n) (heap_block_to_address heap s) a
        ≡ (if within here n a then entry_free else m a)
  unfolding heap_free
  free-mark fits pn fit a =
      rw (heap_address_to_block-heap_block_to_address heap s fits (omega arith)) (
        heap_mark_blocks_free_lem heap (heap_mark_blocks_taken heap m s n) s n a pn fit
          (heap_mark_blocks_taken-IsChain heap m s n)
        ∙ ground (arith, heap_mark_blocks_taken_lem heap m s n a))

zero-unmarked :
    (heap : Heap) (m : Mem) (n s a : ℕ)
    → FreeIsZero heap m
    → s + n ≤ heap.table.total_entries
    → FreeRun (free_in heap m) s n
    → (if within (heap.table.entries + s) n a then entry_free else m a) ≡ m a
zero-unmarked heap m n s a fz fit run = elim (Bool-cases (within (heap.table.entries + s) n a)) [
  | inl h ↦ rw h (inside h)
  | inr h ↦ rw h
]
  where
    inside : within (heap.table.entries + s) n a ≡ true → entry_free ≡ m a
    inside h =
        let i = a - heap.table.entries in
        let lo : s ≤ i = ground arith in
        let hi : i < s + n = ground arith in
        let at : heap.table.entries + i ≡ a = ground arith in
        sym (fz i (omega arith) (run i lo hi)) ∙ ap m at

-- The entries of a chain are not free.
marked-busy :
    (heap : Heap) (m : Mem) (n s i : ℕ)
    → s ≤ i
    → i < s + n
    → free_in heap (heap_mark_blocks_taken heap m s n) i ≡ false
unfolding heap_get_entry_type
marked-busy heap m n s i lo hi =
    let first = heap.table.entries + s in
    let inside : within first n (heap.table.entries + i) ≡ true = ground arith in
    rw (heap_mark_blocks_taken_lem heap m s n (heap.table.entries + i), inside) (ground arith)

disjoint_runs :
    (heap : Heap) (m : Mem) (n s k u : ℕ)
    → 0 < n
    → 0 < k
    → FreeRun (free_in heap (heap_mark_blocks_taken heap m s n)) u k
    → (s + n ≤ u) ⊎ (u + k ≤ s)
disjoint_runs heap m n s k u pn pk run = elim (Bool-cases (ltb u s)) [
  | inl h ↦ elim (Bool-cases (ltb s (u + k))) [
    | inl h' ↦ absurd (ground (arith, marked-busy heap m n s s (omega tests) (omega tests), run s))
    | inr h' ↦ inr (omega tests)
  ]
  | inr h ↦ elim (Bool-cases (ltb u (s + n))) [
    | inl h' ↦ absurd (ground (arith, marked-busy heap m n s u (omega tests) (omega tests), run u))
    | inr h' ↦ inl (omega tests)
  ]
]

-- Where a run of `n > 0` free blocks lies in the table, whose free entries hold zero, heap_free of what
-- heap_malloc_blocks returns gives back the memory as it was, at every address.
pub heap_free-heap_malloc_blocks :
    (heap : Heap) (m : Mem) (n t a : ℕ)
    → Fits heap
    → FreeIsZero heap m
    → 0 < n
    → t + n ≤ heap.table.total_entries
    → FreeRun (free_in heap m) t n
    → let (p, m') = heap_malloc_blocks heap m n in heap_free heap m' p a ≡ m a
heap_free-heap_malloc_blocks heap m n t a fits fz pn fit run =
    let (s, _, al) = heap_malloc_blocks-Allocates heap m n t pn fit run in
    rw al.result (
      free-mark heap m n s fits pn al.in_table a
      ∙ zero-unmarked heap m n s a fz al.in_table al.was_free)

address_order :
    (heap : Heap) (n k s v : ℕ)
    → Fits heap
    → 0 < n
    → 0 < k
    → s + n ≤ heap.table.total_entries
    → v + k ≤ heap.table.total_entries
    → (s + n ≤ v) ⊎ (v + k ≤ s)
    → (heap_block_to_address heap s + n * 4096 ≤ heap_block_to_address heap v)
      ⊎ (heap_block_to_address heap v + k * 4096 ≤ heap_block_to_address heap s)
unfolding heap_block_to_address
address_order heap n k s v fits pn pk a b (inl h) = inl (omega arith)
address_order heap n k s v fits pn pk a b (inr h) = inr (omega arith)

-- Two allocations in a row, where both find room, return address ranges of `n` and `k` blocks that
-- do not overlap.
pub heap_malloc_blocks-disjoint :
    (heap : Heap) (m : Mem) (n k t u : ℕ)
    → Fits heap
    → 0 < n
    → 0 < k
    → t + n ≤ heap.table.total_entries
    → FreeRun (free_in heap m) t n
    → u + k ≤ heap.table.total_entries
    → let (p, m') = heap_malloc_blocks heap m n in
      let (q, _) = heap_malloc_blocks heap m' k in
      FreeRun (free_in heap m') u k → (p + n * 4096 ≤ q) ⊎ (q + k * 4096 ≤ p)
heap_malloc_blocks-disjoint heap m n k t u fits pn pk fit run fit' run' =
    let (s, _, al) = heap_malloc_blocks-Allocates heap m n t pn fit run in
    let m' = heap_mark_blocks_taken heap m s n in
    let (v, _, bl) = heap_malloc_blocks-Allocates heap m' k u pk fit' (rw al.result at run') in
    rw (al.result, bl.result)
      (address_order heap n k s v fits pn pk al.in_table bl.in_table
        (disjoint_runs heap m n s k v pn pk bl.was_free))

heap_align_value_to_upper_lem :
    (size : ℕ)
    → size ≤ 2 ^ 32 - 4096
    → let n = heap_align_value_to_upper size / 4096 in (size ≤ n * 4096) × (n * 4096 < size + 4096)
unfolding heap_align_value_to_upper
heap_align_value_to_upper_lem size h = ground arith

-- A request of `size > 0` bytes, up to the last whole block below 4 GB, is served by the least number
-- of blocks that holds it.
pub heap_malloc-heap_malloc_blocks :
    (heap : Heap) (m : Mem) (size : ℕ)
    → 0 < size
    → size ≤ 2 ^ 32 - 4096
    → (n : ℕ) × (heap_malloc heap m size ≡ heap_malloc_blocks heap m n)
      × (0 < n)
      × (size ≤ n * 4096)
      × (n * 4096 < size + 4096)
unfolding heap_malloc
heap_malloc-heap_malloc_blocks heap m size ps small =
    let l = heap_align_value_to_upper_lem size small in
    (heap_align_value_to_upper size / 4096, refl, omega arith, l.0, l.1)

heap_malloc_blocks-zero : (heap : Heap) (m : Mem) (a : ℕ) → (heap_malloc_blocks heap m 0).1 a ≡ m a
unfolding heap_malloc_blocks malloc_at
heap_malloc_blocks-zero heap m a = go (heap_get_start_block heap m 0)
  where
    go : (r : Response) → (malloc_at heap m 0 r).1 a ≡ m a
    go (err e) = refl
    go (ok s) = heap_mark_blocks_taken_lem heap m s 0 a ∙ ground arith

aligned-zero :
    (size : ℕ)
    → (size ≡ 0) ⊎ (2 ^ 32 - 4096 < size)
    → size < 2 ^ 32
    → heap_align_value_to_upper size / 4096 ≡ 0
unfolding heap_align_value_to_upper
aligned-zero size h lt = ground arith

-- A request of no bytes, or of more than the last whole block below 4 GB, marks no block as taken,
-- whatever address it returns.
pub heap_malloc-marks_nothing :
    (heap : Heap) (m : Mem) (size a : ℕ)
    → (size ≡ 0) ⊎ (2 ^ 32 - 4096 < size)
    → size < 2 ^ 32
    → (heap_malloc heap m size).1 a ≡ m a
unfolding heap_malloc
heap_malloc-marks_nothing heap m size a h lt =
    let none_left : heap_align_value_to_upper size / 4096 ≡ 0 = aligned-zero size h lt in
    rw none_left (heap_malloc_blocks-zero heap m a)
