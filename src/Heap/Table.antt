-- ===== src/Heap/Table.antt =====
-- The invariant of the block table, and that heap_create, heap_malloc_blocks and heap_free keep it.
use boi_os.Prelude.{
  ℕ, zero, suc, ◌+◌, ◌-◌, ◌/◌, ◌%◌, ◌^◌, ◌≤◌, ◌<◌, ◌≡◌, refl, inl, inr, true, false, ◌&&◌, leb, ltb,
  if◌then◌else◌, arith, Bool-cases, ◌∙◌,
}
use native.Mathlib.Nat.{add-zero}
use boi_os.Status.{ok}
use boi_os.Prelude.Int.{pos}
use boi_os.Prelude.Mem.{Mem}
use boi_os.Heap.{
  Heap, HeapTable, entry_free, heap_get_entry_type, heap_malloc_blocks, heap_mark_blocks_taken,
  heap_free, heap_block_to_address, heap_create, heap_mark_blocks_free,
}
use boi_os.Memory.{memset}
use boi_os.Memory.Laws.{memset_lem}
use boi_os.Heap.Search.{free_in, FreeRun}
use boi_os.Heap.Malloc.{heap_malloc_blocks-Allocates, FreeIsZero}
use boi_os.Heap.Marks.{
  Fits, within, chain_entry, has_next, is_first, IsChain, heap_mark_blocks_taken_lem,
  heap_mark_blocks_free_lem, heap_address_to_block-heap_block_to_address,
}

-- Entry `i` of the table.
abbrev pub entry : Heap → Mem → ℕ → ℕ
entry heap m i = m (heap.table.entries + i)

-- What an entry that points on requires of the next one: it is in the table, taken, and continues
-- the chain.
abbrev pub Continues : Heap → Mem → ℕ → Type 0
Continues heap m j =
    (j < heap.table.total_entries)
    × (free_in heap m j ≡ false)
    × (is_first (entry heap m j) ≡ false)

pub record IsTable (heap : Heap) (m : Mem) : Type 0 where
  pub free_zero : FreeIsZero heap m
  pub next_taken :
      (i : ℕ)
      → i < heap.table.total_entries
      → has_next (entry heap m i) ≡ true
      → Continues heap m (suc i)

-- Two memories with the same table are alike for the invariant: entry by entry.
module _ (heap : Heap) (m : Mem) (n s : ℕ) (fit : s + n ≤ heap.table.total_entries) where
  abbrev marked : Mem
  marked = heap_mark_blocks_taken heap m s n

  entry-marked :
      (i : ℕ)
      → entry heap marked i
        ≡ (if leb s i && ltb i (s + n) then chain_entry (i - s) n else entry heap m i)
  entry-marked i =
      let off : heap.table.entries + i - (heap.table.entries + s) ≡ i - s = omega arith in
      heap_mark_blocks_taken_lem heap m s n (heap.table.entries + i) ∙ rw off (ground arith)

  marked-free_zero : FreeIsZero heap m → FreeIsZero heap marked
  unfolding heap_get_entry_type
  marked-free_zero fz i lt free = ground (arith, entry-marked i, fz i)

  marked-next_taken :
      IsTable heap m
      → FreeRun (free_in heap m) s n
      → (i : ℕ) → i < heap.table.total_entries
      → has_next (entry heap marked i) ≡ true
      → Continues heap marked (suc i)
  unfolding heap_get_entry_type
  marked-next_taken v run i lt next =
      ground (arith, entry-marked i, entry-marked (suc i), v.next_taken i lt, run (suc i))

-- Where a run of `n > 0` free blocks lies in the table, heap_malloc_blocks keeps the invariant.
pub heap_malloc_blocks-IsTable :
    (heap : Heap) (m : Mem) (n t : ℕ)
    → IsTable heap m
    → 0 < n
    → t + n ≤ heap.table.total_entries
    → FreeRun (free_in heap m) t n
    → IsTable heap (heap_malloc_blocks heap m n).1
heap_malloc_blocks-IsTable heap m n t v pn fit run =
    let (s, _, al) = heap_malloc_blocks-Allocates heap m n t pn fit run in
    rw al.result (record {
      free_zero = marked-free_zero heap m n s al.in_table v.free_zero;
      next_taken = marked-next_taken heap m n s al.in_table v al.was_free;
    })

IsChain-one : (m : Mem) (a : ℕ) → has_next (m a) ≡ false → IsChain m a 1
IsChain-one m a h zero lt = rw add-zero h
IsChain-one m a h (suc i) lt = absurd (omega arith)

IsChain-cons :
    (m : Mem) (a n : ℕ) → has_next (m a) ≡ true → 0 < n → IsChain m (a + 1) n → IsChain m a (suc n)
IsChain-cons m a n h pn c zero lt = rw (add-zero, h) (ground arith)
IsChain-cons m a n h pn c (suc i) lt =
    let shift : a + 1 + i ≡ a + suc i = omega arith in
    (rw shift at (c i (omega arith))) ∙ ground arith

-- From every entry of a table a chain of entries goes on to one that does not point on.
IsChain-from :
    (heap : Heap) (m : Mem)
    → IsTable heap m
    → (k s : ℕ) → s + suc k ≡ heap.table.total_entries
    → (n : ℕ) × (0 < n) × (n ≤ suc k) × IsChain m (heap.table.entries + s) n
IsChain-from heap m v zero s size = elim (Bool-cases (has_next (entry heap m s))) [
  | inl h ↦ absurd (ground (arith, v.next_taken s (omega arith) h))
  | inr h ↦ (1, omega arith, omega arith, IsChain-one m (heap.table.entries + s) h)
]
IsChain-from heap m v (suc k) s size = elim (Bool-cases (has_next (entry heap m s))) [
  | inl h ↦
      let (n, pn, nk, c) = IsChain-from heap m v k (suc s) (omega arith) in
      (
        suc n,
        omega arith,
        omega arith,
        IsChain-cons m (heap.table.entries + s) n h pn (
            let e : heap.table.entries + suc s ≡ heap.table.entries + s + 1 = omega arith in
            rw e at c),
      )
  | inr h ↦ (1, omega arith, omega arith, IsChain-one m (heap.table.entries + s) h)
]

module _ (heap : Heap) (m m' : Mem) (n s : ℕ)
    (freed : (a : ℕ)
      → m' a ≡ (if within (heap.table.entries + s) n a then entry_free else m a)) where
  entry-freed :
      (i : ℕ) → entry heap m' i ≡ (if leb s i && ltb i (s + n) then entry_free else entry heap m i)
  entry-freed i = freed (heap.table.entries + i) ∙ ground arith

  -- Freeing from a first block on leaves no entry that points into the freed blocks.
  freed-IsTable : IsTable heap m → is_first (entry heap m s) ≡ true → IsTable heap m'
  unfolding heap_get_entry_type
  freed-IsTable v first = record {
    free_zero = λ i lt free. ground (arith, entry-freed i, v.free_zero i lt);
    next_taken = λ i lt next.
        ground (arith, entry-freed i, entry-freed (suc i), v.next_taken i lt, first_at i);
  }
    where
      first_at : (i : ℕ) → suc i ≡ s → is_first (entry heap m (suc i)) ≡ true
      first_at i e = rw e first

-- heap_free of the address of a block that is the first of its chain keeps the invariant.
pub heap_free-IsTable :
    (heap : Heap) (m : Mem) (s : ℕ)
    → Fits heap
    → IsTable heap m
    → s < heap.table.total_entries
    → is_first (entry heap m s) ≡ true
    → IsTable heap (heap_free heap m (heap_block_to_address heap s))
unfolding heap_free
heap_free-IsTable heap m s fits v lt first =
    let k = heap.table.total_entries - s - 1 in
    let (n, pn, nk, c) = IsChain-from heap m v k s (omega arith) in
    rw (heap_address_to_block-heap_block_to_address heap s fits lt) (
      freed-IsTable heap m (heap_mark_blocks_free heap m (pos s)) n s
        (λ a. heap_mark_blocks_free_lem heap m s n a pn (omega arith) c) v first)

abbrev cleared : HeapTable → Mem → Mem
cleared table m = memset m table.entries entry_free table.total_entries

entry-cleared :
    (table : HeapTable) (m : Mem) (i : ℕ)
    → i < table.total_entries
    → cleared table m (table.entries + i) ≡ 0
entry-cleared table m i lt =
    memset_lem table.total_entries m table.entries entry_free (table.entries + i) ∙ ground arith

cleared-IsTable :
    (heap : Heap) (m : Mem)
    → IsTable heap (cleared heap.table m)
      × FreeRun (free_in heap (cleared heap.table m)) 0 heap.table.total_entries
unfolding heap_get_entry_type
cleared-IsTable heap m = (
  record {
    free_zero = λ i lt free. entry-cleared heap.table m i lt;
    next_taken = λ i lt next. absurd (ground (arith, entry-cleared heap.table m i lt));
  },
  λ i _ lt. rw (entry-cleared heap.table m i (omega arith)),
)

heap_create-ok :
    (heap : Heap) (ptr end_of_heap : ℕ) (table : HeapTable) (m : Mem) {r : ℕ}
    → (heap_create heap ptr end_of_heap table m).0 ≡ ok r
    → (heap_create heap ptr end_of_heap table m
        ≡ (ok 0, record { table = table; start_address = ptr }, cleared table m))
      × (table.total_entries ≡ (end_of_heap + 2 ^ 32 - ptr) % 2 ^ 32 / 4096)
unfolding heap_create
heap_create-ok heap ptr end_of_heap table m e = ground arith

-- What heap_create accepts has an empty table: every entry is free, and the invariant holds.
pub heap_create-IsTable :
    (heap : Heap) (ptr end_of_heap : ℕ) (table : HeapTable) (m : Mem) {r : ℕ}
    → (heap_create heap ptr end_of_heap table m).0 ≡ ok r
    → let (_, heap', m') = heap_create heap ptr end_of_heap table m in
      IsTable heap' m'
      × FreeRun (free_in heap' m') 0 heap'.table.total_entries
      × (heap'.start_address ≡ ptr)
      × (table.total_entries ≡ (end_of_heap + 2 ^ 32 - ptr) % 2 ^ 32 / 4096)
heap_create-IsTable heap ptr end_of_heap table m e =
    let (made, size) = heap_create-ok heap ptr end_of_heap table m e in
    let (v, run) = cleared-IsTable (record { table = table; start_address = ptr }) m in
    rw made (v, run, refl, size)

-- heap_create accepts block-aligned ends that the table's size fits.
pub heap_create-accepts :
    (heap : Heap) (ptr end_of_heap : ℕ) (table : HeapTable) (m : Mem)
    → ptr % 4096 ≡ 0
    → end_of_heap % 4096 ≡ 0
    → table.total_entries ≡ (end_of_heap + 2 ^ 32 - ptr) % 2 ^ 32 / 4096
    → let (r, heap', _) = heap_create heap ptr end_of_heap table m in
      (r ≡ ok 0) × (heap' ≡ record { table = table; start_address = ptr })
unfolding heap_create
heap_create-accepts heap ptr end_of_heap table m a b size = ground arith
