-- ===== src/Heap/Marks.antt =====
-- heap_mark_blocks_taken and heap_mark_blocks_free: what each writes to the table.
use boi_os.Prelude.{
  ℕ, zero, suc, ◌+◌, ◌-◌, ◌*◌, ◌%◌, ◌^◌, ◌≤◌, ◌<◌, ◌≡◌, refl, Bool, true, false, not, ◌&&◌, leb,
  ltb, ◌==◌, if◌then◌else◌, bit_and, bit_or, arith, ap, ◌∙◌,
}
use native.Mathlib.Nat.{add-zero}
use boi_os.Prelude.Int.{pos, negsuc}
use boi_os.Prelude.Mem.{Mem, store}
use boi_os.Heap.{
  Heap, entry_taken, entry_free, block_has_next, block_is_first, taken_loop, heap_mark_blocks_taken,
  free_loop, heap_mark_blocks_free, heap_free, heap_block_to_address, heap_address_to_block,
}

abbrev pub has_next : ℕ → Bool
has_next entry = not (bit_and entry block_has_next == 0)

abbrev pub is_first : ℕ → Bool
is_first entry = not (bit_and entry block_is_first == 0)

-- Address `a` lies among the `n` from `lo` on.
abbrev pub within : ℕ → ℕ → ℕ → Bool
within lo n a = leb lo a && ltb a (lo + n)

-- The entry of a block in an allocation of `n` blocks: the first, a middle one, the last.
abbrev pub chain_entry : ℕ → ℕ → ℕ
chain_entry i n =
    if i == 0 then (if ltb 1 n then 0xC1 else 0x41) else if i + 1 == n then 0x01 else 0x81

taken_loop_lem :
    (k : ℕ) (m : Mem) (entries end_block i entry a : ℕ)
    → i + k ≡ end_block + 1
    → taken_loop m entries end_block i entry k a ≡ (
        if within (entries + i) k a
        then if a == entries + i then entry else if a == entries + end_block then 0x01 else 0x81
        else m a)
unfolding taken_loop
taken_loop_lem zero m entries end_block i entry a e = ground arith
taken_loop_lem (suc k) m entries end_block i entry a e = ground (
  arith,
  taken_loop_lem k (store m (entries + i) entry) entries end_block (i + 1)
      (if i + 1 == end_block then entry_taken else bit_or entry_taken block_has_next) a,
)

-- heap_mark_blocks_taken writes the chain of `n` entries from `start_block` on, the first marked, all
-- but the last pointing on, and nothing else.
pub heap_mark_blocks_taken_lem :
    (heap : Heap) (m : Mem) (start_block n a : ℕ)
    → let first = heap.table.entries + start_block in
      heap_mark_blocks_taken heap m start_block n a
      ≡ (if within first n a then chain_entry (a - first) n else m a)
unfolding heap_mark_blocks_taken
heap_mark_blocks_taken_lem heap m start_block zero a = ground arith
heap_mark_blocks_taken_lem heap m start_block (suc n) a = ground (
  arith,
  taken_loop_lem (suc n) m heap.table.entries (start_block + suc n - 1) start_block
      (if ltb 1 (suc n)
        then bit_or (bit_or entry_taken block_is_first) block_has_next
        else bit_or entry_taken block_is_first)
      a,
)

-- From address `a` on stands a chain of `n` entries.
abbrev pub IsChain : Mem → ℕ → ℕ → Type 0
IsChain m a n = (i : ℕ) → i < n → has_next (m (a + i)) ≡ ltb (i + 1) n

ltb-suc : (i n : ℕ) → ltb (suc i + 1) (suc n) ≡ ltb (i + 1) n
ltb-suc i n = ground arith

IsChain-tail : (m : Mem) (a n : ℕ) → IsChain m a (suc n) → IsChain (store m a entry_free) (a + 1) n
IsChain-tail m a n c i h =
    let shift : a + 1 + i ≡ a + suc i = omega arith in
    let other : (a + suc i == a) ≡ false = ground arith in
    rw (shift, other) (c (suc i) (omega arith) ∙ ltb-suc i n)

-- The loop frees the chain that it starts at, if the table reaches that far.
free_loop_lem :
    (k n : ℕ) (m : Mem) (a b : ℕ)
    → 0 < n
    → n ≤ k
    → IsChain m a n
    → free_loop m a k b ≡ (if within a n b then entry_free else m b)
unfolding free_loop
free_loop_lem zero n m a b pn nk c = absurd (omega arith)
free_loop_lem (suc k) zero m a b pn nk c = absurd (omega arith)
free_loop_lem (suc k) (suc zero) m a b pn nk c =
    ground (arith, c 0 (omega arith), ap m (add-zero a))
free_loop_lem (suc k) (suc (suc n)) m a b pn nk c = ground (
  arith,
  c 0 (omega arith),
  ap m (add-zero a),
  free_loop_lem k (suc n) (store m a entry_free) (a + 1) b (omega arith) (omega arith)
      (IsChain-tail m a (suc n) c),
)

-- heap_mark_blocks_free frees the chain of `n` entries at `start_block`, and writes nothing else.
pub heap_mark_blocks_free_lem :
    (heap : Heap) (m : Mem) (start_block n b : ℕ)
    → let first = heap.table.entries + start_block in
      0 < n
      → start_block + n ≤ heap.table.total_entries
      → IsChain m first n
      → heap_mark_blocks_free heap m (pos start_block) b
        ≡ (if within first n b then entry_free else m b)
unfolding heap_mark_blocks_free
heap_mark_blocks_free_lem heap m start_block n b pn fit c =
    free_loop_lem (heap.table.total_entries - start_block) n m (heap.table.entries + start_block) b
      pn (omega arith) c

has_next-chain_entry : (i n : ℕ) → i < n → has_next (chain_entry i n) ≡ ltb (i + 1) n
has_next-chain_entry i n h = ground arith

-- What heap_mark_blocks_taken writes is a chain.
pub heap_mark_blocks_taken-IsChain :
    (heap : Heap) (m : Mem) (start_block n : ℕ)
    → IsChain (heap_mark_blocks_taken heap m start_block n) (heap.table.entries + start_block) n
heap_mark_blocks_taken-IsChain heap m start_block n i h =
    let first = heap.table.entries + start_block in
    let off : first + i - first ≡ i = omega arith in
    let inside : within first n (first + i) ≡ true = ground arith in
    rw (heap_mark_blocks_taken_lem heap m start_block n (first + i), inside, off)
      (has_next-chain_entry i n h)

-- The heap lies in the first half of what an `int` offset reaches.
pub record Fits (heap : Heap) : Type 0 where
  pub no_wrap : heap.start_address + heap.table.total_entries * 4096 ≤ 2 ^ 32
  pub offsets : heap.table.total_entries ≤ 2 ^ 19

-- A block number survives the way to its address and back.
pub heap_address_to_block-heap_block_to_address :
    (heap : Heap) (block : ℕ)
    → Fits heap
    → block < heap.table.total_entries
    → heap_address_to_block heap (heap_block_to_address heap block) ≡ pos block
unfolding heap_address_to_block heap_block_to_address
heap_address_to_block-heap_block_to_address heap block fits h =
    let e : (heap.start_address + block * 4096) % 2 ^ 32 ≡ heap.start_address + block * 4096 =
      omega arith in
    let d : (heap.start_address + block * 4096 + 2 ^ 32 - heap.start_address) % 2 ^ 32
        ≡ block * 4096 =
      omega arith in
    rw (e, d) (ground arith)

-- Inside the table an address does not wrap.
pub heap_block_to_address_lem :
    (heap : Heap) (block : ℕ)
    → Fits heap
    → block < heap.table.total_entries
    → heap_block_to_address heap block ≡ heap.start_address + block * 4096
unfolding heap_block_to_address
heap_block_to_address_lem heap block fits h = omega arith

free_loop-below : (k : ℕ) (m : Mem) (a b : ℕ) → b < a → free_loop m a k b ≡ m b
unfolding free_loop
free_loop-below zero m a b lt = refl
free_loop-below (suc k) m a b lt =
    ground (arith, free_loop-below k (store m a entry_free) (a + 1) b)

free_loop-head : (k : ℕ) (m : Mem) (a : ℕ) → free_loop m a (suc k) a ≡ entry_free
unfolding free_loop
free_loop-head k m a = ground (arith, free_loop-below k (store m a entry_free) (a + 1) a)

-- An address in front of the heap is taken for a negative block, and heap_free clears the byte so far
-- in front of the table.
pub heap_free-in_front :
    (heap : Heap) (m : Mem) (ptr n : ℕ)
    → heap_address_to_block heap ptr ≡ negsuc n
    → heap_free heap m ptr (heap.table.entries - suc n) ≡ entry_free
unfolding heap_free heap_mark_blocks_free
heap_free-in_front heap m ptr n e =
    let rounds : heap.table.total_entries + suc n ≡ suc (heap.table.total_entries + n) =
      omega arith in
    rw (e, heap_mark_blocks_free, rounds)
      (free_loop-head (heap.table.total_entries + n) m (heap.table.entries - suc n))
