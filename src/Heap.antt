-- ===== src/Heap.antt =====
-- src/memory/heap/heap.c and kheap.c: the block allocator of the kernel. The table is a run of
-- bytes in memory at `entries`, one for each block.
pub mod Search
pub mod Marks
pub mod Table
pub mod Malloc
mod Tests
use boi_os.Prelude.{
  ℕ, zero, suc, ◌+◌, ◌-◌, ◌*◌, ◌/◌, ◌%◌, ◌^◌, Bool, true, false, ◌&&◌, Option, none, some, ltb,
  ◌==◌, if◌then◌else◌, bit_and, bit_or,
}
use boi_os.Prelude.Int.{ℤ, pos, negsuc, signed32, div_int}
use boi_os.Prelude.Mem.{Mem, store}
use boi_os.Status.{Response, ok, err, einvarg, enomem}
use boi_os.Memory.{memset}

abbrev pub block_size : ℕ
block_size = 4096

abbrev pub entry_free : ℕ
entry_free = 0x00

abbrev pub entry_taken : ℕ
entry_taken = 0x01

abbrev pub block_has_next : ℕ
block_has_next = 0b10000000

abbrev pub block_is_first : ℕ
block_is_first = 0b01000000

pub record HeapTable : Type 0 where
  pub entries : ℕ
  pub total_entries : ℕ

pub record Heap : Type 0 where
  pub table : HeapTable
  pub start_address : ℕ

heap_align_value_to_upper : ℕ → ℕ
heap_align_value_to_upper val =
    if val % block_size == 0 then val else (val - val % block_size + block_size) % 2 ^ 32

heap_validate_alignment : ℕ → Bool
heap_validate_alignment ptr = ptr % block_size == 0

heap_validate_table : ℕ → ℕ → HeapTable → Response
heap_validate_table ptr end_of_heap table =
    let table_size = (end_of_heap + 2 ^ 32 - ptr) % 2 ^ 32 in
    if table.total_entries == table_size / block_size then ok 0 else err einvarg

unfoldable pub heap_get_entry_type : ℕ → ℕ
heap_get_entry_type entry = bit_and entry 0x0F

create_valid : Response → Heap → Mem → Response × Heap × Mem
create_valid (err e) heap m = (err e, heap, m)
create_valid (ok r) heap m =
    (ok r, heap, memset m heap.table.entries entry_free heap.table.total_entries)

-- The heap and the memory afterwards come behind the response.
pub heap_create : Heap → ℕ → ℕ → HeapTable → Mem → Response × Heap × Mem
unfolding heap_validate_alignment heap_validate_table create_valid
heap_create heap ptr end_of_heap table m =
    if heap_validate_alignment ptr && heap_validate_alignment end_of_heap
    then create_valid (heap_validate_table ptr end_of_heap table)
        (record { table = table; start_address = ptr }) m
    else (err einvarg, heap, m)

-- `k` rounds are left, at the entry `i`. `block_start` is `none` for -1.
pub start_block_loop : Mem → ℕ → ℕ → ℕ → ℕ → ℕ → Option ℕ → Option ℕ
unfolding heap_get_entry_type
start_block_loop m entries total_blocks zero i current_block block_start = block_start
start_block_loop m entries total_blocks (suc k) i current_block block_start =
    elim (heap_get_entry_type (m (entries + i)) == entry_free) [
      | false ↦ start_block_loop m entries total_blocks k (i + 1) 0 none
      | true ↦
          let first : ℕ = elim block_start [ none ↦ i | some s ↦ s ] in
          elim (current_block + 1 == total_blocks) [
            | true ↦ some first
            | false ↦
                start_block_loop m entries total_blocks k (i + 1) (current_block + 1) (some first)
          ]
    ]

pub heap_get_start_block : Heap → Mem → ℕ → Response
unfolding start_block_loop
heap_get_start_block heap m total_blocks =
    elim (start_block_loop m heap.table.entries total_blocks heap.table.total_entries 0 0 none) [
      | none ↦ err enomem
      | some s ↦ ok s
    ]

pub heap_block_to_address : Heap → ℕ → ℕ
heap_block_to_address heap start_block = (heap.start_address + start_block * block_size) % 2 ^ 32

-- `k` rounds of the loop are left, at the entry `i`.
taken_loop : Mem → ℕ → ℕ → ℕ → ℕ → ℕ → Mem
taken_loop m entries end_block i entry zero = m
taken_loop m entries end_block i entry (suc k) =
    taken_loop (store m (entries + i) entry) entries end_block (i + 1)
      (if i + 1 == end_block then entry_taken else bit_or entry_taken block_has_next) k

-- With no block `end_block` is -1 past the start and the loop has no round.
pub heap_mark_blocks_taken : Heap → Mem → ℕ → ℕ → Mem
unfolding taken_loop
heap_mark_blocks_taken heap m start_block total_blocks =
    let entry = bit_or entry_taken block_is_first in
    taken_loop m heap.table.entries (start_block + total_blocks - 1) start_block
      (if ltb 1 total_blocks then bit_or entry block_has_next else entry) total_blocks

malloc_at : Heap → Mem → ℕ → Response → ℕ × Mem
malloc_at heap m total_blocks (err e) = (0, m)
malloc_at heap m total_blocks (ok start_block) =
    (heap_block_to_address heap start_block, heap_mark_blocks_taken heap m start_block total_blocks)

pub heap_malloc_blocks : Heap → Mem → ℕ → ℕ × Mem
unfolding malloc_at
heap_malloc_blocks heap m total_blocks =
    malloc_at heap m total_blocks (heap_get_start_block heap m total_blocks)

pub heap_malloc : Heap → Mem → ℕ → ℕ × Mem
unfolding heap_align_value_to_upper
heap_malloc heap m size = heap_malloc_blocks heap m (heap_align_value_to_upper size / block_size)

unfoldable pub heap_address_to_block : Heap → ℕ → ℤ
heap_address_to_block heap address =
    div_int (signed32 ((address + 2 ^ 32 - heap.start_address) % 2 ^ 32)) block_size

-- `k` rounds of the loop are left, at the entry at address `a`.
free_loop : Mem → ℕ → ℕ → Mem
free_loop m a zero = m
free_loop m a (suc k) = elim (bit_and (m a) block_has_next == 0) [
  | true ↦ store m a entry_free
  | false ↦ free_loop (store m a entry_free) (a + 1) k
]

-- A negative block is in front of the table.
pub heap_mark_blocks_free : Heap → Mem → ℤ → Mem
unfolding free_loop
heap_mark_blocks_free heap m (pos s) =
    free_loop m (heap.table.entries + s) (heap.table.total_entries - s)
heap_mark_blocks_free heap m (negsuc n) =
    free_loop m (heap.table.entries - suc n) (heap.table.total_entries + suc n)

pub heap_free : Heap → Mem → ℕ → Mem
heap_free heap m ptr = heap_mark_blocks_free heap m (heap_address_to_block heap ptr)
