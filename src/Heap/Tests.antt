-- ===== src/Heap/Tests.antt =====
-- heap.c at a table of four blocks at address 100, the first and the last taken, and at full and
-- short ones.
use boi_os.Prelude.{ℕ, ◌+◌, ◌*◌, ◌≤◌, ◌≡◌, refl, ◌⊎◌, true, ◌==◌, if◌then◌else◌, arith}
use boi_os.Prelude.Mem.{Mem}
use boi_os.Status.{ok}
use boi_os.Heap.{
  Heap, HeapTable, heap_get_entry_type, heap_get_start_block, heap_malloc_blocks,
  heap_mark_blocks_taken, heap_free, heap_create, heap_block_to_address,
}
use boi_os.Heap.Search.{free_in, FreeRun, NoRun, BusyBefore, heap_get_start_block-first_fit}
use boi_os.Heap.Marks.{Fits}
use boi_os.Heap.Table.{IsTable, heap_malloc_blocks-IsTable, heap_free-IsTable}
use boi_os.Heap.Malloc.{FreeIsZero, heap_free-heap_malloc_blocks, heap_malloc_blocks-disjoint}

abbrev small_table : HeapTable
small_table = record { entries = 100; total_entries = 4 }

abbrev small : Heap
small = record { table = small_table; start_address = 0x10000 }

-- taken, free, free, taken
abbrev mem : Mem
mem a = if a == 100 then 0x41 else if a == 103 then 0x41 else 0

-- taken, free, taken, free
abbrev holes : Mem
holes a = if a == 100 then 0x41 else if a == 102 then 0x41 else 0

-- taken, free, taken, taken
abbrev full : Mem
full a = if a == 101 then 0 else 0x41

start_in_middle : heap_get_start_block small mem 2 ≡ ok 1
unfolding heap_get_start_block heap_get_entry_type
start_in_middle = refl

marks_two : heap_mark_blocks_taken small mem 1 2 101 ≡ 0xC1
unfolding heap_mark_blocks_taken
marks_two = refl

small-Fits : Fits small
small-Fits = omega arith

middle_free : FreeRun (free_in small mem) 1 2
unfolding heap_get_entry_type
middle_free i lo hi = ground arith

mem-FreeIsZero : FreeIsZero small mem
unfolding heap_get_entry_type
mem-FreeIsZero i lt free = ground arith

mem-IsTable : IsTable small mem
unfolding heap_get_entry_type
mem-IsTable = record { free_zero = mem-FreeIsZero; next_taken = λ i lt next. absurd (ground arith) }

heap_get_start_block-first_fit_example :
    (s : ℕ) × (heap_get_start_block small mem 2 ≡ ok s)
    × (s ≤ 1)
    × (s + 2 ≤ 4)
    × FreeRun (free_in small mem) s 2
heap_get_start_block-first_fit_example =
    heap_get_start_block-first_fit small mem 2 1 (omega arith) (omega arith) middle_free

full-NoRun : NoRun (free_in small full) 2 4
unfolding heap_get_entry_type
full-NoRun s fit run = ground (arith, run s, run (s + 1))

full-BusyBefore : BusyBefore (free_in small full) 4
unfolding heap_get_entry_type
full-BusyBefore j e = ground arith

holes-NoRun : NoRun (free_in small holes) 2 4
unfolding heap_get_entry_type
holes-NoRun s fit run = ground (arith, run s, run (s + 1))

holes-last : free_in small holes 3 ≡ true
unfolding heap_get_entry_type
holes-last = refl

heap_free-heap_malloc_blocks_example :
    let (p, m') = heap_malloc_blocks small mem 2 in heap_free small m' p 101 ≡ 0
heap_free-heap_malloc_blocks_example =
    heap_free-heap_malloc_blocks small mem 2 1 101 small-Fits mem-FreeIsZero (omega arith)
      (omega arith) middle_free

one_free : FreeRun (free_in small mem) 1 1
unfolding heap_get_entry_type
one_free i lo hi = ground arith

second_free : FreeRun (free_in small (heap_malloc_blocks small mem 1).1) 2 1
unfolding heap_get_entry_type heap_malloc_blocks heap_get_start_block heap_mark_blocks_taken
second_free i lo hi = ground arith

heap_malloc_blocks-disjoint_example :
    let (p, m') = heap_malloc_blocks small mem 1 in
    let (q, _) = heap_malloc_blocks small m' 1 in (p + 1 * 4096 ≤ q) ⊎ (q + 1 * 4096 ≤ p)
heap_malloc_blocks-disjoint_example =
    heap_malloc_blocks-disjoint small mem 1 1 1 2 small-Fits (omega arith) (omega arith)
      (omega arith) one_free (omega arith) second_free

heap_malloc_blocks-IsTable_example : IsTable small (heap_malloc_blocks small mem 2).1
heap_malloc_blocks-IsTable_example =
    heap_malloc_blocks-IsTable small mem 2 1 mem-IsTable (omega arith) (omega arith) middle_free

heap_free-IsTable_example : IsTable small (heap_free small mem (heap_block_to_address small 3))
heap_free-IsTable_example = heap_free-IsTable small mem 3 small-Fits mem-IsTable (omega arith) refl

created : (heap_create small 0x10000 0x14000 small_table full).0 ≡ ok 0
unfolding heap_create
created = refl
