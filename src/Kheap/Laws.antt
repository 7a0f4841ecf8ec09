-- ===== src/Kheap/Laws.antt =====
-- What the kernel may rely on of its heap.
use boi_os.Prelude.{
  ℕ, ◌+◌, ◌*◌, ◌^◌, ◌≤◌, ◌<◌, ◌≡◌, ◌≢◌, refl, ap, ◌∙◌, ne→==, if◌then◌else◌, arith,
}
use boi_os.Prelude.Mem.{Mem}
use boi_os.Status.{ok}
use boi_os.Memory.{memset}
use boi_os.Memory.Laws.{memset_lem}
use boi_os.Heap.{Heap, heap_address_to_block, heap_mark_blocks_taken, heap_block_to_address}
use boi_os.Heap.Search.{free_in, FreeRun}
use boi_os.Heap.Marks.{within, Fits, heap_free-in_front, heap_block_to_address_lem}
use boi_os.Heap.Table.{IsTable, heap_create-accepts, heap_create-IsTable}
use boi_os.Heap.Malloc.{heap_malloc_blocks-Allocates, heap_malloc-heap_malloc_blocks}
use boi_os.Kheap.{
  heap_address, heap_size_bytes, kernel_heap_table, kheap_init, kmalloc, kzalloc, kfree,
}

-- The heap that kheap_init sets up.
abbrev pub kernel_heap : Heap
kernel_heap = record { table = kernel_heap_table; start_address = heap_address }

pub kernel_heap-Fits : Fits kernel_heap
kernel_heap-Fits = omega arith

-- kheap_init succeeds on any memory: the heap is the 100 MB at 16 MB, all 25600 blocks are free, and
-- the table is well formed.
pub kheap_init_lem :
    (heap : Heap) (m : Mem)
    → let (r, heap', m') = kheap_init heap m in
      (r ≡ ok 0) × (heap' ≡ kernel_heap) × IsTable heap' m' × FreeRun (free_in heap' m') 0 25600
unfolding kheap_init
kheap_init_lem heap m =
    let (r, made) =
      heap_create-accepts heap heap_address (heap_address + heap_size_bytes) kernel_heap_table m
        refl refl refl in
    let (v, run, _, _) =
      heap_create-IsTable heap heap_address (heap_address + heap_size_bytes) kernel_heap_table m
        r in
    (r, made, v, λ i lo hi. run i lo (omega (arith, ap (λ (h : Heap). h.table.total_entries) made)))

kzalloc-some :
    (heap : Heap) (m m' : Mem) (size p : ℕ)
    → kmalloc heap m size ≡ (p, m')
    → p ≢ 0
    → kzalloc heap m size ≡ (p, memset m' p 0 size)
unfolding kzalloc
kzalloc-some heap m m' size p e ne = rw (e, kzalloc, ne→== p 0 ne)

-- Where the kernel heap has a run of `n` free blocks that hold `size` bytes, kzalloc returns an
-- address inside the heap; there it writes `size` zeros, and elsewhere memory is as kmalloc leaves it.
pub kzalloc_lem :
    (m : Mem) (size n t : ℕ)
    → 0 < size
    → size + 4096 ≤ 2 ^ 32
    → n * 4096 < size + 4096
    → size ≤ n * 4096
    → t + n ≤ 25600
    → FreeRun (free_in kernel_heap m) t n
    → let (p, m') = kzalloc kernel_heap m size in
      (heap_address ≤ p)
      × (p + size ≤ heap_address + heap_size_bytes)
      × ((a : ℕ) → m' a ≡ (if within p size a then 0 else (kmalloc kernel_heap m size).1 a))
kzalloc_lem m size n t ps small least holds fit run =
    let (n', e, pn, holds', least') =
      heap_malloc-heap_malloc_blocks kernel_heap m size ps (omega arith) in
    let same : n' ≡ n = omega arith in
    let (s, _, al) = heap_malloc_blocks-Allocates kernel_heap m n t (omega arith) fit run in
    let at =
      heap_block_to_address_lem kernel_heap s kernel_heap-Fits (omega (arith, al.in_table)) in
    let got : kmalloc kernel_heap m size
        ≡ (heap_block_to_address kernel_heap s, heap_mark_blocks_taken kernel_heap m s n) =
      unfold kmalloc in e ∙ rw same al.result in
    let addr = heap_block_to_address kernel_heap s in
    rw (kzalloc-some kernel_heap m _ size addr got (omega (arith, at)), got)
      (omega (arith, at), omega (arith, at, al.in_table), λ a. memset_lem size _ addr 0 a)

-- kfree of the null pointer takes it for block -4096 and clears the byte 4096 below the table.
pub kfree-null : (m : Mem) → kfree kernel_heap m 0 0x6E00 ≡ 0
unfolding kfree
kfree-null m = heap_free-in_front kernel_heap m 0 4095 (unfold heap_address_to_block in refl)
