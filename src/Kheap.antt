-- ===== src/Kheap.antt =====
-- src/memory/heap/kheap.c: the kernel's heap. The table lies in the same memory as the blocks.
pub mod Laws
use boi_os.Prelude.{ℕ, ◌+◌, ◌/◌, ◌==◌, if◌then◌else◌}
use boi_os.Prelude.Mem.{Mem}
use boi_os.Status.{Response}
use boi_os.Memory.{memset}
use boi_os.Heap.{Heap, HeapTable, block_size, heap_create, heap_malloc, heap_free}

abbrev pub heap_size_bytes : ℕ
heap_size_bytes = 104857600

abbrev pub heap_address : ℕ
heap_address = 0x01000000

abbrev pub heap_table_address : ℕ
heap_table_address = 0x00007E00

abbrev pub kernel_heap_table : HeapTable
kernel_heap_table = record {
  entries = heap_table_address;
  total_entries = heap_size_bytes / block_size;
}

-- The state is `kernel_heap` and memory. A failure is printed, and not told to the caller.
pub kheap_init : Heap → Mem → Response × Heap × Mem
kheap_init heap m =
    heap_create heap heap_address (heap_address + heap_size_bytes) kernel_heap_table m

pub kmalloc : Heap → Mem → ℕ → ℕ × Mem
kmalloc kernel_heap m size = heap_malloc kernel_heap m size

pub kzalloc : Heap → Mem → ℕ → ℕ × Mem
unfolding kmalloc
kzalloc kernel_heap m size =
    let (ptr, m') = kmalloc kernel_heap m size in
    if ptr == 0 then (0, m') else (ptr, memset m' ptr 0x00 size)

pub kfree : Heap → Mem → ℕ → Mem
kfree kernel_heap m ptr = heap_free kernel_heap m ptr
