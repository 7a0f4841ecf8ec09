-- ===== src/Process/Machine.antt =====
-- The kernel's own heap and page tables as what a process works on. The heap is in the bytes of memory and
-- the page tables are words in memory of their own.
use boi_os.Prelude.{ap}
use boi_os.Prelude.Mem.{Mem}
use boi_os.Status.{Response}
use boi_os.Heap.{Heap}
use boi_os.Kheap.{kzalloc, kfree}
use boi_os.Paging.{paging_map_to}
use boi_os.Paging.Map.{paging_map_to-succeeds}
use boi_os.Process.{KernelOps}
use boi_os.Process.Allocations.{Maps}

-- The bytes and the words.
abbrev pub Memory : Type 0
Memory = Mem × Mem

abbrev pub machine : Heap → KernelOps Memory
machine kernel_heap = record {
  kzalloc = λ (bytes, words) size.
      let (ptr, bytes') = kzalloc kernel_heap bytes size in (ptr, (bytes', words));
  kfree = λ (bytes, words) ptr. (kfree kernel_heap bytes ptr, words);
  paging_map_to = λ (bytes, words) directory ptr phys end flags.
      let (r, words') = paging_map_to words directory ptr phys end flags in (r, (bytes, words'));
}

-- On the kernel's heap and page tables, mapping whole pages onto themselves succeeds.
pub machine-Maps : (kernel_heap : Heap) → Maps (machine kernel_heap)
machine-Maps kernel_heap (bytes, words) directory ptr end flags p e le =
    let (words', done) = paging_map_to-succeeds words directory ptr end flags p e le in
    ((bytes, words'), ap (λ (r : Response × Mem). (r.0, (bytes, r.1))) done)
