-- ===== src/Task/Strings.antt =====
-- src/task/task.c, copy_string_from_task: the copy of a string out of a task's memory. While the task's directory
-- is loaded an address leads to memory through that directory; the kernel's directory maps addresses to themselves.
pub mod Virtual
pub mod Delivery
mod Tests
use boi_os.Prelude.{ℕ, zero, suc, ◌+◌, ◌-◌, ◌%◌, ◌^◌, true, false, leb, ◌==◌, if◌then◌else◌}
use boi_os.Prelude.Mem.{Mem, store}
use boi_os.Status.{Response, ok, err, einvarg, enomem, eio}
use boi_os.CString.{strncpy}
use boi_os.Paging.{
  Chunk, page_size, paging_map, paging_get, paging_set, paging_get_physical_address,
}

-- The calls of kernel memory.
pub record Allocator : Type 0 where
  pub kzalloc : Mem → ℕ → ℕ × Mem
  pub kfree : Mem → ℕ → Mem

-- PAGING_IS_WRITABLE | PAGING_IS_PRESENT | PAGING_ACCESS_FROM_ALL
abbrev pub tmp_flags : ℕ
tmp_flags = 0b111

-- The loop of strncpy under a directory, with `k` rounds left.
pub virtual_loop : Mem → ℕ → Mem → ℕ → ℕ → ℕ → Mem
virtual_loop words directory m dest src zero =
    store m (paging_get_physical_address words directory dest) 0
virtual_loop words directory m dest src (suc k) =
    let c = m (paging_get_physical_address words directory src) in
    elim (c == 0) [
      | true ↦ store m (paging_get_physical_address words directory dest) 0
      | false ↦
          virtual_loop words directory
            (store m (paging_get_physical_address words directory dest) c) ((dest + 1) % 2 ^ 32)
            ((src + 1) % 2 ^ 32) k
    ]

copy_out : Allocator → Mem → ℕ → ℕ → ℕ → Response × Mem → Response × Mem × Mem
copy_out kernel bytes tmp physical_address max (err e, words) =
    (err eio, kernel.kfree bytes tmp, words)
copy_out kernel bytes tmp physical_address max (ok n, words) =
    (ok n, kernel.kfree (strncpy bytes physical_address tmp max) tmp, words)

copy_through : Allocator → Mem → Chunk → ℕ → ℕ → ℕ → ℕ × Mem → Response × Mem × Mem
unfolding virtual_loop copy_out
copy_through kernel words page_directory virtual_address physical_address max (tmp, bytes) =
    if tmp == 0
    then (err enomem, bytes, words)
    else let old_entry = paging_get words page_directory.directory_entry tmp in
      let (_, words1) = paging_map words page_directory tmp tmp tmp_flags in
      let bytes1 =
        virtual_loop words1 page_directory.directory_entry bytes tmp virtual_address (max - 1) in
      copy_out kernel bytes1 tmp physical_address max
        (paging_set words1 page_directory.directory_entry tmp old_entry)

-- The result, the bytes of memory and the words of the page tables.
pub copy_string_from_task : Allocator → Mem → Mem → Chunk → ℕ → ℕ → ℕ → Response × Mem × Mem
unfolding copy_through
copy_string_from_task kernel bytes words page_directory virtual_address physical_address max =
    if leb page_size max
    then (err einvarg, bytes, words)
    else copy_through kernel words page_directory virtual_address physical_address max
        (kernel.kzalloc bytes max)
