-- ===== src/Process/Image.antt =====
-- How process.c maps a program and its stack into the directory of its task. Headers are in the bytes `m` of
-- memory, the page tables in the words.
pub mod Translates
pub mod Total
use boi_os.Prelude.{
  ℕ, zero, suc, ◌+◌, ◌-◌, ◌*◌, ◌%◌, ◌^◌, Bool, true, false, not, Option, none, some, ◌==◌,
  if◌then◌else◌, bit_and,
}
use boi_os.Prelude.Mem.{Mem}
use boi_os.Status.{Response, ok, err}
use boi_os.Paging.{Chunk, paging_map_to, paging_align_address, paging_align_to_lower_page}
use boi_os.Elf.{
  ElfFile, Elf32Phdr, header_at, phdr_at, size_of_phdr, elf_pheader, elf_phdr_phys_address,
}
use boi_os.Task.{program_virtual_address}
use boi_os.Process.{user_flags}

abbrev pub user_program_stack_size : ℕ
user_program_stack_size = 16384

-- The start of the stack less its size.
abbrev pub program_virtual_stack_address_end : ℕ
program_virtual_stack_address_end = 0x3FF000 - user_program_stack_size

-- What `filetype` and the union of `struct process` say: an ELF file, or the address and the size of a binary.
pub data Program : Type 0 where
  elf_program : ElfFile → Program
  binary_program : ℕ → ℕ → Program

-- PAGING_IS_PRESENT | PAGING_ACCESS_FROM_ALL, and PAGING_IS_WRITABLE for a segment with PF_W.
abbrev pub segment_flags : Elf32Phdr → ℕ
segment_flags phdr = if not (bit_and phdr.p_flags 0x02 == 0) then 0b111 else 0b101

process_map_segment : Mem → Chunk → ElfFile → Elf32Phdr → Response × Mem
process_map_segment words c elf_file phdr =
    let phys = elf_phdr_phys_address elf_file phdr in
    paging_map_to words c (paging_align_to_lower_page phdr.p_vaddr)
      (paging_align_to_lower_page phys) (paging_align_address ((phys + phdr.p_memsz) % 2 ^ 32))
      (segment_flags phdr)

-- The rest of the maps, unless one failed.
map_next : Response × Mem → (Mem → Option (Response × Mem)) → Option (Response × Mem)
map_next (err e, words) rest = some (err e, words)
map_next (ok r, words) rest = rest words

-- `k` program headers are left, from the one number `i` on. `none` is a read through a null pointer.
segments_loop : Mem → Mem → Chunk → ElfFile → Option ℕ → ℕ → ℕ → Option (Response × Mem)
unfolding map_next
segments_loop m words c elf_file phdrs i zero = some (ok 0, words)
segments_loop m words c elf_file none i (suc k) = none
segments_loop m words c elf_file (some phdrs) i (suc k) =
    map_next
      (process_map_segment words c elf_file (phdr_at m ((phdrs + i * size_of_phdr) % 2 ^ 32)))
      (λ words'. segments_loop m words' c elf_file (some phdrs) (i + 1) k)

process_map_elf : Mem → Mem → Chunk → ElfFile → Option (Response × Mem)
unfolding segments_loop
process_map_elf m words c elf_file =
    segments_loop m words c elf_file (elf_pheader m elf_file.elf_memory) 0
      (header_at m elf_file.elf_memory).e_phnum

process_map_binary : Mem → Chunk → ℕ → ℕ → Response × Mem
process_map_binary words c ptr size =
    paging_map_to words c program_virtual_address ptr (paging_align_address ((ptr + size) % 2 ^ 32))
      user_flags

pub process_map_stack : Mem → Chunk → ℕ → Response × Mem
process_map_stack words c stack =
    paging_map_to words c program_virtual_stack_address_end stack
      (paging_align_address ((stack + user_program_stack_size) % 2 ^ 32)) user_flags

process_map_program : Mem → Mem → Chunk → Program → Option (Response × Mem)
unfolding process_map_elf process_map_binary
process_map_program m words c (elf_program elf_file) = process_map_elf m words c elf_file
process_map_program m words c (binary_program ptr size) = some (process_map_binary words c ptr size)

then_stack : Chunk → ℕ → Option (Response × Mem) → Option (Response × Mem)
unfolding map_next
then_stack c stack none = none
then_stack c stack (some mapped) =
    map_next mapped (λ words'. some (process_map_stack words' c stack))

pub process_map_memory : Mem → Mem → Chunk → Program → ℕ → Option (Response × Mem)
unfolding then_stack process_map_program
process_map_memory m words c program stack =
    then_stack c stack (process_map_program m words c program)
