-- ===== src/Process/Image/Total.antt =====
-- process_map_memory returns where no null pointer is read.
use boi_os.Prelude.{ℕ, zero, suc, ◌+◌, ◌≡◌, ◌≢◌, refl, Option, some}
use boi_os.Prelude.Mem.{Mem}
use boi_os.Status.{Response, ok, err}
use boi_os.Paging.{Chunk}
use boi_os.Elf.{ElfFile, header_at}
use boi_os.Elf.Segments.{elf_pheader-some}
use boi_os.Process.Image.{
  Program, elf_program, binary_program, map_next, segments_loop, process_map_elf,
  process_map_program, then_stack, process_map_stack, process_map_memory,
}

-- An ELF file has program headers.
abbrev pub HasHeaders : Mem → Program → Type 0
HasHeaders m (elf_program elf_file) = (header_at m elf_file.elf_memory).e_phoff ≢ 0
HasHeaders m (binary_program ptr size) = Unit

Returns : Option (Response × Mem) → Type 0
Returns x = (r : Response × Mem) × (x ≡ some r)

map_next-Returns :
    (x : Response × Mem) (rest : Mem → Option (Response × Mem))
    → ((words : Mem) → Returns (rest words))
    → Returns (map_next x rest)
unfolding map_next Returns
map_next-Returns (err e, words) rest h = ((err e, words), refl)
map_next-Returns (ok r, words) rest h = h words

segments_loop-Returns :
    (k i : ℕ) (m words : Mem) (c : Chunk) (elf_file : ElfFile) (phdrs : ℕ)
    → Returns (segments_loop m words c elf_file (some phdrs) i k)
unfolding segments_loop Returns
segments_loop-Returns zero i m words c elf_file phdrs = ((ok 0, words), refl)
segments_loop-Returns (suc k) i m words c elf_file phdrs =
    map_next-Returns _ _ (λ words'. segments_loop-Returns k (i + 1) m words' c elf_file phdrs)

program-Returns :
    (m words : Mem) (c : Chunk) (program : Program)
    → HasHeaders m program
    → Returns (process_map_program m words c program)
unfolding process_map_program process_map_elf Returns
program-Returns m words c (binary_program ptr size) h = (_, refl)
program-Returns m words c (elf_program elf_file) h =
    let (phdrs, e) = elf_pheader-some m elf_file.elf_memory h in
    rw e
      (segments_loop-Returns (header_at m elf_file.elf_memory).e_phnum 0 m words c elf_file phdrs)

pub process_map_memory-Returns :
    (m words : Mem) (c : Chunk) (program : Program) (stack : ℕ)
    → HasHeaders m program
    → (r : Response × Mem) × (process_map_memory m words c program stack ≡ some r)
unfolding process_map_memory then_stack Returns
process_map_memory-Returns m words c program stack h =
    let (mapped, e) = program-Returns m words c program h in
    rw e (
      map_next-Returns mapped (λ words'. some (process_map_stack words' c stack))
        (λ words'. (_, refl)))
