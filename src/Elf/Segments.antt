-- ===== src/Elf/Segments.antt =====
-- The range of addresses that the segments of a file take.
use boi_os.Prelude.{
  ℕ, zero, suc, ◌+◌, ◌*◌, ◌%◌, ◌^◌, ◌<◌, ◌≤◌, ◌≡◌, ◌≢◌, refl, ap, sym, ◌∙◌, ◌⊎◌, inl, inr, true,
  some, ◌==◌, arith, Bool-cases, ==→eq, ==→ne, eq→==, ne→==,
}
use native.Mathlib.Nat.{mod-eq_of_lt}
use mathlib.Core.Path.{subst}
use boi_os.Prelude.Mem.{Mem}
use boi_os.Status.{Response, ok, err, Errno}
use boi_os.Elf.Validate.{accepts_header}
use boi_os.Elf.{
  Elf32Phdr, ElfFile, header_at, phdr_at, pt_load, elf_has_program_header, elf_pheader,
  elf_program_header, size_of_phdr, with_base, with_end, elf_process_phdr_pt_load,
  elf_process_pheader, pheaders_loop, elf_process_pheaders, elf_validate_loaded, processed,
  elf_process_loaded,
}

-- The program header number `i` of the file at an address.
abbrev pub phdr_of : Mem → ℕ → ℕ → Elf32Phdr
phdr_of m header i =
    phdr_at m (((header + (header_at m header).e_phoff) % 2 ^ 32 + i * size_of_phdr) % 2 ^ 32)

-- The bytes that a segment has in the file lie in the range of the file, whose ends are set.
pub record Covers (file : ElfFile) (phdr : Elf32Phdr) : Type 0 where
  pub set : 0 < file.virtual_base_address
  pub above : file.virtual_base_address ≤ phdr.p_vaddr
  pub below : phdr.p_vaddr + phdr.p_filesz ≤ file.virtual_end_address

-- A segment that is not at address 0 and whose bytes in the file do not wrap.
abbrev pub Fits : Elf32Phdr → Type 0
Fits phdr = (0 < phdr.p_vaddr) × (phdr.p_vaddr + phdr.p_filesz < 2 ^ 32)

load-Covers :
    (file : ElfFile) (phdr : Elf32Phdr)
    → Fits phdr
    → Covers (elf_process_phdr_pt_load file phdr) phdr
unfolding elf_process_phdr_pt_load with_base with_end
load-Covers file phdr (pv, small) =
    let whole : (phdr.p_vaddr + phdr.p_filesz) % 2 ^ 32 ≡ phdr.p_vaddr + phdr.p_filesz =
      mod-eq_of_lt small in
    record {
      set = ground (arith, whole);
      above = ground (arith, whole);
      below = ground (arith, whole);
    }

-- The range only grows.
load-keeps :
    (file : ElfFile) (phdr q : Elf32Phdr)
    → Fits phdr
    → Covers file q
    → Covers (elf_process_phdr_pt_load file phdr) q
unfolding elf_process_phdr_pt_load with_base with_end
load-keeps file phdr q (pv, small) c =
    let whole : (phdr.p_vaddr + phdr.p_filesz) % 2 ^ 32 ≡ phdr.p_vaddr + phdr.p_filesz =
      mod-eq_of_lt small in
    record {
      set = ground (arith, whole, c.set, c.above, c.below);
      above = ground (arith, whole, c.set, c.above, c.below);
      below = ground (arith, whole, c.set, c.above, c.below);
    }

-- Among the `k` program headers from the one number `i` on, those of loadable segments.
abbrev pub Loads : Mem → ℕ → ℕ → ℕ → (Elf32Phdr → Type 0) → Type 0
Loads m header i k holds =
    (j : ℕ) → i ≤ j → j < i + k → (phdr_of m header j).p_type ≡ pt_load → holds (phdr_of m header j)

pheader-keeps :
    (file : ElfFile) (phdr q : Elf32Phdr)
    → (phdr.p_type ≡ pt_load → Fits phdr)
    → Covers file q
    → Covers (elf_process_pheader file phdr) q
unfolding elf_process_pheader
pheader-keeps file phdr q fits c = elim (Bool-cases (phdr.p_type == pt_load)) [
  | inl t ↦ rw t (load-keeps file phdr q (fits (==→eq phdr.p_type pt_load t)) c)
  | inr f ↦ rw f c
]

pheader-Covers :
    (file : ElfFile) (phdr : Elf32Phdr)
    → (phdr.p_type ≡ pt_load → Fits phdr)
    → phdr.p_type ≡ pt_load
    → Covers (elf_process_pheader file phdr) phdr
unfolding elf_process_pheader
pheader-Covers file phdr fits e = rw (eq→== phdr.p_type pt_load e) (load-Covers file phdr (fits e))

pheaders_loop-Covers :
    (k i : ℕ) (m : Mem) (header : ℕ) (file : ElfFile)
    → elf_has_program_header (header_at m header) ≡ true
    → Loads m header i k Fits
    → (file' : ElfFile) × (pheaders_loop m header file i k ≡ some file')
      × Loads m header i k (Covers file')
      × ((q : Elf32Phdr) → Covers file q → Covers file' q)
unfolding pheaders_loop elf_program_header elf_pheader
pheaders_loop-Covers zero i m header file has fits =
    (file, refl, λ j lo hi e. absurd (omega (arith, lo, hi)), λ q c. c)
pheaders_loop-Covers (suc k) i m header file has fits =
    let phdr = phdr_of m header i in
    let here : phdr.p_type ≡ pt_load → Fits phdr = fits i (omega arith) (omega arith) in
    let (file', e, covers, keeps) =
      pheaders_loop-Covers k (i + 1) m header (elf_process_pheader file phdr) has
        (λ j lo hi. fits j (omega arith) (omega arith)) in
    (
      file',
      rw (pheaders_loop, elf_program_header, elf_pheader, has, e),
      λ j lo hi load. elim (Bool-cases (j == i)) [
        | inl q ↦
            let same = ==→eq j i q in
            subst (λ x. Covers file' (phdr_of m header x)) (sym same)
              (keeps phdr (
                pheader-Covers file phdr here
                  (ap (λ x. (phdr_of m header x).p_type) (sym same) ∙ load)))
        | inr q ↦ let ne = ==→ne j i q in covers j (omega (arith, lo, ne)) (omega (arith, hi)) load
      ],
      λ q c. keeps q (pheader-keeps file phdr q here c),
    )

-- For a file with program headers, whose loadable segments neither start at address 0 nor reach past 32 bits
-- with their p_filesz bytes, elf_process_pheaders returns, and the range from the virtual base address to the
-- virtual end address of the file covers the p_filesz bytes of each loadable segment from its p_vaddr on.
-- Nothing is said of the bytes behind them, up to p_memsz, which are not in the file.
pub elf_process_pheaders-Covers :
    (m : Mem) (file : ElfFile)
    → (header_at m file.elf_memory).e_phoff ≢ 0
    → Loads m file.elf_memory 0 (header_at m file.elf_memory).e_phnum Fits
    → (file' : ElfFile) × (elf_process_pheaders m file ≡ some file')
      × Loads m file.elf_memory 0 (header_at m file.elf_memory).e_phnum (Covers file')
unfolding elf_process_pheaders elf_has_program_header
elf_process_pheaders-Covers m file ne fits =
    let (file', e, covers, keeps) =
      pheaders_loop-Covers (header_at m file.elf_memory).e_phnum 0 m file.elf_memory file
        (ground (arith, ne)) fits in
    (file', e, covers)

pub elf_pheader-some :
    (m : Mem) (header : ℕ)
    → (header_at m header).e_phoff ≢ 0
    → (phdrs : ℕ) × (elf_pheader m header ≡ some phdrs)
unfolding elf_pheader elf_has_program_header
elf_pheader-some m header ne = (
  (header + (header_at m header).e_phoff) % 2 ^ 32,
  rw (ne→== (header_at m header).e_phoff 0 ne) refl,
)

pheaders_loop-total :
    (k i : ℕ) (m : Mem) (header : ℕ) (file : ElfFile)
    → elf_has_program_header (header_at m header) ≡ true
    → (file' : ElfFile) × (pheaders_loop m header file i k ≡ some file')
unfolding pheaders_loop elf_program_header elf_pheader
pheaders_loop-total zero i m header file has = (file, refl)
pheaders_loop-total (suc k) i m header file has =
    let (file', e) =
      pheaders_loop-total k (i + 1) m header (elf_process_pheader file (phdr_of m header i)) has in
    (file', rw (pheaders_loop, elf_program_header, elf_pheader, has, e))

-- A file that is accepted has the headers that the loop reads.
pub elf_process_loaded-total :
    (m : Mem) (file : ElfFile) → (r : Response × ElfFile) × (elf_process_loaded m file ≡ some r)
unfolding elf_process_loaded elf_process_pheaders elf_has_program_header processed
elf_process_loaded-total m file =
    elim (Response-cases (elf_validate_loaded (header_at m file.elf_memory))) [
      | inl (r, e) ↦
          let accepted = accepts_header (header_at m file.elf_memory) r e in
          let (file', e') =
            pheaders_loop-total (header_at m file.elf_memory).e_phnum 0 m file.elf_memory file
              accepted in
          ((ok 0, file'), rw (elf_process_loaded, e, elf_process_pheaders, e'))
      | inr (c, e) ↦ ((err c, file), rw (elf_process_loaded, e))
    ]
  where
    Response-cases : (r : Response) → ((n : ℕ) × (r ≡ ok n)) ⊎ ((e : Errno) × (r ≡ err e))
    Response-cases (ok n) = inl (n, refl)
    Response-cases (err e) = inr (e, refl)
