-- ===== src/Elf/Load/Closes.antt =====
-- elf_load ends, and gives the descriptor back that it opens.
use boi_os.Prelude.{
  ℕ, zero, suc, ◌+◌, ◌<◌, ◌≡◌, refl, ap, sym, ◌∙◌, inl, inr, Option, none, some, List, length,
  arith,
}
use mathlib.Core.Path.{subst}
use boi_os.Prelude.Int.{pos}
use boi_os.Prelude.Mem.{Mem}
use boi_os.Status.{Response, ok, err, eio}
use boi_os.CString.Laws.{IsString}
use boi_os.File.{Files, Filesystem, FileStat, fstat, fread}
use boi_os.File.Table.{Adds, Opens, Closes, fopen-Opens, fclose-zero, fclose-Adds, Adds-below}
use boi_os.Elf.{ElfFile}
use boi_os.Elf.Segments.{elf_process_loaded-total}
use boi_os.Elf.Load.{
  loaded, process_read, read_file, closing, with_descriptor, elf_load, elf_file_at,
  size_of_elf_file,
}

loaded-total :
    {W : Type 0} (w : W) (r : Response × ElfFile)
    → (r' : Response × Option ElfFile × W) × (loaded w (some r) ≡ some r')
unfolding loaded
loaded-total w (err e, file) = ((err e, none, w), refl)
loaded-total w (ok r, file) = ((ok r, some file, w), refl)

process_read-total :
    {W : Type 0} (mem_of : W → Mem) (file : ElfFile) (result : Response × W)
    → (r : Response × Option ElfFile × W) × (process_read mem_of file result ≡ some r)
unfolding process_read
process_read-total mem_of file (err e, w) = ((err e, none, w), refl)
process_read-total mem_of file (ok r, w) =
    let (x, e) = elf_process_loaded-total (mem_of w) file in
    let (y, e') = loaded-total w x in (y, ap (loaded w) e ∙ e')

read_file-total :
    {W P : Type 0} (kzalloc : W → ℕ → ℕ × W) (mem_of : W → Mem) (files : Files W P) (fd : ℕ)
    (result : Response × FileStat × W)
    → (r : Response × Option ElfFile × W) × (read_file kzalloc mem_of files fd result ≡ some r)
unfolding read_file
read_file-total kzalloc mem_of files fd (err e, stat, w) = ((err e, none, w), refl)
read_file-total kzalloc mem_of files fd (ok r, stat, w) =
    let (ptr, w') = kzalloc w stat.file_size in
    process_read-total mem_of (elf_file_at ptr) (fread files w' ptr stat.file_size 1 (pos fd))

-- The slots of the descriptors are the same.
abbrev pub SameSlots :
    {W P : Type 0} → Files W P → Response × Option ElfFile × Files W P × W → Type 0
SameSlots files (res, file_out, files', w) =
    (l : ℕ) → files'.file_descriptors l ≡ files.file_descriptors l

closing-zero :
    {W P : Type 0} (files files1 : Files W P) (x : Response × Option ElfFile × W)
    → files1 ≡ files
    → SameSlots files (closing files1 0 x)
unfolding closing
closing-zero files files1 (res, file_out, w) e l =
    rw (fclose-zero files1 w) (ap (λ f. f.file_descriptors l) e)

closing-Adds :
    {W P : Type 0} (fs : Filesystem W P) (files files1 : Files W P) (i : ℕ)
    (x : Response × Option ElfFile × W)
    → Adds (some fs) files i files1
    → i + 1 < 512
    → Closes fs
    → SameSlots files (closing files1 (i + 1) x)
unfolding closing
closing-Adds fs files files1 i (res, file_out, w) a small c =
    fclose-Adds fs files files1 i w a small c

with_descriptor-SameSlots :
    {W P : Type 0} (kzalloc : W → ℕ → ℕ × W) (mem_of : W → Mem) (stat : FileStat)
    (fs : Filesystem W P) (files : Files W P) (l : ℕ) (r : ℕ × Files W P × W)
    → files.file_descriptors l ≡ none
    → l < 511
    → Closes fs
    → Opens (some fs) files r
    → (x : Response × Option ElfFile × Files W P × W) × (with_descriptor kzalloc mem_of stat r
        ≡ some x)
      × SameSlots files x
unfolding with_descriptor
with_descriptor-SameSlots kzalloc mem_of stat fs files l (zero, files1, w) free small c
      (inl (e, same)) =
    (closing files1 0 (err eio, none, w), refl, closing-zero files files1 (err eio, none, w) same)
with_descriptor-SameSlots kzalloc mem_of stat fs files l (zero, files1, w) free small c
      (inr (i, e, a)) =
    absurd (omega (arith, e))
with_descriptor-SameSlots kzalloc mem_of stat fs files l (suc n, files1, w) free small c
      (inl (e, same)) =
    absurd (omega (arith, e))
with_descriptor-SameSlots kzalloc mem_of stat fs files l (suc n, files1, w) free small c
      (inr (i, e, a)) =
    let (x, e') =
      read_file-total kzalloc mem_of files1 (suc n) (fstat files1 w (pos (suc n)) stat) in
    (
      closing files1 (suc n) x,
      rw (with_descriptor, e'),
      subst (λ fd. SameSlots files (closing files1 fd x)) (sym e)
          (closing-Adds fs files files1 i x a (Adds-below i l a free small) c),
    )

-- elf_load of a path in memory ends, with fuel for the path's length, whatever the file holds, and on every
-- way out, errors included, the slots of the descriptors are as they were: what it opened is closed again. A
-- slot other than the last is free, and the filesystem's close succeeds.
pub elf_load-SameSlots :
    {W P : Type 0} (kzalloc : W → ℕ → ℕ × W) (mem_of : W → Mem) (stat : FileStat)
    (files : Files W P) (fs : Filesystem W P) (w : W) (cs : List ℕ) (filename mode_r fuel l : ℕ)
    → IsString (mem_of (kzalloc w size_of_elf_file).1) filename cs
    → length cs + 1 < fuel
    → files.file_descriptors l ≡ none
    → l < 511
    → Closes fs
    → (x : Response × Option ElfFile × Files W P × W) × (elf_load kzalloc mem_of stat files
          (some fs)
          w
          filename
          mode_r
          fuel
        ≡ some x)
      × SameSlots files x
unfolding elf_load
elf_load-SameSlots kzalloc mem_of stat files fs w cs filename mode_r fuel l s lt free small c =
    let (structure, w') = kzalloc w size_of_elf_file in
    let (r, e, opens) = fopen-Opens files (some fs) w' cs (mem_of w') filename mode_r fuel s lt in
    let (x, e', same) =
      with_descriptor-SameSlots kzalloc mem_of stat fs files l r free small c opens in
    (x, rw (elf_load, e) e', same)
