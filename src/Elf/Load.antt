-- ===== src/Elf/Load.antt =====
-- elf_load, which reads a file through the table of descriptors. `kzalloc` gives an address, 0 for null, and
-- changes the state that the filesystem has too; `mem_of` is the memory in that state. What is freed by
-- elf_close is the heap's affair.
pub mod Closes
use boi_os.Prelude.{ℕ, zero, suc, Option, none, some}
use boi_os.Prelude.Int.{pos}
use boi_os.Prelude.Mem.{Mem}
use boi_os.Status.{Response, ok, err, eio}
use boi_os.File.{Files, Filesystem, FileStat, fopen, fstat, fread, fclose}
use boi_os.Elf.{ElfFile, elf_process_loaded}

-- `sizeof(struct elf_file)`
abbrev pub size_of_elf_file : ℕ
size_of_elf_file = 152

-- The zeroed structure, with the memory of the file's bytes.
abbrev pub elf_file_at : ℕ → ElfFile
elf_file_at ptr = record {
  elf_memory = ptr;
  virtual_base_address = 0;
  virtual_end_address = 0;
  physical_base_address = 0;
  physical_end_address = 0;
}

-- A result in front of `out`: the response, and what goes to `*file_out`.
loaded : {W : Type 0} → W → Option (Response × ElfFile) → Option (Response × Option ElfFile × W)
loaded w none = none
loaded w (some (err e, file)) = some (err e, none, w)
loaded w (some (ok r, file)) = some (ok r, some file, w)

process_read :
    {W : Type 0} → (W → Mem) → ElfFile → Response × W → Option (Response × Option ElfFile × W)
unfolding loaded
process_read mem_of file (err e, w) = some (err e, none, w)
process_read mem_of file (ok r, w) = loaded w (elf_process_loaded (mem_of w) file)

read_file :
    {W P : Type 0}
    → (W → ℕ → ℕ × W)
    → (W → Mem)
    → Files W P
    → ℕ
    → Response × FileStat × W
    → Option (Response × Option ElfFile × W)
unfolding process_read
read_file kzalloc mem_of files fd (err e, stat, w) = some (err e, none, w)
read_file kzalloc mem_of files fd (ok r, stat, w) =
    let (ptr, w') = kzalloc w stat.file_size in
    process_read mem_of (elf_file_at ptr) (fread files w' ptr stat.file_size 1 (pos fd))

-- What fclose returns is not looked at.
closing :
    {W P : Type 0}
    → Files W P
    → ℕ
    → Response × Option ElfFile × W
    → Response × Option ElfFile × Files W P × W
closing files fd (res, file_out, w) =
    let (r, files', w') = fclose files w (pos fd) in (res, file_out, files', w')

-- Without a descriptor, the number 0 is closed.
with_descriptor :
    {W P : Type 0}
    → (W → ℕ → ℕ × W)
    → (W → Mem)
    → FileStat
    → ℕ × Files W P × W
    → Option (Response × Option ElfFile × Files W P × W)
unfolding read_file closing
with_descriptor kzalloc mem_of stat (zero, files, w) = some (closing files 0 (err eio, none, w))
with_descriptor kzalloc mem_of stat (suc n, files, w) =
    elim (read_file kzalloc mem_of files (suc n) (fstat files w (pos (suc n)) stat)) [
      | none ↦ none
      | some result ↦ some (closing files (suc n) result)
    ]

-- `mode_r` is the address of the "r", and `stat` what the local holds before. The outer option is the fuel of
-- the path's loops, or a read through null. The room for the structure itself is not looked at.
pub elf_load :
    {W P : Type 0}
    → (W → ℕ → ℕ × W)
    → (W → Mem)
    → FileStat
    → Files W P
    → Option (Filesystem W P)
    → W
    → ℕ
    → ℕ
    → ℕ
    → Option (Response × Option ElfFile × Files W P × W)
unfolding with_descriptor
elf_load kzalloc mem_of stat files disk_filesystem w filename mode_r fuel =
    let (structure, w') = kzalloc w size_of_elf_file in
    elim (fopen files disk_filesystem w' (mem_of w') filename mode_r fuel) [
      | none ↦ none
      | some opened ↦ with_descriptor kzalloc mem_of stat opened
    ]
