-- ===== src/Process/Load.antt =====
-- process_load_data: a program from a file, as an ELF file or else as a binary. `kzalloc`, `kfree` and
-- `mem_of` are as in Elf/Load.
pub mod Closes
use boi_os.Prelude.{ℕ, zero, suc, true, false, Option, none, some, ◌==◌}
use boi_os.Prelude.Int.{pos}
use boi_os.Prelude.Mem.{Mem}
use boi_os.Status.{Response, ok, err, eio, enomem, einformat}
use boi_os.File.{Files, Filesystem, FileStat, fopen, fstat, fread, fclose}
use boi_os.Elf.{ElfFile}
use boi_os.Elf.Load.{elf_load}
use boi_os.Process.Image.{Program, elf_program, binary_program}

-- Behind the read: only one block is a success.
binary_read : {W : Type 0} → (W → ℕ → W) → ℕ → ℕ → Response × W → Response × Option Program × W
binary_read kfree ptr size (err e, w) = (err eio, none, kfree w ptr)
binary_read kfree ptr size (ok n, w) = elim (n == 1) [
  | true ↦ (ok 0, some (binary_program ptr size), w)
  | false ↦ (err eio, none, kfree w ptr)
]

binary_room :
    {W P : Type 0} → (W → ℕ → W) → Files W P → ℕ → ℕ → ℕ × W → Response × Option Program × W
unfolding binary_read
binary_room kfree files fd size (ptr, w) = elim (ptr == 0) [
  | true ↦ (err enomem, none, w)
  | false ↦ binary_read kfree ptr size (fread files w ptr size 1 (pos fd))
]

-- A stat that is not 0 ends the load with its number.
binary_stat :
    {W P : Type 0}
    → (W → ℕ → ℕ × W)
    → (W → ℕ → W)
    → Files W P
    → ℕ
    → Response × FileStat × W
    → Response × Option Program × W
unfolding binary_room
binary_stat kzalloc kfree files fd (err e, stat, w) = (err e, none, w)
binary_stat kzalloc kfree files fd (ok zero, stat, w) =
    binary_room kfree files fd stat.file_size (kzalloc w stat.file_size)
binary_stat kzalloc kfree files fd (ok (suc n), stat, w) = (ok (suc n), none, w)

-- What fclose returns is not looked at.
binary_close :
    {W P : Type 0}
    → Files W P
    → ℕ
    → Response × Option Program × W
    → Response × Option Program × Files W P × W
binary_close files fd (res, program, w) =
    let (r, files', w') = fclose files w (pos fd) in (res, program, files', w')

-- Without a descriptor, the number 0 is closed.
binary_opened :
    {W P : Type 0}
    → (W → ℕ → ℕ × W)
    → (W → ℕ → W)
    → FileStat
    → ℕ × Files W P × W
    → Response × Option Program × Files W P × W
unfolding binary_stat binary_close
binary_opened kzalloc kfree stat (zero, files, w) = binary_close files 0 (err eio, none, w)
binary_opened kzalloc kfree stat (suc n, files, w) =
    binary_close files (suc n)
      (binary_stat kzalloc kfree files (suc n) (fstat files w (pos (suc n)) stat))

process_load_binary :
    {W P : Type 0}
    → (W → ℕ → ℕ × W)
    → (W → ℕ → W)
    → (W → Mem)
    → FileStat
    → Files W P
    → Option (Filesystem W P)
    → W
    → ℕ
    → ℕ
    → ℕ
    → Option (Response × Option Program × Files W P × W)
unfolding binary_opened
process_load_binary kzalloc kfree mem_of stat files disk_filesystem w filename mode_r fuel =
    elim (fopen files disk_filesystem w (mem_of w) filename mode_r fuel) [
      | none ↦ none
      | some opened ↦ some (binary_opened kzalloc kfree stat opened)
    ]

as_program : Option ElfFile → Option Program
as_program none = none
as_program (some file) = some (elf_program file)

-- Only -EINFORMAT of process_load_elf leads on to the binary.
or_binary :
    {W P : Type 0}
    → (Files W P → W → Option (Response × Option Program × Files W P × W))
    → Response × Option ElfFile × Files W P × W
    → Option (Response × Option Program × Files W P × W)
unfolding as_program
or_binary binary (err einformat, file, files, w) = binary files w
or_binary binary (res, file, files, w) = some (res, as_program file, files, w)

-- `stat` is what the locals hold before.
pub process_load_data :
    {W P : Type 0}
    → (W → ℕ → ℕ × W)
    → (W → ℕ → W)
    → (W → Mem)
    → FileStat
    → Files W P
    → Option (Filesystem W P)
    → W
    → ℕ
    → ℕ
    → ℕ
    → Option (Response × Option Program × Files W P × W)
unfolding or_binary process_load_binary
process_load_data kzalloc kfree mem_of stat files disk_filesystem w filename mode_r fuel =
    elim (elf_load kzalloc mem_of stat files disk_filesystem w filename mode_r fuel) [
      | none ↦ none
      | some result ↦
          or_binary
            (λ files' w'.
              process_load_binary kzalloc kfree mem_of stat files' disk_filesystem w' filename
                mode_r fuel)
            result
    ]
