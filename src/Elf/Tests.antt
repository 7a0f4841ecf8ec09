-- ===== src/Elf/Tests.antt =====
-- elfloader.c on a program with one segment at 0x400000, loaded from the path 0:/a by a filesystem that
-- opens everything.
use boi_os.Prelude.{
  ℕ, ◌+◌, ◌-◌, ◌≡◌, refl, sym, Option, none, some, List, [], ◌∷◌, get_elem?, ◌==◌, ltb,
  if◌then◌else◌, arith,
}
use mathlib.Core.Path.{subst}
use boi_os.Prelude.Mem.{Mem}
use boi_os.Status.{Response, ok}
use boi_os.CString.Laws.{IsString}
use boi_os.File.{Filesystem, Files, no_files, private_data}
use boi_os.Elf.{ElfFile, elf_process_pheaders}
use boi_os.Elf.Segments.{phdr_of, Fits, Loads, Covers, elf_process_pheaders-Covers}
use boi_os.Elf.Load.{elf_load, elf_file_at}
use boi_os.Elf.Load.Closes.{SameSlots, elf_load-SameSlots}

abbrev byte_or_zero : Option ℕ → ℕ
byte_or_zero none = 0
byte_or_zero (some c) = c

abbrev path : List ℕ
path = b'0' ∷ b':' ∷ b'/' ∷ b'a' ∷ []

-- The file at 4096, with its program header at 4148; the path at 1000, and the mode "r" at 10.
abbrev program : ℕ → ℕ
program a =
    if a == 4096
    then 0x7F
    else if a == 4097
    then b'E'
    else if a == 4098
    then b'L'
    else if a == 4099
    then b'F'
    else if a == 4100
    then 1
    else if a == 4101
    then 1
    else if a == 4124
    then 52
    else if a == 4140
    then 1
    else if a == 4148
    then 1
    else if a == 4158
    then 0x40
    else if a == 4164
    then 100
    else 0

abbrev mem : Mem
mem a =
    if a == 10
    then b'r'
    else if ltb a 2000
    then byte_or_zero (get_elem? path (a - 1000))
    else program a

abbrev file : ElfFile
file = elf_file_at 4096

one-Loads : Loads mem 4096 0 1 Fits
one-Loads j lo hi e =
    let first : j ≡ 0 = omega (arith, hi) in
    subst (λ x. Fits (phdr_of mem 4096 x)) (sym first) (omega arith)

elf_process_pheaders-Covers_example :
    (file' : ElfFile) × (elf_process_pheaders mem file ≡ some file')
    × Loads mem 4096 0 1 (Covers file')
elf_process_pheaders-Covers_example = elf_process_pheaders-Covers mem file (omega arith) one-Loads

abbrev opening : Filesystem ℕ ℕ
opening = record {
  resolve = λ w. (ok 0, w);
  open_function = λ parts mode w. (private_data w, w + 1);
  read_function = λ p size nmemb out w. (ok nmemb, w);
  seek_function = λ p offset mode w. (ok 0, w);
  stat_function = λ p stat w. (ok 0, record { flags = 0; file_size = 200 }, w);
  close_function = λ p w. (ok 0, w);
}

path-IsString : IsString mem 1000 path
path-IsString = omega arith

elf_load-SameSlots_example :
    (x : Response × Option ElfFile × Files ℕ ℕ × ℕ) × (elf_load
        (λ w size. (4096, w))
        (λ w. mem)
        (record { flags = 0; file_size = 0 })
        no_files
        (some opening)
        0
        1000
        10
        20
      ≡ some x)
    × SameSlots no_files x
elf_load-SameSlots_example =
    elf_load-SameSlots (λ w size. (4096, w)) (λ w. mem) (record { flags = 0; file_size = 0 })
      no_files opening 0 path 1000 10 20 0 path-IsString (omega arith) refl (omega arith)
      (λ p w. (w, refl))
