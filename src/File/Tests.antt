-- ===== src/File/Tests.antt =====
-- file.c with a filesystem that opens everything.
use boi_os.Prelude.{
  ℕ, ◌+◌, ◌-◌, ◌≡◌, refl, Option, none, some, List, [], ◌∷◌, get_elem?, ◌==◌, if◌then◌else◌, ne→==,
  arith,
}
use boi_os.Prelude.Mem.{Mem}
use boi_os.Prelude.Slots.{FirstFree}
use boi_os.Status.{ok}
use boi_os.CString.Laws.{IsString}
use boi_os.File.{
  Filesystem, FileDescriptor, Files, no_files, private_data, file_new_descriptor, fopen,
}
use boi_os.File.Table.{Opens, ClosesBack, fopen-Opens, fclose-file_new_descriptor}

-- The state counts the files that were opened, and the private data is their number.
abbrev counting : Filesystem ℕ ℕ
counting = record {
  resolve = λ w. (ok 0, w);
  open_function = λ parts mode w. (private_data w, w + 1);
  read_function = λ p size nmemb out w. (ok nmemb, w);
  seek_function = λ p offset mode w. (ok 0, w);
  stat_function = λ p stat w. (ok 0, stat, w);
  close_function = λ p w. (ok 0, w);
}

abbrev desc : FileDescriptor ℕ ℕ
desc = record { index = 1; filesystem = counting; private_of = 0 }

abbrev byte_or_zero : Option ℕ → ℕ
byte_or_zero none = 0
byte_or_zero (some c) = c

abbrev path : List ℕ
path = b'0' ∷ b':' ∷ b'/' ∷ b'a' ∷ []

-- The path at 1000, and the mode "r" at 10.
abbrev mem : Mem
mem a = if a == 10 then b'r' else byte_or_zero (get_elem? path (a - 1000))

path-IsString : IsString mem 1000 path
path-IsString = omega arith

fopen-Opens_example :
    (r : ℕ × Files ℕ ℕ × ℕ) × (fopen no_files (some counting) 0 mem 1000 10 20 ≡ some r)
    × Opens (some counting) no_files r
fopen-Opens_example =
    fopen-Opens no_files (some counting) 0 path mem 1000 10 20 path-IsString (omega arith)

none_taken : FirstFree {A = FileDescriptor ℕ ℕ} (λ i. none) 0 512 0
none_taken = record {
  from = omega arith;
  below = omega arith;
  free = refl;
  taken = λ l lo hi. absurd (omega arith);
}

fclose-file_new_descriptor_example :
    ClosesBack no_files 3 3 0 (file_new_descriptor no_files counting 0)
fclose-file_new_descriptor_example =
    fclose-file_new_descriptor no_files counting 0 3 3 0 none_taken (omega arith) refl

abbrev all_but_last : Files ℕ ℕ
all_but_last = record {
  filesystems = λ i. none;
  file_descriptors = λ i. if i == 511 then none else some desc;
}

only_last : FirstFree all_but_last.file_descriptors 0 512 511
only_last = record {
  from = omega arith;
  below = omega arith;
  free = refl;
  taken = λ l lo hi. (desc, rw (ne→== l 511 (omega arith)));
}
