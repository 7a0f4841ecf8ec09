-- ===== src/File.antt =====
-- src/fs/file.c: the tables of filesystems and of file descriptors. A filesystem is the record of its
-- function pointers, over a state `W` of its own (the disk and the kernel's memory) and private data `P`.
-- There is one disk. kzalloc is taken to find room for a descriptor, since the code does not look.
pub mod Table
mod Tests
use boi_os.Prelude.{
  ℕ, zero, suc, ◌+◌, ◌-◌, ◌^◌, Bool, true, false, ◌&&◌, ◌||◌, Option, none, some, List, [], ◌∷◌,
  ltb, leb, ◌==◌, if◌then◌else◌,
}
use boi_os.Prelude.Int.{ℤ, pos, negsuc}
use boi_os.Prelude.Mem.{Mem}
use boi_os.Prelude.Slots.{set_slot, first_free}
use boi_os.Status.{Errno, Response, ok, err, eio, einvarg, enomem}
use boi_os.PathParser.{PathRoot, pathparser_parse}

abbrev pub max_filesystems : ℕ
max_filesystems = 12

abbrev pub max_file_descriptors : ℕ
max_file_descriptors = 512

pub data SeekMode : Type 0 where
  seek_set seek_cur seek_end : SeekMode

pub data FileMode : Type 0 where
  read write append invalid : FileMode

pub record FileStat : Type 0 where
  pub flags : ℕ
  pub file_size : ℕ

-- What `open` returns: the private data, or an error in place of the pointer.
pub data Opened (P : Type 0) : Type 0 where
  private_data : P → Opened P
  open_error : Errno → Opened P

-- `struct filesystem`, with the functions' effects on the state.
pub record Filesystem (W P : Type 0) : Type 0 where
  pub resolve : W → Response × W
  pub open_function : List (List ℕ) → FileMode → W → Opened P × W
  pub read_function : P → ℕ → ℕ → ℕ → W → Response × W
  pub seek_function : P → ℕ → SeekMode → W → Response × W
  pub stat_function : P → FileStat → W → Response × FileStat × W
  pub close_function : P → W → Response × W

-- `struct file_descriptor`
pub record FileDescriptor (W P : Type 0) : Type 0 where
  pub index : ℕ
  pub filesystem : Filesystem W P
  pub private_of : P

-- The two tables.
pub record Files (W P : Type 0) : Type 0 where
  pub filesystems : ℕ → Option (Filesystem W P)
  pub file_descriptors : ℕ → Option (FileDescriptor W P)

-- The index of the free slot.
pub fs_get_free_filesystem : {W P : Type 0} → Files W P → Option ℕ
fs_get_free_filesystem files = first_free files.filesystems 0 max_filesystems

insert_at : {W P : Type 0} → Files W P → Filesystem W P → Option ℕ → Option (Files W P)
insert_at files filesystem none = none
insert_at files filesystem (some i) = some (record {
  filesystems = set_slot files.filesystems i (some filesystem);
  file_descriptors = files.file_descriptors;
})

-- `none` is the endless loop of a full table.
pub fs_insert_filesystem : {W P : Type 0} → Files W P → Filesystem W P → Option (Files W P)
unfolding insert_at
fs_insert_filesystem files filesystem = insert_at files filesystem (fs_get_free_filesystem files)

-- The tables that the two memsets leave.
abbrev pub no_files : {W P : Type 0} → Files W P
no_files = record { filesystems = λ i. none; file_descriptors = λ i. none }

-- `fat16_init` is the filesystem that is inserted.
pub fs_init : {W P : Type 0} → Filesystem W P → Option (Files W P)
fs_init fat16_init = fs_insert_filesystem no_files fat16_init

abbrev pub resolved : Response → Bool
resolved (ok n) = n == 0
resolved (err e) = false

-- `k` rounds are left, at the slot `i`.
resolve_loop :
    {W P : Type 0} → (ℕ → Option (Filesystem W P)) → W → ℕ → ℕ → Option (Filesystem W P) × W
resolve_loop filesystems w i zero = (none, w)
resolve_loop filesystems w i (suc k) = elim (filesystems i) [
  | none ↦ resolve_loop filesystems w (i + 1) k
  | some fs ↦
      let (response, w') = fs.resolve w in
      elim (resolved response) [
        | true ↦ (some fs, w')
        | false ↦ resolve_loop filesystems w' (i + 1) k
      ]
]

pub fs_resolve : {W P : Type 0} → Files W P → W → Option (Filesystem W P) × W
unfolding resolve_loop
fs_resolve files w = resolve_loop files.filesystems w 0 max_filesystems

-- strncmp of one byte compares the first byte of the string.
pub file_get_mode_by_string : Mem → ℕ → FileMode
file_get_mode_by_string m str =
    if m str == b'r'
    then read
    else if m str == b'w'
    then write
    else if m str == b'a'
    then append
    else invalid

descriptor_at : {W P : Type 0} → Files W P → Filesystem W P → P → Option ℕ → Response × Files W P
descriptor_at files filesystem private_of none = (err enomem, files)
descriptor_at files filesystem private_of (some i) = (
  ok (i + 1),
  record {
    filesystems = files.filesystems;
    file_descriptors =
        set_slot files.file_descriptors i
          (some (record { index = i + 1; filesystem = filesystem; private_of = private_of }));
  },
)

-- The descriptor with its index, and the table with it; its other fields are set by the caller.
pub file_new_descriptor : {W P : Type 0} → Files W P → Filesystem W P → P → Response × Files W P
unfolding descriptor_at
file_new_descriptor files filesystem private_of =
    descriptor_at files filesystem private_of
      (first_free files.file_descriptors 0 max_file_descriptors)

pub file_get_descriptor : {W P : Type 0} → Files W P → ℤ → Option (FileDescriptor W P)
file_get_descriptor files (negsuc n) = none
file_get_descriptor files (pos fd) =
    if fd == 0 || leb max_file_descriptors fd then none else files.file_descriptors (fd - 1)

pub file_free_descriptor : {W P : Type 0} → Files W P → FileDescriptor W P → Files W P
file_free_descriptor files desc = record {
  filesystems = files.filesystems;
  file_descriptors = set_slot files.file_descriptors (desc.index - 1) none;
}

-- A negative response is turned into 0.
abbrev pub or_zero : Response → ℕ
or_zero (ok n) = n
or_zero (err e) = 0

describe : {W P : Type 0} → Files W P → Filesystem W P → Opened P × W → ℕ × Files W P × W
unfolding file_new_descriptor
describe files filesystem (open_error e, w) = (0, files, w)
describe files filesystem (private_data p, w) =
    let (response, files') = file_new_descriptor files filesystem p in (or_zero response, files', w)

-- A root without parts is the null `first`; the drive 0 is the only disk.
open_parts :
    {W P : Type 0}
    → Files W P
    → Option (Filesystem W P)
    → W
    → ℤ
    → List (List ℕ)
    → FileMode
    → ℕ × Files W P × W
unfolding describe
open_parts files disk_filesystem w drive_no [] mode = (0, files, w)
open_parts files disk_filesystem w (negsuc n) (part ∷ parts) mode = (0, files, w)
open_parts files disk_filesystem w (pos (suc n)) (part ∷ parts) mode = (0, files, w)
open_parts files none w (pos zero) (part ∷ parts) mode = (0, files, w)
open_parts files (some fs) w (pos zero) (part ∷ parts) invalid = (0, files, w)
open_parts files (some fs) w (pos zero) (part ∷ parts) mode =
    describe files fs (fs.open_function (part ∷ parts) mode w)

open_root :
    {W P : Type 0}
    → Files W P
    → Option (Filesystem W P)
    → W
    → Option PathRoot
    → FileMode
    → ℕ × Files W P × W
unfolding open_parts
open_root files disk_filesystem w none mode = (0, files, w)
open_root files disk_filesystem w (some root) mode =
    open_parts files disk_filesystem w root.drive_no root.parts mode

-- `disk_filesystem` is the filesystem of the disk. The outer option is the fuel of the path's loops.
pub fopen :
    {W P : Type 0}
    → Files W P
    → Option (Filesystem W P)
    → W
    → Mem
    → ℕ
    → ℕ
    → ℕ
    → Option (ℕ × Files W P × W)
unfolding open_root file_get_mode_by_string
fopen files disk_filesystem w m filename mode_str fuel = elim (pathparser_parse m filename fuel) [
  | none ↦ none
  | some root_path ↦
      some (open_root files disk_filesystem w root_path (file_get_mode_by_string m mode_str))
]

pub fstat : {W P : Type 0} → Files W P → W → ℤ → FileStat → Response × FileStat × W
unfolding file_get_descriptor
fstat files w fd stat = elim (file_get_descriptor files fd) [
  | none ↦ (err eio, stat, w)
  | some desc ↦ desc.filesystem.stat_function desc.private_of stat w
]

-- The offset is passed on as an unsigned number.
pub fseek : {W P : Type 0} → Files W P → W → ℤ → ℕ → SeekMode → Response × W
unfolding file_get_descriptor
fseek files w fd offset whence = elim (file_get_descriptor files fd) [
  | none ↦ (err eio, w)
  | some desc ↦ desc.filesystem.seek_function desc.private_of offset whence w
]

abbrev pub not_positive : ℤ → Bool
not_positive (pos n) = n == 0
not_positive (negsuc n) = true

pub fread : {W P : Type 0} → Files W P → W → ℕ → ℕ → ℕ → ℤ → Response × W
unfolding file_get_descriptor
fread files w ptr size nmemb fd =
    if size == 0 || nmemb == 0 || not_positive fd
    then (err einvarg, w)
    else elim (file_get_descriptor files fd) [
      | none ↦ (err einvarg, w)
      | some desc ↦ desc.filesystem.read_function desc.private_of size nmemb ptr w
    ]

closed : {W P : Type 0} → Files W P → FileDescriptor W P → Response × W → Response × Files W P × W
unfolding file_free_descriptor
closed files desc (err e, w) = (err e, files, w)
closed files desc (ok r, w) = (ok r, if r == 0 then file_free_descriptor files desc else files, w)

pub fclose : {W P : Type 0} → Files W P → W → ℤ → Response × Files W P × W
unfolding file_get_descriptor closed
fclose files w fd = elim (file_get_descriptor files fd) [
  | none ↦ (err eio, files, w)
  | some desc ↦ closed files desc (desc.filesystem.close_function desc.private_of w)
]
