-- ===== src/Fat16/Entries.antt =====
-- Directory entries by name, from the root directory down a path. `room` is kzalloc's, as in Directory.
-- `none` is fuel that ran out, or a read through a pointer that nothing can be read through: a missing
-- item in the middle of a path, or a directory that was freed.
pub mod Find
use boi_os.Prelude.{
  ℕ, zero, suc, ◌+◌, ◌-◌, ◌*◌, ◌%◌, ◌^◌, Bool, true, false, Option, none, some, List, [], ◌∷◌, ltb,
  ◌==◌, if◌then◌else◌, get_elem?,
}
use boi_os.Prelude.Do.{◌>>=◌}
use boi_os.Prelude.Int.{pos, is_zero}
use boi_os.Prelude.Mem.{Mem}
use boi_os.Status.{Response, ok, err, eio, enomem, erdonly}
use boi_os.CString.{istrncmp}
use boi_os.File.{FileMode, read, or_zero, Opened, private_data, open_error}
use boi_os.PathParser.{max_path}
use boi_os.Disk.{Controller}
use boi_os.Fat16.Layout.{
  FatDirectoryItem, FatDirectory, FatItem, file_item, directory_item_of, FatFileDescriptor,
  FatPrivate, directory_item, fat_directory_item_size, is_subdirectory, fat16_get_first_cluster,
  fat16_cluster_to_sector,
}
use boi_os.Fat16.Names.{fat16_get_full_relative_filename}
use boi_os.Fat16.Clusters.{fat16_read_internal}
use boi_os.Fat16.Directory.{fat16_get_total_items_for_directory}

-- `sizeof` of the structures that are allocated.
abbrev pub size_of_fat_item : ℕ
size_of_fat_item = 8

abbrev pub size_of_fat_directory : ℕ
size_of_fat_directory = 16

-- The copy of an item, where `size` covers it and there is room.
unfoldable pub fat16_clone_directory_item :
    (ℕ → Bool) → FatDirectoryItem → ℕ → Option FatDirectoryItem
fat16_clone_directory_item room item size =
    if ltb size fat_directory_item_size then none else if room size then some item else none

-- Whether the directory holds its items, or was freed.
loaded_from : ℕ → Response × FatPrivate × Mem → Option FatDirectory × FatPrivate
loaded_from total_items (err e, private_of, m) = (none, private_of)
loaded_from total_items (ok r, private_of, m) = (
  some (record {
    items = m;
    total_items = ok total_items;
    sector_position = 0;
    ending_sector_position = 0;
  }),
  private_of,
)

-- A count that failed is a negative size, which is not followed.
load_items :
    Controller → (ℕ → Bool) → ℕ → Response × FatPrivate → Option (Option FatDirectory × FatPrivate)
unfolding loaded_from
load_items controller room cluster (err e, private_of) = none
load_items controller room cluster (ok total_items, private_of) =
    let directory_size = total_items * fat_directory_item_size in
    elim (room directory_size) [
      | false ↦ some (none, private_of)
      | true ↦ do
        result ← fat16_read_internal controller private_of cluster 0x00 directory_size (λ a. 0) 0
        some (loaded_from total_items result)
    ]

pub fat16_load_fat_directory :
    Controller
    → (ℕ → Bool)
    → FatPrivate
    → FatDirectoryItem
    → ℕ
    → Option (Option FatDirectory × FatPrivate)
unfolding load_items
fat16_load_fat_directory controller room private_of item fuel = elim (is_subdirectory item) [
  | false ↦ some (none, private_of)
  | true ↦ elim (room size_of_fat_directory) [
    | false ↦ some (none, private_of)
    | true ↦ do
      let cluster = fat16_get_first_cluster item
      let cluster_sector = fat16_cluster_to_sector private_of cluster
      result ← fat16_get_total_items_for_directory controller private_of cluster_sector fuel
      load_items controller room cluster result
  ]
]

as_directory : Option FatDirectory × FatPrivate → Option FatItem × FatPrivate
as_directory (directory, private_of) = (some (directory_item_of directory), private_of)

pub fat16_new_fat_item_or_directory_item :
    Controller
    → (ℕ → Bool)
    → FatPrivate
    → FatDirectoryItem
    → ℕ
    → Option (Option FatItem × FatPrivate)
unfolding as_directory
fat16_new_fat_item_or_directory_item controller room private_of item fuel =
    elim (room size_of_fat_item) [
      | false ↦ some (none, private_of)
      | true ↦ elim (is_subdirectory item) [
        | true ↦ do
          result ← fat16_load_fat_directory controller room private_of item fuel
          some (as_directory result)
        | false ↦ some (
          some (file_item (fat16_clone_directory_item room item fat_directory_item_size)),
          private_of,
        )
      ]
    ]

byte_or_zero : Option ℕ → ℕ
byte_or_zero none = 0
byte_or_zero (some c) = c

-- Memory with the part of a path at 128; the local `tmp_filename` is at 0.
unfoldable pub name_buffer : List ℕ → Mem
unfolding byte_or_zero
name_buffer file_name a =
    if ltb a max_path then 0 else byte_or_zero (get_elem? file_name (a - max_path))

-- Whether an item of a directory has the name.
pub matches : FatDirectoryItem → List ℕ → Bool
matches item file_name = is_zero (
    istrncmp (fat16_get_full_relative_filename (name_buffer file_name) item 0 max_path) 0 max_path
      max_path)

found_next :
    Option FatItem × FatPrivate
    → (Option FatItem → FatPrivate → Option (Option FatItem × FatPrivate))
    → Option (Option FatItem × FatPrivate)
found_next (f_item, private_of) rest = rest f_item private_of

-- `k` items are left, from the one number `i` on.
find_loop :
    Controller
    → (ℕ → Bool)
    → FatPrivate
    → FatDirectory
    → List ℕ
    → ℕ
    → Option FatItem
    → ℕ
    → ℕ
    → Option (Option FatItem × FatPrivate)
unfolding found_next
find_loop controller room private_of directory file_name fuel f_item i zero =
    some (f_item, private_of)
find_loop controller room private_of directory file_name fuel f_item i (suc k) =
    elim (matches (directory_item directory i) file_name) [
      | false ↦ find_loop controller room private_of directory file_name fuel f_item (i + 1) k
      | true ↦ do
        result ←
            fat16_new_fat_item_or_directory_item controller room private_of
              (directory_item directory i) fuel
        found_next result (λ f p. find_loop controller room p directory file_name fuel f (i + 1) k)
    ]

-- The loop runs no round for a count that failed.
pub fat16_find_item_in_directory :
    Controller
    → (ℕ → Bool)
    → FatPrivate
    → FatDirectory
    → List ℕ
    → ℕ
    → Option (Option FatItem × FatPrivate)
unfolding find_loop
fat16_find_item_in_directory controller room private_of directory file_name fuel =
    find_loop controller room private_of directory file_name fuel none 0
      (or_zero directory.total_items)

-- The parts behind the item that was found, down the path.
entry_loop :
    Controller
    → (ℕ → Bool)
    → ℕ
    → Option FatItem × FatPrivate
    → List (List ℕ)
    → Option (Option FatItem × FatPrivate)
entry_loop controller room fuel found [] = some found
entry_loop controller room fuel (none, private_of) (part ∷ parts) = none
entry_loop controller room fuel (some (file_item item), private_of) (part ∷ parts) =
    some (none, private_of)
entry_loop controller room fuel (some (directory_item_of none), private_of) (part ∷ parts) = none
entry_loop controller room fuel (some (directory_item_of (some directory)), private_of)
      (part ∷ parts) =
    do
      result ← fat16_find_item_in_directory controller room private_of directory part fuel
      entry_loop controller room fuel result parts

from_root :
    Controller
    → (ℕ → Bool)
    → ℕ
    → List (List ℕ)
    → Option FatItem × FatPrivate
    → Option (Option FatItem × FatPrivate)
unfolding entry_loop
from_root controller room fuel parts (none, private_of) = some (none, private_of)
from_root controller room fuel parts (some root_item, private_of) =
    entry_loop controller room fuel (some root_item, private_of) parts

-- A path has a first part.
pub fat16_get_directory_entry :
    Controller
    → (ℕ → Bool)
    → FatPrivate
    → List ℕ
    → List (List ℕ)
    → ℕ
    → Option (Option FatItem × FatPrivate)
unfolding from_root
fat16_get_directory_entry controller room private_of part parts fuel = do
  result ←
      fat16_find_item_in_directory controller room private_of private_of.root_directory part fuel
  from_root controller room fuel parts result
