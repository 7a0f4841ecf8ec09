-- ===== src/Fat16/Tests.antt =====
-- fat16.c on a disk with the one file A.TXT.
use boi_os.Prelude.{
  ℕ, ◌<◌, ◌≤◌, ◌^◌, Option, ◌+◌, ◌*◌, ◌%◌, ◌≡◌, refl, sym, Bool, true, false, some, List, [], ◌∷◌,
  ◌==◌, if◌then◌else◌, arith,
}
use mathlib.Core.Path.{subst}
use boi_os.Prelude.Mem.{Mem}
use boi_os.Status.{ok}
use boi_os.Disk.{Controller}
use boi_os.Disk.Stream.{Serves, Filled}
use boi_os.Fat16.Layout.{
  FatDirectoryItem, FatPrivate, decode_header, decode_item, directory_item, is_subdirectory,
  fat16_get_first_cluster,
}
use boi_os.Fat16.Clusters.Chain.{Mounted, SameVolume}
use boi_os.Fat16.Clusters.Reads.{place}
use boi_os.Fat16.Directory.{fat16_get_total_items_for_directory, fat16_resolve}
use boi_os.Fat16.Directory.Count.{
  BlankAfter, used_items, fat16_get_total_items_for_directory-used_items,
}
use boi_os.Fat16.Directory.Resolve.{
  root_sector, root_bytes, Describes, RootInReach, fat16_resolve-Describes,
}
use boi_os.Fat16.Entries.{fat16_find_item_in_directory}
use boi_os.Fat16.Entries.Find.{
  item_found, FilesNamed, LastNamed, fat16_find_item_in_directory-LastNamed,
}
use boi_os.Fat16.Files.{fat16_read}
use boi_os.Fat16.Files.Position.{open_at}
use boi_os.Fat16.Files.Blocks.{fat16_read-Filled}

-- One sector in a cluster, one reserved, one table of one sector, 16 entries in the root directory at sector
-- 2, which has the item at 1024; its cluster 2 is at sector 3.
abbrev cell : ℕ → ℕ
cell a =
    if a == 13
    then 1
    else if a == 14
    then 1
    else if a == 16
    then 1
    else if a == 17
    then 16
    else if a == 22
    then 1
    else if a == 38
    then 0x29
    else if a == 1024
    then b'A'
    else if a == 1025
    then b' '
    else if a == 1032
    then b'T'
    else if a == 1033
    then b'X'
    else if a == 1034
    then b'T'
    else if a == 1050
    then 2
    else if a == 1053
    then 4
    else if a == 1700
    then 77
    else 0

abbrev image : ℕ → ℕ
image a = cell a % 256

abbrev start_of : ℕ → ℕ → ℕ → ℕ
start_of low mid high = (low + 256 * mid + 65536 * high) * 512

abbrev controller_of : (ℕ → ℕ) → Controller
controller_of bytes c i =
    bytes (start_of c.lba_low c.lba_mid c.lba_high + 2 * i)
    + 256 * bytes (start_of c.lba_low c.lba_mid c.lba_high + 2 * i + 1)

controller-Serves : Serves (controller_of image) image
controller-Serves = record { bytes = λ a. omega arith; words = λ low mid high i a b c d. refl }

-- A disk of zeros.
abbrev blank : ℕ → ℕ
blank a = 0

blank-Serves : Serves (controller_of blank) blank
blank-Serves = record { bytes = λ a. omega arith; words = λ low mid high i a b c d. refl }

abbrev volume : FatPrivate
volume = record {
  header = decode_header image;
  root_directory = record {
    items = λ a. image (1024 + a);
    total_items = ok 1;
    sector_position = 2;
    ending_sector_position = 3;
  };
  cluster_read_stream = record { position = 0; disk = true };
  fat_read_stream = record { position = 0; disk = true };
  directory_stream = record { position = 0; disk = true };
}

volume-Mounted : Mounted volume
volume-Mounted = record { clusters = refl; table = refl; directories = refl }

abbrev item : FatDirectoryItem
item = decode_item image 1024

abbrev name : List ℕ
name = b'a' ∷ b'.' ∷ b't' ∷ b'x' ∷ b't' ∷ []

abbrev always : ℕ → Bool
always n = true

item-real : 2 ≤ fat16_get_first_cluster item
unfolding fat16_get_first_cluster
item-real = omega arith

item-in_reach : place volume (fat16_get_first_cluster item) + 512 < 2 ^ 31
unfolding fat16_get_first_cluster
item-in_reach = omega arith

one-BlankAfter : BlankAfter image (root_sector image * 512) 1
one-BlankAfter = (omega arith, refl)

one-RootInReach : RootInReach (root_sector image) (root_bytes image) 1
one-RootInReach = record { records = omega arith; bytes = omega arith }

one-FilesNamed : FilesNamed volume.root_directory name 1
one-FilesNamed i lt e =
    let first : i ≡ 0 = omega arith in
    subst (λ x. is_subdirectory (directory_item volume.root_directory x) ≡ false) (sym first) refl

-- Two blocks of 200 bytes from the position 100 of the cluster at sector 3.
fat16_read-Filled_example :
    (p' : FatPrivate) × (m' : Mem) × (fat16_read
        (controller_of image)
        volume
        (open_at item 100)
        200
        2
        (λ a. 0)
        4096
      ≡ some (ok 2, p', m'))
    × SameVolume volume p'
    × Filled image (place volume (fat16_get_first_cluster item) + 100) (λ a. 0) 4096 400 m'
fat16_read-Filled_example =
    fat16_read-Filled (controller_of image) image volume item 100 200 2 (λ a. 0) 4096
      controller-Serves volume-Mounted (omega arith) (omega arith) item-real item-in_reach

fat16_get_total_items_for_directory-used_items_example :
    fat16_get_total_items_for_directory (controller_of image) volume 2 5
    ≡ some (
      ok (used_items image 1024 1),
      record volume { directory_stream = record { position = 1088; disk = true } },
    )
fat16_get_total_items_for_directory-used_items_example =
    fat16_get_total_items_for_directory-used_items 1 5 (controller_of image) image volume 2
      controller-Serves volume-Mounted (omega arith) (omega arith) one-BlankAfter

fat16_resolve-Describes_example :
    (p : FatPrivate) × (fat16_resolve (controller_of image) always 5
      ≡ some (ok 0, record { fs_private = some p; filesystem = true }))
    × Describes image (root_sector image) (root_bytes image) 1 p
fat16_resolve-Describes_example =
    fat16_resolve-Describes (controller_of image) image always 1 5 controller-Serves refl
      one-BlankAfter (omega arith) one-RootInReach refl

fat16_find_item_in_directory-LastNamed_example :
    (found : Option ℕ) × (fat16_find_item_in_directory
        (controller_of image)
        always
        volume
        volume.root_directory
        name
        5
      ≡ some (item_found volume.root_directory found, volume))
    × LastNamed volume.root_directory name 1 found
fat16_find_item_in_directory-LastNamed_example =
    fat16_find_item_in_directory-LastNamed (controller_of image) always volume volume.root_directory
      name 5 (λ n. refl)
      (omega arith, (omega arith, (omega arith, (omega arith, (omega arith, tt))))) one-FilesNamed
