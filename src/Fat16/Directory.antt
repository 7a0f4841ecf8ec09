-- ===== src/Fat16/Directory.antt =====
-- The root directory of a volume, and how fat16_resolve finds it. `room n` is whether kzalloc finds room for
-- `n` bytes, the same for all calls of one operation. The disk is the one with the id 0. What is freed is
-- not kept track of.
pub mod Count
pub mod Resolve
use boi_os.Prelude.{
  ℕ, zero, suc, ◌+◌, ◌*◌, ◌/◌, ◌%◌, ◌^◌, Bool, true, false, not, Option, none, some, ◌==◌,
  if◌then◌else◌,
}
use boi_os.Prelude.Do.{◌>>=◌}
use boi_os.Prelude.Int.{pos}
use boi_os.Prelude.Mem.{Mem}
use boi_os.Status.{Response, ok, err, eio, enomem, efsnotus}
use boi_os.Disk.{
  Controller, DiskStream, sector_size, diskstreamer_new, diskstreamer_seek, diskstreamer_read,
}
use boi_os.Fat16.Layout.{
  FatH, FatDirectoryItem, FatDirectory, FatPrivate, decode_header, decode_item, fat_h_size,
  fat_directory_item_size, fat16_sector_to_absolute,
}
use boi_os.Fat16.Clusters.{read_fuel, seek_read}

-- Whether the loop of the count ends at a record, and whether it counts one.
abbrev pub is_blank : FatDirectoryItem → Bool
is_blank item = item.file_name 0 == 0x00

abbrev pub is_used : FatDirectoryItem → Bool
is_used item = not (item.file_name 5 == 0xE5)

-- The rest of the loop, unless the read failed.
after_item :
    Response × DiskStream × Mem
    → (DiskStream → FatDirectoryItem → Option (Response × DiskStream))
    → Option (Response × DiskStream)
after_item (err e, stream, m) rest = some (err eio, stream)
after_item (ok r, stream, m) rest = rest stream (decode_item m 0)

-- With fuel for the records. The local `item` holds nothing that is read before it is written.
count_loop : Controller → DiskStream → ℕ → ℕ → Option (Response × DiskStream)
unfolding after_item
count_loop controller stream i zero = none
count_loop controller stream i (suc fuel) = do
  read ←
      diskstreamer_read controller (λ a. 0) (λ a. 0) stream 0 fat_directory_item_size
        (read_fuel fat_directory_item_size)
  after_item read (λ stream' item. elim (is_blank item) [
    | true ↦ some (ok i, stream')
    | false ↦ count_loop controller stream' (if is_used item then i + 1 else i) fuel
  ])

counted : FatPrivate → Response × DiskStream → Response × FatPrivate
counted private_of (response, stream) = (response, record private_of { directory_stream = stream })

-- The seek always succeeds.
pub fat16_get_total_items_for_directory :
    Controller → FatPrivate → ℕ → ℕ → Option (Response × FatPrivate)
unfolding count_loop counted
fat16_get_total_items_for_directory controller private_of directory_start_sector fuel = do
  let directory_start_pose = directory_start_sector * sector_size % 2 ^ 32
  result ←
      count_loop controller (diskstreamer_seek private_of.directory_stream directory_start_pose).1 0
        fuel
  some (counted private_of result)

unfoldable pub root_dir_sector_pos : FatH → ℕ
root_dir_sector_pos header =
    header.primary_header.fat_copies * header.primary_header.sectors_per_fat
    + header.primary_header.reserved_sectors

unfoldable pub root_dir_size : FatH → ℕ
root_dir_size header = header.primary_header.root_entries * fat_directory_item_size

-- What stands behind the read of the root directory's items, whose count is `total_items`.
with_root : FatPrivate → Response → Response × DiskStream × Mem → Response × FatPrivate
with_root private_of total_items (err e, stream, dir) =
    (err eio, record private_of { directory_stream = stream })
with_root private_of total_items (ok r, stream, dir) = (
  ok 0,
  record private_of {
    directory_stream = stream;
    root_directory = record {
      items = dir;
      total_items = total_items;
      sector_position = root_dir_sector_pos private_of.header;
      ending_sector_position =
          root_dir_sector_pos private_of.header + root_dir_size private_of.header / sector_size;
    };
  },
)

load_root : Controller → (ℕ → Bool) → Response × FatPrivate → Option (Response × FatPrivate)
unfolding with_root
load_root controller room (total_items, private_of) =
    elim (room (root_dir_size private_of.header)) [
      | false ↦ some (err enomem, private_of)
      | true ↦ do
        read ←
            seek_read controller private_of.directory_stream
              (fat16_sector_to_absolute (root_dir_sector_pos private_of.header)) (λ a. 0) 0
              (root_dir_size private_of.header)
        some (with_root private_of total_items read)
    ]

-- A count that fails is stored all the same. The number of sectors that is rounded up is not used.
pub fat16_get_root_directory :
    Controller → (ℕ → Bool) → FatPrivate → ℕ → Option (Response × FatPrivate)
unfolding load_root
fat16_get_root_directory controller room private_of fuel = do
  counted_items ←
      fat16_get_total_items_for_directory controller private_of
        (root_dir_sector_pos private_of.header) fuel
  load_root controller room counted_items

-- `struct disk`, as far as a filesystem changes it; `filesystem` is whether it points to `fat16_fs`.
pub record Mount : Type 0 where
  pub fs_private : Option FatPrivate
  pub filesystem : Bool

-- The zeroed structure with its three streams on the disk.
unfoldable pub fat16_init_private : FatPrivate
fat16_init_private =
    let stream : DiskStream = record { position = 0; disk = true } in
    record {
      header = decode_header (λ a. 0);
      root_directory = record {
        items = λ a. 0;
        total_items = ok 0;
        sector_position = 0;
        ending_sector_position = 0;
      };
      cluster_read_stream = stream;
      fat_read_stream = stream;
      directory_stream = stream;
    }

-- Behind `out`: a volume that did not resolve is unbound.
resolved_as : Response × FatPrivate → Response × Mount
resolved_as (ok r, private_of) = (ok r, record { fs_private = some private_of; filesystem = true })
resolved_as (err e, private_of) = (err e, record { fs_private = none; filesystem = true })

-- Any failure of fat16_get_root_directory is -EIO.
or_eio : Response × FatPrivate → Response × FatPrivate
or_eio (ok r, private_of) = (ok r, private_of)
or_eio (err e, private_of) = (err eio, private_of)

with_header :
    Controller
    → (ℕ → Bool)
    → FatPrivate
    → ℕ
    → Response × DiskStream × Mem
    → Option (Response × FatPrivate)
unfolding or_eio
with_header controller room private_of fuel (err e, stream, m) = some (err eio, private_of)
with_header controller room private_of fuel (ok r, stream, m) = elim (m 38 == 0x29) [
  | false ↦ some (err efsnotus, private_of)
  | true ↦ do
    result ←
        fat16_get_root_directory controller room (record private_of { header = decode_header m })
          fuel
    some (or_eio result)
]

-- The private data and the streamers of fat16_init_private find room, since the code does not look.
pub fat16_resolve : Controller → (ℕ → Bool) → ℕ → Option (Response × Mount)
unfolding with_header resolved_as
fat16_resolve controller room fuel = elim (diskstreamer_new (pos 0)) [
  | none ↦ some (resolved_as (err enomem, fat16_init_private))
  | some stream ↦ do
    read ← diskstreamer_read controller (λ a. 0) (λ a. 0) stream 0 fat_h_size (read_fuel fat_h_size)
    result ← with_header controller room fat16_init_private fuel read
    some (resolved_as result)
]
