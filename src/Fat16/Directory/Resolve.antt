-- ===== src/Fat16/Directory/Resolve.antt =====
-- What fat16_resolve binds to the disk.
use boi_os.Prelude.{
  ℕ, ◌+◌, ◌*◌, ◌/◌, ◌%◌, ◌^◌, ◌<◌, ◌≡◌, refl, ap, ◌∙◌, Bool, true, false, none, some, arith,
  if◌then◌else◌, ◌==◌, leb, ltb, ◌≢◌, ◌-◌, ◌&&◌,
}
use native.Mathlib.Nat.{mod-eq_of_lt, mul_comm}
use boi_os.Prelude.Mem.{Mem, read16}
use boi_os.Status.{Response, ok, err, efsnotus}
use boi_os.Disk.{Controller, DiskStream, diskstreamer_read}
use boi_os.Disk.Stream.{Serves, Filled, diskstreamer_new_lem, diskstreamer_read-Filled}
use boi_os.Fat16.Layout.{FatH, FatPrivate, decode_header, fat_h_size, fat16_sector_to_absolute}
use boi_os.Fat16.Clusters.{read_fuel}
use boi_os.Fat16.Clusters.Chain.{Mounted, seek_read-Filled}
use boi_os.Fat16.Directory.{
  root_dir_sector_pos, root_dir_size, with_root, load_root, fat16_get_root_directory,
  fat16_get_total_items_for_directory, fat16_init_private, resolved_as, or_eio, with_header,
  fat16_resolve,
}
use boi_os.Fat16.Directory.Count.{
  BlankAfter, used_items, fat16_get_total_items_for_directory-used_items,
}

-- The first sector of the root directory and the bytes of its items, by the layout of FAT16: behind the reserved
-- sectors and the copies of the table.
abbrev pub root_sector : (ℕ → ℕ) → ℕ
root_sector image = read16 image 14 + read16 image 22 * image 16

abbrev pub root_bytes : (ℕ → ℕ) → ℕ
root_bytes image = 32 * read16 image 17

-- A volume as the image describes it, with `n` records in front of the root directory's first blank one; the
-- directory is at a sector and has a size, and its items are counted by the sixth byte of their names.
pub record Describes (image : ℕ → ℕ) (sector size n : ℕ) (p : FatPrivate) : Type 0 where
  pub header : p.header ≡ decode_header image
  pub mounted : Mounted p
  pub items : (a : ℕ) → a < size → p.root_directory.items a ≡ image (sector * 512 + a)
  pub total_items : p.root_directory.total_items ≡ ok (used_items image (sector * 512) n)
  pub sector_position : p.root_directory.sector_position ≡ sector
  pub ending_sector_position : p.root_directory.ending_sector_position ≡ sector + size / 512

-- The root directory's place, within reach of a position.
pub record RootInReach (sector size n : ℕ) : Type 0 where
  pub records : sector * 512 + 32 * (n + 1) < 2 ^ 31
  pub bytes : sector * 512 + size < 2 ^ 31

root_sector-decode_header :
    (image : ℕ → ℕ) → root_dir_sector_pos (decode_header image) ≡ root_sector image
unfolding root_dir_sector_pos
root_sector-decode_header image =
    ap (λ x. x + read16 image 14) (mul_comm (image 16) (read16 image 22)) ∙ omega arith

root_bytes-decode_header : (image : ℕ → ℕ) → root_dir_size (decode_header image) ≡ root_bytes image
unfolding root_dir_size
root_bytes-decode_header image = omega arith

init-Mounted : Mounted fat16_init_private
unfolding fat16_init_private
init-Mounted = record { clusters = refl; table = refl; directories = refl }

-- The directory is loaded by `p`'s header, from the image.
load_root-Describes :
    (controller : Controller) (image : ℕ → ℕ) (room : ℕ → Bool) (sector size n : ℕ) (p : FatPrivate)
    → Serves controller image
    → Mounted p
    → p.header ≡ decode_header image
    → root_dir_sector_pos p.header ≡ sector
    → root_dir_size p.header ≡ size
    → RootInReach sector size n
    → room size ≡ true
    → (p' : FatPrivate) × (load_root controller room (ok (used_items image (sector * 512) n), p)
        ≡ some (ok 0, p'))
      × Describes image sector size n p'
unfolding load_root with_root fat16_sector_to_absolute
load_root-Describes controller image room sector size n p s mo h at bytes reach space =
    let position : sector * 512 % 2 ^ 32 ≡ sector * 512 =
      mod-eq_of_lt (omega (arith, reach.bytes)) in
    let (dir, e, f) =
      seek_read-Filled controller image p.directory_stream (sector * 512) (λ a. 0) 0 size s
        mo.directories reach.bytes in
    (
      record p {
        directory_stream = record { position = sector * 512 + size; disk = true };
        root_directory = record {
          items = dir;
          total_items = ok (used_items image (sector * 512) n);
          sector_position = sector;
          ending_sector_position = sector + size / 512;
        };
      },
      rw (load_root, bytes, space, at, bytes, position, e, with_root, at, bytes),
      record {
        header = h;
        mounted = record { clusters = mo.clusters; table = mo.table; directories = refl };
        items = λ a lt. f a ∙ inside image (sector * 512) size a lt;
        total_items = refl;
        sector_position = refl;
        ending_sector_position = refl;
      },
    )
  where
    inside :
        (image : ℕ → ℕ) (at size a : ℕ)
        → a < size
        → (if leb 0 a && ltb a (0 + size) then image (at + (a - 0)) else 0) ≡ image (at + a)
    inside image at size a lt = ground arith

-- The header in memory and the one on the disk.
decode_header-Filled :
    (image : ℕ → ℕ) (m : Mem)
    → Filled image 0 (λ a. 0) 0 62 m
    → decode_header m ≡ decode_header image
decode_header-Filled image m f =
    rw (f 11, f 12, f 13, f 14, f 15, f 16, f 17, f 18, f 19, f 20, f 21, f 22, f 23, f 38)

header_read :
    (controller : Controller) (image : ℕ → ℕ)
    → Serves controller image
    → (stream : DiskStream) × (m : Mem) × (diskstreamer_read controller
          (λ a. 0)
          (λ a. 0)
          (record { position = 0; disk = true })
          0
          fat_h_size
          (read_fuel fat_h_size)
        ≡ some (ok 0, stream, m))
      × (decode_header m ≡ decode_header image)
      × (m 38 ≡ image 38)
header_read controller image s =
    let (m, e, f) =
      diskstreamer_read-Filled (read_fuel 62) controller image (λ a. 0) (λ a. 0) 0 0 62 s
        (omega arith) (omega arith) in
    (record { position = 62; disk = true }, m, e, decode_header-Filled image m f, f 38)

resolve_steps :
    (controller : Controller) (room : ℕ → Bool) (fuel : ℕ) (stream : DiskStream) (m : Mem)
    (header : FatH) (p1 p2 : FatPrivate) (total : Response)
    → diskstreamer_read controller
        (λ a. 0)
        (λ a. 0)
        (record { position = 0; disk = true })
        0
        fat_h_size
        (read_fuel fat_h_size)
      ≡ some (ok 0, stream, m)
    → (m 38 == 0x29) ≡ true
    → decode_header m ≡ header
    → fat16_get_total_items_for_directory controller
        (record fat16_init_private { header = header })
        (root_dir_sector_pos header)
        fuel
      ≡ some (total, p1)
    → load_root controller room (total, p1) ≡ some (ok 0, p2)
    → fat16_resolve controller room fuel
      ≡ some (ok 0, record { fs_private = some p2; filesystem = true })
unfolding fat16_resolve with_header fat16_get_root_directory or_eio resolved_as
resolve_steps controller room fuel stream m header p1 p2 total e mine h e1 e2 =
    rw (fat16_resolve, diskstreamer_new_lem, e, with_header, mine, h, e1, e2)

-- From a disk that serves an image with the signature 0x29, fat16_resolve succeeds, with room for the root
-- directory, fuel for its records up to the first blank one, and the directory in reach of a position. It
-- binds a volume with the image's header, on mounted streams, whose root directory stands behind the reserved
-- sectors and the copies of the table, holds the image's items, and ends behind its whole sectors. Its number
-- of items is the number of those records that do not have 0xE5 in the sixth byte of their name; a deleted one,
-- which has it in the first byte, is counted like the others.
pub fat16_resolve-Describes :
    (controller : Controller) (image : ℕ → ℕ) (room : ℕ → Bool) (n fuel : ℕ)
    → Serves controller image
    → image 38 ≡ 0x29
    → BlankAfter image (root_sector image * 512) n
    → n < fuel
    → RootInReach (root_sector image) (root_bytes image) n
    → room (root_bytes image) ≡ true
    → (p : FatPrivate) × (fat16_resolve controller room fuel
        ≡ some (ok 0, record { fs_private = some p; filesystem = true }))
      × Describes image (root_sector image) (root_bytes image) n p
unfolding fat16_resolve with_header fat16_get_root_directory
fat16_resolve-Describes controller image room n fuel s signature b lt reach space =
    let (stream, m, e, h, e38) = header_read controller image s in
    let mine : (m 38 == 0x29) ≡ true = ground (arith, e38, signature) in
    let header = decode_header image in
    let sector = root_sector image in
    let start : FatPrivate = record fat16_init_private { header = header } in
    let at = root_sector-decode_header image in
    let p1 : FatPrivate = record start {
      directory_stream = record { position = sector * 512 + 32 * (n + 1); disk = true };
    } in
    let e1 =
      fat16_get_total_items_for_directory-used_items n fuel controller image start sector s
        (record {
          clusters = init-Mounted.clusters;
          table = init-Mounted.table;
          directories = init-Mounted.directories;
        })
        lt reach.records b in
    let (p2, e2, d) =
      load_root-Describes controller image room sector (root_bytes image) n p1 s
        (record {
          clusters = init-Mounted.clusters;
          table = init-Mounted.table;
          directories = refl;
        })
        refl at (root_bytes-decode_header image) reach space in
    (
      p2,
      resolve_steps controller room fuel stream m header p1 p2
          (ok (used_items image (sector * 512) n)) e mine h
          (ap (λ x. fat16_get_total_items_for_directory controller start x fuel) at ∙ e1) e2,
      d,
    )

-- From a disk that serves an image without the signature, fat16_resolve gives -EFSNOTUS and binds no volume.
pub fat16_resolve-efsnotus :
    (controller : Controller) (image : ℕ → ℕ) (room : ℕ → Bool) (fuel : ℕ)
    → Serves controller image
    → image 38 ≢ 0x29
    → fat16_resolve controller room fuel
      ≡ some (err efsnotus, record { fs_private = none; filesystem = true })
unfolding fat16_resolve with_header resolved_as
fat16_resolve-efsnotus controller image room fuel s other =
    let (stream, m, e, h, e38) = header_read controller image s in
    let foreign : (m 38 == 0x29) ≡ false = ground (arith, e38, other) in
    rw (fat16_resolve, diskstreamer_new_lem, e, with_header, foreign)
