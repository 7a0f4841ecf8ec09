-- ===== src/Fat16/Files.antt =====
-- Open files of a volume: the functions that `fat16_fs` holds. `none` is fuel that ran out, or a file
-- without an item, whose pointer nothing can be read through.
pub mod Position
pub mod Open
pub mod Blocks
use boi_os.Prelude.{
  ℕ, zero, suc, ◌+◌, ◌*◌, ◌%◌, ◌^◌, Bool, true, false, not, Option, none, some, List, leb, ◌==◌,
  if◌then◌else◌, bit_and, bit_or,
}
use boi_os.Prelude.Do.{◌>>=◌}
use boi_os.Prelude.Mem.{Mem}
use boi_os.Status.{Response, ok, err, eio, einvarg, enomem, erdonly, eunimp}
use boi_os.File.{
  FileMode, read, write, append, invalid, SeekMode, seek_set, seek_cur, seek_end, FileStat, Opened,
  private_data, open_error,
}
use boi_os.Disk.{Controller}
use boi_os.Fat16.Layout.{
  FatDirectoryItem, FatItem, file_item, directory_item_of, FatFileDescriptor, FatPrivate,
  fat_file_read_only, fat16_get_first_cluster,
}
use boi_os.Fat16.Clusters.{fat16_read_internal}
use boi_os.Fat16.Entries.{fat16_get_directory_entry}

-- `sizeof(struct fat_file_descriptor)`
abbrev pub size_of_descriptor : ℕ
size_of_descriptor = 8

opened_as : Option FatItem × FatPrivate → Opened FatFileDescriptor × FatPrivate
opened_as (none, private_of) = (open_error eio, private_of)
opened_as (some item, private_of) =
    (private_data (record { item = item; position = 0 }), private_of)

-- The mode is looked at before the descriptor's room.
pub fat16_open :
    Controller
    → (ℕ → Bool)
    → FatPrivate
    → List ℕ
    → List (List ℕ)
    → FileMode
    → ℕ
    → Option (Opened FatFileDescriptor × FatPrivate)
unfolding opened_as
fat16_open controller room private_of part parts write fuel = some (open_error erdonly, private_of)
fat16_open controller room private_of part parts append fuel = some (open_error erdonly, private_of)
fat16_open controller room private_of part parts invalid fuel =
    some (open_error erdonly, private_of)
fat16_open controller room private_of part parts read fuel = elim (room size_of_descriptor) [
  | false ↦ some (open_error enomem, private_of)
  | true ↦ do
    result ← fat16_get_directory_entry controller room private_of part parts fuel
    some (opened_as result)
]

-- FILE_STAT_READ_ONLY
abbrev pub file_stat_read_only : ℕ
file_stat_read_only = 0b00000001

abbrev pub stat_flags : FatDirectoryItem → ℕ
stat_flags ritem =
    if not (bit_and ritem.attributes fat_file_read_only == 0) then file_stat_read_only else 0x00

stat_item : FatItem → FileStat → Option (Response × FileStat)
stat_item (directory_item_of directory) stat = some (err einvarg, stat)
stat_item (file_item none) stat = none
stat_item (file_item (some ritem)) stat =
    some (ok 0, record { flags = stat_flags ritem; file_size = ritem.file_size })

pub fat16_stat : FatFileDescriptor → FileStat → Option (Response × FileStat)
unfolding stat_item
fat16_stat desc stat = stat_item desc.item stat

-- One round's read, and the rounds behind it.
after_block :
    Response × FatPrivate × Mem
    → (FatPrivate → Mem → Option (Response × FatPrivate × Mem))
    → Option (Response × FatPrivate × Mem)
after_block (err e, private_of, m) rest = some (err e, private_of, m)
after_block (ok r, private_of, m) rest = rest private_of m

-- `k` of the `nmemb` rounds are left. The counters are ints that do not get negative.
read_loop :
    Controller
    → FatPrivate
    → FatDirectoryItem
    → ℕ
    → ℕ
    → ℕ
    → Mem
    → ℕ
    → ℕ
    → Option (Response × FatPrivate × Mem)
unfolding after_block
read_loop controller private_of item size nmemb offset m out zero = some (ok nmemb, private_of, m)
read_loop controller private_of item size nmemb offset m out (suc k) = do
  result ←
      fat16_read_internal controller private_of (fat16_get_first_cluster item) offset size m out
  after_block result
      (λ p m'. read_loop controller p item size nmemb (offset + size) m' (out + size) k)

read_item :
    Controller → FatPrivate → FatItem → ℕ → ℕ → ℕ → Mem → ℕ → Option (Response × FatPrivate × Mem)
unfolding read_loop
read_item controller private_of (directory_item_of directory) position size nmemb m out = none
read_item controller private_of (file_item none) position size nmemb m out = none
read_item controller private_of (file_item (some item)) position size nmemb m out =
    read_loop controller private_of item size nmemb position m out nmemb

-- The position of the descriptor stays. A directory is read as if its structure was an item: `none`.
pub fat16_read :
    Controller
    → FatPrivate
    → FatFileDescriptor
    → ℕ
    → ℕ
    → Mem
    → ℕ
    → Option (Response × FatPrivate × Mem)
unfolding read_item
fat16_read controller private_of fat_desc size nmemb m out =
    read_item controller private_of fat_desc.item fat_desc.position size nmemb m out

seek_to : FatFileDescriptor → ℕ → SeekMode → Response × FatFileDescriptor
seek_to desc offset seek_set = (ok 0, record desc { position = offset })
seek_to desc offset seek_end = (err eunimp, desc)
seek_to desc offset seek_cur = (ok 0, record desc { position = (desc.position + offset) % 2 ^ 32 })

seek_item : FatItem → FatFileDescriptor → ℕ → SeekMode → Option (Response × FatFileDescriptor)
unfolding seek_to
seek_item (directory_item_of directory) desc offset seek_mode = some (err einvarg, desc)
seek_item (file_item none) desc offset seek_mode = none
seek_item (file_item (some ritem)) desc offset seek_mode =
    if leb ritem.file_size offset
    then some (err eio, desc)
    else some (seek_to desc offset seek_mode)

-- The seek modes are the three of the enumeration.
pub fat16_seek : FatFileDescriptor → ℕ → SeekMode → Option (Response × FatFileDescriptor)
unfolding seek_item
fat16_seek desc offset seek_mode = seek_item desc.item desc offset seek_mode
