-- ===== src/Fat16/Layout.antt =====
-- The structures of fat16.c, at their places in the bytes of a sector, and the geometry of a volume.
use boi_os.Prelude.{ℕ, ◌+◌, ◌-◌, ◌*◌, ◌%◌, ◌^◌, Option, Bool, not, ◌==◌, bit_and, bit_or}
use boi_os.Prelude.Mem.{Mem, read16, read32}
use boi_os.Status.{Response}
use boi_os.Disk.{DiskStream, sector_size}

-- `struct fat_header`, packed, without the fields that nothing reads.
pub record FatHeader : Type 0 where
  pub bytes_per_sector : ℕ
  pub sectors_per_cluster : ℕ
  pub reserved_sectors : ℕ
  pub fat_copies : ℕ
  pub root_entries : ℕ
  pub number_of_sectors : ℕ
  pub media_type : ℕ
  pub sectors_per_fat : ℕ

-- `struct fat_h`, with the signature of its extended header.
pub record FatH : Type 0 where
  pub primary_header : FatHeader
  pub signature : ℕ

-- 36 bytes of the primary header and 26 of the extended one.
abbrev pub fat_h_size : ℕ
fat_h_size = 62

abbrev pub decode_header : Mem → FatH
decode_header m = record {
  primary_header = record {
    bytes_per_sector = read16 m 11;
    sectors_per_cluster = m 13;
    reserved_sectors = read16 m 14;
    fat_copies = m 16;
    root_entries = read16 m 17;
    number_of_sectors = read16 m 19;
    media_type = m 21;
    sectors_per_fat = read16 m 22;
  };
  signature = m 38;
}

-- `struct fat_directory_item`, packed; the names are by index.
pub record FatDirectoryItem : Type 0 where
  pub file_name : ℕ → ℕ
  pub ext : ℕ → ℕ
  pub attributes : ℕ
  pub high_16_bits_first_cluster : ℕ
  pub low_16_bits_first_cluster : ℕ
  pub file_size : ℕ

abbrev pub fat_directory_item_size : ℕ
fat_directory_item_size = 32

-- The item that stands at an address.
abbrev pub decode_item : Mem → ℕ → FatDirectoryItem
decode_item m a = record {
  file_name = λ i. m (a + i);
  ext = λ i. m (a + 8 + i);
  attributes = m (a + 11);
  high_16_bits_first_cluster = read16 m (a + 20);
  low_16_bits_first_cluster = read16 m (a + 26);
  file_size = read32 m (a + 28);
}

-- `struct fat_directory`; the items stand in memory of their own from address 0 on. The count is what
-- fat16_get_total_items_for_directory returned, an error too.
pub record FatDirectory : Type 0 where
  pub items : Mem
  pub total_items : Response
  pub sector_position : ℕ
  pub ending_sector_position : ℕ

abbrev pub directory_item : FatDirectory → ℕ → FatDirectoryItem
directory_item directory i = decode_item directory.items (i * fat_directory_item_size)

-- `struct fat_item`: the union with its type. `none` is a pointer that nothing can be read through: null,
-- or one to a directory that is freed already.
pub data FatItem : Type 0 where
  file_item : Option FatDirectoryItem → FatItem
  directory_item_of : Option FatDirectory → FatItem

-- `struct fat_file_descriptor`
pub record FatFileDescriptor : Type 0 where
  pub item : FatItem
  pub position : ℕ

-- `struct fat_private`
pub record FatPrivate : Type 0 where
  pub header : FatH
  pub root_directory : FatDirectory
  pub cluster_read_stream : DiskStream
  pub fat_read_stream : DiskStream
  pub directory_stream : DiskStream

abbrev pub fat_file_read_only : ℕ
fat_file_read_only = 0x01

abbrev pub fat_file_subdirectory : ℕ
fat_file_subdirectory = 0x10

abbrev pub is_subdirectory : FatDirectoryItem → Bool
is_subdirectory item = not (bit_and item.attributes fat_file_subdirectory == 0)

unfoldable pub fat16_sector_to_absolute : ℕ → ℕ
fat16_sector_to_absolute sector = sector * sector_size % 2 ^ 32

unfoldable pub fat16_get_first_cluster : FatDirectoryItem → ℕ
fat16_get_first_cluster item = bit_or item.high_16_bits_first_cluster item.low_16_bits_first_cluster

abbrev pub sectors_per_cluster_of : FatPrivate → ℕ
sectors_per_cluster_of private_of = private_of.header.primary_header.sectors_per_cluster

unfoldable pub fat16_cluster_to_sector : FatPrivate → ℕ → ℕ
fat16_cluster_to_sector private_of cluster =
    let spc = sectors_per_cluster_of private_of in
    (private_of.root_directory.ending_sector_position + cluster * spc + 2 ^ 32 - 2 * spc) % 2 ^ 32

unfoldable pub fat16_get_first_fat_sector : FatPrivate → ℕ
fat16_get_first_fat_sector private_of = private_of.header.primary_header.reserved_sectors

-- `sectors_per_cluster * sector_size`, as the reads write it.
abbrev pub size_of_cluster_bytes : FatPrivate → ℕ
size_of_cluster_bytes private_of = sectors_per_cluster_of private_of * sector_size
