-- ===== src/Fat16/Clusters.antt =====
-- The chain of clusters of a file, and reads along it. A read that fails gives its error; the loop of
-- fat16_get_cluster_for_offset goes on then with the negative number as a cluster, and each later read
-- fails in the same way.
pub mod Chain
pub mod Reads
pub mod First
use boi_os.Prelude.{
  ℕ, zero, suc, ◌+◌, ◌-◌, ◌*◌, ◌/◌, ◌%◌, ◌^◌, Bool, true, false, ◌||◌, Option, none, some, ltb,
  ◌==◌, if◌then◌else◌,
}
use boi_os.Prelude.Do.{◌>>=◌}
use boi_os.Prelude.Mem.{Mem, read16}
use boi_os.Status.{Response, ok, err, eio}
use boi_os.Disk.{Controller, DiskStream, sector_size, diskstreamer_seek, diskstreamer_read}
use boi_os.Fat16.Layout.{
  FatPrivate, fat16_get_first_fat_sector, fat16_cluster_to_sector, size_of_cluster_bytes,
}

-- Fuel for the sectors of a read, whatever its offset.
abbrev pub read_fuel : ℕ → ℕ
read_fuel total = total / 512 + 3

-- A seek and the read behind it, to memory `m` at `out`; the local buffer of the read is zero before.
pub seek_read : Controller → DiskStream → ℕ → Mem → ℕ → ℕ → Option (Response × DiskStream × Mem)
seek_read controller stream position m out total =
    diskstreamer_read controller (λ a. 0) m (diskstreamer_seek stream position).1 out total
      (read_fuel total)

entry_of : FatPrivate → Response × DiskStream × Mem → Response × FatPrivate
entry_of private_of (err e, stream, result) =
    (err e, record private_of { fat_read_stream = stream })
entry_of private_of (ok r, stream, result) =
    (ok (read16 result 0), record private_of { fat_read_stream = stream })

-- The two bytes of the entry go to the local `result`.
pub fat16_get_fat_entry : Controller → FatPrivate → ℕ → Option (Response × FatPrivate)
unfolding entry_of
fat16_get_fat_entry controller private_of cluster = do
  let fat_table_position = fat16_get_first_fat_sector private_of * sector_size
  let position = fat_table_position * (cluster * 2) % 2 ^ 32
  read ← seek_read controller private_of.fat_read_stream position (λ a. 0) 0 2
  some (entry_of private_of read)

-- The last entry of a chain, a bad sector, a reserved one, or a free one.
unfoldable pub ends_chain : ℕ → Bool
ends_chain entry =
    (entry == 0xFF8)
    || (entry == 0xFFF)
    || (entry == 0xFF7)
    || (entry == 0xFF0)
    || (entry == 0xFF6)
    || (entry == 0)

next_cluster :
    Response × FatPrivate
    → (ℕ → FatPrivate → Option (Response × FatPrivate))
    → Option (Response × FatPrivate)
next_cluster (err e, private_of) rest = some (err e, private_of)
next_cluster (ok entry, private_of) rest = elim (ends_chain entry) [
  | true ↦ some (err eio, private_of)
  | false ↦ rest entry private_of
]

-- `k` rounds are left.
cluster_loop : Controller → FatPrivate → ℕ → ℕ → Option (Response × FatPrivate)
unfolding next_cluster
cluster_loop controller private_of cluster zero = some (ok cluster, private_of)
cluster_loop controller private_of cluster (suc k) = do
  entry ← fat16_get_fat_entry controller private_of cluster
  next_cluster entry (λ c p. cluster_loop controller p c k)

-- Clusters of no sectors divide by zero, which traps: `none`.
pub fat16_get_cluster_for_offset : Controller → FatPrivate → ℕ → ℕ → Option (Response × FatPrivate)
unfolding cluster_loop
fat16_get_cluster_for_offset controller private_of starting_cluster offset =
    elim (size_of_cluster_bytes private_of == 0) [
      | true ↦ none
      | false ↦
          cluster_loop controller private_of starting_cluster
            (offset / size_of_cluster_bytes private_of)
    ]

-- A read from `cluster_read_stream`, or from the stream that the caller names: it is the same one.
after_read :
    FatPrivate
    → Response × DiskStream × Mem
    → (FatPrivate → Mem → Option (Response × FatPrivate × Mem))
    → Option (Response × FatPrivate × Mem)
after_read private_of (err e, stream, m) rest =
    some (err e, record private_of { cluster_read_stream = stream }, m)
after_read private_of (ok r, stream, m) rest =
    rest (record private_of { cluster_read_stream = stream }) m

at_cluster :
    Response × FatPrivate
    → Mem
    → (ℕ → FatPrivate → Option (Response × FatPrivate × Mem))
    → Option (Response × FatPrivate × Mem)
at_cluster (err e, private_of) m rest = some (err e, private_of, m)
at_cluster (ok cluster, private_of) m rest = rest cluster private_of

-- The read on fuel for the clusters.
pub fat16_read_internal_from_stream :
    Controller → FatPrivate → ℕ → ℕ → ℕ → Mem → ℕ → ℕ → Option (Response × FatPrivate × Mem)
unfolding at_cluster after_read
fat16_read_internal_from_stream controller private_of cluster offset total m out zero = none
fat16_read_internal_from_stream controller private_of cluster offset total m out (suc fuel) = do
  let size = size_of_cluster_bytes private_of
  found ← fat16_get_cluster_for_offset controller private_of cluster offset
  at_cluster found m (λ cluster_to_use p. do
    let starting_sector = fat16_cluster_to_sector p cluster_to_use
    let starting_pos = (starting_sector * sector_size + offset % size) % 2 ^ 32
    let total_to_read = if ltb size total then size else total
    read ← seek_read controller p.cluster_read_stream starting_pos m out total_to_read
    after_read p read (λ p' m'. elim (ltb 0 (total - total_to_read)) [
      | true ↦
          fat16_read_internal_from_stream controller p' cluster (offset + total_to_read)
            (total - total_to_read) m' (out + total_to_read) fuel
      | false ↦ some (ok 0, p', m')
    ]))

-- With fuel for clusters of any size.
pub fat16_read_internal :
    Controller → FatPrivate → ℕ → ℕ → ℕ → Mem → ℕ → Option (Response × FatPrivate × Mem)
fat16_read_internal controller private_of starting_cluster offset total m out =
    fat16_read_internal_from_stream controller private_of starting_cluster offset total m out
      (total + 1)
