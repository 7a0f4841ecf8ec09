-- ===== src/Disk.antt =====
-- src/disk/disk.c and streamer.c. The controller of the disk is a parameter: the words that it gives for
-- a command, in order. Positions and lengths are ints that are not negative.
pub mod Stream
mod Tests
use boi_os.Prelude.{
  ℕ, zero, suc, ◌+◌, ◌-◌, ◌*◌, ◌/◌, ◌%◌, ◌^◌, Bool, true, false, Option, none, some, leb, ltb, ◌==◌,
  if◌then◌else◌, bit_or,
}
use boi_os.Prelude.Int.{ℤ, pos, negsuc}
use boi_os.Prelude.Mem.{Mem, store}
use boi_os.Status.{Response, ok, err, eio}

abbrev pub sector_size : ℕ
sector_size = 512

-- What disc_read_sector writes to the ports 0x1F6, 0x1F2, 0x1F3, 0x1F4 and 0x1F5.
pub record Command : Type 0 where
  pub drive : ℕ
  pub count : ℕ
  pub lba_low : ℕ
  pub lba_mid : ℕ
  pub lba_high : ℕ

-- The words on the port 0x1F0 after a read command.
abbrev pub Controller : Type 0
Controller = Command → ℕ → ℕ

abbrev pub command : ℕ → ℕ → Command
command lba total_blocks = record {
  drive = bit_or (lba / 2 ^ 24) 0xE0 % 256;
  count = total_blocks % 256;
  lba_low = lba % 256;
  lba_mid = lba / 2 ^ 8 % 256;
  lba_high = lba / 2 ^ 16 % 256;
}

-- The words of all blocks, with `k` left at the word `i`.
read_words : (ℕ → ℕ) → Mem → ℕ → ℕ → ℕ → Mem
read_words words m ptr i zero = m
read_words words m ptr i (suc k) =
    read_words words (store (store m ptr (words i % 256)) (ptr + 1) (words i / 256 % 256)) (ptr + 2)
      (i + 1) k

-- The wait for the controller is left out.
disc_read_sector : Controller → ℕ → ℕ → Mem → ℕ → Response × Mem
unfolding read_words
disc_read_sector controller lba total_blocks m buf =
    (ok 0, read_words (controller (command lba total_blocks)) m buf 0 (total_blocks * 256))

-- `idisk` is whether the pointer is the one to `disk`.
disk_read_block : Controller → Bool → ℕ → ℕ → Mem → ℕ → Response × Mem
unfolding disc_read_sector
disk_read_block controller idisk lba total m buf =
    if idisk then disc_read_sector controller lba total m buf else (err eio, m)

-- The pointer to `disk`, or `none` for the null pointer.
pub disk_get : ℤ → Option Bool
disk_get (pos zero) = some true
disk_get (pos (suc n)) = none
disk_get (negsuc n) = none

-- `struct disk_stream`; `disk` is whether the pointer is the one to `disk`.
pub record DiskStream : Type 0 where
  pub position : ℕ
  pub disk : Bool

stream_of : Option Bool → Option DiskStream
stream_of none = none
stream_of (some disk) = some (record { position = 0; disk = disk })

-- The stream, where kzalloc finds room for it.
pub diskstreamer_new : ℤ → Option DiskStream
unfolding stream_of disk_get
diskstreamer_new disk_id = stream_of (disk_get disk_id)

unfoldable pub diskstreamer_seek : DiskStream → ℕ → Response × DiskStream
diskstreamer_seek stream position = (ok 0, record { position = position; disk = stream.disk })

-- `out[i] = buf[offset + i]`, with `k` rounds left.
copy_out : Mem → Mem → ℕ → ℕ → ℕ → Mem
copy_out m buf out index zero = m
copy_out m buf out index (suc k) = copy_out (store m out (buf index)) buf (out + 1) (index + 1) k

-- The read goes on unless the block could not be read.
after_block :
    Response × Mem
    → DiskStream
    → Mem
    → (Mem → Option (Response × DiskStream × Mem))
    → Option (Response × DiskStream × Mem)
after_block (err e, buf) stream m rest = some (err e, stream, m)
after_block (ok r, buf) stream m rest = rest buf

-- The read with fuel for the sectors. The local `buf` is memory of its own, at address 0; what it holds
-- before the read is `buf`.
pub diskstreamer_read :
    Controller → Mem → Mem → DiskStream → ℕ → ℕ → ℕ → Option (Response × DiskStream × Mem)
unfolding copy_out after_block
diskstreamer_read controller buf m stream out total zero = none
diskstreamer_read controller buf m stream out total (suc fuel) =
    let sector = stream.position / sector_size in
    let offset = stream.position % sector_size in
    after_block (disk_read_block controller stream.disk sector 1 buf 0) stream m (λ buf'.
      elim (leb sector_size (offset + total)) [
        | true ↦
            let total_to_read = total - (offset + total - sector_size) in
            diskstreamer_read controller buf (copy_out m buf' out offset total_to_read)
              (record { position = stream.position + total_to_read; disk = stream.disk })
              (out + total_to_read) (total - total_to_read) fuel
        | false ↦ some (
          ok 0,
          record { position = stream.position + total; disk = stream.disk },
          copy_out m buf' out offset total,
        )
      ])
