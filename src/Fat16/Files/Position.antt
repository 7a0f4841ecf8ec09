-- ===== src/Fat16/Files/Position.antt =====
-- The position of an open file, and what its stat says.
use boi_os.Prelude.{
  ℕ, ◌+◌, ◌%◌, ◌^◌, ◌<◌, ◌≤◌, ◌≡◌, refl, ap, inl, inr, some, arith, Bool-cases, leb,
}
use boi_os.Status.{Response, ok, err, eio, eunimp}
use boi_os.File.{SeekMode, seek_set, seek_cur, seek_end}
use boi_os.Fat16.Layout.{FatDirectoryItem, file_item, FatFileDescriptor}
use boi_os.Fat16.Files.{fat16_seek, seek_item, seek_to}

-- An open file at a position.
abbrev pub open_at : FatDirectoryItem → ℕ → FatFileDescriptor
open_at ritem position = record { item = file_item (some ritem); position = position }

-- What a seek on a file of a size is to give, from one position to the next.
pub data Seeks (file_size position offset : ℕ) : SeekMode → Response → ℕ → Type 0 where
  past_end :
      {mode : SeekMode}
      → file_size ≤ offset
      → Seeks file_size position offset mode (err eio) position
  from_start : offset < file_size → Seeks file_size position offset seek_set (ok 0) offset
  from_position :
      offset < file_size
      → Seeks file_size position offset seek_cur (ok 0) ((position + offset) % 2 ^ 32)
  not_from_end : offset < file_size → Seeks file_size position offset seek_end (err eunimp) position

inside :
    (ritem : FatDirectoryItem) (position offset : ℕ) (mode : SeekMode)
    → offset < ritem.file_size
    → (r : Response) × (position' : ℕ) × (seek_to (open_at ritem position) offset mode
        ≡ (r, open_at ritem position'))
      × Seeks ritem.file_size position offset mode r position'
unfolding seek_to
inside ritem position offset seek_set lt = (ok 0, offset, refl, from_start lt)
inside ritem position offset seek_cur lt =
    (ok 0, (position + offset) % 2 ^ 32, refl, from_position lt)
inside ritem position offset seek_end lt = (err eunimp, position, refl, not_from_end lt)

-- On a file, fat16_seek gives what Seeks says, in every mode, and changes nothing but the position: an offset
-- from the file's size on is -EIO and one from the end -EUNIMP, with the position kept; SEEK_SET sets a
-- position inside of the file, and SEEK_CUR adds the offset, modulo 2 ^ 32.
pub fat16_seek-Seeks :
    (ritem : FatDirectoryItem) (position offset : ℕ) (mode : SeekMode)
    → (r : Response) × (position' : ℕ) × (fat16_seek (open_at ritem position) offset mode
        ≡ some (r, open_at ritem position'))
      × Seeks ritem.file_size position offset mode r position'
unfolding fat16_seek seek_item
fat16_seek-Seeks ritem position offset mode = elim (Bool-cases (leb ritem.file_size offset)) [
  | inl t ↦ (err eio, position, rw t, past_end (ground arith))
  | inr t ↦
      let (r, position', e, sk) = inside ritem position offset mode (ground arith) in
      (r, position', rw t (ap some e), sk)
]
