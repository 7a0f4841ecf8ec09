-- ===== src/Disk/Stream.antt =====
-- diskstreamer_read against the image of a disk.
use boi_os.Prelude.{
  ℕ, zero, suc, ◌+◌, ◌-◌, ◌*◌, ◌/◌, ◌%◌, ◌^◌, ◌≤◌, ◌<◌, ◌≡◌, ==→eq, lt→ltb, ltb→le, refl, ap, ◌∙◌,
  inl, inr, true, some, ltb, leb, ◌&&◌, ◌==◌, if◌then◌else◌, arith, Bool-cases, bit_or,
}
use mathlib.Core.Path.{subst}
use boi_os.Prelude.Int.{pos}
use boi_os.Prelude.Mem.{Mem, store}
use boi_os.Status.{ok}
use boi_os.Disk.{
  Controller, command, read_words, copy_out, disc_read_sector, disk_read_block, disk_get, stream_of,
  diskstreamer_new, diskstreamer_read,
}

-- A stream on the disk starts at its first byte.
pub diskstreamer_new_lem : diskstreamer_new (pos 0) ≡ some (record { position = 0; disk = true })
unfolding diskstreamer_new disk_get stream_of
diskstreamer_new_lem = refl

-- For one sector of the master drive the controller gives the words of the image, low byte first, as an
-- ATA disk does.
pub record Serves (controller : Controller) (image : ℕ → ℕ) : Type 0 where
  pub bytes : (a : ℕ) → image a < 256
  pub words :
      (low mid high i : ℕ)
      → low < 256
      → mid < 256
      → high < 256
      → i < 256
      → controller
          (record { drive = 0xE0; count = 1; lba_low = low; lba_mid = mid; lba_high = high })
          i
        ≡ image ((low + 256 * mid + 65536 * high) * 512 + 2 * i)
          + 256 * image ((low + 256 * mid + 65536 * high) * 512 + 2 * i + 1)

read_words_lem :
    (k : ℕ) (words : ℕ → ℕ) (image : ℕ → ℕ) (m : Mem) (ptr i base : ℕ)
    → ((a : ℕ) → image a < 256)
    → ((j : ℕ)
        → i ≤ j
        → j < i + k
        → words j ≡ image (base + 2 * j) + 256 * image (base + 2 * j + 1))
    → (a : ℕ)
    → read_words words m ptr i k a
      ≡ (if leb ptr a && ltb a (ptr + 2 * k) then image (base + 2 * i + (a - ptr)) else m a)
unfolding read_words
read_words_lem zero words image m ptr i base bytes h a = ground arith
read_words_lem (suc k) words image m ptr i base bytes h a =
    let e = h i (omega arith) (omega arith) in
    let lo = bytes (base + 2 * i) in
    let hi = bytes (base + 2 * i + 1) in
    let rest =
      read_words_lem k words image _ (ptr + 2) (i + 1) base bytes
        (λ j ge lt. h j (omega arith) (omega arith)) a in
    rest ∙ elim (Bool-cases (ltb a (ptr + 2))) [
      | inl t ↦ elim (Bool-cases (a == ptr)) [
        | inl q ↦ ground (arith, ap image (at_start a ptr (base + 2 * i) (==→eq a ptr q)))
        | inr q ↦ elim (Bool-cases (a == ptr + 1)) [
          | inl q' ↦ ground (arith, ap image (at_next a ptr (base + 2 * i) (==→eq a (ptr + 1) q')))
          | inr q' ↦ ground arith
        ]
      ]
      | inr t ↦ ground (arith, ap image (behind a ptr base i (ltb→le a (ptr + 2) t)))
    ]
  where
    at_start : (a ptr b : ℕ) → a ≡ ptr → b ≡ b + (a - ptr)
    at_start a ptr b e = omega arith

    at_next : (a ptr b : ℕ) → a ≡ ptr + 1 → b + 1 ≡ b + (a - ptr)
    at_next a ptr b e = omega arith

    behind :
        (a ptr b i : ℕ) → ptr + 2 ≤ a → b + 2 * (i + 1) + (a - (ptr + 2)) ≡ b + 2 * i + (a - ptr)
    behind a ptr b i e = omega arith

copy_out_lem :
    (k : ℕ) (m buf : Mem) (out index a : ℕ)
    → copy_out m buf out index k a
      ≡ (if leb out a && ltb a (out + k) then buf (index + (a - out)) else m a)
unfolding copy_out
copy_out_lem zero m buf out index a = ground arith
copy_out_lem (suc k) m buf out index a =
    ground (arith, copy_out_lem k (store m out (buf index)) buf (out + 1) (index + 1) a)

command_word :
    (controller : Controller) (image : ℕ → ℕ) (lba i : ℕ)
    → Serves controller image
    → lba < 2 ^ 24
    → i < 256
    → controller (command lba 1) i ≡ image (lba * 512 + 2 * i) + 256 * image (lba * 512 + 2 * i + 1)
command_word controller image lba i s small li =
    let master : lba / 2 ^ 24 ≡ 0 = omega arith in
    let place : (lba % 256 + 256 * (lba / 2 ^ 8 % 256) + 65536 * (lba / 2 ^ 16 % 256)) * 512
        ≡ lba * 512 =
      omega arith in
    ap
      (λ d.
        controller
          (record {
            drive = bit_or d 0xE0 % 256;
            count = 1;
            lba_low = lba % 256;
            lba_mid = lba / 2 ^ 8 % 256;
            lba_high = lba / 2 ^ 16 % 256;
          })
          i)
      master
    ∙ s.words (lba % 256) (lba / 2 ^ 8 % 256) (lba / 2 ^ 16 % 256) i (omega arith) (omega arith)
        (omega arith) li
    ∙ ap (λ p. image (p + 2 * i) + 256 * image (p + 2 * i + 1)) place

sector_byte :
    (controller : Controller) (image : ℕ → ℕ) (lba : ℕ) (buf : Mem) (a : ℕ)
    → Serves controller image
    → lba < 2 ^ 24
    → a < 512
    → read_words (controller (command lba 1)) buf 0 0 256 a ≡ image (lba * 512 + a)
sector_byte controller image lba buf a s small lt =
    read_words_lem 256 (controller (command lba 1)) image buf 0 0 (lba * 512) s.bytes
      (λ j ge l. command_word controller image lba j s small (omega arith)) a
    ∙ rw (lt→ltb a 512 lt, at_or_after) (ap image (omega arith))
  where
    at_or_after : leb 0 a ≡ true
    at_or_after = ground arith

-- One sector of the image, read to the start of `buf`.
disk_read_block_lem :
    (controller : Controller) (image : ℕ → ℕ) (lba : ℕ) (buf : Mem)
    → Serves controller image
    → lba < 2 ^ 24
    → (buf' : Mem) × (disk_read_block controller true lba 1 buf 0 ≡ (ok 0, buf'))
      × ((a : ℕ) → a < 512 → buf' a ≡ image (lba * 512 + a))
unfolding disk_read_block disc_read_sector
disk_read_block_lem controller image lba buf s small = (
  read_words (controller (command lba 1)) buf 0 0 256,
  refl,
  λ a lt. sector_byte controller image lba buf a s small lt,
)

-- What a read leaves in memory: the image's bytes from `position` on, and nothing else changed.
abbrev pub Filled : (ℕ → ℕ) → ℕ → Mem → ℕ → ℕ → Mem → Type 0
Filled image position m out total m' =
    (a : ℕ)
    → m' a ≡ (if leb out a && ltb a (out + total) then image (position + (a - out)) else m a)

copy_out-Filled :
    (image : ℕ → ℕ) (position total : ℕ) (m buf : Mem) (out : ℕ)
    → ((a : ℕ) → a < 512 → buf a ≡ image (position / 512 * 512 + a))
    → position % 512 + total ≤ 512
    → Filled image position m out total (copy_out m buf out (position % 512) total)
copy_out-Filled image position total m buf out h le a =
    copy_out_lem total m buf out (position % 512) a
    ∙ elim (Bool-cases (leb out a && ltb a (out + total))) [
      | inl t ↦ rw t (h (position % 512 + (a - out)) (ground arith) ∙ ap image (omega arith))
      | inr t ↦ rw t
    ]

-- Two reads, one behind the other, are one.
Filled-join :
    (image : ℕ → ℕ) (position n k : ℕ) (m m' m'' : Mem) (out : ℕ)
    → Filled image position m out n m'
    → Filled image (position + n) m' (out + n) k m''
    → Filled image position m out (n + k) m''
Filled-join image position n k m m' m'' out f g a = g a ∙ elim (Bool-cases (ltb a (out + n))) [
  | inl t ↦ ground (arith, f a)
  | inr t ↦ ground (arith, f a, ap image (behind (ltb→le a (out + n) t)))
]
  where
    behind : out + n ≤ a → position + n + (a - (out + n)) ≡ position + (a - out)
    behind le = omega arith

-- With fuel for the sectors that the range meets, and one more, diskstreamer_read from a disk that
-- serves an image succeeds: it copies the `total` bytes of the image from the stream's position on,
-- across sectors, writes nothing else and moves the position behind them.
pub diskstreamer_read-Filled :
    (fuel : ℕ) (controller : Controller) (image : ℕ → ℕ) (buf m : Mem) (position out total : ℕ)
    → Serves controller image
    → position + total < 2 ^ 31
    → (position % 512 + total) / 512 < fuel
    → (m' : Mem) × (diskstreamer_read controller buf m
          (record { position = position; disk = true })
          out
          total
          fuel
        ≡ some (ok 0, record { position = position + total; disk = true }, m'))
      × Filled image position m out total m'
unfolding diskstreamer_read
diskstreamer_read-Filled zero controller image buf m position out total s small lt =
    absurd (omega arith)
diskstreamer_read-Filled (suc fuel) controller image buf m position out total s small lt =
    let (buf', e, h) = disk_read_block_lem controller image (position / 512) buf s (omega arith) in
    elim (Bool-cases (leb 512 (position % 512 + total))) [
      | inl over ↦
          let le : 512 ≤ position % 512 + total = ground arith in
          let n : ℕ = total - (position % 512 + total - 512) in
          let full : position % 512 + n ≡ 512 = omega arith in
          let all : n + (total - n) ≡ total = omega arith in
          let (m', e', f) =
            diskstreamer_read-Filled fuel controller image buf
              (copy_out m buf' out (position % 512) n) (position + n) (out + n) (total - n) s
              (omega arith) (omega arith) in
          (
            m',
            rw (e, over, diskstreamer_read)
                (e'
                  ∙ ap (λ p. some (ok 0, record { position = p; disk = true }, m')) (omega arith)),
            subst (λ t. Filled image position m out t m') all
                (Filled-join image position n (total - n) m (copy_out m buf' out (position % 512) n)
                  m' out (copy_out-Filled image position n m buf' out h (omega arith)) f),
          )
      | inr inside ↦ (
        copy_out m buf' out (position % 512) total,
        rw (e, inside, diskstreamer_read),
        copy_out-Filled image position total m buf' out h (ground arith),
      )
    ]
