-- ===== src/Fat16/Directory/Count.antt =====
-- The number of items that fat16_get_total_items_for_directory finds.
use boi_os.Prelude.{
  ℕ, zero, suc, ◌+◌, ◌*◌, ◌%◌, ◌^◌, ◌<◌, ◌≡◌, ap, ◌∙◌, true, inl, inr, Option, some, arith,
  Bool-cases, if◌then◌else◌, ◌==◌, not, ◌≢◌, eq→==, ne→==,
}
use native.Mathlib.Nat.{mod-eq_of_lt}
use boi_os.Prelude.Mem.{Mem}
use boi_os.Status.{Response, ok}
use boi_os.Disk.{Controller, DiskStream, diskstreamer_seek, diskstreamer_read}
use boi_os.Disk.Stream.{Serves, diskstreamer_read-Filled}
use boi_os.Fat16.Layout.{FatPrivate, decode_item, fat_directory_item_size}
use boi_os.Fat16.Clusters.{read_fuel}
use boi_os.Fat16.Clusters.Chain.{Mounted}
use boi_os.Fat16.Directory.{
  is_blank, is_used, after_item, count_loop, counted, fat16_get_total_items_for_directory,
}

-- From a position on, `n` records of 32 bytes stand in front of the first blank one.
abbrev pub BlankAfter : (ℕ → ℕ) → ℕ → ℕ → Type 0
BlankAfter image at zero = image at ≡ 0
BlankAfter image at (suc n) = (image at ≢ 0) × BlankAfter image (at + 32) n

-- How many of the `n` records from a position on do not have 0xE5 in the sixth byte of their name.
pub used_items : (ℕ → ℕ) → ℕ → ℕ → ℕ
used_items image at zero = 0
used_items image at (suc n) =
    (if image (at + 5) == 0xE5 then 0 else 1) + used_items image (at + 32) n

-- What the loop gives.
abbrev loop_result : ℕ → ℕ → Option (Response × DiskStream)
loop_result i position = some (ok i, record { position = position; disk = true })

-- One record, read from the stream.
item_read :
    (controller : Controller) (image : ℕ → ℕ) (at : ℕ)
    → Serves controller image
    → at + 32 < 2 ^ 31
    → (m : Mem) × (diskstreamer_read controller
          (λ a. 0)
          (λ a. 0)
          (record { position = at; disk = true })
          0
          fat_directory_item_size
          (read_fuel fat_directory_item_size)
        ≡ some (ok 0, record { position = at + 32; disk = true }, m))
      × (is_blank (decode_item m 0) ≡ (image at == 0))
      × (is_used (decode_item m 0) ≡ not (image (at + 5) == 0xE5))
item_read controller image at s small =
    let (m, e, f) =
      diskstreamer_read-Filled (read_fuel 32) controller image (λ a. 0) (λ a. 0) at 0 32 s small
        (omega arith) in
    let first : m 0 ≡ image at = f 0 ∙ ap image (omega arith) in
    let sixth : m 5 ≡ image (at + 5) = f 5 in (m, e, rw first, rw sixth)

count_loop-used_items :
    (n fuel : ℕ) (controller : Controller) (image : ℕ → ℕ) (at i : ℕ)
    → Serves controller image
    → n < fuel
    → at + 32 * (n + 1) < 2 ^ 31
    → BlankAfter image at n
    → count_loop controller (record { position = at; disk = true }) i fuel
      ≡ loop_result (i + used_items image at n) (at + 32 * (n + 1))
unfolding count_loop used_items
count_loop-used_items zero zero controller image at i s lt small b = absurd (omega arith)
count_loop-used_items zero (suc fuel) controller image at i s lt small b =
    let (m, e, blank, used) = item_read controller image at s (omega arith) in
    rw (e, after_item, blank, eq→== (image at) 0 b)
      (ap (λ x. loop_result x (at + 32)) (omega arith))
count_loop-used_items (suc n) zero controller image at i s lt small b = absurd (omega arith)
count_loop-used_items (suc n) (suc fuel) controller image at i s lt small (nb, b) =
    let (m, e, blank, used) = item_read controller image at s (omega arith) in
    let rest =
      count_loop-used_items n fuel controller image (at + 32)
        (if not (image (at + 5) == 0xE5) then i + 1 else i) s (omega arith) (omega arith) b in
    rw (e, after_item, blank, ne→== (image at) 0 nb, used)
      (rest ∙ elim (Bool-cases (image (at + 5) == 0xE5)) [
        | inl t ↦ rw t (after (omega arith) (omega arith))
        | inr t ↦ rw t (after (omega arith) (omega arith))
      ])
  where
    after : {x x' y y' : ℕ} → x ≡ x' → y ≡ y' → loop_result x y ≡ loop_result x' y'
    after {x} {x'} {y} {y'} e e' = ap (λ z. loop_result z y) e ∙ ap (λ z. loop_result x' z) e'

-- On a volume whose disk serves an image, fat16_get_total_items_for_directory ends with fuel for the
-- records in front of the blank one, and for that: it returns how many of them do not
-- have 0xE5 in the sixth byte of their name. Of the volume only the stream of directories changes: it stands
-- behind the blank record.
pub fat16_get_total_items_for_directory-used_items :
    (n fuel : ℕ) (controller : Controller) (image : ℕ → ℕ) (p : FatPrivate) (sector : ℕ)
    → Serves controller image
    → Mounted p
    → n < fuel
    → sector * 512 + 32 * (n + 1) < 2 ^ 31
    → BlankAfter image (sector * 512) n
    → fat16_get_total_items_for_directory controller p sector fuel
      ≡ some (
        ok (used_items image (sector * 512) n),
        record p {
          directory_stream = record { position = sector * 512 + 32 * (n + 1); disk = true };
        },
      )
unfolding fat16_get_total_items_for_directory counted diskstreamer_seek
fat16_get_total_items_for_directory-used_items n fuel controller image p sector s mo lt small b =
    let whole : sector * 512 % 2 ^ 32 ≡ sector * 512 = mod-eq_of_lt (omega arith) in
    let stream : DiskStream = record { position = sector * 512 + 32 * (n + 1); disk = true } in
    let e = count_loop-used_items n fuel controller image (sector * 512) 0 s lt small b in
    rw (whole, mo.directories, e)
      (ap (λ x. some (ok x, record p { directory_stream = stream })) (omega arith))
