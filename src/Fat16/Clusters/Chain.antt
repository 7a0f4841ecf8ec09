-- ===== src/Fat16/Clusters/Chain.antt =====
-- The clusters that fat16_get_cluster_for_offset walks along.
use boi_os.Prelude.{
  ℕ, zero, suc, ◌+◌, ◌*◌, ◌/◌, ◌%◌, ◌^◌, ◌<◌, ◌≡◌, refl, ap, sym, ◌∙◌, true, inl, inr, Option, none,
  some, arith, Bool-cases, ne→==, if◌then◌else◌,
}
use mathlib.Core.Path.{subst}
use native.Mathlib.Nat.{mod-eq_of_lt}
use boi_os.Prelude.Mem.{Mem, read16}
use boi_os.Status.{Response, ok, err, eio}
use boi_os.Disk.{Controller, DiskStream, diskstreamer_seek, diskstreamer_read}
use boi_os.Disk.Stream.{Serves, Filled, diskstreamer_read-Filled}
use boi_os.Fat16.Layout.{FatPrivate, FatH, fat16_get_first_fat_sector, size_of_cluster_bytes}
use boi_os.Fat16.Clusters.{
  seek_read, read_fuel, entry_of, fat16_get_fat_entry, ends_chain, next_cluster, cluster_loop,
  fat16_get_cluster_for_offset,
}

-- The streams of a volume that was found are on the disk.
pub record Mounted (p : FatPrivate) : Type 0 where
  pub clusters : p.cluster_read_stream.disk ≡ true
  pub table : p.fat_read_stream.disk ≡ true
  pub directories : p.directory_stream.disk ≡ true

-- Only the streams' positions differ.
pub record SameVolume (p p' : FatPrivate) : Type 0 where
  pub header : p'.header ≡ p.header
  pub root : p'.root_directory ≡ p.root_directory
  pub mounted : Mounted p'

-- A seek and a read copy the image's bytes at the position.
pub seek_read-Filled :
    (controller : Controller) (image : ℕ → ℕ) (stream : DiskStream) (position : ℕ) (m : Mem)
    (out total : ℕ)
    → Serves controller image
    → stream.disk ≡ true
    → position + total < 2 ^ 31
    → (m' : Mem) × (seek_read controller stream position m out total
        ≡ some (ok 0, record { position = position + total; disk = true }, m'))
      × Filled image position m out total m'
unfolding seek_read diskstreamer_seek
seek_read-Filled controller image stream position m out total s d small =
    let (m', e, f) =
      diskstreamer_read-Filled (read_fuel total) controller image (λ a. 0) m position out total s
        small (omega arith) in
    (
      m',
      ap
            (λ b.
              diskstreamer_read controller (λ a. 0) m (record { position = position; disk = b }) out
                total (read_fuel total))
            d
          ∙ e,
      f,
    )

-- Where fat16_get_fat_entry looks for the entry of a cluster, and the number that stands there.
abbrev pub entry_position : FatPrivate → ℕ → ℕ
entry_position p cluster = fat16_get_first_fat_sector p * 512 * (cluster * 2)

abbrev pub entry_at : (ℕ → ℕ) → FatPrivate → ℕ → ℕ
entry_at image p cluster =
    image (entry_position p cluster) + 2 ^ 8 * image (entry_position p cluster + 1)

read16-Filled :
    (image : ℕ → ℕ) (position : ℕ) (m' : Mem)
    → Filled image position (λ a. 0) 0 2 m'
    → read16 m' 0 ≡ image position + 2 ^ 8 * image (position + 1)
read16-Filled image position m' f =
    ap (λ x. x + 2 ^ 8 * m' 1) (f 0 ∙ ap image (omega arith))
    ∙ ap (λ x. image position + 2 ^ 8 * x) (f 1)

-- The entry that fat16_get_fat_entry reads.
pub fat16_get_fat_entry-entry_at :
    (controller : Controller) (image : ℕ → ℕ) (p : FatPrivate) (cluster : ℕ)
    → Serves controller image
    → Mounted p
    → entry_position p cluster + 2 < 2 ^ 31
    → (p' : FatPrivate) × (fat16_get_fat_entry controller p cluster
        ≡ some (ok (entry_at image p cluster), p'))
      × SameVolume p p'
unfolding fat16_get_fat_entry entry_of
fat16_get_fat_entry-entry_at controller image p cluster s mo small =
    let position = entry_position p cluster in
    let whole : position % 2 ^ 32 ≡ position = mod-eq_of_lt (omega arith) in
    let (m', e, f) =
      seek_read-Filled controller image p.fat_read_stream position (λ a. 0) 0 2 s mo.table small in
    let stream : DiskStream = record { position = position + 2; disk = true } in
    (
      record p { fat_read_stream = stream },
      rw (whole, e)
          (ap (λ v. some (ok v, record p { fat_read_stream = stream }))
            (read16-Filled image position m' f)),
      record {
        header = refl;
        root = refl;
        mounted = record { clusters = mo.clusters; table = refl; directories = mo.directories };
      },
    )

-- `k` steps along the chain, or `none` where an entry ends it.
unfoldable pub follow : (ℕ → ℕ) → FatPrivate → ℕ → ℕ → Option ℕ
follow image p cluster zero = some cluster
follow image p cluster (suc k) =
    let rest = follow image p (entry_at image p cluster) k in
    if ends_chain (entry_at image p cluster) then none else rest

-- The entries of the first `k` clusters lie where a position can reach them.
abbrev pub InReach : (ℕ → ℕ) → FatPrivate → ℕ → ℕ → Type 0
InReach image p cluster zero = Unit
InReach image p cluster (suc k) =
    (entry_position p cluster + 2 < 2 ^ 31) × InReach image p (entry_at image p cluster) k

abbrev pub cluster_response : Option ℕ → Response
cluster_response none = err eio
cluster_response (some cluster) = ok cluster

pub SameVolume-trans : {p q r : FatPrivate} → SameVolume p q → SameVolume q r → SameVolume p r
SameVolume-trans a b = record {
  header = b.header ∙ a.header;
  root = b.root ∙ a.root;
  mounted = b.mounted;
}

entry_at-SameVolume :
    (image : ℕ → ℕ) (p p' : FatPrivate) (cluster : ℕ)
    → SameVolume p p'
    → entry_at image p' cluster ≡ entry_at image p cluster
unfolding fat16_get_first_fat_sector
entry_at-SameVolume image p p' cluster v =
    ap
      (λ (h : FatH).
        image (h.primary_header.reserved_sectors * 512 * (cluster * 2))
        + 2 ^ 8 * image (h.primary_header.reserved_sectors * 512 * (cluster * 2) + 1))
      v.header

pub follow-SameVolume :
    (k : ℕ) (image : ℕ → ℕ) (p p' : FatPrivate) (cluster : ℕ)
    → SameVolume p p'
    → follow image p' cluster k ≡ follow image p cluster k
unfolding follow
follow-SameVolume zero image p p' cluster v = refl
follow-SameVolume (suc k) image p p' cluster v = rw (entry_at-SameVolume image p p' cluster v) (
    ap (λ r. if ends_chain (entry_at image p cluster) then none else r)
      (follow-SameVolume k image p p' (entry_at image p cluster) v))

pub InReach-SameVolume :
    (k : ℕ) (image : ℕ → ℕ) (p p' : FatPrivate) (cluster : ℕ)
    → SameVolume p p'
    → InReach image p cluster k
    → InReach image p' cluster k
unfolding fat16_get_first_fat_sector
InReach-SameVolume zero image p p' cluster v r = tt
InReach-SameVolume (suc k) image p p' cluster v (h, r) =
    let e = ap (λ (x : FatH). x.primary_header.reserved_sectors * 512 * (cluster * 2)) v.header in
    (
      omega (arith, e, h),
      subst (λ c. InReach image p' c k) (sym (entry_at-SameVolume image p p' cluster v))
          (InReach-SameVolume k image p p' (entry_at image p cluster) v r),
    )

cluster_loop-follow :
    (k : ℕ) (controller : Controller) (image : ℕ → ℕ) (p : FatPrivate) (cluster : ℕ)
    → Serves controller image
    → Mounted p
    → InReach image p cluster k
    → (p' : FatPrivate) × (cluster_loop controller p cluster k
        ≡ some (cluster_response (follow image p cluster k), p'))
      × SameVolume p p'
unfolding cluster_loop follow next_cluster
cluster_loop-follow zero controller image p cluster s mo r =
    (p, refl, record { header = refl; root = refl; mounted = mo })
cluster_loop-follow (suc k) controller image p cluster s mo (small, r) =
    let (p1, e, v) = fat16_get_fat_entry-entry_at controller image p cluster s mo small in
    elim (Bool-cases (ends_chain (entry_at image p cluster))) [
      | inl t ↦ (p1, rw (e, t, next_cluster), v)
      | inr t ↦
          let next = entry_at image p cluster in
          let (p2, e', v') =
            cluster_loop-follow k controller image p1 next s v.mounted
              (InReach-SameVolume k image p p1 next v r) in
          (
            p2,
            rw (e, t, next_cluster)
                (e'
                  ∙ ap (λ o. some (cluster_response o, p2))
                      (follow-SameVolume k image p p1 next v)),
            SameVolume-trans v v',
          )
    ]

-- On a volume with sectors in a cluster whose disk serves an image, fat16_get_cluster_for_offset ends: it returns the cluster that
-- stands as many entries down the chain as the offset has whole clusters, and -EIO where an entry on the
-- way ends the chain, as long as the entries are in reach of a position; it changes the streams alone.
pub fat16_get_cluster_for_offset-follow :
    (controller : Controller) (image : ℕ → ℕ) (p : FatPrivate) (starting_cluster offset : ℕ)
    → Serves controller image
    → Mounted p
    → 0 < size_of_cluster_bytes p
    → InReach image p starting_cluster (offset / size_of_cluster_bytes p)
    → (p' : FatPrivate) × (fat16_get_cluster_for_offset controller p starting_cluster offset
        ≡ some (
          cluster_response (follow image p starting_cluster (offset / size_of_cluster_bytes p)),
          p',
        ))
      × SameVolume p p'
unfolding fat16_get_cluster_for_offset
fat16_get_cluster_for_offset-follow controller image p starting_cluster offset s mo ps r =
    rw
      (
        ne→== (size_of_cluster_bytes p) 0 (λ e. absurd (omega (arith, e, ps))),
        fat16_get_cluster_for_offset,
      )
      (cluster_loop-follow (offset / size_of_cluster_bytes p) controller image p starting_cluster s
        mo r)
