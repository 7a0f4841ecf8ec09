-- ===== src/Fat16/Clusters/First.antt =====
-- Reads in the first cluster of a file.
use boi_os.Prelude.{ℕ, zero, suc, ◌+◌, ◌-◌, ◌%◌, ◌^◌, ◌<◌, ◌≤◌, ◌≡◌, refl, false, some, arith, ltb}
use native.Mathlib.Nat.{mod-eq_of_lt, div-eq_of_lt}
use mathlib.Core.Path.{subst}
use boi_os.Prelude.Mem.{Mem}
use boi_os.Status.{ok}
use boi_os.Disk.{Controller}
use boi_os.Disk.Stream.{Serves, Filled}
use boi_os.Fat16.Layout.{FatPrivate, size_of_cluster_bytes}
use boi_os.Fat16.Clusters.{
  fat16_read_internal_from_stream, fat16_read_internal, at_cluster, after_read,
}
use boi_os.Fat16.Clusters.Chain.{SameVolume, follow}
use boi_os.Fat16.Clusters.Reads.{place, moved, size-SameVolume, cluster_found, cluster_read_at}

first_read :
    (fuel : ℕ) (controller : Controller) (image : ℕ → ℕ) (p0 p : FatPrivate) (c offset total : ℕ)
    (m : Mem) (out : ℕ)
    → Serves controller image
    → SameVolume p0 p
    → 0 < total
    → offset + total ≤ size_of_cluster_bytes p0
    → 2 ≤ c
    → place p0 c + size_of_cluster_bytes p0 < 2 ^ 31
    → 0 < fuel
    → (p' : FatPrivate) × (m' : Mem) × (fat16_read_internal_from_stream controller p c offset total
          m out fuel
        ≡ some (ok 0, p', m'))
      × SameVolume p0 p'
      × Filled image (place p0 c + offset) m out total m'
unfolding fat16_read_internal_from_stream at_cluster after_read follow
first_read zero controller image p0 p c offset total m out s v pt le real small lt =
    absurd (omega arith)
first_read (suc fuel) controller image p0 p c offset total m out s v pt le real small lt =
    let n = size_of_cluster_bytes p in
    let same : n ≡ size_of_cluster_bytes p0 = size-SameVolume v in
    let (p1, e1, v1) =
      cluster_found controller image p0 p c 0 c offset s v (omega arith)
        (div-eq_of_lt (omega arith)) refl tt in
    let inside : offset % n ≡ offset = mod-eq_of_lt (omega (arith, same)) in
    let all : ltb n total ≡ false = ground (arith, same) in
    let (stream, m1, e2, d, f) =
      cluster_read_at controller image p0 p1 c total (offset % n) m out s v1 real
        (omega (arith, inside)) small in
    let none_left : ltb 0 (total - total) ≡ false = ground arith in
    (
      record p1 { cluster_read_stream = stream },
      m1,
      rw (e1, all, e2, none_left),
      moved p0 p1 stream v1 d,
      subst (λ x. Filled image (place p0 c + x) m out total m1) inside f,
    )

-- Bytes that lie in the first cluster of a file are read from it, and nothing else of memory changes.
pub fat16_read_internal-first :
    (controller : Controller) (image : ℕ → ℕ) (p0 p : FatPrivate) (c offset total : ℕ) (m : Mem)
    (out : ℕ)
    → Serves controller image
    → SameVolume p0 p
    → 0 < total
    → offset + total ≤ size_of_cluster_bytes p0
    → 2 ≤ c
    → place p0 c + size_of_cluster_bytes p0 < 2 ^ 31
    → (p' : FatPrivate) × (m' : Mem) × (fat16_read_internal controller p c offset total m out
        ≡ some (ok 0, p', m'))
      × SameVolume p0 p'
      × Filled image (place p0 c + offset) m out total m'
unfolding fat16_read_internal
fat16_read_internal-first controller image p0 p c offset total m out s v pt le real small =
    first_read (total + 1) controller image p0 p c offset total m out s v pt le real small
      (omega arith)
