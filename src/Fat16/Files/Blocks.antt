-- ===== src/Fat16/Files/Blocks.antt =====
-- The bytes that fat16_read gives.
use boi_os.Prelude.{
  ℕ, zero, suc, ◌+◌, ◌-◌, ◌*◌, ◌<◌, ◌≤◌, ◌≡◌, ◌^◌, refl, ap, some, inl, inr, arith, ltb, Bool-cases,
  ltb→lt, ltb→le,
}
use mathlib.Core.Path.{subst}
use native.Mathlib.Nat.{suc-mul, zero-mul}
use boi_os.Prelude.Mem.{Mem}
use boi_os.Status.{ok}
use boi_os.Disk.{Controller}
use boi_os.Disk.Stream.{Serves, Filled}
use boi_os.Fat16.Layout.{
  FatDirectoryItem, FatPrivate, size_of_cluster_bytes, fat16_get_first_cluster,
}
use boi_os.Fat16.Clusters.Chain.{Mounted, SameVolume}
use boi_os.Fat16.Clusters.Reads.{place}
use boi_os.Fat16.Clusters.First.{fat16_read_internal-first}
use boi_os.Fat16.Files.{fat16_read, read_item, read_loop, after_block}
use boi_os.Fat16.Files.Position.{open_at}

-- A range and the one behind it.
Filled-behind :
    (image : ℕ → ℕ) (at out n rest : ℕ) (m m1 m2 : Mem)
    → Filled image at m out n m1
    → Filled image (at + n) m1 (out + n) rest m2
    → Filled image at m out (n + rest) m2
Filled-behind image at out n rest m m1 m2 f g a = elim (Bool-cases (ltb a (out + n))) [
  | inl t ↦ ground (arith, f a, g a, ltb→lt a (out + n) t)
  | inr t ↦
      let le = ltb→le a (out + n) t in
      let e : at + n + (a - (out + n)) ≡ at + (a - out) = omega (arith, le) in
      ground (arith, f a, g a, le, ap image e)
]

read_loop-Filled :
    (k : ℕ) (controller : Controller) (image : ℕ → ℕ) (p0 p : FatPrivate) (item : FatDirectoryItem)
    (size nmemb offset : ℕ) (m : Mem) (out : ℕ)
    → Serves controller image
    → SameVolume p0 p
    → 0 < size
    → offset + k * size ≤ size_of_cluster_bytes p0
    → 2 ≤ fat16_get_first_cluster item
    → place p0 (fat16_get_first_cluster item) + size_of_cluster_bytes p0 < 2 ^ 31
    → (p' : FatPrivate) × (m' : Mem) × (read_loop controller p item size nmemb offset m out k
        ≡ some (ok nmemb, p', m'))
      × SameVolume p0 p'
      × Filled image (place p0 (fat16_get_first_cluster item) + offset) m out (k * size) m'
unfolding read_loop after_block
read_loop-Filled zero controller image p0 p item size nmemb offset m out s v pt le real small =
    (p, m, refl, v, λ a. ground (arith, zero-mul size))
read_loop-Filled (suc k) controller image p0 p item size nmemb offset m out s v pt le real small =
    let c = fat16_get_first_cluster item in
    let split = suc-mul k size in
    let (p1, m1, e1, v1, f) =
      fat16_read_internal-first controller image p0 p c offset size m out s v pt
        (omega (arith, split, le)) real small in
    let (p2, m2, e2, v2, g) =
      read_loop-Filled k controller image p0 p1 item size nmemb (offset + size) m1 (out + size) s v1
        pt (omega (arith, split, le)) real small in
    let total : size + k * size ≡ suc k * size = omega (arith, split) in
    let at : place p0 c + (offset + size) ≡ place p0 c + offset + size = omega arith in
    (
      p2,
      m2,
      rw (e1, read_loop) e2,
      v2,
      subst (λ x. Filled image (place p0 c + offset) m out x m2) total
          (Filled-behind image (place p0 c + offset) out size (k * size) m m1 m2 f
            (subst (λ x. Filled image x m1 (out + size) (k * size) m2) at g)),
    )

-- On a mounted volume whose disk serves an image, `nmemb` blocks of `size > 0` bytes are read from an open file,
-- at a position from which they all lie in the file's first cluster, a data cluster below 2 ^ 31: fat16_read
-- returns `nmemb`, the bytes of the cluster from the position on stand at `out`, where cluster 2 starts behind the
-- root directory, and nothing else of memory changes; of the volume only the streams move.
pub fat16_read-Filled :
    (controller : Controller) (image : ℕ → ℕ) (p : FatPrivate) (item : FatDirectoryItem)
    (position size nmemb : ℕ) (m : Mem) (out : ℕ)
    → Serves controller image
    → Mounted p
    → 0 < size
    → position + nmemb * size ≤ size_of_cluster_bytes p
    → 2 ≤ fat16_get_first_cluster item
    → place p (fat16_get_first_cluster item) + size_of_cluster_bytes p < 2 ^ 31
    → (p' : FatPrivate) × (m' : Mem) × (fat16_read controller p
          (open_at item position)
          size
          nmemb
          m
          out
        ≡ some (ok nmemb, p', m'))
      × SameVolume p p'
      × Filled image (place p (fat16_get_first_cluster item) + position) m out (nmemb * size) m'
unfolding fat16_read read_item
fat16_read-Filled controller image p item position size nmemb m out s mo pt le real small =
    read_loop-Filled nmemb controller image p p item size nmemb position m out s
      (record { header = refl; root = refl; mounted = mo }) pt le real small
