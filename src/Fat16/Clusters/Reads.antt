-- ===== src/Fat16/Clusters/Reads.antt =====
-- Reads along the clusters of a file.
use boi_os.Prelude.{
  ℕ, zero, suc, ◌+◌, ◌-◌, ◌*◌, ◌/◌, ◌%◌, ◌^◌, ◌<◌, ◌≤◌, ◌≡◌, refl, ap, sym, ◌∙◌, true, false, inl,
  inr, some, List, [], ◌∷◌, length, arith, Bool-cases, ltb, if◌then◌else◌, ltb→lt, ltb→le,
}
use mathlib.Core.Path.{subst}
use native.Mathlib.Nat.{mod-eq_of_lt, add-mul, suc-mul, zero-mul, mul-mod_left, mul-div_cancel}
use boi_os.Prelude.Mem.{Mem}
use boi_os.Status.{ok}
use boi_os.Disk.{Controller, DiskStream}
use boi_os.Disk.Stream.{Serves, Filled}
use boi_os.Fat16.Layout.{
  FatPrivate, FatH, FatDirectory, fat16_cluster_to_sector, sectors_per_cluster_of,
  size_of_cluster_bytes,
}
use boi_os.Fat16.Clusters.{
  seek_read, fat16_get_cluster_for_offset, fat16_read_internal_from_stream, fat16_read_internal,
  at_cluster, after_read,
}
use boi_os.Fat16.Clusters.Chain.{
  Mounted, SameVolume, SameVolume-trans, seek_read-Filled, follow, follow-SameVolume, InReach,
  InReach-SameVolume, cluster_response, fat16_get_cluster_for_offset-follow,
}

-- The position of a cluster's first byte on the disk, with cluster 2 behind the root directory.
abbrev pub place : FatPrivate → ℕ → ℕ
place p cluster =
    (p.root_directory.ending_sector_position + (cluster - 2) * sectors_per_cluster_of p) * 512

-- Where the code looks for it.
abbrev code_place : FatPrivate → ℕ → ℕ
code_place p cluster = fat16_cluster_to_sector p cluster * 512

code_place-place :
    (p : FatPrivate) (c : ℕ) → 2 ≤ c → place p c < 2 ^ 31 → code_place p c ≡ place p c
unfolding fat16_cluster_to_sector
code_place-place p c le small =
    let s = sectors_per_cluster_of p in
    let split : c * s ≡ (c - 2) * s + 2 * s = ap (λ x. x * s) (omega arith) ∙ add-mul (c - 2) 2 s in
    let sum : p.root_directory.ending_sector_position + c * s + 2 ^ 32 - 2 * s
        ≡ p.root_directory.ending_sector_position + (c - 2) * s + 2 ^ 32 =
      omega (arith, split) in
    ap (λ x. x % 2 ^ 32 * 512) sum ∙ omega arith

-- The byte `j` of a file whose clusters are these.
abbrev pub file_byte : (ℕ → ℕ) → FatPrivate → List ℕ → ℕ → ℕ
file_byte image p [] j = 0
file_byte image p (c ∷ cs) j =
    if ltb j (size_of_cluster_bytes p)
    then image (place p c + j)
    else file_byte image p cs (j - size_of_cluster_bytes p)

-- The clusters from the one number `q` of the chain on, each a data cluster in reach of a position.
abbrev pub IsChain : (ℕ → ℕ) → FatPrivate → ℕ → ℕ → List ℕ → Type 0
IsChain image p start q [] = Unit
IsChain image p start q (c ∷ cs) =
    (follow image p start q ≡ some c)
    × InReach image p start q
    × (2 ≤ c)
    × (place p c + size_of_cluster_bytes p < 2 ^ 31)
    × IsChain image p start (q + 1) cs

pub size-SameVolume :
    {p p' : FatPrivate} → SameVolume p p' → size_of_cluster_bytes p' ≡ size_of_cluster_bytes p
size-SameVolume v = ap (λ (h : FatH). h.primary_header.sectors_per_cluster * 512) v.header

place-SameVolume : {p p' : FatPrivate} (c : ℕ) → SameVolume p p' → code_place p' c ≡ code_place p c
unfolding fat16_cluster_to_sector
place-SameVolume {p} {p'} c v =
    ap
      (λ (h : FatH).
        (p'.root_directory.ending_sector_position
          + c * h.primary_header.sectors_per_cluster
          + 2 ^ 32
          - 2 * h.primary_header.sectors_per_cluster)
        % 2 ^ 32
        * 512)
      v.header
    ∙ ap
        (λ (r : FatDirectory).
          (r.ending_sector_position
            + c * p.header.primary_header.sectors_per_cluster
            + 2 ^ 32
            - 2 * p.header.primary_header.sectors_per_cluster)
          % 2 ^ 32
          * 512)
        v.root

-- The cluster for an offset of `q` whole clusters.
pub moved :
    (p0 p : FatPrivate) (stream : DiskStream)
    → SameVolume p0 p
    → stream.disk ≡ true
    → SameVolume p0 (record p { cluster_read_stream = stream })
moved p0 p stream v d = record {
  header = v.header;
  root = v.root;
  mounted = record { clusters = d; table = v.mounted.table; directories = v.mounted.directories };
}

pub cluster_found :
    (controller : Controller) (image : ℕ → ℕ) (p0 p : FatPrivate) (start q c offset : ℕ)
    → Serves controller image
    → SameVolume p0 p
    → 0 < size_of_cluster_bytes p0
    → offset / size_of_cluster_bytes p0 ≡ q
    → follow image p0 start q ≡ some c
    → InReach image p0 start q
    → (p' : FatPrivate) × (fat16_get_cluster_for_offset controller p start offset ≡ some (ok c, p'))
      × SameVolume p0 p'
cluster_found controller image p0 p start q c offset s v ps whole e r =
    let same : offset / size_of_cluster_bytes p ≡ q =
      ap (λ x. offset / x) (size-SameVolume v) ∙ whole in
    let (p', e', v') =
      fat16_get_cluster_for_offset-follow controller image p start offset s v.mounted
        (omega (arith, ps, size-SameVolume v))
        (subst (InReach image p start) (sym same) (InReach-SameVolume q image p0 p start v r)) in
    (
      p',
      e'
          ∙ ap (λ x. some (cluster_response (follow image p start x), p')) same
          ∙ ap (λ o. some (cluster_response o, p')) (follow-SameVolume q image p0 p start v ∙ e),
      SameVolume-trans v v',
    )

-- One read of bytes in a cluster.
pub cluster_read_at :
    (controller : Controller) (image : ℕ → ℕ) (p0 p : FatPrivate) (c n at : ℕ) (m : Mem) (out : ℕ)
    → Serves controller image
    → SameVolume p0 p
    → 2 ≤ c
    → at + n ≤ size_of_cluster_bytes p0
    → place p0 c + size_of_cluster_bytes p0 < 2 ^ 31
    → (stream : DiskStream) × (m' : Mem) × (seek_read controller p.cluster_read_stream
          ((code_place p c + at) % 2 ^ 32)
          m
          out
          n
        ≡ some (ok 0, stream, m'))
      × (stream.disk ≡ true)
      × Filled image (place p0 c + at) m out n m'
cluster_read_at controller image p0 p c n at m out s v real le small =
    let here : (code_place p c + at) % 2 ^ 32 ≡ place p0 c + at =
      ap (λ x. (x + at) % 2 ^ 32) (place-SameVolume c v ∙ code_place-place p0 c real (omega arith))
      ∙ mod-eq_of_lt (omega arith) in
    let (m', e, f) =
      seek_read-Filled controller image p.cluster_read_stream (place p0 c + at) m out n s
        v.mounted.clusters (omega arith) in
    (
      record { position = place p0 c + at + n; disk = true },
      m',
      ap (λ x. seek_read controller p.cluster_read_stream x m out n) here ∙ e,
      refl,
      f,
    )

-- One read of a cluster's first bytes.
cluster_read :
    (controller : Controller) (image : ℕ → ℕ) (p0 p : FatPrivate) (c n at : ℕ) (m : Mem) (out : ℕ)
    → Serves controller image
    → SameVolume p0 p
    → at ≡ 0
    → 2 ≤ c
    → n ≤ size_of_cluster_bytes p0
    → place p0 c + size_of_cluster_bytes p0 < 2 ^ 31
    → (stream : DiskStream) × (m' : Mem) × (seek_read controller p.cluster_read_stream
          ((code_place p c + at) % 2 ^ 32)
          m
          out
          n
        ≡ some (ok 0, stream, m'))
      × (stream.disk ≡ true)
      × Filled image (place p0 c) m out n m'
cluster_read controller image p0 p c n at m out s v start real le small =
    let (stream, m', e, d, f) =
      cluster_read_at controller image p0 p c n at m out s v real (omega (arith, start, le))
        small in
    let first : place p0 c + at ≡ place p0 c = omega (arith, start) in
    (stream, m', e, d, subst (λ x. Filled image x m out n m') first f)

Filled-first :
    (image : ℕ → ℕ) (p : FatPrivate) (c : ℕ) (cs : List ℕ) (m m' : Mem) (out total : ℕ)
    → total ≤ size_of_cluster_bytes p
    → Filled image (place p c) m out total m'
    → Filled (file_byte image p (c ∷ cs)) 0 m out total m'
Filled-first image p c cs m m' out total le f a = ground (arith, f a)

-- The first cluster, of `n` bytes, and the rest of the file behind it.
Filled-rest :
    (image : ℕ → ℕ) (p : FatPrivate) (c : ℕ) (cs : List ℕ) (m m1 m2 : Mem) (out total n : ℕ)
    → n ≡ size_of_cluster_bytes p
    → n < total
    → Filled image (place p c) m out n m1
    → Filled (file_byte image p cs) 0 m1 (out + n) (total - n) m2
    → Filled (file_byte image p (c ∷ cs)) 0 m out total m2
Filled-rest image p c cs m m1 m2 out total n e lt f g a = elim (Bool-cases (ltb a (out + n))) [
  | inl t ↦ ground (arith, f a, g a, e)
  | inr t ↦
      let behind : a - (out + n) ≡ a - out - size_of_cluster_bytes p = omega (arith, e) in
      ground (arith, f a, g a, e, ltb→le a (out + n) t, ap (file_byte image p cs) behind)
]

whole_clusters : (size q offset : ℕ) → 0 < size → offset ≡ q * size → offset / size ≡ q
whole_clusters size q offset ps al = ap (λ x. x / size) al ∙ mul-div_cancel q ps

aligned : (size size' q offset : ℕ) → size' ≡ size → offset ≡ q * size → offset % size' ≡ 0
aligned size size' q offset e al =
    ap (λ x. offset % x) e ∙ ap (λ x. x % size) al ∙ mul-mod_left q size

next_offset :
    (size size' q offset : ℕ) → size' ≡ size → offset ≡ q * size → offset + size' ≡ (q + 1) * size
next_offset size size' q offset e al = omega (arith, e, al, add-mul q 1 size)

-- The loop of the read, at the cluster number `q` of the chain.
read_chain :
    (fuel : ℕ) (cs : List ℕ) (controller : Controller) (image : ℕ → ℕ) (p0 p : FatPrivate)
    (start q offset total : ℕ) (m : Mem) (out : ℕ)
    → Serves controller image
    → SameVolume p0 p
    → 0 < size_of_cluster_bytes p0
    → offset ≡ q * size_of_cluster_bytes p0
    → IsChain image p0 start q cs
    → 0 < total
    → total ≤ length cs * size_of_cluster_bytes p0
    → total < fuel
    → (p' : FatPrivate) × (m' : Mem) × (fat16_read_internal_from_stream controller p start offset
          total m out fuel
        ≡ some (ok 0, p', m'))
      × SameVolume p0 p'
      × Filled (file_byte image p0 cs) 0 m out total m'
unfolding fat16_read_internal_from_stream at_cluster after_read
read_chain zero cs controller image p0 p start q offset total m out s v ps al ch pt le lt =
    absurd (omega arith)
read_chain (suc fuel) [] controller image p0 p start q offset total m out s v ps al ch pt le lt =
    absurd (omega (arith, zero-mul (size_of_cluster_bytes p0)))
read_chain (suc fuel) (c ∷ cs) controller image p0 p start q offset total m out s v ps al
      (fo, r, real, small, ch) pt le lt =
    let n = size_of_cluster_bytes p in
    let size = size_of_cluster_bytes p0 in
    let same : n ≡ size = size-SameVolume v in
    let (p1, e1, v1) =
      cluster_found controller image p0 p start q c offset s v ps
        (whole_clusters size q offset ps al) fo r in
    let start_of : offset % n ≡ 0 = aligned size n q offset same al in
    elim (Bool-cases (ltb n total)) [
      | inl more ↦
          let (stream, m1, e2, d, f) =
            cluster_read controller image p0 p1 c n (offset % n) m out s v1 start_of real
              (omega (arith, same)) small in
          let p2 = record p1 { cluster_read_stream = stream } in
          let (p3, m2, e3, v3, g) =
            read_chain fuel cs controller image p0 p2 start (q + 1) (offset + n) (total - n) m1
              (out + n) s (moved p0 p1 stream v1 d) ps (next_offset size n q offset same al) ch
              (omega (arith, ltb→lt n total more)) (omega (arith, same, suc-mul (length cs) size))
              (omega (arith, same)) in
          let left : ltb 0 (total - n) ≡ true = ground (arith, ltb→lt n total more) in
          (
            p3,
            m2,
            rw (e1, more, e2, left) (rw more e3),
            v3,
            Filled-rest image p0 c cs m m1 m2 out total n same (ltb→lt n total more) f g,
          )
      | inr last ↦
          let (stream, m1, e2, d, f) =
            cluster_read controller image p0 p1 c total (offset % n) m out s v1 start_of real
              (omega (arith, same, ltb→le n total last)) small in
          let none_left : ltb 0 (total - total) ≡ false = ground arith in
          (
            record p1 { cluster_read_stream = stream },
            m1,
            rw (e1, last, e2, none_left),
            moved p0 p1 stream v1 d,
            Filled-first image p0 c cs m m1 out total (omega (arith, same, ltb→le n total last)) f,
          )
    ]

-- On a volume whose disk serves an image, a read of `total > 0` bytes of a file, from an offset of `q`
-- whole clusters on, succeeds where the entries that fat16_get_fat_entry finds lead along the clusters `cs`
-- from there on and they hold the bytes: memory has the file's bytes, cluster after cluster, and nothing else changes; of the volume only
-- the streams move.
pub fat16_read_internal-Filled :
    (cs : List ℕ) (controller : Controller) (image : ℕ → ℕ) (p : FatPrivate)
    (starting_cluster q offset total : ℕ) (m : Mem) (out : ℕ)
    → Serves controller image
    → Mounted p
    → 0 < size_of_cluster_bytes p
    → offset ≡ q * size_of_cluster_bytes p
    → IsChain image p starting_cluster q cs
    → 0 < total
    → total ≤ length cs * size_of_cluster_bytes p
    → (p' : FatPrivate) × (m' : Mem) × (fat16_read_internal controller p starting_cluster offset
          total m out
        ≡ some (ok 0, p', m'))
      × SameVolume p p'
      × Filled (file_byte image p cs) 0 m out total m'
unfolding fat16_read_internal
fat16_read_internal-Filled cs controller image p starting_cluster q offset total m out s mo ps al ch
      pt le =
    read_chain (total + 1) cs controller image p p starting_cluster q offset total m out s
      (record { header = refl; root = refl; mounted = mo }) ps al ch pt le (omega arith)
