-- ===== src/Memory/Laws.antt =====
-- What memset, memcpy and memcmp do to each address.
use boi_os.Prelude.{
  ℕ, zero, suc, ◌+◌, ◌-◌, ◌%◌, ◌≤◌, ◌<◌, ◌≡◌, refl, ◌⊎◌, ◌↔◌, ap, leb, ltb, ◌&&◌, if◌then◌else◌,
  arith,
}
use native.Mathlib.Nat.{add-zero}
use boi_os.Prelude.Int.{pos}
use boi_os.Prelude.Mem.{Mem, store}
use boi_os.Memory.{memset, memcmp, memcpy}

-- memset writes the low byte of `c` to the `size` addresses from `ptr` on, and nothing else.
pub memset_lem :
    (size : ℕ) (m : Mem) (ptr c a : ℕ)
    → memset m ptr c size a ≡ (if leb ptr a && ltb a (ptr + size) then c % 256 else m a)
unfolding memset
memset_lem zero m ptr c a = ground arith
memset_lem (suc size) m ptr c a =
    ground (arith, memset_lem size (store m ptr (c % 256)) (ptr + 1) c a)

-- Where the source does not lie ahead of the destination's writes, memcpy copies its `len` bytes as
-- they were, and writes nothing else.
pub memcpy_lem :
    (len : ℕ) (m : Mem) (d s a : ℕ)
    → (d ≤ s) ⊎ (s + len ≤ d)
    → memcpy m d s len a ≡ (if leb d a && ltb a (d + len) then m (s + (a - d)) else m a)
unfolding memcpy
memcpy_lem zero m d s a h = ground arith
memcpy_lem (suc len) m d s a h = ground (arith, memcpy_lem len (store m d (m s)) (d + 1) (s + 1) a)

memcmp-eq :
    (count : ℕ) (m : Mem) (s1 s2 : ℕ)
    → memcmp m s1 s2 count ≡ pos 0
    → (i : ℕ) → i < count
    → m (s1 + i) ≡ m (s2 + i)
unfolding memcmp
memcmp-eq zero m s1 s2 e i h = elim h [ ]
memcmp-eq (suc count) m s1 s2 e zero h = ground (arith, add-zero s1, add-zero s2)
memcmp-eq (suc count) m s1 s2 e (suc i) h =
    ground (
      arith,
      memcmp-eq count m (s1 + 1) (s2 + 1) (ground arith) i,
      ap m (shift s1),
      ap m (shift s2),
    )
  where
    shift : (s : ℕ) → s + 1 + i ≡ s + suc i
    shift s = omega arith

eq-memcmp :
    (count : ℕ) (m : Mem) (s1 s2 : ℕ)
    → ((i : ℕ) → i < count → m (s1 + i) ≡ m (s2 + i))
    → memcmp m s1 s2 count ≡ pos 0
unfolding memcmp
eq-memcmp zero m s1 s2 h = refl
eq-memcmp (suc count) m s1 s2 h =
    ground (arith, add-zero s1, add-zero s2, h 0, eq-memcmp count m (s1 + 1) (s2 + 1) later)
  where
    shift : (s i : ℕ) → s + 1 + i ≡ s + suc i
    shift s i = omega arith

    later : (i : ℕ) → i < count → m (s1 + 1 + i) ≡ m (s2 + 1 + i)
    later i l = rw (shift s1 i, shift s2 i) (h (suc i) (omega arith))

-- memcmp returns 0 exactly when the two ranges hold the same bytes.
pub memcmp-zero_iff :
    (count : ℕ) (m : Mem) (s1 s2 : ℕ)
    → (memcmp m s1 s2 count ≡ pos 0) ↔ ((i : ℕ) → i < count → m (s1 + i) ≡ m (s2 + i))
memcmp-zero_iff count m s1 s2 = (memcmp-eq count m s1 s2, eq-memcmp count m s1 s2)
