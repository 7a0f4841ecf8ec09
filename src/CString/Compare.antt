-- ===== src/CString/Compare.antt =====
-- strncmp and istrncmp against equality of the strings they read.

use boi_os.Prelude.{
  ℕ, zero, suc, ◌+◌, ◌≡◌, ◌↔◌, refl, ap, sym, ◌∙◌, ◌-◌, ◌&&◌, leb, if◌then◌else◌, List, [], ◌∷◌,
  take, arith,
}
use boi_os.Prelude.Int.{pos}
use boi_os.Prelude.Mem.{Mem}
use boi_os.CString.{strncmp, istrncmp, tolower}
use boi_os.CString.Laws.{IsString}

-- The small letter in the place of a capital one; any other byte stays.
abbrev pub lower : ℕ → ℕ
lower c = if leb b'A' c && leb c b'Z' then b'a' + (c - b'A') else c

abbrev pub map_lower : List ℕ → List ℕ
map_lower [] = []
map_lower (c ∷ cs) = lower c ∷ map_lower cs

tolower-lower : (c : ℕ) → tolower c ≡ lower c
unfolding tolower
tolower-lower c = ground arith

map_tolower : List ℕ → List ℕ
map_tolower [] = []
map_tolower (c ∷ cs) = tolower c ∷ map_tolower cs

map_tolower-map_lower : (cs : List ℕ) → map_tolower cs ≡ map_lower cs
unfolding map_tolower
map_tolower-map_lower [] = refl
map_tolower-map_lower (c ∷ cs) =
    ap (λ x. x ∷ map_tolower cs) (tolower-lower c)
    ∙ ap (λ xs. lower c ∷ xs) (map_tolower-map_lower cs)

strncmp-eq :
    (n : ℕ) (xs ys : List ℕ) (m : Mem) (p q : ℕ)
    → IsString m p xs
    → IsString m q ys
    → strncmp m p q n ≡ pos 0
    → take n xs ≡ take n ys
unfolding strncmp
strncmp-eq zero xs ys m p q sa sb e = refl
strncmp-eq (suc n) [] [] m p q sa sb e = refl
strncmp-eq (suc n) [] (y ∷ ys) m p q sa (hb, pb, sb) e = absurd (ground arith)
strncmp-eq (suc n) (x ∷ xs) [] m p q (ha, pa, sa) sb e = absurd (ground arith)
strncmp-eq (suc n) (x ∷ xs) (y ∷ ys) m p q (ha, pa, sa) (hb, pb, sb) e =
    ground (arith, strncmp-eq n xs ys m (p + 1) (q + 1) sa sb)

eq-strncmp :
    (n : ℕ) (xs ys : List ℕ) (m : Mem) (p q : ℕ)
    → IsString m p xs
    → IsString m q ys
    → take n xs ≡ take n ys
    → strncmp m p q n ≡ pos 0
unfolding strncmp
eq-strncmp zero xs ys m p q sa sb e = refl
eq-strncmp (suc n) [] [] m p q sa sb e = ground arith
eq-strncmp (suc n) [] (y ∷ ys) m p q sa sb e = cc
eq-strncmp (suc n) (x ∷ xs) [] m p q sa sb e = cc
eq-strncmp (suc n) (x ∷ xs) (y ∷ ys) m p q (ha, pa, sa) (hb, pb, sb) e =
    ground (arith, eq-strncmp n xs ys m (p + 1) (q + 1) sa sb)

-- strncmp returns 0 exactly when the first `n` bytes of the two strings are the same.
pub strncmp-zero_iff :
    (n : ℕ) (xs ys : List ℕ) (m : Mem) (p q : ℕ)
    → IsString m p xs
    → IsString m q ys
    → (strncmp m p q n ≡ pos 0) ↔ (take n xs ≡ take n ys)
strncmp-zero_iff n xs ys m p q sa sb =
    (strncmp-eq n xs ys m p q sa sb, eq-strncmp n xs ys m p q sa sb)

istrncmp-eq :
    (n : ℕ) (xs ys : List ℕ) (m : Mem) (p q : ℕ)
    → IsString m p xs
    → IsString m q ys
    → istrncmp m p q n ≡ pos 0
    → map_tolower (take n xs) ≡ map_tolower (take n ys)
unfolding istrncmp map_tolower
istrncmp-eq zero xs ys m p q sa sb e = refl
istrncmp-eq (suc n) [] [] m p q sa sb e = refl
istrncmp-eq (suc n) [] (y ∷ ys) m p q sa (hb, pb, sb) e = absurd (ground arith)
istrncmp-eq (suc n) (x ∷ xs) [] m p q (ha, pa, sa) sb e = absurd (ground arith)
istrncmp-eq (suc n) (x ∷ xs) (y ∷ ys) m p q (ha, pa, sa) (hb, pb, sb) e =
    ground (arith, istrncmp-eq n xs ys m (p + 1) (q + 1) sa sb)

eq-istrncmp :
    (n : ℕ) (xs ys : List ℕ) (m : Mem) (p q : ℕ)
    → IsString m p xs
    → IsString m q ys
    → map_tolower (take n xs) ≡ map_tolower (take n ys)
    → istrncmp m p q n ≡ pos 0
unfolding istrncmp map_tolower
eq-istrncmp zero xs ys m p q sa sb e = refl
eq-istrncmp (suc n) [] [] m p q sa sb e = ground arith
eq-istrncmp (suc n) [] (y ∷ ys) m p q sa sb e = cc
eq-istrncmp (suc n) (x ∷ xs) [] m p q sa sb e = cc
eq-istrncmp (suc n) (x ∷ xs) (y ∷ ys) m p q (ha, pa, sa) (hb, pb, sb) e =
    ground (arith, eq-istrncmp n xs ys m (p + 1) (q + 1) sa sb)

-- istrncmp returns 0 exactly when the first `n` bytes of the two strings are the same but for the case
-- of the letters A to Z.
pub istrncmp-zero_iff :
    (n : ℕ) (xs ys : List ℕ) (m : Mem) (p q : ℕ)
    → IsString m p xs
    → IsString m q ys
    → (istrncmp m p q n ≡ pos 0) ↔ (map_lower (take n xs) ≡ map_lower (take n ys))
istrncmp-zero_iff n xs ys m p q sa sb =
    let low = map_tolower-map_lower in
    (
      λ e. sym (low (take n xs)) ∙ istrncmp-eq n xs ys m p q sa sb e ∙ low (take n ys),
      λ e. eq-istrncmp n xs ys m p q sa sb (low (take n xs) ∙ e ∙ sym (low (take n ys))),
    )
