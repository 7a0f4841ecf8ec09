-- ===== src/PathParser/Parts.antt =====
-- The parts of a path, as a function of its text.
use boi_os.Prelude.{
  ℕ, ◌+◌, ◌≤◌, ◌≡◌, ◌≢◌, refl, ap, ◌∙◌, inl, inr, List, [], ◌∷◌, ◌++◌, ◌==◌, if◌then◌else◌, length,
  arith, Bool-cases,
}
use mathlib.Core.List.{append-nil, append_assoc}

-- A part and what follows it; an empty part ends the path.
abbrev pub emit : List ℕ → List (List ℕ) → List (List ℕ)
emit [] rest = []
emit (c ∷ cs) rest = (c ∷ cs) ∷ rest

-- The names between slashes, up to the first empty one; `cur` is the name read so far.
unfoldable pub split : List ℕ → List ℕ → List (List ℕ)
split cur [] = emit cur []
split cur (c ∷ cs) = if c == b'/' then emit cur (split [] cs) else split (cur ++ (c ∷ [])) cs

-- The text in front of the first slash, and the text behind it.
unfoldable pub part_of : List ℕ → List ℕ
part_of [] = []
part_of (c ∷ cs) = if c == b'/' then [] else c ∷ part_of cs

unfoldable pub rest_of : List ℕ → List ℕ
rest_of [] = []
rest_of (c ∷ cs) = if c == b'/' then cs else rest_of cs

pub split-emit : (cs cur : List ℕ) → split cur cs ≡ emit (cur ++ part_of cs) (split [] (rest_of cs))
unfolding split part_of rest_of
split-emit [] cur = rw append-nil
split-emit (c ∷ cs) cur = elim (Bool-cases (c == b'/')) [
  | inl h ↦ rw (h, append-nil)
  | inr h ↦ rw (h) (split-emit cs (cur ++ (c ∷ [])) ∙ rw append_assoc)
]

pub length-rest_of : (cs : List ℕ) → length (rest_of cs) + length (part_of cs) ≤ length cs
unfolding part_of rest_of
length-rest_of [] = omega arith
length-rest_of (c ∷ cs) = ground (arith, length-rest_of cs)

abbrev pub NoSlash : List ℕ → Type 0
NoSlash [] = Unit
NoSlash (c ∷ cs) = (c ≢ b'/') × NoSlash cs

-- A name that can stand in a path.
abbrev pub IsName : List ℕ → Type 0
IsName p = (p ≢ []) × NoSlash p

abbrev pub AllNames : List (List ℕ) → Type 0
AllNames [] = Unit
AllNames (p ∷ ps) = IsName p × AllNames ps

-- The names with a slash between each two.
abbrev pub join : List (List ℕ) → List ℕ
join [] = []
join (p ∷ []) = p
join (p ∷ q ∷ ps) = p ++ b'/' ∷ join (q ∷ ps)

part_of-append : (p rest : List ℕ) → NoSlash p → part_of (p ++ b'/' ∷ rest) ≡ p
unfolding part_of
part_of-append [] rest n = refl
part_of-append (c ∷ p) rest n = ground (arith, part_of-append p rest n.1)

rest_of-append : (p rest : List ℕ) → NoSlash p → rest_of (p ++ b'/' ∷ rest) ≡ rest
unfolding rest_of
rest_of-append [] rest n = refl
rest_of-append (c ∷ p) rest n = ground (arith, rest_of-append p rest n.1)

part_of-name : (p : List ℕ) → NoSlash p → part_of p ≡ p
unfolding part_of
part_of-name [] n = refl
part_of-name (c ∷ p) n = ground (arith, part_of-name p n.1)

rest_of-name : (p : List ℕ) → NoSlash p → rest_of p ≡ []
unfolding rest_of
rest_of-name [] n = refl
rest_of-name (c ∷ p) n = ground (arith, rest_of-name p n.1)

emit-name : (p : List ℕ) (rest : List (List ℕ)) → p ≢ [] → emit p rest ≡ p ∷ rest
emit-name [] rest ne = absurd (ne refl)
emit-name (c ∷ p) rest ne = refl

-- Splitting the joined names gives them back.
pub split-join : (ps : List (List ℕ)) → AllNames ps → split [] (join ps) ≡ ps
split-join [] h = unfold split in refl
split-join (p ∷ []) ((ne, ns), _) =
    split-emit p []
    ∙ rw (part_of-name p ns, rest_of-name p ns)
        (emit-name p (split [] []) ne ∙ ap (λ t. p ∷ t) (unfold split in refl))
split-join (p ∷ q ∷ ps) ((ne, ns), later) =
    split-emit (p ++ b'/' ∷ join (q ∷ ps)) []
    ∙ rw (part_of-append p (join (q ∷ ps)) ns, rest_of-append p (join (q ∷ ps)) ns)
        (emit-name p (split [] (join (q ∷ ps))) ne ∙ ap (λ t. p ∷ t) (split-join (q ∷ ps) later))
