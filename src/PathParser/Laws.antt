-- ===== src/PathParser/Laws.antt =====
-- pathparser_parse of a string in memory.
use boi_os.Prelude.{
  ℕ, zero, suc, ◌+◌, ◌≤◌, ◌<◌, ◌≡◌, ◌≢◌, ◌⊎◌, refl, ap, ◌∙◌, inl, inr, true, ◌&&◌, List, [], ◌∷◌,
  ltb, leb, ◌==◌, if◌then◌else◌, length, arith, Bool-cases, Option, none, some, ◌-◌, le→ltb, ne→==,
}
use Prim.Native.Nat.{min}
use boi_os.Prelude.Int.{pos}
use boi_os.Prelude.Mem.{Mem}
use boi_os.CString.{isdigit, tonumericdigit}
use boi_os.CString.Laws.{IsString, strlen-length, strnlen-min}
use boi_os.PathParser.{
  PathRoot, pathparser_get_drive_by_path, part_loop, part_or_null, link_part,
  pathparser_get_path_part, parse_parts, parse_from, pathparser_parse,
}
use boi_os.PathParser.Parts.{
  emit, split, part_of, rest_of, split-emit, length-rest_of, AllNames, join, split-join,
}

-- Where the loop stops: at the end of the text, or at a slash.
abbrev Stops : Mem → ℕ → List ℕ → Type 0
Stops m q cs = ((m q ≡ 0) × (rest_of cs ≡ [])) ⊎ ((m q ≡ b'/') × IsString m (q + 1) (rest_of cs))

part_loop-part_of :
    (cs : List ℕ) (m : Mem) (p fuel : ℕ)
    → IsString m p cs
    → length cs < fuel
    → (q : ℕ) × (part_loop m p fuel ≡ some (part_of cs, q)) × Stops m q cs
unfolding part_loop part_of rest_of
part_loop-part_of cs m p zero s lt = absurd (omega arith)
part_loop-part_of [] m p (suc fuel) s lt = (p, rw (s, part_loop), inl (s, refl))
part_loop-part_of (c ∷ cs) m p (suc fuel) (h, pc, s) lt = elim (Bool-cases (c == b'/')) [
  | inl slash ↦ (p, rw (h, slash, part_loop), rw slash (inr (h ∙ ground arith, s)))
  | inr other ↦
      let (q, e, stop) = part_loop-part_of cs m (p + 1) fuel s (omega arith) in
      (
        q,
        rw (h, other, ne→== c 0 (omega arith), e, part_loop) (ap (λ x. some (x ∷ part_of cs, q)) h),
        rw other stop,
      )
]

path_part-part_of :
    (cs : List ℕ) (m : Mem) (p fuel : ℕ)
    → IsString m p cs
    → length cs < fuel
    → (q : ℕ) × (pathparser_get_path_part m p fuel ≡ some (part_or_null (part_of cs), q))
      × IsString m q (rest_of cs)
unfolding pathparser_get_path_part
path_part-part_of cs m p fuel s lt =
    let (q, e, stop) = part_loop-part_of cs m p fuel s lt in
    elim stop [
      | inl (z, r) ↦ (q, rw (e, z, pathparser_get_path_part), rw r z)
      | inr (z, r) ↦ (q + 1, rw (e, z, pathparser_get_path_part), r)
    ]

length-pos : (p : List ℕ) → p ≢ [] → 0 < length p
length-pos [] ne = absurd (ne refl)
length-pos (c ∷ p) ne = omega arith

link_part-emit :
    (part : List ℕ) (rest : Option (List (List ℕ))) (ps : List (List ℕ))
    → (part ≢ [] → rest ≡ some ps)
    → link_part (part_or_null part) rest ≡ some (emit part ps)
link_part-emit [] rest ps h = refl
link_part-emit (c ∷ part) rest ps h = rw (h (cc))

parse_parts-split :
    (fuel : ℕ) (cs : List ℕ) (m : Mem) (p : ℕ)
    → IsString m p cs
    → length cs + 1 < fuel
    → parse_parts m p fuel ≡ some (split [] cs)
unfolding parse_parts
parse_parts-split zero cs m p s lt = absurd (omega arith)
parse_parts-split (suc fuel) cs m p s lt =
    let (q, e, s') = path_part-part_of cs m p fuel s (omega arith) in
    rw (e, parse_parts, split-emit cs [])
      (link_part-emit (part_of cs) _ _ (λ ne.
        parse_parts-split fuel (rest_of cs) m q s'
          (omega (arith, length-rest_of cs, length-pos (part_of cs) ne))))

-- The root that a path's text stands for: a digit, ":/" and the names up to the first empty one.
unfoldable pub root_of : List ℕ → Option PathRoot
root_of [] = none
root_of (d ∷ []) = none
root_of (d ∷ c ∷ []) = none
root_of (d ∷ c ∷ s ∷ cs) =
    if isdigit d && (c == b':' && s == b'/')
    then some (record { drive_no = tonumericdigit d; parts = split [] cs })
    else none

parse_from-root_of :
    (cs : List ℕ) (m : Mem) (p fuel : ℕ)
    → IsString m p cs
    → length cs + 1 < fuel
    → parse_from m (pathparser_get_drive_by_path m p) fuel ≡ some (root_of cs)
unfolding parse_from root_of pathparser_get_drive_by_path
parse_from-root_of [] m p fuel s lt = rw (strnlen-min [] m p 128 s)
parse_from-root_of (d ∷ []) m p fuel s lt = rw (strnlen-min (d ∷ []) m p 128 s)
parse_from-root_of (d ∷ c ∷ []) m p fuel s lt = rw (strnlen-min (d ∷ c ∷ []) m p 128 s)
parse_from-root_of (d ∷ c ∷ x ∷ cs) m p fuel (hd, pd, (hc, pc, (hx, px, s))) lt =
    let two : p + 1 + 1 ≡ p + 2 = omega arith in
    let three : p + 1 + 1 + 1 ≡ p + 3 = omega arith in
    let long : leb 3 (min (length (d ∷ c ∷ x ∷ cs)) 128) ≡ true = ground arith in
    rw
      (
        strnlen-min (d ∷ c ∷ x ∷ cs) m p 128 (hd, pd, (hc, pc, (hx, px, s))),
        long,
        hd,
        hc,
        rw two at hx,
      )
      (elim (Bool-cases (isdigit d && (c == b':' && x == b'/'))) [
        | inl h ↦
            rw (h, parse_parts-split fuel cs m (p + 3) (rw three at s) (omega arith), parse_from)
        | inr h ↦ rw h
      ])

digit : (d : ℕ) → b'0' ≤ d → d ≤ b'9' → (isdigit d ≡ true) × (tonumericdigit d ≡ pos (d - b'0'))
unfolding isdigit tonumericdigit
digit d lo hi = ground arith

-- With fuel for the length of the path and two steps more, pathparser_parse of a string ends: it
-- returns null for a path of more than 128 bytes or one that does not start with a digit and ":/", and
-- else the drive and the names between the slashes, up to the first empty one.
pub pathparser_parse-root_of :
    (cs : List ℕ) (m : Mem) (path fuel : ℕ)
    → IsString m path cs
    → length cs + 1 < fuel
    → pathparser_parse m path fuel ≡ some (if ltb 128 (length cs) then none else root_of cs)
unfolding pathparser_parse
pathparser_parse-root_of cs m path fuel s lt =
    rw (strlen-length cs m path fuel s (omega arith), pathparser_parse)
      (elim (Bool-cases (ltb 128 (length cs))) [
        | inl h ↦ rw h
        | inr h ↦ rw h (parse_from-root_of cs m path fuel s lt)
      ])

-- The text of a path.
abbrev pub render : ℕ → List (List ℕ) → List ℕ
render d ps = d ∷ b':' ∷ b'/' ∷ join ps

-- Where the text of a path with a drive digit and names that are not empty and hold no slash is in
-- memory and at most 128 bytes long, pathparser_parse gives back the drive's number and the names.
pub pathparser_parse-render :
    (d : ℕ) (ps : List (List ℕ)) (m : Mem) (path fuel : ℕ)
    → b'0' ≤ d
    → d ≤ b'9'
    → AllNames ps
    → length (render d ps) ≤ 128
    → IsString m path (render d ps)
    → length (render d ps) + 1 < fuel
    → pathparser_parse m path fuel ≡ some (some (record { drive_no = pos (d - b'0'); parts = ps }))
unfolding root_of
pathparser_parse-render d ps m path fuel lo hi names small s lt =
    pathparser_parse-root_of (render d ps) m path fuel s lt
    ∙ rw (
      le→ltb 128 (length (render d ps)) small,
      (digit d lo hi).0,
      (digit d lo hi).1,
      split-join ps names,
    )
