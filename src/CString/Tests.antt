-- ===== src/CString/Tests.antt =====
-- string.c on "boi" at 100 and "BOX" at 200.
use boi_os.Prelude.{
  ℕ, ◌-◌, ◌≡◌, ◌↔◌, List, [], ◌∷◌, Option, some, get_elem?, take, arith, ltb, if◌then◌else◌,
}
use boi_os.Prelude.Int.{pos}
use boi_os.Prelude.Mem.{Mem}
use boi_os.CString.{istrncmp}
use boi_os.CString.Laws.{IsString}
use boi_os.CString.Compare.{map_lower, istrncmp-zero_iff}

abbrev byte_or_zero : Option ℕ → ℕ
byte_or_zero Option.none = 0
byte_or_zero (some c) = c

abbrev boi : List ℕ
boi = b'b' ∷ b'o' ∷ b'i' ∷ []

abbrev box : List ℕ
box = b'B' ∷ b'O' ∷ b'X' ∷ []

-- The two strings, with zero bytes elsewhere.
abbrev mem : Mem
mem a =
    if ltb a 200
    then byte_or_zero (get_elem? boi (a - 100))
    else byte_or_zero (get_elem? box (a - 200))

boi-IsString : IsString mem 100 boi
boi-IsString = omega arith

box-IsString : IsString mem 200 box
box-IsString = omega arith

istrncmp-zero_iff_example :
    (istrncmp mem 100 200 2 ≡ pos 0) ↔ (map_lower (take 2 boi) ≡ map_lower (take 2 box))
istrncmp-zero_iff_example = istrncmp-zero_iff 2 boi box mem 100 200 boi-IsString box-IsString
