-- ===== src/PathParser/Tests.antt =====
-- pparser.c on "0:/bin/a" and on a path with an empty name.
use boi_os.Prelude.{ℕ, ◌-◌, ◌≡◌, List, [], ◌∷◌, Option, some, arith, get_elem?}
use boi_os.Prelude.Int.{pos}
use boi_os.Prelude.Mem.{Mem}
use boi_os.CString.Laws.{IsString}
use boi_os.PathParser.{pathparser_parse}
use boi_os.PathParser.Parts.{AllNames}
use boi_os.PathParser.Laws.{pathparser_parse-render}

abbrev byte_or_zero : Option ℕ → ℕ
byte_or_zero Option.none = 0
byte_or_zero (some c) = c

-- Memory that holds the bytes at address 1000.
abbrev holding : List ℕ → Mem
holding cs a = byte_or_zero (get_elem? cs (a - 1000))

abbrev names : List (List ℕ)
names = (b'b' ∷ b'i' ∷ b'n' ∷ []) ∷ (b'a' ∷ []) ∷ []

abbrev bin_a : List ℕ
bin_a = b'0' ∷ b':' ∷ b'/' ∷ b'b' ∷ b'i' ∷ b'n' ∷ b'/' ∷ b'a' ∷ []

abbrev empty_name : List ℕ
empty_name = b'0' ∷ b':' ∷ b'/' ∷ b'b' ∷ b'/' ∷ b'/' ∷ b'a' ∷ []

bin_a-IsString : IsString (holding bin_a) 1000 bin_a
bin_a-IsString = omega arith

empty_name-IsString : IsString (holding empty_name) 1000 empty_name
empty_name-IsString = omega arith

names-AllNames : AllNames names
names-AllNames =
    ((λ e. cc, (omega arith, (omega arith, (omega arith, tt)))), ((λ e. cc, (omega arith, tt)), tt))

pathparser_parse-render_example :
    pathparser_parse (holding bin_a) 1000 20
    ≡ some (some (record { drive_no = pos 0; parts = names }))
pathparser_parse-render_example =
    pathparser_parse-render b'0' names (holding bin_a) 1000 20 (omega arith) (omega arith)
      names-AllNames (omega arith) bin_a-IsString (omega arith)
