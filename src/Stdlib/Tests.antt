-- ===== src/Stdlib/Tests.antt =====
-- The user library at small inputs.
use boi_os.Prelude.{
  ℕ, ◌-◌, ◌<◌, ◌≡◌, refl, inl, inr, true, some, Option, List, [], ◌∷◌, get_elem?, arith, ltb, ◌==◌,
  if◌then◌else◌,
}
use boi_os.Prelude.Int.{pos, negsuc}
use boi_os.Prelude.Mem.{Mem}
use boi_os.CString.Laws.{IsString}
use boi_os.Stdlib.Numbers.{itoa}
use boi_os.Stdlib.Numbers.Decimal.{Printed, itoa-Printed, itoa-overrun}
use boi_os.Stdlib.Tokens.{strtok}
use boi_os.Stdlib.Tokens.Next.{Outcome, strtok-Outcome}
use boi_os.Stdlib.Readline.{boios_terminal_readline}
use boi_os.Stdlib.Readline.Edits.{line_of}
use boi_os.Stdlib.Readline.Typed.{Typed, boios_terminal_readline-Typed}
use boi_os.Stdlib.Commands.{boios_parse_command}
use boi_os.Stdlib.Commands.Linked.{separators}
use boi_os.Stdlib.Commands.Parsed.{Parsed, boios_parse_command-Arguments}

abbrev zeros : Mem
zeros a = 0

itoa-Printed_example :
    (m' : Mem) × (p : ℕ) × (itoa zeros 100 (negsuc 41) ≡ some (m', p))
    × Printed zeros 100 (negsuc 41) m' p
itoa-Printed_example = itoa-Printed zeros 100 (negsuc 41) (omega arith) (omega arith)

itoa-overrun_example :
    (m' : Mem) × (itoa zeros 100 (negsuc 2147483647) ≡ some (m', 100 - 1)) × (m' (100 - 1) ≡ b'-')
itoa-overrun_example = itoa-overrun zeros 100 2147483647 (omega arith) (omega arith) (omega arith)

abbrev byte_or_zero : Option ℕ → ℕ
byte_or_zero Option.none = 0
byte_or_zero (some c) = c

abbrev run_echo : List ℕ
run_echo = b' ' ∷ b'e' ∷ b'c' ∷ b' ' ∷ b'h' ∷ []

-- The text " ec h" at 100, a blank at 50, and zero bytes elsewhere.
abbrev mem : Mem
mem a =
    if a == 50 then b' ' else if ltb a 100 then 0 else byte_or_zero (get_elem? run_echo (a - 100))

blank : IsString mem 50 separators
blank = omega arith

run_echo-IsString : IsString mem 100 run_echo
run_echo-IsString = omega arith

strtok-Outcome_example : Outcome mem 50 separators blank run_echo 100 (strtok mem 0 100 50 9)
strtok-Outcome_example =
    strtok-Outcome mem 50 separators blank run_echo 0 100 9 (omega arith) run_echo-IsString
      (omega arith) (omega arith)

abbrev log : List ℕ → ℕ → List ℕ
log t c = c ∷ t

-- "ho", a backspace, "i" and Enter.
abbrev keys : List ℕ
keys = b'h' ∷ 0 ∷ b'o' ∷ 8 ∷ b'i' ∷ 13 ∷ b'x' ∷ []

boios_terminal_readline-Typed_example :
    (line : List ℕ) × (rest : List ℕ) × (m' : Mem) × (t' : List ℕ) × (line_of true
        (1024 - 1)
        []
        keys
      ≡ some (line, rest))
    × (boios_terminal_readline log zeros 100 1024 true [] keys 9 ≡ some (m', t', rest))
    × Typed zeros 100 (1024 - 1) line m'
boios_terminal_readline-Typed_example =
    boios_terminal_readline-Typed log 100 1024 true keys zeros [] 9
      (inr (inr (inr (inr (inr (inl refl)))))) (omega arith)

here : 0 < 2000
here = omega arith

enough : 1025 < 1026
enough = omega arith

abbrev two_blocks : List ℕ
two_blocks = 9000 ∷ 8000 ∷ []

boios_parse_command-Arguments_example :
    Parsed run_echo (boios_parse_command 50 2000 1026 mem 0 100 (pos 1024) two_blocks)
boios_parse_command-Arguments_example =
    boios_parse_command-Arguments 50 2000 1026 here enough (inl (omega arith)) run_echo two_blocks
      mem 100 1024 run_echo-IsString (inr (omega arith)) blank (omega arith) (omega arith)
      (omega arith)
