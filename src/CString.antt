-- ===== src/CString.antt =====
-- src/string/string.c. A `char*` is an address; a loop that ends at a terminator only runs on fuel,
-- and `none` is that the fuel ran out.
pub mod Laws
pub mod Compare
mod Tests
use boi_os.Prelude.{
  ℕ, zero, suc, ◌+◌, ◌-◌, Bool, true, false, ◌&&◌, ◌||◌, not, Option, none, some, ltb, leb, ◌==◌,
  if◌then◌else◌,
}
use boi_os.Prelude.Int.{ℤ, pos, negsuc, sub_ℕ}
use boi_os.Prelude.Mem.{Mem, store}

strlen_loop : Mem → ℕ → ℕ → ℕ → Option ℕ
strlen_loop m str len zero = none
strlen_loop m str len (suc fuel) = elim (m (str + len) == 0) [
  | true ↦ some len
  | false ↦ strlen_loop m str (len + 1) fuel
]

pub strlen : Mem → ℕ → ℕ → Option ℕ
unfolding strlen_loop
strlen m str fuel = strlen_loop m str 0 fuel

-- `k` rounds are left.
strnlen_loop : Mem → ℕ → ℕ → ℕ → ℕ
strnlen_loop m str i zero = i
strnlen_loop m str i (suc k) = elim (m (str + i) == 0) [
  | true ↦ i
  | false ↦ strnlen_loop m str (i + 1) k
]

pub strnlen : Mem → ℕ → ℕ → ℕ
unfolding strnlen_loop
strnlen m str max = strnlen_loop m str 0 max

terminator_loop : Mem → ℕ → ℕ → ℕ → ℕ → Option ℕ
terminator_loop m str terminator len zero = none
terminator_loop m str terminator len (suc fuel) =
    elim (not (m (str + len) == 0) && not (m (str + len) == terminator)) [
      | true ↦ terminator_loop m str terminator (len + 1) fuel
      | false ↦ some len
    ]

pub strnlen_terminator : Mem → ℕ → ℕ → ℕ → ℕ → Option ℕ
unfolding terminator_loop
strnlen_terminator m str max terminator fuel = elim (terminator_loop m str terminator 0 fuel) [
  | none ↦ none
  | some len ↦ some (if ltb max len then max else len)
]

unfoldable pub isdigit : ℕ → Bool
isdigit c = leb 48 c && leb c 57

-- A byte from 128 on is a negative `char`.
unfoldable pub tonumericdigit : ℕ → ℤ
tonumericdigit c = if ltb c 128 then sub_ℕ c 48 else negsuc (256 - c + 48 - 1)

strcpy_loop : Mem → ℕ → ℕ → ℕ → Option Mem
strcpy_loop m dest src zero = none
strcpy_loop m dest src (suc fuel) = elim (m src == 0) [
  | true ↦ some (store m dest 0)
  | false ↦ strcpy_loop (store m dest (m src)) (dest + 1) (src + 1) fuel
]

-- The memory afterwards; the result is `dest`.
pub strcpy : Mem → ℕ → ℕ → ℕ → Option Mem
unfolding strcpy_loop
strcpy m dest src fuel = strcpy_loop m dest src fuel

-- `k` rounds are left, at the index `i` by which `dest` and `src` are already advanced.
strncpy_loop : Mem → ℕ → ℕ → ℕ → Mem
strncpy_loop m dest src zero = store m dest 0
strncpy_loop m dest src (suc k) = elim (m src == 0) [
  | true ↦ store m dest 0
  | false ↦ strncpy_loop (store m dest (m src)) (dest + 1) (src + 1) k
]

pub strncpy : Mem → ℕ → ℕ → ℕ → Mem
unfolding strncpy_loop
strncpy m dest src count = strncpy_loop m dest src (count - 1)

unfoldable pub tolower : ℕ → ℕ
tolower c = if leb 65 c && leb c 90 then c + 32 else c

pub istrncmp : Mem → ℕ → ℕ → ℕ → ℤ
unfolding tolower
istrncmp m str1 str2 zero = pos 0
istrncmp m str1 str2 (suc n) =
    let u1 = m str1 in
    let u2 = m str2 in
    let rest = istrncmp m (str1 + 1) (str2 + 1) n in
    if not (u1 == u2) && not (tolower u1 == tolower u2)
    then sub_ℕ u1 u2
    else if u1 == 0
    then pos 0
    else rest

pub strncmp : Mem → ℕ → ℕ → ℕ → ℤ
strncmp m str1 str2 zero = pos 0
strncmp m str1 str2 (suc n) =
    let u1 = m str1 in
    let u2 = m str2 in
    let rest = strncmp m (str1 + 1) (str2 + 1) n in
    if not (u1 == u2) then sub_ℕ u1 u2 else if u1 == 0 then pos 0 else rest
