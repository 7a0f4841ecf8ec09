-- ===== src/PathParser.antt =====
-- src/fs/pparser.c. The path is a string in memory and the cursor `*path` an address; `none` is that
-- the fuel of a loop ran out. A part is the list of the bytes that its loop writes to its buffer of
-- 128 zero bytes. kzalloc is taken to find room, since the code does not look.
pub mod Parts
pub mod Laws
mod Tests
use boi_os.Prelude.{
  ℕ, zero, suc, ◌+◌, ◌-◌, Bool, true, false, ◌&&◌, ◌||◌, not, Option, none, some, List, [], ◌∷◌,
  ◌++◌, ltb, leb, ◌==◌, if◌then◌else◌, length,
}
use boi_os.Prelude.Int.{ℤ, pos, negsuc}
use boi_os.Prelude.Mem.{Mem}
use boi_os.CString.{strlen, strnlen, isdigit, tonumericdigit}

abbrev pub max_path : ℕ
max_path = 128

-- `struct path_root`, with the linked list of its parts.
pub record PathRoot : Type 0 where
  pub drive_no : ℤ
  pub parts : List (List ℕ)

-- The two bytes behind the drive are compared with ":/".
pathparser_path_valid_format : Mem → ℕ → Bool
pathparser_path_valid_format m filename =
    let len = strnlen m filename max_path in
    (leb 3 len && isdigit (m filename)) && (m (filename + 1) == b':' && m (filename + 2) == b'/')

-- The drive and the cursor behind "d:/", or `none` for -EBADPATH.
pathparser_get_drive_by_path : Mem → ℕ → Option (ℤ × ℕ)
unfolding pathparser_path_valid_format
pathparser_get_drive_by_path m path =
    if pathparser_path_valid_format m path then some (tonumericdigit (m path), path + 3) else none

-- The loop: the bytes it writes, and the cursor.
part_loop : Mem → ℕ → ℕ → Option (List ℕ × ℕ)
part_loop m path zero = none
part_loop m path (suc fuel) = elim (not (m path == b'/') && not (m path == 0)) [
  | true ↦ elim (part_loop m (path + 1) fuel) [
    | none ↦ none
    | some (written, path') ↦ some (m path ∷ written, path')
  ]
  | false ↦ some ([], path)
]

-- A buffer that nothing was written to is freed, and null returned.
abbrev pub part_or_null : List ℕ → Option (List ℕ)
part_or_null [] = none
part_or_null (c ∷ cs) = some (c ∷ cs)

-- The part and the cursor, which skips the slash.
pathparser_get_path_part : Mem → ℕ → ℕ → Option (Option (List ℕ) × ℕ)
unfolding part_loop
pathparser_get_path_part m path fuel = elim (part_loop m path fuel) [
  | none ↦ none
  | some (written, path') ↦
      let path'' = if m path' == b'/' then path' + 1 else path' in
      some (part_or_null written, path'')
]

-- A null part ends the list.
abbrev pub link_part : Option (List ℕ) → Option (List (List ℕ)) → Option (List (List ℕ))
link_part none rest = some []
link_part (some part) none = none
link_part (some part) (some rest) = some (part ∷ rest)

-- The first part and the `while(part)` loop behind it, with the parts in their order.
parse_parts : Mem → ℕ → ℕ → Option (List (List ℕ))
parse_parts m path zero = none
parse_parts m path (suc fuel) = elim (pathparser_get_path_part m path fuel) [
  | none ↦ none
  | some (part, path') ↦ link_part part (parse_parts m path' fuel)
]

parse_from : Mem → Option (ℤ × ℕ) → ℕ → Option (Option PathRoot)
parse_from m none fuel = some none
parse_from m (some (drive_no, path)) fuel = elim (parse_parts m path fuel) [
  | none ↦ none
  | some parts ↦ some (some (record { drive_no = drive_no; parts = parts }))
]

-- The inner option is the null pointer.
pub pathparser_parse : Mem → ℕ → ℕ → Option (Option PathRoot)
unfolding pathparser_get_drive_by_path pathparser_get_path_part parse_parts parse_from
pathparser_parse m path fuel = elim (strlen m path fuel) [
  | none ↦ none
  | some len ↦ elim (ltb max_path len) [
    | true ↦ some none
    | false ↦ parse_from m (pathparser_get_drive_by_path m path) fuel
  ]
]

-- How many blocks pathparser_free hands to kfree: each part's name and node, and the root.
pub pathparser_free : PathRoot → ℕ
pathparser_free root = length root.parts + length root.parts + 1
