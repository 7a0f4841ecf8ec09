-- ===== src/Gdt.antt =====
-- src/gdt/gdt.c: the descriptors of segments. The eight bytes of a descriptor are its `target`.
pub mod Decode
mod Tests
use boi_os.Prelude.{
  ℕ, ◌+◌, ◌/◌, ◌%◌, ◌^◌, Bool, ◌&&◌, not, Option, none, some, List, [], ◌∷◌, ltb, ◌==◌,
  if◌then◌else◌, bit_and, bit_or,
}

-- `struct gdt_structured`
pub record GdtStructured : Type 0 where
  pub base : ℕ
  pub limit : ℕ
  pub access : ℕ

-- The bytes with the limit and the flags that the test of the limit leaves.
abbrev pub encode_with : ℕ → ℕ → GdtStructured → List ℕ
encode_with limit flags src =
    bit_and limit 0xFF
    ∷ bit_and (limit / 2 ^ 8) 0xFF
    ∷ bit_and src.base 0xFF
    ∷ bit_and (src.base / 2 ^ 8) 0xFF
    ∷ bit_and (src.base / 2 ^ 16) 0xFF
    ∷ src.access
    ∷ bit_or flags (bit_and (limit / 2 ^ 16) 0x0F)
    ∷ bit_and (src.base / 2 ^ 24) 0xFF
    ∷ []

-- The bytes 0 to 7 of the target, or `none` for the panic.
pub encode_gdt_entry : GdtStructured → Option (List ℕ)
encode_gdt_entry src =
    if ltb 65536 src.limit && not (bit_and src.limit 0xFFF == 0xFFF)
    then none
    else if ltb 65536 src.limit
    then some (encode_with (src.limit / 2 ^ 12) 0xC0 src)
    else some (encode_with src.limit 0x40 src)

append_entry : Option (List ℕ) → Option (List (List ℕ)) → Option (List (List ℕ))
append_entry none rest = none
append_entry (some e) none = none
append_entry (some e) (some es) = some (e ∷ es)

pub gdt_structured_to_gdt : List GdtStructured → Option (List (List ℕ))
unfolding append_entry
gdt_structured_to_gdt [] = some []
gdt_structured_to_gdt (s ∷ ss) = append_entry (encode_gdt_entry s) (gdt_structured_to_gdt ss)
