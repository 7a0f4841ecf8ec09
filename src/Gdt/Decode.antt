-- ===== src/Gdt/Decode.antt =====
-- What the processor reads from a descriptor that encode_gdt_entry made.
use boi_os.Prelude.{
  ℕ, ◌+◌, ◌*◌, ◌/◌, ◌%◌, ◌^◌, ◌<◌, ◌≤◌, ◌≡◌, ◌⊎◌, inl, inr, Option, none, some, List, [], ◌∷◌, ◌==◌,
  if◌then◌else◌, arith, ap, ◌∙◌, bit_and, lt→ltb, le→ltb, eq→==,
}
use boi_os.Prelude.Bits.{bit_and-byte, bit_and-nibble, bit_and-offset, bit_or-nibble}
use boi_os.Gdt.{GdtStructured, encode_with, encode_gdt_entry}

-- The segment's base, the last offset in it and the access byte, by the layout of the x86: bit 7 of byte
-- 6 says that the limit counts pages.
abbrev pub decode : List ℕ → Option (ℕ × ℕ × ℕ)
decode (b0 ∷ b1 ∷ b2 ∷ b3 ∷ b4 ∷ b5 ∷ b6 ∷ b7 ∷ []) =
    let limit = b0 + 2 ^ 8 * b1 + 2 ^ 16 * (b6 % 16) in
    some (
      b2 + 2 ^ 8 * b3 + 2 ^ 16 * b4 + 2 ^ 24 * b7,
      if b6 / 128 == 0 then limit else limit * 4096 + 4095,
      b5,
    )
decode bytes = none

abbrev pub decode_entry : Option (List ℕ) → Option (ℕ × ℕ × ℕ)
decode_entry none = none
decode_entry (some bytes) = decode bytes

decode-encode_with :
    (s : GdtStructured) (limit f : ℕ)
    → s.base < 2 ^ 32
    → limit < 2 ^ 20
    → f * 16 < 256
    → decode (encode_with limit (f * 16) s)
      ≡ some (s.base, if f / 8 == 0 then limit else limit * 4096 + 4095, s.access)
decode-encode_with s limit f b l small =
    let six =
      bit_or-nibble f (bit_and (limit / 2 ^ 16) 0x0F)
        (omega (arith, bit_and-nibble (limit / 2 ^ 16))) in
    let top : (f * 16 + bit_and (limit / 2 ^ 16) 15) / 128 ≡ f / 8 =
      omega (arith, bit_and-nibble (limit / 2 ^ 16)) in
    let low : (f * 16 + bit_and (limit / 2 ^ 16) 15) % 16 ≡ limit / 2 ^ 16 =
      omega (arith, bit_and-nibble (limit / 2 ^ 16)) in
    let whole : bit_and limit 255 + 2 ^ 8 * bit_and (limit / 2 ^ 8) 255 + 2 ^ 16 * (limit / 2 ^ 16)
        ≡ limit =
      omega (arith, bit_and-byte limit, bit_and-byte (limit / 2 ^ 8)) in
    let base : bit_and s.base 255
          + 2 ^ 8 * bit_and (s.base / 2 ^ 8) 255
          + 2 ^ 16 * bit_and (s.base / 2 ^ 16) 255
          + 2 ^ 24 * bit_and (s.base / 2 ^ 24) 255
        ≡ s.base =
      omega (
        arith,
        bit_and-byte s.base,
        bit_and-byte (s.base / 2 ^ 8),
        bit_and-byte (s.base / 2 ^ 16),
        bit_and-byte (s.base / 2 ^ 24),
      ) in
    rw (six, top, low, whole, base)

-- A segment of 32-bit base and limit whose limit is at most 65536, or is the last byte of a page, is
-- encoded so that the processor reads its base, its limit and its access byte.
pub decode-encode_gdt_entry :
    (s : GdtStructured)
    → s.base < 2 ^ 32
    → s.limit < 2 ^ 32
    → (s.limit ≤ 65536) ⊎ ((65536 < s.limit) × (s.limit % 4096 ≡ 4095))
    → decode_entry (encode_gdt_entry s) ≡ some (s.base, s.limit, s.access)
unfolding encode_gdt_entry
decode-encode_gdt_entry s b l (inl h) =
    rw (le→ltb 65536 s.limit h) (decode-encode_with s s.limit 4 b (omega arith) (omega arith))
decode-encode_gdt_entry s b l (inr (h, page)) =
    rw (lt→ltb 65536 s.limit h, eq→== (bit_and s.limit 0xFFF) 0xFFF (bit_and-offset s.limit ∙ page))
      (decode-encode_with s (s.limit / 2 ^ 12) 12 b (omega arith) (omega arith)
        ∙ ap (λ x. some (s.base, x, s.access)) (omega arith))
