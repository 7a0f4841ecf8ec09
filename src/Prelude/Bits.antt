-- ===== src/Prelude/Bits.antt =====
-- Masks and disjoint unions of bits at variables, from the digit recursion that the native
-- operations stand for.
use Prim.Native.Nat.{
  ℕ, zero, suc, ◌+◌, ◌*◌, ◌/◌, ◌%◌, ◌^◌, ◌≤◌, ◌<◌, min, max, bit_and, bit_or, digits,
  bit_and-bitwise, bit_or-bitwise,
}
use mathlib.Core.Path.{◌≡◌, refl, ap, sym, ◌∙◌}
use native.Mathlib.Omega.{arith}

-- One operation on digits `op`, which is `base` where the left number has no digit left.
module _ (base : ℕ → ℕ) (op : ℕ → ℕ → ℕ) where
  no_digit : (fuel b : ℕ) → digits base op fuel 0 b ≡ base b
  no_digit zero b = refl
  no_digit (suc fuel) b = refl

  -- Fuel beyond the left number makes no difference.
  spare_fuel : (x y a b : ℕ) → a ≤ x → a ≤ y → digits base op x a b ≡ digits base op y a b
  spare_fuel x y zero b ax ay = no_digit x b ∙ sym (no_digit y b)
  spare_fuel zero y (suc a) b ax ay = elim ax [ ]
  spare_fuel (suc x) zero (suc a) b ax ay = elim ay [ ]
  spare_fuel (suc x) (suc y) (suc a) b ax ay =
      ap (λ t. t * 2 + op (suc a % 2) (b % 2))
        (spare_fuel x y (suc a / 2) (b / 2) (omega arith) (omega arith))

  -- The lowest digit and the rest.
  halve :
      (bits : ℕ → ℕ → ℕ)
      → ((a b : ℕ) → bits a b ≡ digits base op a a b)
      → (a b : ℕ) → 0 < a
      → bits a b ≡ bits (a / 2) (b / 2) * 2 + op (a % 2) (b % 2)
  halve bits is zero b pa = absurd (omega arith)
  halve bits is (suc a) b pa =
      is (suc a) b
      ∙ ap (λ t. t * 2 + op (suc a % 2) (b % 2))
          (spare_fuel a (suc a / 2) (suc a / 2) (b / 2) (omega arith) (omega arith)
            ∙ sym (is (suc a / 2) (b / 2)))

zero-bit_and : (b : ℕ) → bit_and 0 b ≡ 0
zero-bit_and b = bit_and-bitwise 0 b

bit_and-halve : (a b : ℕ) → bit_and a b ≡ bit_and (a / 2) (b / 2) * 2 + min (a % 2) (b % 2)
bit_and-halve zero b = omega (arith, zero-bit_and b, zero-bit_and (b / 2))
bit_and-halve (suc a) b = halve (λ t. zero) min bit_and bit_and-bitwise (suc a) b (omega arith)

zero-bit_or : (b : ℕ) → bit_or 0 b ≡ b
zero-bit_or b = bit_or-bitwise 0 b

bit_or-halve : (a b : ℕ) → bit_or a b ≡ bit_or (a / 2) (b / 2) * 2 + max (a % 2) (b % 2)
bit_or-halve zero b = omega (arith, zero-bit_or b, zero-bit_or (b / 2))
bit_or-halve (suc a) b = halve (λ t. t) max bit_or bit_or-bitwise (suc a) b (omega arith)

-- `a / 2 ^ k`, `a % 2 ^ k`, `b * 2 ^ k` and `2 ^ k - 1` by recursion on the count of bits.
abbrev high : ℕ → ℕ → ℕ
high zero a = a
high (suc k) a = high k (a / 2)

abbrev low : ℕ → ℕ → ℕ
low zero a = 0
low (suc k) a = low k (a / 2) * 2 + a % 2

abbrev up : ℕ → ℕ → ℕ
up zero b = b
up (suc k) b = up k b * 2

abbrev mask : ℕ → ℕ
mask zero = 0
mask (suc k) = mask k * 2 + 1

bit_and-zero : (bound a : ℕ) → a ≤ bound → bit_and a 0 ≡ 0
bit_and-zero bound zero le = refl
bit_and-zero zero (suc a) le = elim le [ ]
bit_and-zero (suc bound) (suc a) le =
    bit_and-halve (suc a) 0 ∙ omega (arith, bit_and-zero bound (suc a / 2) (omega arith))

bit_and-mask : (k a : ℕ) → bit_and a (mask k) ≡ low k a
bit_and-mask zero a = bit_and-zero a a (omega arith)
bit_and-mask (suc k) a =
    let half : (mask k * 2 + 1) / 2 ≡ mask k = omega arith in
    omega (
      arith,
      bit_and-halve a (mask k * 2 + 1),
      bit_and-mask k (a / 2),
      ap (λ t. bit_and (a / 2) t) half,
    )

bit_and-up : (k a b : ℕ) → bit_and a (up k b) ≡ up k (bit_and (high k a) b)
bit_and-up zero a b = refl
bit_and-up (suc k) a b =
    let half : (up k b * 2) / 2 ≡ up k b = omega arith in
    omega (
      arith,
      bit_and-halve a (up k b * 2),
      bit_and-up k (a / 2) b,
      ap (λ t. bit_and (a / 2) t) half,
    )

bit_or-zero : (bound a : ℕ) → a ≤ bound → bit_or a 0 ≡ a
bit_or-zero bound zero le = zero-bit_or 0
bit_or-zero zero (suc a) le = elim le [ ]
bit_or-zero (suc bound) (suc a) le =
    bit_or-halve (suc a) 0 ∙ omega (arith, bit_or-zero bound (suc a / 2) (omega arith))

-- The bits of a multiple of `2 ^ k` and of a number below it do not meet.
bit_or-disjoint : (k a b : ℕ) → high k b ≡ 0 → bit_or (up k a) b ≡ up k a + b
bit_or-disjoint zero a b h = omega (arith, bit_or-zero a a (omega arith), ap (bit_or a) h)
bit_or-disjoint (suc k) a b h =
    let half : (up k a * 2) / 2 ≡ up k a = omega arith in
    omega (
      arith,
      bit_or-halve (up k a * 2) b,
      bit_or-disjoint k a (b / 2) h,
      ap (λ t. bit_or t (b / 2)) half,
    )

-- `w & 0xFFFFF000` clears the low twelve bits of a 32-bit word.
pub bit_and-page : (w : ℕ) → w < 2 ^ 32 → bit_and w 0xFFFFF000 ≡ w / 4096 * 4096
bit_and-page w h = omega (arith, bit_and-up 12 w 0xFFFFF, bit_and-mask 20 (high 12 w))

-- `w & 0xFF` and the like keep the low bits.
pub bit_and-byte : (w : ℕ) → bit_and w 0xFF ≡ w % 256
bit_and-byte w = omega (arith, bit_and-mask 8 w)

pub bit_and-half : (w : ℕ) → bit_and w 0xFFFF ≡ w % 65536
bit_and-half w = omega (arith, bit_and-mask 16 w)

pub bit_and-nibble : (w : ℕ) → bit_and w 0x0F ≡ w % 16
bit_and-nibble w = omega (arith, bit_and-mask 4 w)

-- `w & 0x80` is the highest bit of a byte.
pub bit_and-top_bit : (w : ℕ) → w < 256 → bit_and w 0x80 ≡ w / 128 * 128
bit_and-top_bit w h = omega (arith, bit_and-up 7 w 1, bit_and-mask 1 (high 7 w))

pub bit_and-offset : (w : ℕ) → bit_and w 0xFFF ≡ w % 4096
bit_and-offset w = omega (arith, bit_and-mask 12 w)

-- A nibble joins the high bits by addition.
pub bit_or-nibble : (f x : ℕ) → x < 16 → bit_or (f * 16) x ≡ f * 16 + x
bit_or-nibble f x h =
    let e : up 4 f ≡ f * 16 = omega arith in
    omega (arith, bit_or-disjoint 4 f x (omega arith), ap (λ t. bit_or t x) e)

-- Flags below a page join a page address by addition.
pub bit_or-page : (p f : ℕ) → f < 4096 → bit_or (p * 4096) f ≡ p * 4096 + f
bit_or-page p f h =
    let e : up 12 p ≡ p * 4096 = omega arith in
    omega (arith, bit_or-disjoint 12 p f (omega arith), ap (λ t. bit_or t f) e)

bit_or-high : (k a b : ℕ) → high k (bit_or a b) ≡ bit_or (high k a) (high k b)
bit_or-high zero a b = refl
bit_or-high (suc k) a b =
    let half : bit_or a b / 2 ≡ bit_or (a / 2) (b / 2) = omega (arith, bit_or-halve a b) in
    ap (high k) half ∙ bit_or-high k (a / 2) (b / 2)

-- Flags below a page do not change the page.
pub bit_or-same_page : (a f : ℕ) → f < 4096 → bit_or a f / 4096 ≡ a / 4096
bit_or-same_page a f h =
    let top : f / 4096 ≡ 0 = omega arith in
    let low_part : high 12 (bit_or a f) ≡ bit_or (a / 4096) (f / 4096) =
      bit_or-high 12 a f
      ∙ ap (λ t. bit_or t (high 12 f)) (omega arith)
      ∙ ap (bit_or (a / 4096)) (omega arith) in
    omega
      (arith, low_part, ap (bit_or (a / 4096)) top, bit_or-zero (a / 4096) (a / 4096) (omega arith))
