-- ===== src/Stdlib/Numbers/Decimal.antt =====
-- What itoa writes, as decimal digits.
use boi_os.Prelude.{
  ℕ, zero, suc, ◌+◌, ◌-◌, ◌*◌, ◌/◌, ◌%◌, ◌^◌, ◌≤◌, ◌<◌, ◌≡◌, ◌⊎◌, refl, ap, ◌∙◌, false, some, List,
  [], ◌∷◌, length, ◌==◌, arith, ne→==, eq→==,
}
use boi_os.Prelude.Int.{ℤ, pos, negsuc}
use boi_os.Prelude.Mem.{Mem, store}
use boi_os.CString.Laws.{IsString, IsString-same}
use boi_os.Stdlib.Numbers.{itoa, itoa_loop, itoa_sign}

abbrev pub pow10 : ℕ → ℕ
pow10 zero = 1
pow10 (suc k) = 10 * pow10 k

-- The number that digits spell behind `n`.
abbrev pub value : ℕ → List ℕ → ℕ
value n [] = n
value n (c ∷ cs) = value (n * 10 + (c - b'0')) cs

abbrev pub AllDigits : List ℕ → Type 0
AllDigits [] = Unit {0}
AllDigits (c ∷ cs) = (b'0' ≤ c) × (c ≤ b'9') × AllDigits cs

-- Behind the loop at `loc`: in front of `tail` stand the `n` digits of `q`, from `p` on.
pub record Digits (m : Mem) (loc q : ℕ) (tail : List ℕ) (m' : Mem) (p : ℕ) : Type 0 where
  pub text : List ℕ
  pub count : ℕ
  pub stands : IsString m' p text
  pub spells : value 0 text ≡ value q tail
  pub digits : AllDigits text
  pub long : length text ≡ count + length tail
  pub place : p + count ≡ loc
  pub fits : q < pow10 count
  pub tight : (0 < q → pow10 count ≤ 10 * q) × (q ≡ 0 → count ≡ 0)
  pub others : (a : ℕ) → (a < p) ⊎ (loc ≤ a) → m' a ≡ m a

Digits-none :
    (m : Mem) (loc : ℕ) (tail : List ℕ)
    → IsString m loc tail
    → AllDigits tail
    → Digits m loc 0 tail m loc
Digits-none m loc tail s d = record {
  text = tail;
  count = 0;
  stands = s;
  spells = refl;
  digits = d;
  long = omega arith;
  place = omega arith;
  fits = omega arith;
  tight = (λ h. omega arith, λ _. refl);
  others = λ a h. refl;
}

next_tight :
    (q n : ℕ)
    → 0 < q
    → (0 < q / 10 → pow10 n ≤ 10 * (q / 10)) × (q / 10 ≡ 0 → n ≡ 0)
    → pow10 (suc n) ≤ 10 * q
next_tight q zero h t = omega arith
next_tight q (suc n) h t = ground (arith, t.0, t.1)

Digits-more :
    (m m' : Mem) (loc q p : ℕ) (tail : List ℕ)
    → 0 < q
    → 0 < loc
    → Digits (store m (loc - 1) (b'0' + q % 10)) (loc - 1) (q / 10) ((b'0' + q % 10) ∷ tail) m' p
    → Digits m loc q tail m' p
Digits-more m m' loc q p tail h hl d = record {
  text = d.text;
  count = suc d.count;
  stands = d.stands;
  spells = d.spells ∙ ap (λ n. value n tail) (omega arith);
  digits = d.digits;
  long = omega (arith, d.long);
  place = omega (arith, d.place);
  fits = omega (arith, d.fits);
  tight = (λ _. next_tight q d.count h d.tight, λ e. absurd (omega arith));
  others = λ a out. d.others a (ground (arith, d.place)) ∙ ground (arith, d.place);
}

-- A byte in front of a string.
IsString-store :
    (m : Mem) (loc c : ℕ) (cs : List ℕ)
    → 0 < loc
    → 0 < c
    → IsString m loc cs
    → IsString (store m (loc - 1) c) (loc - 1) (c ∷ cs)
IsString-store m loc c cs hl hc s =
    let back : loc ≡ loc - 1 + 1 = omega arith in
    (
      ground arith,
      hc,
      IsString-same cs m (store m (loc - 1) c) (loc - 1 + 1) (λ a lo hi. ground arith)
          (rw back at s),
    )

-- With fuel beyond the number of digits, and room for them, the loop writes the digits of `q`.
itoa_loop-Digits :
    (fuel k q loc : ℕ) (m : Mem) (tail : List ℕ)
    → k < fuel
    → q < pow10 k
    → k ≤ loc
    → IsString m loc tail
    → AllDigits tail
    → (m' : Mem) × (p : ℕ) × (itoa_loop m loc q fuel ≡ some (m', p)) × Digits m loc q tail m' p
unfolding itoa_loop
itoa_loop-Digits zero k q loc m tail lt fits room s d = absurd (omega arith)
itoa_loop-Digits (suc fuel) zero zero loc m tail lt fits room s d =
    (m, loc, refl, Digits-none m loc tail s d)
itoa_loop-Digits (suc fuel) zero (suc q) loc m tail lt fits room s d = absurd (omega arith)
itoa_loop-Digits (suc fuel) (suc k) zero loc m tail lt fits room s d =
    (m, loc, refl, Digits-none m loc tail s d)
itoa_loop-Digits (suc fuel) (suc k) (suc q) loc m tail lt fits room s d =
    let c : ℕ = b'0' + suc q % 10 in
    let m1 : Mem = store m (loc - 1) c in
    let (m', p, e, done) =
      itoa_loop-Digits fuel k (suc q / 10) (loc - 1) m1 (c ∷ tail) (omega arith) (omega arith)
        (omega arith) (IsString-store m loc c tail (omega arith) (omega arith) s)
        (omega arith, omega arith, d) in
    (
      m',
      p,
      rw (ne→== (suc q) 0 (omega arith), itoa_loop) e,
      Digits-more m m' loc (suc q) p tail (omega arith) (omega arith) done,
    )

abbrev pub magnitude : ℤ → ℕ
magnitude (pos n) = n
magnitude (negsuc n) = suc n

abbrev pub signed_text : ℤ → List ℕ → List ℕ
signed_text (pos n) ds = ds
signed_text (negsuc n) ds = b'-' ∷ ds

-- At `p` in the buffer stands `i` in decimal digits, with no zero in front, and nothing else changed.
pub record Printed (m : Mem) (text : ℕ) (i : ℤ) (m' : Mem) (p : ℕ) : Type 0 where
  pub digits : List ℕ
  pub stands : IsString m' p (signed_text i digits)
  pub are_digits : AllDigits digits
  pub spells : value 0 digits ≡ magnitude i
  pub no_zero : pow10 (length digits) ≤ 10 * magnitude i
  pub inside : text ≤ p
  pub others : (a : ℕ) → (a < text) ⊎ (text + 12 ≤ a) → m' a ≡ m a

-- The loop of itoa on the empty buffer.
abbrev Ends : Mem → ℕ → ℕ → Type 0
Ends m text q =
    (m' : Mem) × (p : ℕ) × (itoa_loop (store m (text + 11) 0) (text + 11) q 11 ≡ some (m', p))
    × Digits (store m (text + 11) 0) (text + 11) q [] m' p

empty-Ends : (m : Mem) (text q : ℕ) → q ≤ 2 ^ 31 → Ends m text q
empty-Ends m text q le =
    itoa_loop-Digits 11 10 q (text + 11) (store m (text + 11) 0) [] (omega arith) (omega arith)
      (omega arith) (ground arith) tt

pow10-le : (a b : ℕ) → a ≤ b → pow10 a ≤ pow10 b
pow10-le zero zero le = omega arith
pow10-le zero (suc b) le = omega (arith, pow10-le zero b (omega arith))
pow10-le (suc a) zero le = absurd (omega arith)
pow10-le (suc a) (suc b) le = omega (arith, pow10-le a b (omega arith))

count-le : (q n : ℕ) → 0 < q → q < 10 ^ 9 → (0 < q → pow10 n ≤ 10 * q) → n ≤ 9
count-le q n h lt t = ground (arith, t h, pow10-le 10 n)

count-eq : (q n : ℕ) → 10 ^ 9 ≤ q → q ≤ 2 ^ 31 → q < pow10 n → (0 < q → pow10 n ≤ 10 * q) → n ≡ 10
count-eq q n le up f t = ground (arith, t, pow10-le 11 n, pow10-le n 9)

-- itoa of a number with at most nine digits that is not 0 ends, and the string at its result is the number
-- in decimal, without a zero in front; nothing outside of the buffer changes.
pub itoa-Printed :
    (m : Mem) (text : ℕ) (i : ℤ)
    → 0 < magnitude i
    → magnitude i < 10 ^ 9
    → (m' : Mem) × (p : ℕ) × (itoa m text i ≡ some (m', p)) × Printed m text i m' p
unfolding itoa itoa_sign
itoa-Printed m text (pos n) h lt =
    let (m', p, e, d) = empty-Ends m text n (omega arith) in
    let c : d.count ≤ 9 = count-le n d.count h lt d.tight.0 in
    let far : (p == text + 1) ≡ false = ne→== p (text + 1) (ground (arith, d.place)) in
    (
      m',
      p,
      rw (e, far) refl,
      record {
        digits = d.text;
        stands = d.stands;
        are_digits = d.digits;
        spells = d.spells;
        no_zero = ground (arith, d.long, d.tight.0);
        inside = ground (arith, d.place);
        others = λ a out. d.others a (ground (arith, d.place)) ∙ ground arith;
      },
    )
itoa-Printed m text (negsuc n) h lt =
    let (m', p, e, d) = empty-Ends m text (suc n) (omega arith) in
    let c : d.count ≤ 9 = count-le (suc n) d.count h lt d.tight.0 in
    let far : (p == text + 1) ≡ false = ne→== p (text + 1) (ground (arith, d.place)) in
    (
      store m' (p - 1) b'-',
      p - 1,
      rw (e, far) refl,
      record {
        digits = d.text;
        stands = IsString-store m' p b'-' d.text (omega (arith, d.place)) (omega arith) d.stands;
        are_digits = d.digits;
        spells = d.spells;
        no_zero = ground (arith, d.long, d.tight.0);
        inside = ground (arith, d.place);
        others = λ a out. ground (arith, d.others a, d.place);
      },
    )

-- itoa of a number of ten digits below 0 writes its sign in front of the buffer.
pub itoa-overrun :
    (m : Mem) (text n : ℕ)
    → 0 < text
    → 10 ^ 9 ≤ suc n
    → suc n ≤ 2 ^ 31
    → (m' : Mem) × (itoa m text (negsuc n) ≡ some (m', text - 1)) × (m' (text - 1) ≡ b'-')
unfolding itoa itoa_sign
itoa-overrun m text n h le up =
    let (m', p, e, d) = empty-Ends m text (suc n) (omega arith) in
    let c : d.count ≡ 10 = count-eq (suc n) d.count le up d.fits d.tight.0 in
    let at : p ≡ text + 1 = omega (arith, d.place) in
    let back : text + 1 - 1 ≡ text = omega arith in
    (
      store (store m' text b'0') (text - 1) b'-',
      rw (e, at, eq→== (text + 1) (text + 1) refl, back) refl,
      ground arith,
    )
