-- ===== src/Prelude/Slots.antt =====
-- Arrays of pointers as functions of the index, `none` for a null pointer, and the loops that look for
-- a free one.
use Prim.Native.Nat.{ℕ, zero, suc, ◌+◌, ◌≤◌, ◌<◌}
use mathlib.Core.Path.{◌≡◌, ap, sym, subst}
use mathlib.Core.Logic.{inl, inr}
use mathlib.Core.Option.{Option, none, some}
use native.Mathlib.Omega.{arith}
use boi_os.Prelude.Tests.{◌==◌, if◌then◌else◌, Bool-cases, ==→eq, ==→ne, Option-cases}

-- `slots[index] = x`
abbrev pub set_slot {ℓ} : {A : Type ℓ} → (ℕ → A) → ℕ → A → ℕ → A
set_slot slots index x i = if i == index then x else slots i

-- The first free index from `i` on, with `k` rounds left.
pub first_free {ℓ} : {A : Type ℓ} → (ℕ → Option A) → ℕ → ℕ → Option ℕ
first_free slots i zero = none
first_free slots i (suc k) = elim (slots i) [ none ↦ some i | some x ↦ first_free slots (i + 1) k ]

-- `j` is free, and nothing in front of it is.
pub record FirstFree {ℓ} {A : Type ℓ} (slots : ℕ → Option A) (i k j : ℕ) : Type ℓ where
  pub from : i ≤ j
  pub below : j < i + k
  pub free : slots j ≡ none
  pub taken : (l : ℕ) → i ≤ l → l < j → (x : A) × (slots l ≡ some x)

-- What first_free says of the slots.
abbrev pub Found {ℓ} : {A : Type ℓ} → (ℕ → Option A) → ℕ → ℕ → Option ℕ → Type ℓ
Found {A} slots i k none = (l : ℕ) → i ≤ l → l < i + k → (x : A) × (slots l ≡ some x)
Found slots i k (some j) = FirstFree slots i k j

taken_step {ℓ} :
    {A : Type ℓ} (slots : ℕ → Option A) (i k : ℕ) (x : A) (r : Option ℕ)
    → slots i ≡ some x
    → Found slots (i + 1) k r
    → Found slots i (suc k) r
taken_step slots i k x none e f = λ l lo hi. elim (Bool-cases (l == i)) [
  | inl q ↦ (x, subst (λ t. slots t ≡ some x) (sym (==→eq l i q)) e)
  | inr q ↦ let ne = ==→ne l i q in f l (omega arith) (omega arith)
]
taken_step slots i k x (some j) e f = record {
  from = omega (arith, f.from);
  below = omega (arith, f.below);
  free = f.free;
  taken = λ l lo hi. elim (Bool-cases (l == i)) [
    | inl q ↦ (x, subst (λ t. slots t ≡ some x) (sym (==→eq l i q)) e)
    | inr q ↦ let ne = ==→ne l i q in f.taken l (omega arith) hi
  ];
}

free_here {ℓ} :
    {A : Type ℓ} (slots : ℕ → Option A) (i k : ℕ) → slots i ≡ none → FirstFree slots i (suc k) i
free_here slots i k e = record {
  from = omega arith;
  below = omega arith;
  free = e;
  taken = λ l lo hi. absurd (omega arith);
}

pub first_free-Found {ℓ} :
    {A : Type ℓ} (k : ℕ) (slots : ℕ → Option A) (i : ℕ) → Found slots i k (first_free slots i k)
unfolding first_free
first_free-Found zero slots i = λ l lo hi. absurd (omega arith)
first_free-Found (suc k) slots i = elim (Option-cases (slots i)) [
  | inl e ↦
      let found : first_free slots i (suc k) ≡ some i = rw (e, first_free) in
      subst (Found slots i (suc k)) (sym found) (free_here slots i k e)
  | inr (x, e) ↦
      let later : first_free slots i (suc k) ≡ first_free slots (i + 1) k = rw (e, first_free) in
      subst (Found slots i (suc k)) (sym later)
        (taken_step slots i k x (first_free slots (i + 1) k) e (first_free-Found k slots (i + 1)))
]

-- The loop finds the first free slot.
pub first_free-FirstFree {ℓ} :
    {A : Type ℓ} (k : ℕ) (slots : ℕ → Option A) (i j : ℕ)
    → FirstFree slots i k j
    → first_free slots i k ≡ some j
unfolding first_free
first_free-FirstFree zero slots i j f = absurd (omega (arith, f.from, f.below))
first_free-FirstFree (suc k) slots i j f = elim (Bool-cases (i == j)) [
  | inl q ↦
      let e : slots i ≡ none = subst (λ t. slots t ≡ none) (sym (==→eq i j q)) f.free in
      rw (e, first_free) (ap some (==→eq i j q))
  | inr q ↦
      let ne = ==→ne i j q in
      let (x, e) = f.taken i (omega arith) (omega (arith, f.from, ne)) in
      rw (e, first_free)
        (first_free-FirstFree k slots (i + 1) j (record {
          from = omega (arith, f.from, ne);
          below = omega (arith, f.below);
          free = f.free;
          taken = λ l lo hi. f.taken l (omega arith) hi;
        }))
]
