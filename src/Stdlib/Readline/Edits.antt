-- ===== src/Stdlib/Readline/Edits.antt =====
-- The line reader as an editor of a list of bytes.
use boi_os.Prelude.{
  ℕ, suc, ◌+◌, ◌-◌, ◌≤◌, ◌<◌, ◌≡◌, ◌⊎◌, refl, ap, ◌∙◌, inl, inr, Bool, true, false, ◌&&◌, Option,
  none, some, List, [], ◌∷◌, length, ltb, ◌==◌, if◌then◌else◌, arith, Bool-cases,
}
use boi_os.Prelude.Mem.{Mem, store}
use boi_os.CString.Laws.{IsString}
use boi_os.Stdlib.Readline.{readline_key, after_echo, Round, continue}

-- A line is kept with its last byte first. A backspace takes that byte away; on an empty line it is nothing
-- with echo, and a byte like any other without.
abbrev pub edit : Bool → ℕ → List ℕ → List ℕ
edit output key [] = if output && key == 0x08 then [] else key ∷ []
edit output key (c ∷ line) = if key == 0x08 then line else key ∷ c ∷ line

-- The line that the keys edit, up to Enter or to `room` bytes, and the keys behind it.
abbrev pub line_of : Bool → ℕ → List ℕ → List ℕ → Option (List ℕ × List ℕ)
line_of output room line [] = if ltb (length line) room then none else some (line, [])
line_of output room line (key ∷ keys) =
    let rest = line_of output room line keys in
    let typed = line_of output room (edit output key line) keys in
    if ltb (length line) room
    then if key == 0 then rest else if key == 13 then some (line, keys) else typed
    else some (line, key ∷ keys)

abbrev pub HasEnter : List ℕ → Type 0
HasEnter [] = ⊥
HasEnter (key ∷ keys) = (key ≡ 13) ⊎ HasEnter keys

-- The bytes of a line in their order, in front of `tail`.
abbrev pub rev_onto : List ℕ → List ℕ → List ℕ
rev_onto [] tail = tail
rev_onto (c ∷ line) tail = rev_onto line (c ∷ tail)

-- A line that the keys up to Enter edit.
pub line_of-Enter :
    (keys : List ℕ) (output : Bool) (room : ℕ) (line : List ℕ)
    → HasEnter keys
    → (r : List ℕ × List ℕ) × (line_of output room line keys ≡ some r)
line_of-Enter [] output room line h = absurd h
line_of-Enter (key ∷ keys) output room line h = elim (Bool-cases (ltb (length line) room)) [
  | inr full ↦ ((line, key ∷ keys), rw full refl)
  | inl more ↦ elim (Bool-cases (key == 0)) [
    | inl no_key ↦
        let (r, e) = line_of-Enter keys output room line (ground arith) in (r, rw (more, no_key) e)
    | inr some_key ↦ elim (Bool-cases (key == 13)) [
      | inl enter ↦ ((line, keys), rw (more, some_key, enter) refl)
      | inr other ↦
          let (r, e) = line_of-Enter keys output room (edit output key line) (ground arith) in
          (r, rw (more, some_key, other) e)
    ]
  ]
]

-- In memory at `out` stands the line.
abbrev pub Holds : Mem → ℕ → List ℕ → Type 0
Holds m out [] = Unit {0}
Holds m out (c ∷ line) = (m (out + length line) ≡ c) × (0 < c) × Holds m out line

pub Holds-same :
    (line : List ℕ) (m m' : Mem) (out : ℕ)
    → ((a : ℕ) → out ≤ a → a < out + length line → m' a ≡ m a)
    → Holds m out line
    → Holds m' out line
Holds-same [] m m' out same h = tt
Holds-same (c ∷ line) m m' out same (h, pc, hs) = (
  same (out + length line) (omega arith) (omega arith) ∙ h,
  pc,
  Holds-same line m m' out (λ a lo hi. same a lo (omega arith)) hs,
)

pub Holds-IsString :
    (line : List ℕ) (m : Mem) (out : ℕ) (tail : List ℕ)
    → Holds m out line
    → IsString m (out + length line) tail
    → IsString m out (rev_onto line tail)
Holds-IsString [] m out tail h s = let e : out + 0 ≡ out = omega arith in rw e at s
Holds-IsString (c ∷ line) m out tail (h, pc, hs) s =
    let e : out + suc (length line) ≡ out + length line + 1 = omega arith in
    Holds-IsString line m out (c ∷ tail) hs (h, pc, rw e at s)

-- A key that is not Enter: the index and the memory follow the edit.
pub record Edited {T : Type 0} (m : Mem) (out : ℕ) (line line' : List ℕ) (r : Round T)
    : Type 0 where
  pub mem' : Mem
  pub term' : T
  pub goes_on : r ≡ continue (length line') mem' term'
  pub holds : Holds mem' out line'
  pub others : (a : ℕ) → (a < out) ⊎ (out + length line < a) → mem' a ≡ m a

put_key :
    {T : Type 0} (m : Mem) (out key : ℕ) (line : List ℕ) (t : T) (r : Round T)
    → 0 < key
    → Holds m out line
    → r ≡ continue (length line + 1) (store m (out + length line) key) t
    → Edited m out line (key ∷ line) r
put_key m out key line t r pk h e = record {
  mem' = store m (out + length line) key;
  term' = t;
  goes_on = e ∙ ap (λ (n : ℕ). continue n (store m (out + length line) key) t) (omega arith);
  holds = (
    ground arith,
    pk,
    Holds-same line m (store m (out + length line) key) out (λ a lo hi. ground arith) h,
  );
  others = λ a far. ground arith;
}

take_key :
    {T : Type 0} (m : Mem) (out c : ℕ) (line : List ℕ) (t : T) (r : Round T)
    → Holds m out line
    → r ≡ continue (suc (length line) - 1) (store m (out + suc (length line) - 1) 0) t
    → Edited m out (c ∷ line) line r
take_key m out c line t r h e = record {
  mem' = store m (out + suc (length line) - 1) 0;
  term' = t;
  goes_on =
      e ∙ ap (λ (n : ℕ). continue n (store m (out + suc (length line) - 1) 0) t) (omega arith);
  holds =
      Holds-same line m (store m (out + suc (length line) - 1) 0) out (λ a lo hi. ground arith) h;
  others = λ a far. ground arith;
}

module _ {T : Type 0} (putchar : T → ℕ → T) where
  after_echo-Edited :
      (m : Mem) (out key : ℕ) (line : List ℕ) (t : T)
      → 0 < key
      → Holds m out line
      → Edited m out line (edit false key line) (after_echo m out (length line) key t)
  unfolding after_echo
  after_echo-Edited m out key [] t pk h = put_key m out key [] t _ pk h (ground arith)
  after_echo-Edited m out key (c ∷ line) t pk h = elim (Bool-cases (key == 0x08)) [
    | inl back ↦ rw back (take_key m out c line t _ h.2 (ground arith))
    | inr other ↦ rw other (put_key m out key (c ∷ line) t _ pk h (ground arith))
  ]

  pub readline_key-Edited :
      (output : Bool) (m : Mem) (out key : ℕ) (line : List ℕ) (t : T)
      → 0 < key
      → (key == 13) ≡ false
      → Holds m out line
      → Edited m out line
          (edit output key line)
          (readline_key putchar m out output (length line) key t)
  unfolding readline_key
  readline_key-Edited false m out key [] t pk ne h = rw ne (after_echo-Edited m out key [] t pk h)
  readline_key-Edited false m out key (c ∷ line) t pk ne h =
      rw ne (after_echo-Edited m out key (c ∷ line) t pk h)
  readline_key-Edited true m out key [] t pk ne h = elim (Bool-cases (key == 0x08)) [
    | inl back ↦
        rw (ne, back)
          (record {
            mem' = m;
            term' = putchar t 0x08;
            goes_on = refl;
            holds = tt;
            others = λ a far. refl;
          })
    | inr other ↦
        rw (ne, other) (put_key m out key [] (putchar (putchar t 0x08) key) _ pk h (ground arith))
  ]
  readline_key-Edited true m out key (c ∷ line) t pk ne h =
      let no : (key == 0x08 && suc (length line) == 0) ≡ false = ground arith in
      rw (ne, no) (after_echo-Edited m out key (c ∷ line) (putchar (putchar t 0x08) key) pk h)
