-- ===== src/Stdlib/Tokens/Words.antt =====
-- The words of a text between delimiters.
use boi_os.Prelude.{
  ℕ, suc, ◌≤◌, ◌≡◌, refl, Bool, true, false, List, [], ◌∷◌, length, ◌==◌, if◌then◌else◌, arith,
  Bool-cases, inl, inr,
}

abbrev pub among : List ℕ → ℕ → Bool
among [] c = false
among (d ∷ ds) c = if c == d then true else among ds c

-- A byte in front of a text whose words are `ws`, joined to the first word if that starts the text.
abbrev join : List ℕ → ℕ → List ℕ → List (List ℕ) → List (List ℕ)
join ds c [] ws = (c ∷ []) ∷ ws
join ds c (d ∷ cs) [] = (c ∷ []) ∷ []
join ds c (d ∷ cs) (w ∷ ws) = if among ds d then (c ∷ []) ∷ w ∷ ws else (c ∷ w) ∷ ws

-- The longest runs of bytes that are no delimiters.
abbrev pub words : List ℕ → List ℕ → List (List ℕ)
words ds [] = []
words ds (c ∷ cs) = if among ds c then words ds cs else join ds c cs (words ds cs)

-- The text from its first word on, this word, and the text behind the delimiter that ends it.
abbrev pub skip : List ℕ → List ℕ → List ℕ
skip ds [] = []
skip ds (c ∷ cs) = if among ds c then skip ds cs else c ∷ cs

abbrev pub token : List ℕ → List ℕ → List ℕ
token ds [] = []
token ds (c ∷ cs) = if among ds c then [] else c ∷ token ds cs

abbrev pub after : List ℕ → List ℕ → List ℕ
after ds [] = []
after ds (c ∷ cs) = if among ds c then cs else after ds cs

pub words-skip : (ds cs : List ℕ) → words ds cs ≡ words ds (skip ds cs)
words-skip ds [] = refl
words-skip ds (c ∷ cs) = elim (Bool-cases (among ds c)) [
  | inl sep ↦ rw sep (words-skip ds cs)
  | inr in_word ↦ ground arith
]

join-sep :
    (ds : List ℕ) (c d : ℕ) (cs : List ℕ) (ws : List (List ℕ))
    → among ds d ≡ true
    → join ds c (d ∷ cs) ws ≡ (c ∷ []) ∷ ws
join-sep ds c d cs [] h = refl
join-sep ds c d cs (w ∷ ws) h = rw h refl

length-join :
    (ds : List ℕ) (c : ℕ) (cs : List ℕ) (ws : List (List ℕ))
    → length (join ds c cs ws) ≤ suc (length ws)
length-join ds c [] ws = omega arith
length-join ds c (d ∷ cs) [] = omega arith
length-join ds c (d ∷ cs) (w ∷ ws) = elim (Bool-cases (among ds d)) [
  | inl sep ↦ rw sep (omega arith)
  | inr in_word ↦ rw in_word (omega arith)
]

pub words-token :
    (ds : List ℕ) (c : ℕ) (cs : List ℕ)
    → among ds c ≡ false
    → words ds (c ∷ cs) ≡ token ds (c ∷ cs) ∷ words ds (after ds (c ∷ cs))
words-token ds c [] h = rw h refl
words-token ds c (d ∷ cs) h = elim (Bool-cases (among ds d)) [
  | inl sep ↦ rw (h, sep) (join-sep ds c d cs (words ds cs) sep)
  | inr in_word ↦ rw (h, words-token ds d cs in_word, in_word) refl
]

pub length-skip : (ds cs : List ℕ) → length (skip ds cs) ≤ length cs
length-skip ds [] = omega arith
length-skip ds (c ∷ cs) = elim (Bool-cases (among ds c)) [
  | inl sep ↦ rw sep (omega (arith, length-skip ds cs))
  | inr in_word ↦ rw in_word (omega arith)
]

pub length-after : (ds : List ℕ) (c : ℕ) (cs : List ℕ) → length (after ds (c ∷ cs)) ≤ length cs
length-after ds c [] = ground arith
length-after ds c (d ∷ cs) = ground (arith, length-after ds d cs)

pub among-skip :
    (ds cs : List ℕ) (c : ℕ) (rest : List ℕ) → skip ds cs ≡ c ∷ rest → among ds c ≡ false
among-skip ds [] c rest e = cc
among-skip ds (d ∷ cs) c rest e = ground (arith, among-skip ds cs c rest)

pub length-token : (ds cs : List ℕ) → length (token ds cs) ≤ length cs
length-token ds [] = omega arith
length-token ds (c ∷ cs) = ground (arith, length-token ds cs)

-- A text has no more words than bytes.
pub length-words : (ds cs : List ℕ) → length (words ds cs) ≤ length cs
length-words ds [] = omega arith
length-words ds (c ∷ cs) = ground (arith, length-words ds cs, length-join ds c cs (words ds cs))
