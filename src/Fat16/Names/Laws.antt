-- ===== src/Fat16/Names/Laws.antt =====
-- The string that fat16_get_full_relative_filename leaves.
use boi_os.Prelude.{
  ℕ, zero, suc, ◌+◌, ◌<◌, ◌≤◌, ◌≡◌, refl, ap, ◌∙◌, inl, inr, List, [], ◌∷◌, ◌++◌, length,
  length-append, arith, Bool-cases, if◌then◌else◌, ◌==◌, ◌||◌, not,
}
use mathlib.Core.Path.{subst}
use mathlib.Core.List.{append_assoc}
use boi_os.Memory.{memset}
use boi_os.Memory.Laws.{memset_lem}
use boi_os.Prelude.Mem.{Mem, store}
use boi_os.CString.Laws.{IsString}
use boi_os.Fat16.Layout.{FatDirectoryItem}
use boi_os.Fat16.Names.{
  goes_on, string_loop, terminated, fat16_to_proper_string, with_ext,
  fat16_get_full_relative_filename,
}

-- The first characters of a name, at most `k` from the one number `i` on, up to a zero or a space.
pub trimmed : (ℕ → ℕ) → ℕ → ℕ → List ℕ
trimmed name i zero = []
trimmed name i (suc k) =
    let rest = trimmed name (i + 1) k in
    if (name i == 0) || (name i == b' ') then [] else name i ∷ rest

-- The name, and behind a dot the extension if there is one.
abbrev pub full_name : FatDirectoryItem → List ℕ
full_name item =
    if (item.ext 0 == 0) || (item.ext 0 == b' ')
    then trimmed item.file_name 0 8
    else trimmed item.file_name 0 8 ++ (b'.' ∷ trimmed item.ext 0 3)

-- The name's characters end at a zero or a space.
stops : (c : ℕ) → ((c == 0) || (c == b' ')) ≡ not (goes_on c)
stops c = ground arith

-- The text stands at `p`, with no zero in it.
abbrev pub Bytes : Mem → ℕ → List ℕ → Type 0
Bytes m p [] = Unit
Bytes m p (c ∷ cs) = (m p ≡ c) × (0 < c) × Bytes m (p + 1) cs

-- The text was written from `out` on, up to `out'`, and in front of `out` nothing changed.
pub record Wrote (m : Mem) (out : ℕ) (text : List ℕ) (m' : Mem) (out' : ℕ) : Type 0 where
  pub ends : out' ≡ out + length text
  pub stands : Bytes m' out text
  pub before : (a : ℕ) → a < out → m' a ≡ m a

Bytes-same :
    (cs : List ℕ) (m m' : Mem) (p : ℕ)
    → ((a : ℕ) → a < p + length cs → m' a ≡ m a)
    → Bytes m p cs
    → Bytes m' p cs
Bytes-same [] m m' p same b = tt
Bytes-same (c ∷ cs) m m' p same (h, pc, b) =
    (same p (omega arith) ∙ h, pc, Bytes-same cs m m' (p + 1) (λ a lt. same a (omega arith)) b)

Bytes-append :
    (cs ds : List ℕ) (m : Mem) (p : ℕ)
    → Bytes m p cs
    → Bytes m (p + length cs) ds
    → Bytes m p (cs ++ ds)
Bytes-append [] ds m p b d = subst (λ x. Bytes m x ds) (omega arith) d
Bytes-append (c ∷ cs) ds m p (h, pc, b) d =
    (h, pc, Bytes-append cs ds m (p + 1) b (subst (λ x. Bytes m x ds) (omega arith) d))

Bytes-IsString :
    (cs : List ℕ) (m : Mem) (p : ℕ) → Bytes m p cs → m (p + length cs) ≡ 0 → IsString m p cs
Bytes-IsString [] m p b z = ap m (omega arith) ∙ z
Bytes-IsString (c ∷ cs) m p (h, pc, b) z =
    (h, pc, Bytes-IsString cs m (p + 1) b (ap m (omega arith) ∙ z))

Wrote-nothing : (m : Mem) (out : ℕ) → Wrote m out [] m out
Wrote-nothing m out = record { ends = omega arith; stands = tt; before = λ a lt. refl }

Wrote-cons :
    (m m' : Mem) (out out' c : ℕ) (cs : List ℕ)
    → 0 < c
    → Wrote (store m out c) (out + 1) cs m' out'
    → Wrote m out (c ∷ cs) m' out'
Wrote-cons m m' out out' c cs pc w = record {
  ends = omega (arith, w.ends);
  stands = (w.before out (omega arith) ∙ ground arith, pc, w.stands);
  before = λ a lt. w.before a (omega arith) ∙ ground arith;
}

Wrote-append :
    (m m1 m2 : Mem) (out o1 o2 : ℕ) (cs ds : List ℕ)
    → Wrote m out cs m1 o1
    → Wrote m1 o1 ds m2 o2
    → Wrote m out (cs ++ ds) m2 o2
Wrote-append m m1 m2 out o1 o2 cs ds v w = record {
  ends = omega (arith, v.ends, w.ends, length-append cs ds);
  stands =
      Bytes-append cs ds m2 out
        (Bytes-same cs m1 m2 out (λ a lt. w.before a (omega (arith, v.ends))) v.stands)
        (subst (λ x. Bytes m2 x ds) v.ends w.stands);
  before = λ a lt. w.before a (omega (arith, v.ends)) ∙ v.before a lt;
}

-- What was written in front of the cursor is not touched by the terminator, which ends the string.
Wrote-IsString :
    (m m' : Mem) (out out' : ℕ) (cs : List ℕ)
    → Wrote m out cs m' out'
    → IsString (store m' out' 0) out cs
Wrote-IsString m m' out out' cs w =
    Bytes-IsString cs (store m' out' 0) out
      (Bytes-same cs m' (store m' out' 0) out (λ a lt. ground (arith, w.ends)) w.stands)
      (ground (arith, w.ends))

-- A dot over the terminator of what was written.
Wrote-dot :
    (m m' : Mem) (out out' : ℕ) (cs : List ℕ)
    → Wrote m out cs m' out'
    → Wrote m out (cs ++ (b'.' ∷ [])) (store (store m' out' 0) out' b'.') (out' + 1)
Wrote-dot m m' out out' cs w =
    Wrote-append m m' (store (store m' out' 0) out' b'.') out out' (out' + 1) cs (b'.' ∷ []) w
      (record {
        ends = omega arith;
        stands = (ground arith, omega arith, tt);
        before = λ a lt. ground arith;
      })

string_loop-Wrote :
    (k : ℕ) (m : Mem) (name : ℕ → ℕ) (out i : ℕ)
    → let (m', out') = string_loop m name out i k in Wrote m out (trimmed name i k) m' out'
unfolding string_loop trimmed
string_loop-Wrote zero m name out i = Wrote-nothing m out
string_loop-Wrote (suc k) m name out i = elim (Bool-cases (goes_on (name i))) [
  | inl t ↦
      let rest = string_loop-Wrote k (store m out (name i)) name (out + 1) (i + 1) in
      rw (stops (name i), t, string_loop)
        (Wrote-cons m _ out _ (name i) (trimmed name (i + 1) k) (ground arith) rest)
  | inr f ↦ rw (stops (name i), f, string_loop) (Wrote-nothing m out)
]

-- The string that fat16_get_full_relative_filename leaves is the name up to its first zero or space, and, where
-- the extension does not start with one, a dot and the extension up to its first zero or space.
pub fat16_get_full_relative_filename-full_name :
    (m : Mem) (item : FatDirectoryItem) (out max_len : ℕ)
    → IsString (fat16_get_full_relative_filename m item out max_len) out (full_name item)
unfolding fat16_get_full_relative_filename fat16_to_proper_string terminated with_ext
fat16_get_full_relative_filename-full_name m item out max_len =
    let start = memset m out 0x00 max_len in
    let w = string_loop-Wrote 8 start item.file_name out 0 in
    let (m1, o1) = string_loop start item.file_name out 0 8 in
    elim (Bool-cases (goes_on (item.ext 0))) [
      | inl t ↦
          let dotted = Wrote-dot start m1 out o1 (trimmed item.file_name 0 8) w in
          let all = store (store m1 o1 0) o1 b'.' in
          let e = string_loop-Wrote 3 all item.ext (o1 + 1) 0 in
          rw (stops (item.ext 0), t)
            (subst (IsString _ out)
              (append_assoc (trimmed item.file_name 0 8) (b'.' ∷ []) (trimmed item.ext 0 3))
              (Wrote-IsString start _ out _ _
                (Wrote-append start all _ out (o1 + 1) _ _ (trimmed item.ext 0 3) dotted e)))
      | inr f ↦
          rw (stops (item.ext 0), f) (Wrote-IsString start m1 out o1 (trimmed item.file_name 0 8) w)
    ]

string_loop-after :
    (k : ℕ) (m : Mem) (name : ℕ → ℕ) (out i a : ℕ)
    → out + k ≤ a
    → let (m', out') = string_loop m name out i k in (m' a ≡ m a) × (out' ≤ out + k)
unfolding string_loop
string_loop-after zero m name out i a le = (refl, omega arith)
string_loop-after (suc k) m name out i a le = elim (Bool-cases (goes_on (name i))) [
  | inl t ↦
      let (e, small) =
        string_loop-after k (store m out (name i)) name (out + 1) (i + 1) a (omega arith) in
      rw (t, string_loop) (e ∙ ground arith, omega arith)
  | inr f ↦ rw (f, string_loop) (refl, omega arith)
]

-- Behind the buffer of fat16_get_full_relative_filename, of 13 bytes at least, nothing changes.
pub fat16_get_full_relative_filename-after :
    (m : Mem) (item : FatDirectoryItem) (out max_len a : ℕ)
    → 13 ≤ max_len
    → out + max_len ≤ a
    → fat16_get_full_relative_filename m item out max_len a ≡ m a
unfolding fat16_get_full_relative_filename fat16_to_proper_string terminated with_ext
fat16_get_full_relative_filename-after m item out max_len a large le =
    let start = memset m out 0x00 max_len in
    let (m1, o1) = string_loop start item.file_name out 0 8 in
    let (e, small) = string_loop-after 8 start item.file_name out 0 a (omega arith) in
    let same : start a ≡ m a = memset_lem max_len m out 0x00 a ∙ ground arith in
    elim (Bool-cases (goes_on (item.ext 0))) [
      | inl t ↦
          let all = store (store m1 o1 0) o1 b'.' in
          let (e', small') = string_loop-after 3 all item.ext (o1 + 1) 0 a (omega arith) in
          rw t (ground (arith, e', e, same))
      | inr f ↦ rw f (ground (arith, e, same))
    ]
