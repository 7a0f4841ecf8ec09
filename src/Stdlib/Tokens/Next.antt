-- ===== src/Stdlib/Tokens/Next.antt =====
-- A call of strtok gives the next word.
use boi_os.Prelude.{
  ℕ, zero, suc, ◌+◌, ◌≤◌, ◌<◌, ◌≡◌, ◌⊎◌, refl, ap, ◌∙◌, inl, inr, false, ◌&&◌, Option, some, List,
  [], ◌∷◌, length, ◌==◌, if◌then◌else◌, arith, Bool-cases, ne→==,
}
use boi_os.Prelude.Mem.{Mem, store}
use boi_os.CString.Laws.{IsString, IsString-same, strlen-length}
use boi_os.Stdlib.Tokens.{strtok, is_delimeter, skip_loop, end_loop, token_at}
use boi_os.Stdlib.Tokens.Words.{
  among, words, skip, token, after, words-skip, words-token, length-skip, length-after,
  length-token, among-skip,
}

is_delimeter-among :
    (ds : List ℕ) (m : Mem) (c delimeters : ℕ)
    → IsString m delimeters ds
    → is_delimeter m c delimeters (length ds) ≡ among ds c
unfolding is_delimeter
is_delimeter-among [] m c delimeters s = refl
is_delimeter-among (d ∷ ds) m c delimeters (h, pd, s) =
    ground (arith, is_delimeter-among ds m c (delimeters + 1) s)

among-zero :
    (ds : List ℕ) (m : Mem) (delimeters : ℕ) → IsString m delimeters ds → among ds 0 ≡ false
among-zero [] m delimeters s = refl
among-zero (d ∷ ds) m delimeters (h, pd, s) = ground (arith, among-zero ds m (delimeters + 1) s)

module _ (m : Mem) (delimeters : ℕ) (ds : List ℕ) (s : IsString m delimeters ds) where
  at_end : (c : ℕ) → c ≡ 0 → is_delimeter m c delimeters (length ds) ≡ false
  at_end c e =
      is_delimeter-among ds m c delimeters s ∙ ap (among ds) e ∙ among-zero ds m delimeters s

  -- Behind the delimiters the text is what `skip` leaves.
  skip_loop-skip :
      (fuel : ℕ) (cs : List ℕ) (p : ℕ)
      → IsString m p cs
      → length cs < fuel
      → (q : ℕ) × (skip_loop m delimeters (length ds) p fuel ≡ some q)
        × IsString m q (skip ds cs)
        × (p ≤ q)
        × (q + length (skip ds cs) ≡ p + length cs)
  unfolding skip_loop
  skip_loop-skip zero cs p t lt = absurd (omega arith)
  skip_loop-skip (suc fuel) [] p t lt =
      (p, rw (at_end (m p) t, skip_loop) refl, t, omega arith, omega arith)
  skip_loop-skip (suc fuel) (c ∷ cs) p (h, pc, t) lt =
      let same = is_delimeter-among ds m (m p) delimeters s ∙ ap (among ds) h in
      elim (Bool-cases (among ds c)) [
        | inl sep ↦
            let (q, e, t', le, eq) = skip_loop-skip fuel cs (p + 1) t (omega arith) in
            (q, rw (same, sep, skip_loop) e, rw sep t', omega arith, rw sep (omega arith))
        | inr in_word ↦ (
          p,
          rw (same, in_word, skip_loop) refl,
          rw in_word (h, pc, t),
          omega arith,
          rw in_word refl,
        )
      ]

  -- Behind a word, from `p` on: the word is a string, and so is the text behind it at `sp`.
  pub record Ended (cs : List ℕ) (p : ℕ) (m' : Mem) (sp : ℕ) : Type 0 where
    pub is_token : IsString m' p (token ds cs)
    pub is_rest : IsString m' sp (after ds cs)
    pub ends : sp + length (after ds cs) ≡ p + length cs
    pub others : (a : ℕ) → (a < p) ⊎ (p + length cs ≤ a) → m' a ≡ m a

  end_loop-Ended :
      (fuel : ℕ) (cs : List ℕ) (p : ℕ)
      → IsString m p cs
      → length cs < fuel
      → (m' : Mem) × (sp : ℕ) × (end_loop m delimeters (length ds) p fuel ≡ some (m', sp))
        × Ended cs p m' sp
        × (p ≤ sp)
  unfolding end_loop
  end_loop-Ended zero cs p t lt = absurd (omega arith)
  end_loop-Ended (suc fuel) [] p t lt = (
    m,
    p,
    rw (t, end_loop) refl,
    record { is_token = t; is_rest = t; ends = refl; others = λ a out. refl },
    omega arith,
  )
  end_loop-Ended (suc fuel) (c ∷ cs) p (h, pc, t) lt =
      let same = is_delimeter-among ds m (m p) delimeters s ∙ ap (among ds) h in
      let more = ne→== (m p) 0 (omega arith) in
      elim (Bool-cases (among ds c)) [
        | inl sep ↦ (
          store m p 0,
          p + 1,
          rw (more, same, sep, end_loop) refl,
          record {
            is_token = rw sep (ground arith);
            is_rest = rw sep (IsString-same cs m (store m p 0) (p + 1) (λ a lo hi. ground arith) t);
            ends = rw sep (omega arith);
            others = λ a out. ground arith;
          },
          omega arith,
        )
        | inr in_word ↦
            let (m', sp, e, done, le) = end_loop-Ended fuel cs (p + 1) t (omega arith) in
            (
              m',
              sp,
              rw (more, same, in_word, end_loop) e,
              record {
                is_token = rw in_word (done.others p (inl (omega arith)) ∙ h, pc, done.is_token);
                is_rest = rw in_word done.is_rest;
                ends = rw in_word (omega (arith, done.ends));
                others = λ a out. done.others a (ground arith);
              },
              omega arith,
            )
      ]

  -- The next word of the text `cs` at `p` is the string at `q`, and the strings behind it go on at `sp`.
  pub record Found (cs : List ℕ) (p q : ℕ) (m' : Mem) (sp : ℕ) : Type 0 where
    pub word : List ℕ
    pub rest : List ℕ
    pub splits : words ds cs ≡ word ∷ words ds rest
    pub is_word : IsString m' q word
    pub is_rest : IsString m' sp rest
    pub room : q + length word ≤ p + length cs
    pub not_null : (p ≤ q) × (q < sp)
    pub ends : sp + length rest ≡ p + length cs
    pub others : (a : ℕ) → (a < p) ⊎ (p + length cs ≤ a) → m' a ≡ m a

  -- What a call gives: null where no word is left, and the next word otherwise.
  abbrev pub Outcome : List ℕ → ℕ → Option (ℕ × Mem × ℕ) → Type 0
  Outcome cs p r =
      ((words ds cs ≡ []) × (r ≡ some (0, m, 0)))
      ⊎ ((q : ℕ) × (m' : Mem) × (sp : ℕ) × (r ≡ some (q, m', sp)) × Found cs p q m' sp)

  token_at-Outcome :
      (cs : List ℕ) (p q fuel : ℕ) (rest : List ℕ)
      → skip ds cs ≡ rest
      → IsString m q rest
      → p ≤ q
      → q + length rest ≡ p + length cs
      → length rest < fuel
      → Outcome cs p (token_at m delimeters (length ds) fuel q)
  unfolding token_at
  token_at-Outcome cs p q fuel [] e t le eq lt =
      inl (words-skip ds cs ∙ ap (words ds) e, rw (t, token_at) refl)
  token_at-Outcome cs p q fuel (c ∷ rest) e t le eq lt =
      let (m', sp, done, ended, le') = end_loop-Ended fuel (c ∷ rest) q t lt in
      inr (
        q,
        m',
        sp,
        rw (ne→== (m q) 0 (omega arith), token_at, done) refl,
        record {
          word = token ds (c ∷ rest);
          rest = after ds (c ∷ rest);
          splits =
              words-skip ds cs
              ∙ ap (words ds) e
              ∙ words-token ds c rest (among-skip ds cs c rest e);
          is_word = ended.is_token;
          is_rest = ended.is_rest;
          room = omega (arith, length-token ds (c ∷ rest));
          not_null = (le, omega (arith, ended.ends, length-after ds c rest));
          ends = ended.ends ∙ eq;
          others = λ a out. ended.others a (ground arith);
        },
      )

  -- strtok, on a text that it is given or that it goes on with, gives null and ends the text where only
  -- delimiters are left. Otherwise its result is the next word as a string, the static pointer stands at the
  -- rest of the text behind that word's delimiter, and only the text was written.
  pub strtok-Outcome :
      (cs : List ℕ) (sp str fuel : ℕ)
      → 0 < (if sp == 0 then str else sp)
      → IsString m (if sp == 0 then str else sp) cs
      → length ds < fuel
      → length cs < fuel
      → Outcome cs (if sp == 0 then str else sp) (strtok m sp str delimeters fuel)
  unfolding strtok
  strtok-Outcome cs sp str fuel h t ltd lt =
      let p : ℕ = if sp == 0 then str else sp in
      let (q, e, t', le, eq) = skip_loop-skip fuel cs p t lt in
      let some_text : (str == 0 && sp == 0) ≡ false = ground arith in
      rw (some_text, strlen-length ds m delimeters fuel s ltd, e)
        (token_at-Outcome cs p q fuel (skip ds cs) refl t' le eq (omega (arith, length-skip ds cs)))
