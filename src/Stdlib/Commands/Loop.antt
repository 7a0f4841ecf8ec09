-- ===== src/Stdlib/Commands/Loop.antt =====
-- The loop of boios_parse_command: each round links the next word to the list.
use boi_os.Prelude.{
  ℕ, zero, suc, ◌+◌, ◌≤◌, ◌<◌, ◌≡◌, ◌⊎◌, refl, ap, ◌∙◌, inl, inr, Option, some, List, [], ◌∷◌,
  length, ◌==◌, if◌then◌else◌, arith, ne→==,
}
use boi_os.Prelude.Do.{◌>>=◌}
use boi_os.Prelude.Mem.{Mem, read32}
use boi_os.CString.Laws.{IsString, IsString-same}
use boi_os.Stdlib.Tokens.{strtok}
use boi_os.Stdlib.Tokens.Words.{words}
use boi_os.Stdlib.Tokens.Next.{Found, Outcome, strtok-Outcome}
use boi_os.Stdlib.Commands.{boios_malloc, parse_loop}
use boi_os.Memory.{memset}
use boi_os.Stdlib.Commands.Blocks.{AreBlocks, filled, filled-Filled, store32_other}
use boi_os.Stdlib.Commands.Linked.{
  separators, read32-same, Linked, linked, linked_other, Linked-cons,
}

pub boios_malloc-cons :
    (m : Mem) (b size : ℕ) (bs : List ℕ)
    → 0 < b
    → boios_malloc m (b ∷ bs) size ≡ (b, memset m b 0 size, bs)
unfolding boios_malloc
boios_malloc-cons m b size bs h = rw (ne→== b 0 (omega arith)) refl

module _ (space scommand fuel : ℕ) (here : 0 < scommand) (enough : 1025 < fuel)
    (apart : (space + 2 ≤ scommand) ⊎ (scommand + 1025 ≤ space)) where
  -- Before a call of strtok that goes on with the text at `sp`.
  pub record Ready (m : Mem) (current : ℕ) (bs : List ℕ) (sp : ℕ) (cs : List ℕ) : Type 0 where
    pub text : IsString m sp cs
    pub from : scommand ≤ sp
    pub upto : sp + length cs ≤ scommand + 1024
    pub delimeters : IsString m space separators
    pub blocks : AreBlocks scommand space (current ∷ bs)
    pub next : read32 m (current + 512) ≡ 0
    pub room : length (words separators cs) ≤ length bs

  -- A text that begins in the buffer.
  text-Outcome :
      (m : Mem) (sp : ℕ) (cs : List ℕ) (s : IsString m space separators)
      → IsString m sp cs
      → scommand ≤ sp
      → length cs ≤ 1024
      → Outcome m space separators s cs sp (strtok m sp 0 space fuel)
  text-Outcome m sp cs s t from le =
      let same : (if sp == 0 then 0 else sp) ≡ sp = ground arith in
      let r =
        strtok-Outcome m space separators s cs sp 0 fuel (ground arith) (rw same t) (omega arith)
          (omega arith) in
      rw same at r

  -- The next argument is filled in a memory `m2` that differs only in the blocks.
  pub Ready-Found :
      (m m1 m2 : Mem) (b sp q sp1 : ℕ) (bs cs : List ℕ) (s : IsString m space separators)
      → (found : Found m space separators s cs sp q m1 sp1) → scommand ≤ sp
      → sp + length cs ≤ scommand + 1024
      → AreBlocks scommand space (b ∷ bs)
      → length (words separators cs) ≤ suc (length bs)
      → read32 m2 (b + 512) ≡ 0
      → ((a : ℕ)
          → ((scommand ≤ a) × (a < scommand + 1025)) ⊎ ((space ≤ a) × (a < space + 2))
          → m2 a ≡ m1 a)
      → Ready m2 b bs sp1 found.rest
  Ready-Found m m1 m2 b sp q sp1 bs cs s found from upto blocks le next same = record {
    text =
        IsString-same found.rest m1 m2 sp1
          (λ a lo hi. same a (ground (arith, found.ends, found.not_null))) found.is_rest;
    from = omega (arith, found.not_null);
    upto = omega (arith, found.ends);
    delimeters =
        IsString-same separators m m2 space
          (λ a lo hi. same a (ground arith) ∙ found.others a (ground arith)) s;
    blocks = blocks;
    next = next;
    room = omega (arith, ap (length {A = List ℕ}) found.splits);
  }

  abbrev pub Built : Mem → ℕ → List ℕ → List ℕ → Option (Mem × ℕ × List ℕ) → Type 0
  Built m current bs cs r =
      (m' : Mem) × (ptrs : List ℕ) × (r ≡ some (m', 0, ptrs))
      × Linked space scommand m current bs cs m'

  parse_loop_step :
      (m : Mem) (sp token current b rounds : ℕ) (bs : List ℕ)
      → 0 < token
      → 0 < b
      → parse_loop space fuel m sp token current (b ∷ bs) (suc rounds) ≡ (
          strtok (linked space scommand m current b token) sp 0 space fuel >>= λ r.
          parse_loop space fuel r.1 r.2 r.0 b bs rounds)
  unfolding parse_loop
  parse_loop_step m sp token current zero rounds bs ht hb = absurd (omega arith)
  parse_loop_step m sp token current (suc b) rounds bs ht hb =
      rw (ne→== token 0 (omega arith), parse_loop, boios_malloc-cons m (suc b) 516 bs hb) refl

  pub loop-Built :
      (rounds : ℕ) (bs : List ℕ) (m : Mem) (current sp : ℕ) (cs : List ℕ)
      → Ready m current bs sp cs
      → length (words separators cs) < rounds
      → Built m current bs cs
          (strtok m sp 0 space fuel >>= λ r. parse_loop space fuel r.1 r.2 r.0 current bs rounds)
  unfolding parse_loop
  loop-Built zero bs m current sp cs r lt = absurd (omega arith)
  loop-Built (suc rounds) [] m current sp cs r lt =
      elim (text-Outcome m sp cs r.delimeters r.text r.from (omega (arith, r.from, r.upto))) [
        | inl (none_left, e) ↦
            (m, [], rw e refl, record { rest = rw (r.next, none_left) refl; others = λ a k. refl })
        | inr (q, m1, sp1, e, found) ↦
            absurd (omega (arith, r.room, ap (length {A = List ℕ}) found.splits))
      ]
  loop-Built (suc rounds) (b ∷ bs) m current sp cs r lt =
      elim (text-Outcome m sp cs r.delimeters r.text r.from (omega (arith, r.from, r.upto))) [
        | inl (none_left, e) ↦ (
          m,
          b ∷ bs,
          rw e refl,
          record { rest = rw (r.next, none_left) refl; others = λ a k. refl },
        )
        | inr (q, m1, sp1, e, found) ↦
            let (
              pc,
              tc,
              c_buffer,
              c_space,
              (c_b, c_bs),
              (pb, tb, b_buffer, b_space, b_bs, bs_blocks),
            ) =
              r.blocks in
            let f =
              filled-Filled m1 b q found.word found.is_word
                (ground (arith, r.from, r.upto, found.not_null, found.room)) in
            let m2 : Mem = linked space scommand m1 current b q in
            let other = linked_other space scommand m1 current b q found.word f in
            let next : read32 m2 (b + 512) ≡ 0 =
              read32-same (filled m1 b q) m2 (b + 512)
                (λ x lo hi. store32_other (filled m1 b q) (current + 512) b x (ground arith))
              ∙ f.next in
            let ready : Ready m2 b bs sp1 found.rest =
              Ready-Found m m1 m2 b sp q sp1 bs cs r.delimeters found r.from r.upto r.blocks.5
                r.room next (λ a place. other a (ground arith) (ground arith)) in
            let (m', ptrs, done, l) =
              loop-Built rounds bs m2 b sp1 found.rest ready
                (omega (arith, ap (length {A = List ℕ}) found.splits)) in
            (
              m',
              ptrs,
              rw e (
                  parse_loop_step m1 sp1 q current b rounds bs
                    (omega (arith, found.not_null, r.from)) pb
                  ∙ done),
              Linked-cons space scommand m m1 m' current b q bs cs found.word found.rest f r.blocks
                  (λ a out. found.others a (ground (arith, r.from, r.upto))) found.splits l,
            )
      ]
