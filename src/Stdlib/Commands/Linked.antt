-- ===== src/Stdlib/Commands/Linked.antt =====
-- A linked list of arguments that grows at its front.
use boi_os.Prelude.{ℕ, ◌+◌, ◌≤◌, ◌<◌, ◌≡◌, ◌⊎◌, ◌∙◌, inl, List, [], ◌∷◌, take, arith}
use mathlib.Core.List.{map}
use boi_os.Prelude.Mem.{Mem, read32, store32, read32-store32}
use boi_os.CString.Laws.{IsString, IsString-same}
use boi_os.Stdlib.Tokens.Words.{words}
use boi_os.Stdlib.Commands.Blocks.{
  Arguments, Far, AllFar, AllFar-part, AreBlocks, filled, Filled, store32_other, length-take_le,
}

-- " "
abbrev pub separators : List ℕ
separators = b' ' ∷ []

-- An argument has room for 511 bytes.
abbrev pub arguments_of : List ℕ → List (List ℕ)
arguments_of cs = map (take 511) (words separators cs)

pub read32-same :
    (m m' : Mem) (a : ℕ) → ((x : ℕ) → a ≤ x → x < a + 4 → m' x ≡ m x) → read32 m' a ≡ read32 m a
read32-same m m' a same = ground (
  arith,
  same a (omega arith) (omega arith),
  same (a + 1) (omega arith) (omega arith),
  same (a + 2) (omega arith) (omega arith),
  same (a + 2 + 1) (omega arith) (omega arith),
)

module _ (space scommand : ℕ) where
  -- The bytes that the loop behind the argument at `current` leaves alone.
  abbrev pub Kept : ℕ → List ℕ → ℕ → Type 0
  Kept current bs a =
      ((a < scommand) ⊎ (scommand + 1025 ≤ a))
      × ((a < current + 512) ⊎ (current + 516 ≤ a))
      × AllFar bs a 1

  -- Behind `current` the list of arguments is linked.
  pub record Linked (m : Mem) (current : ℕ) (bs cs : List ℕ) (m' : Mem) : Type 0 where
    pub rest : Arguments m' (read32 m' (current + 512)) (arguments_of cs)
    pub others : (a : ℕ) → Kept current bs a → m' a ≡ m a

  -- The next argument at `b`, linked to `current`.
  abbrev pub linked : Mem → ℕ → ℕ → ℕ → Mem
  linked m current b q = store32 (filled m b q) (current + 512) b

  pub linked_other :
      (m : Mem) (current b q : ℕ) (word : List ℕ)
      → Filled m b word (filled m b q)
      → (a : ℕ) → Far b a 1
      → (a < current + 512) ⊎ (current + 516 ≤ a)
      → linked m current b q a ≡ m a
  linked_other m current b q word f a far out = ground (arith, f.others a)

  pub argument_kept :
      (m m' : Mem) (b : ℕ) (bs cs word : List ℕ)
      → Linked m b bs cs m'
      → Far b scommand 1025
      → AllFar bs b 516
      → IsString m b (take 511 word)
      → IsString m' b (take 511 word)
  argument_kept m m' b bs cs word l buffer far s =
      let short = length-take_le 511 word in
      IsString-same (take 511 word) m m' b
        (λ x lo hi. l.others x (
          ground (arith, short),
          inl (omega (arith, short)),
          AllFar-part bs b 516 x 1 lo (omega (arith, short)) (omega arith) far,
        ))
        s

  -- The argument at `b` stays while the rest is linked behind it.
  pub Linked-cons :
      (m m1 m' : Mem) (current b q : ℕ) (bs cs word rest : List ℕ)
      → Filled m1 b word (filled m1 b q)
      → AreBlocks scommand space (current ∷ b ∷ bs)
      → ((a : ℕ) → (a < scommand) ⊎ (scommand + 1025 ≤ a) → m1 a ≡ m a)
      → words separators cs ≡ word ∷ words separators rest
      → Linked (linked m1 current b q) b bs rest m'
      → Linked m current (b ∷ bs) cs m'
  Linked-cons m m1 m' current b q bs cs word rest f
        (pc, tc, c_buffer, c_space, (c_b, c_bs), (pb, tb, b_buffer, b_space, b_bs, bs_blocks)) same
        e l =
      let m5 : Mem = linked m1 current b q in
      let short = length-take_le 511 word in
      let at : read32 m' (current + 512) ≡ b =
        read32-same m5 m' (current + 512) (λ x lo hi. l.others x (
          ground arith,
          ground arith,
          AllFar-part bs current 516 x 1 (omega arith) (omega arith) (omega arith) c_bs,
        ))
        ∙ read32-store32 (filled m1 b q) (current + 512) b (omega arith) in
      record {
        rest =
            rw (at, e)
              (
                pb,
                argument_kept m5 m' b bs rest word l b_buffer b_bs (
                    IsString-same (take 511 word) (filled m1 b q) m5 b
                      (λ x lo hi.
                        store32_other (filled m1 b q) (current + 512) b x (ground (arith, short)))
                      f.argument),
                l.rest,
              );
        others = λ a (h, c, (fb, fs)).
            l.others a (h, ground arith, fs) ∙ linked_other m1 current b q word f a fb c ∙ same a h;
      }
