-- ===== src/Stdlib/Commands/Blocks.antt =====
-- The blocks of the arguments in memory, and what filling one changes.
use boi_os.Prelude.{
  ℕ, zero, suc, ◌+◌, ◌^◌, ◌≤◌, ◌<◌, ◌≡◌, ◌⊎◌, ◌∙◌, inl, List, [], ◌∷◌, length, take, arith,
}
use boi_os.Prelude.Mem.{Mem, read32, store32, read32-store32}
use boi_os.Memory.{memset}
use boi_os.Memory.Laws.{memset_lem}
use boi_os.CString.{strncpy}
use boi_os.CString.Laws.{IsString, IsString-same, strncpy-Copied}
use boi_os.Stdlib.Commands.{fill_argument, command_argument_size}

-- At `a` begins a linked list with the arguments.
abbrev pub Arguments : Mem → ℕ → List (List ℕ) → Type 0
Arguments m a [] = a ≡ 0
Arguments m a (x ∷ xs) = (0 < a) × IsString m a x × Arguments m (read32 m (a + 512)) xs

-- The `n` bytes at `x` are not of the block `b`.
abbrev pub Far : ℕ → ℕ → ℕ → Type 0
Far b x n = (x + n ≤ b) ⊎ (b + 516 ≤ x)

abbrev pub AllFar : List ℕ → ℕ → ℕ → Type 0
AllFar [] x n = Unit {0}
AllFar (b ∷ bs) x n = Far b x n × AllFar bs x n

-- The blocks lie in memory without overlap, apart from the buffer and from the text " ".
abbrev pub AreBlocks : ℕ → ℕ → List ℕ → Type 0
AreBlocks scommand space [] = Unit {0}
AreBlocks scommand space (b ∷ bs) =
    (0 < b)
    × (b + 516 ≤ 2 ^ 32)
    × Far b scommand 1025
    × Far b space 2
    × AllFar bs b 516
    × AreBlocks scommand space bs

pub AllFar-part :
    (bs : List ℕ) (x n y k : ℕ) → x ≤ y → y + k ≤ x + n → 0 < k → AllFar bs x n → AllFar bs y k
AllFar-part [] x n y k lo hi pk h = tt
AllFar-part (b ∷ bs) x n y k lo hi pk (h, hs) = (ground arith, AllFar-part bs x n y k lo hi pk hs)

-- The memory with the argument at `b`, as boios_malloc and the copy of the token at `q` leave it.
abbrev pub filled : Mem → ℕ → ℕ → Mem
filled m b q = fill_argument (memset m b 0 command_argument_size) b q

-- `cs` are the bytes of a token of a buffer that the block does not overlap.
pub record Filled (m : Mem) (b : ℕ) (cs : List ℕ) (m' : Mem) : Type 0 where
  pub argument : IsString m' b (take 511 cs)
  pub next : read32 m' (b + 512) ≡ 0
  pub others : (a : ℕ) → Far b a 1 → m' a ≡ m a

pub store32_other : (m : Mem) (a v x : ℕ) → (x < a) ⊎ (a + 4 ≤ x) → store32 m a v x ≡ m x
store32_other m a v x h = ground arith

pub length-take_le : (n : ℕ) (cs : List ℕ) → length (take n cs) ≤ n
length-take_le zero cs = omega arith
length-take_le (suc n) [] = omega arith
length-take_le (suc n) (c ∷ cs) = omega (arith, length-take_le n cs)

pub filled-Filled :
    (m : Mem) (b q : ℕ) (cs : List ℕ)
    → IsString m q cs
    → Far b q (suc (length cs))
    → Filled m b cs (filled m b q)
unfolding fill_argument
filled-Filled m b q cs s far =
    let m1 : Mem = memset m b 0 516 in
    let outside : (a : ℕ) → Far b a 1 → m1 a ≡ m a = λ a h. memset_lem 516 m b 0 a ∙ ground arith in
    let s1 : IsString m1 q cs = IsString-same cs m m1 q (λ a lo hi. outside a (ground arith)) s in
    let c = strncpy-Copied cs m1 b q 512 s1 (ground arith) in
    let m2 : Mem = strncpy m1 b q 512 in
    let short = length-take_le 511 cs in
    record {
      argument =
          IsString-same (take 511 cs) m2 (store32 m2 (b + 512) 0) b
            (λ a lo hi. store32_other m2 (b + 512) 0 a (inl (omega (arith, short)))) c.stands;
      next = read32-store32 m2 (b + 512) 0 (omega arith);
      others = λ a h.
          store32_other m2 (b + 512) 0 a (ground arith)
          ∙ c.others a (ground (arith, short))
          ∙ outside a h;
    }
