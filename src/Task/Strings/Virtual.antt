-- ===== src/Task/Strings/Virtual.antt =====
-- The copy of a string to a page that the task's directory maps to itself.
use boi_os.Prelude.{
  ℕ, zero, suc, ◌+◌, ◌%◌, ◌^◌, ◌≤◌, ◌<◌, ◌≡◌, ◌⊎◌, ◌∙◌, List, [], ◌∷◌, length, take, arith, ne→==,
}
use boi_os.Prelude.Mem.{Mem, store}
use boi_os.CString.Laws.{Copied, Copied-cons}
use boi_os.Paging.{paging_get_physical_address}
use boi_os.Task.Strings.{virtual_loop}

-- The bytes `cs`, none of them zero, and a zero byte, at the addresses from `src` on under a directory.
abbrev pub IsTaskString : Mem → ℕ → Mem → ℕ → List ℕ → Type 0
IsTaskString words directory m src [] = m (paging_get_physical_address words directory src) ≡ 0
IsTaskString words directory m src (c ∷ cs) =
    (m (paging_get_physical_address words directory src) ≡ c)
    × (0 < c)
    × IsTaskString words directory m (src + 1) cs

module _ (words : Mem) (directory tmp : ℕ) where
  -- The `n` addresses from `src` on lead to memory outside of the page at `tmp`.
  abbrev pub Outside : ℕ → ℕ → Type 0
  Outside src n =
      (a : ℕ)
      → src ≤ a
      → a < src + n
      → let p = paging_get_physical_address words directory a in (p < tmp) ⊎ (tmp + 4096 ≤ p)

  IsTaskString-same :
      (cs : List ℕ) (m m' : Mem) (src : ℕ)
      → Outside src (suc (length cs))
      → ((p : ℕ) → (p < tmp) ⊎ (tmp + 4096 ≤ p) → m' p ≡ m p)
      → IsTaskString words directory m src cs
      → IsTaskString words directory m' src cs
  IsTaskString-same [] m m' src out same s = same _ (out src (omega arith) (omega arith)) ∙ s
  IsTaskString-same (c ∷ cs) m m' src out same (h, pc, s) = (
    same _ (out src (omega arith) (omega arith)) ∙ h,
    pc,
    IsTaskString-same cs m m' (src + 1) (λ a lo hi. out a (omega arith) (omega arith)) same s,
  )

  -- The page at `tmp` is mapped to itself.
  abbrev pub Itself : Type 0
  Itself = (x : ℕ) → x < 4096 → paging_get_physical_address words directory (tmp + x) ≡ tmp + x

  end-Copied :
      (m : Mem) (x : ℕ)
      → Itself
      → x < 4096
      → Copied m (tmp + x) [] (store m (paging_get_physical_address words directory (tmp + x)) 0)
  end-Copied m x itself lt =
      rw (itself x lt) (record { stands = ground arith; others = λ a h. ground arith })

  -- A copy of `k` bytes at most into the page writes the string's first `k` bytes and a terminator, and nothing else.
  pub virtual_loop-Copied :
      (k : ℕ) (cs : List ℕ) (m : Mem) (x src : ℕ)
      → Itself
      → tmp + 4096 ≤ 2 ^ 32
      → x + k < 4096
      → src + length cs < 2 ^ 32
      → Outside src (suc (length cs))
      → IsTaskString words directory m src cs
      → Copied m (tmp + x) (take k cs) (virtual_loop words directory m (tmp + x) src k)
  unfolding virtual_loop
  virtual_loop-Copied zero cs m x src itself fit room small out s =
      end-Copied m x itself (omega arith)
  virtual_loop-Copied (suc k) [] m x src itself fit room small out s =
      rw (s, virtual_loop) (end-Copied m x itself (omega arith))
  virtual_loop-Copied (suc k) (c ∷ cs) m x src itself fit room small out (h, pc, s) =
      let v = m (paging_get_physical_address words directory src) in
      let here = itself x (omega arith) in
      let e : (tmp + x + 1) % 2 ^ 32 ≡ tmp + x + 1 = omega arith in
      let e' : (src + 1) % 2 ^ 32 ≡ src + 1 = omega arith in
      let e'' : tmp + (x + 1) ≡ tmp + x + 1 = omega arith in
      let out' : Outside (src + 1) (suc (length cs)) =
        λ a lo hi. out a (omega arith) (omega arith) in
      let s' =
        IsTaskString-same cs m (store m (tmp + x) v) (src + 1) out' (λ p far. ground arith) s in
      let rest =
        virtual_loop-Copied k cs (store m (tmp + x) v) (x + 1) (src + 1) itself fit (omega arith)
          (omega arith) out' s' in
      rw (ne→== v 0 (omega arith), here, e, e', virtual_loop)
        (Copied-cons m _ (tmp + x) v c (take k cs) h pc (rw e'' at rest))
