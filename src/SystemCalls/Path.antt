-- ===== src/SystemCalls/Path.antt =====
-- The text of the path that a call starts a program by.
use boi_os.Prelude.{
  ℕ, suc, ◌+◌, ◌≤◌, ◌<◌, ◌≡◌, ◌⊎◌, ◌∙◌, inl, some, refl, List, [], ◌∷◌, ◌++◌, length, take, arith,
}
use boi_os.Prelude.Mem.{Mem}
use boi_os.CString.Laws.{IsString, IsString-same, Apart, Copied, strcpy-Copied, strncpy-Copied}
use boi_os.SystemCalls.{program_path, path_size}

-- A string put in the place of another's terminator.
IsString-append :
    (cs bs : List ℕ) (m m' : Mem) (p : ℕ)
    → IsString m p cs
    → ((a : ℕ) → p ≤ a → a < p + length cs → m' a ≡ m a)
    → IsString m' (p + length cs) bs
    → IsString m' p (cs ++ bs)
IsString-append [] bs m m' p s same t = let e : p + 0 ≡ p = omega arith in rw e at t
IsString-append (c ∷ cs) bs m m' p (h, pc, s) same t =
    let e : p + suc (length cs) ≡ p + 1 + length cs = omega arith in
    (
      same p (omega arith) (omega arith) ∙ h,
      pc,
      IsString-append cs bs m m' (p + 1) s (λ a lo hi. same a (omega arith) (omega arith))
          (rw e at t),
    )

length-append : (cs bs : List ℕ) → length (cs ++ bs) ≡ length cs + length bs
length-append [] bs = omega arith
length-append (a ∷ cs) bs = omega (arith, length-append cs bs)

Copied-append :
    (cs bs : List ℕ) (m m1 m2 : Mem) (p : ℕ)
    → Copied m p cs m1
    → Copied m1 (p + length cs) bs m2
    → Copied m p (cs ++ bs) m2
Copied-append cs bs m m1 m2 p first second = record {
  stands =
      IsString-append cs bs m1 m2 p first.stands (λ a lo hi. second.others a (inl hi))
        second.stands;
  others = λ a h.
      let n = length-append cs bs in
      second.others a (ground (arith, n)) ∙ first.others a (ground (arith, n));
}

-- The text in front of the name of a program.
abbrev pub drive_root : List ℕ
drive_root = b'0' ∷ b':' ∷ b'/' ∷ []

-- The path is "0:/" and the first 127 bytes of the program's name behind it, and nothing else is written, if the
-- path stands apart from both texts; so a name of 125 bytes or more runs over the end of the 128 bytes.
pub program_path-Copied :
    (cs : List ℕ) (m : Mem) (path drive program_name fuel : ℕ)
    → IsString m drive drive_root
    → IsString m program_name cs
    → Apart path drive 4
    → (path + 3 < program_name) ⊎ (program_name + length cs < path)
    → 3 < fuel
    → (m' : Mem) × (program_path m path drive program_name fuel ≡ some m')
      × Copied m path (drive_root ++ take 127 cs) m'
unfolding program_path
program_path-Copied cs m path drive program_name fuel d s ad an lt =
    let (m1, e, first) = strcpy-Copied drive_root m path drive fuel d ad lt in
    let s1 = IsString-same cs m m1 program_name (λ a lo hi. first.others a (ground arith)) s in
    let second = strncpy-Copied cs m1 (path + 3) program_name path_size s1 (ground arith) in
    (_, rw e refl, Copied-append drive_root (take 127 cs) m m1 _ path first second)
