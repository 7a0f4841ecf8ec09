-- ===== src/CString/Laws.antt =====
-- Strings in memory, their length, and what the copies write.
use boi_os.Prelude.{
  ℕ, zero, suc, ◌+◌, ◌-◌, ◌≤◌, ◌<◌, ◌≡◌, ◌⊎◌, ap, ◌∙◌, inl, some, List, [], ◌∷◌, length, take,
  arith, ne→==,
}
use Prim.Native.Nat.{min}
use boi_os.Prelude.Mem.{Mem, store}
use boi_os.CString.{
  strlen, strlen_loop, strnlen, strnlen_loop, strcpy, strcpy_loop, strncpy, strncpy_loop,
}

-- At `p` stand the bytes `cs`, none of them zero, and a zero byte.
abbrev pub IsString : Mem → ℕ → List ℕ → Type 0
IsString m p [] = m p ≡ 0
IsString m p (c ∷ cs) = (m p ≡ c) × (0 < c) × IsString m (p + 1) cs

-- A string is the bytes that it is read from.
pub IsString-same :
    (cs : List ℕ) (m m' : Mem) (p : ℕ)
    → ((a : ℕ) → p ≤ a → a ≤ p + length cs → m' a ≡ m a)
    → IsString m p cs
    → IsString m' p cs
IsString-same [] m m' p same s = same p (omega arith) (omega arith) ∙ s
IsString-same (c ∷ cs) m m' p same (h, pc, s) = (
  same p (omega arith) (omega arith) ∙ h,
  pc,
  IsString-same cs m m' (p + 1) (λ a lo hi. same a (omega arith) (omega arith)) s,
)

strlen_loop-length :
    (cs : List ℕ) (m : Mem) (str len fuel : ℕ)
    → IsString m (str + len) cs
    → length cs < fuel
    → strlen_loop m str len fuel ≡ some (len + length cs)
unfolding strlen_loop
strlen_loop-length cs m str len zero s lt = absurd (omega arith)
strlen_loop-length [] m str len (suc fuel) s lt = rw (s, strlen_loop) (ap some (omega arith))
strlen_loop-length (c ∷ cs) m str len (suc fuel) (h, pc, s) lt =
    let e : str + len + 1 ≡ str + (len + 1) = omega arith in
    rw (h, ne→== c 0 (omega arith), strlen_loop)
      (strlen_loop-length cs m str (len + 1) fuel (rw e at s) (omega arith) ∙ ap some (omega arith))

-- With fuel beyond the length strlen returns the length.
pub strlen-length :
    (cs : List ℕ) (m : Mem) (str fuel : ℕ)
    → IsString m str cs
    → length cs < fuel
    → strlen m str fuel ≡ some (length cs)
unfolding strlen
strlen-length cs m str fuel s lt =
    let e : str ≡ str + 0 = omega arith in
    strlen_loop-length cs m str 0 fuel (rw e at s) lt ∙ ap some (omega arith)

strnlen_loop-min :
    (k : ℕ) (cs : List ℕ) (m : Mem) (str i : ℕ)
    → IsString m (str + i) cs
    → strnlen_loop m str i k ≡ i + min (length cs) k
unfolding strnlen_loop
strnlen_loop-min zero cs m str i s = omega arith
strnlen_loop-min (suc k) [] m str i s = rw (s, strnlen_loop) (omega arith)
strnlen_loop-min (suc k) (c ∷ cs) m str i (h, pc, s) =
    let e : str + i + 1 ≡ str + (i + 1) = omega arith in
    rw (h, ne→== c 0 (omega arith), strnlen_loop)
      (strnlen_loop-min k cs m str (i + 1) (rw e at s) ∙ omega arith)

-- strnlen returns the length, or `max` if that is less.
pub strnlen-min :
    (cs : List ℕ) (m : Mem) (str max : ℕ)
    → IsString m str cs
    → strnlen m str max ≡ min (length cs) max
unfolding strnlen
strnlen-min cs m str max s =
    let e : str ≡ str + 0 = omega arith in strnlen_loop-min max cs m str 0 (rw e at s) ∙ omega arith

-- The memory after a copy of `bs` to `dest`: the string stands there, and else nothing changed.
pub record Copied (m : Mem) (dest : ℕ) (bs : List ℕ) (m' : Mem) : Type 0 where
  pub stands : IsString m' dest bs
  pub others : (a : ℕ) → (a < dest) ⊎ (dest + length bs < a) → m' a ≡ m a

-- The copy does not overwrite the source before it reads it.
abbrev pub Apart : ℕ → ℕ → ℕ → Type 0
Apart dest src n = (dest < src) ⊎ (src + n ≤ dest)

Copied-end : (m : Mem) (dest : ℕ) → Copied m dest [] (store m dest 0)
Copied-end m dest = record { stands = ground arith; others = λ a h. ground arith }

pub Copied-cons :
    (m m' : Mem) (dest v c : ℕ) (bs : List ℕ)
    → v ≡ c
    → 0 < c
    → Copied (store m dest v) (dest + 1) bs m'
    → Copied m dest (c ∷ bs) m'
Copied-cons m m' dest v c bs e pc rest = record {
  stands = (rest.others dest (inl (omega arith)) ∙ ground arith, pc, rest.stands);
  others = λ a h. rest.others a (ground arith) ∙ ground arith;
}

strncpy_loop-Copied :
    (k : ℕ) (cs : List ℕ) (m : Mem) (dest src : ℕ)
    → IsString m src cs
    → Apart dest src (suc (length cs))
    → Copied m dest (take k cs) (strncpy_loop m dest src k)
unfolding strncpy_loop
strncpy_loop-Copied zero cs m dest src s ap' = Copied-end m dest
strncpy_loop-Copied (suc k) [] m dest src s ap' = rw (s, strncpy_loop) (Copied-end m dest)
strncpy_loop-Copied (suc k) (c ∷ cs) m dest src (h, pc, s) ap' =
    rw (ne→== (m src) 0 (omega arith), strncpy_loop)
      (Copied-cons m _ dest (m src) c (take k cs) h pc (
        strncpy_loop-Copied k cs (store m dest (m src)) (dest + 1) (src + 1)
          (IsString-same cs m (store m dest (m src)) (src + 1) (λ a lo hi. ground arith) s)
          (ground arith)))

-- strncpy of `count > 0` copies the string's first `count - 1` bytes and a terminator, and writes
-- nothing else, if the destination begins in front of the source or behind it.
pub strncpy-Copied :
    (cs : List ℕ) (m : Mem) (dest src count : ℕ)
    → IsString m src cs
    → Apart dest src (suc (length cs))
    → Copied m dest (take (count - 1) cs) (strncpy m dest src count)
unfolding strncpy
strncpy-Copied cs m dest src count s ap' = strncpy_loop-Copied (count - 1) cs m dest src s ap'

strcpy_loop-Copied :
    (fuel : ℕ) (cs : List ℕ) (m : Mem) (dest src : ℕ)
    → IsString m src cs
    → Apart dest src (suc (length cs))
    → length cs < fuel
    → (m' : Mem) × (strcpy_loop m dest src fuel ≡ some m') × Copied m dest cs m'
unfolding strcpy_loop
strcpy_loop-Copied zero cs m dest src s ap' lt = absurd (omega arith)
strcpy_loop-Copied (suc fuel) [] m dest src s ap' lt =
    (store m dest 0, rw (s, strcpy_loop), Copied-end m dest)
strcpy_loop-Copied (suc fuel) (c ∷ cs) m dest src (h, pc, s) ap' lt =
    let (m', e, done) =
      strcpy_loop-Copied fuel cs (store m dest (m src)) (dest + 1) (src + 1)
        (IsString-same cs m (store m dest (m src)) (src + 1) (λ a lo hi. ground arith) s)
        (ground arith) (omega arith) in
    (
      m',
      rw (ne→== (m src) 0 (omega arith), strcpy_loop) e,
      Copied-cons m m' dest (m src) c cs h pc done,
    )

-- With fuel beyond the length strcpy ends; it copies the string and its terminator and writes nothing
-- else, if the destination begins in front of the source or behind it.
pub strcpy-Copied :
    (cs : List ℕ) (m : Mem) (dest src fuel : ℕ)
    → IsString m src cs
    → Apart dest src (suc (length cs))
    → length cs < fuel
    → (m' : Mem) × (strcpy m dest src fuel ≡ some m') × Copied m dest cs m'
unfolding strcpy
strcpy-Copied cs m dest src fuel = strcpy_loop-Copied fuel cs m dest src
