-- ===== src/Prelude/Mem.antt =====
-- Memory as a function of the address.
use Prim.Native.Nat.{ℕ, ◌+◌, ◌*◌, ◌/◌, ◌%◌, ◌^◌, ◌<◌}
use mathlib.Core.Path.{◌≡◌}
use native.Mathlib.Omega.{arith}
use boi_os.Prelude.Tests.{◌==◌, if◌then◌else◌}

abbrev pub Mem : Type 0
Mem = ℕ → ℕ

abbrev pub store : Mem → ℕ → ℕ → Mem
store m a v b = if b == a then v else m b

-- Little-endian numbers in memory.
abbrev pub read16 : Mem → ℕ → ℕ
read16 m a = m a + 2 ^ 8 * m (a + 1)

abbrev pub read32 : Mem → ℕ → ℕ
read32 m a = read16 m a + 2 ^ 16 * read16 m (a + 2)

abbrev pub store16 : Mem → ℕ → ℕ → Mem
store16 m a v = store (store m a (v % 2 ^ 8)) (a + 1) (v / 2 ^ 8 % 2 ^ 8)

abbrev pub store32 : Mem → ℕ → ℕ → Mem
store32 m a v = store16 (store16 m a v) (a + 2) (v / 2 ^ 16)

pub read32-store32 : (m : Mem) (a v : ℕ) → v < 2 ^ 32 → read32 (store32 m a v) a ≡ v
read32-store32 m a v h = ground arith
