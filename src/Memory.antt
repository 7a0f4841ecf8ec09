-- ===== src/Memory.antt =====
-- src/memory/memory.c: the byte routines over the kernel's memory.
pub mod Laws
use boi_os.Prelude.{ℕ, zero, suc, ◌+◌, ◌%◌, Bool, ltb, ◌==◌, if◌then◌else◌}
use boi_os.Prelude.Int.{ℤ, pos, negsuc}
use boi_os.Prelude.Mem.{Mem, store}

-- The rounds of `for(int i=0; i<size; i++)`, from the address `c_ptr + i` on.
pub memset : Mem → ℕ → ℕ → ℕ → Mem
memset m ptr c zero = m
memset m ptr c (suc size) = memset (store m ptr (c % 256)) (ptr + 1) c size

-- `<` of two `char`s, which are signed.
abbrev pub lt_char : ℕ → ℕ → Bool
lt_char a b = ltb ((a + 128) % 256) ((b + 128) % 256)

pub memcmp : Mem → ℕ → ℕ → ℕ → ℤ
memcmp m s1 s2 zero = pos 0
memcmp m s1 s2 (suc count) =
    let rest = memcmp m (s1 + 1) (s2 + 1) count in
    if m s1 == m s2 then rest else if lt_char (m s1) (m s2) then negsuc 0 else pos 1

pub memcpy : Mem → ℕ → ℕ → ℕ → Mem
memcpy m d s zero = m
memcpy m d s (suc len) = memcpy (store m d (m s)) (d + 1) (s + 1) len
