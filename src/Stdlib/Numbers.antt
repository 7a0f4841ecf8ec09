-- ===== src/Stdlib/Numbers.antt =====
-- programs/stdlib/src/stdlib.c: itoa. The buffer is twelve bytes of memory at `text`, and `loc` is an
-- address in it.
pub mod Decimal
use boi_os.Prelude.{
  ℕ, zero, suc, ◌+◌, ◌-◌, ◌/◌, ◌%◌, Bool, true, false, Option, none, some, ◌==◌, if◌then◌else◌,
}
use boi_os.Prelude.Int.{ℤ, pos, negsuc}
use boi_os.Prelude.Mem.{Mem, store}

-- `while(i)`, where i is -q: i % 10 is -(q % 10), and i / 10 is -(q / 10).
itoa_loop : Mem → ℕ → ℕ → ℕ → Option (Mem × ℕ)
itoa_loop m loc q zero = none
itoa_loop m loc q (suc fuel) = elim (q == 0) [
  | true ↦ some (m, loc)
  | false ↦ itoa_loop (store m (loc - 1) (b'0' + q % 10)) (loc - 1) (q / 10) fuel
]

-- `text[--loc] = c` under a test.
abbrev put_if : Bool → ℕ → Mem × ℕ → Mem × ℕ
put_if true c (m, loc) = (store m (loc - 1) c, loc - 1)
put_if false c (m, loc) = (m, loc)

-- Behind the loop, with `neg` the flag of the sign.
itoa_sign : ℕ → Bool → Option (Mem × ℕ) → Option (Mem × ℕ)
itoa_sign text neg none = none
itoa_sign text neg (some (m, loc)) = some (put_if neg b'-' (put_if (loc == text + 1) b'0' (m, loc)))

-- The memory and the pointer. An int has at most ten digits, so eleven rounds reach the end.
pub itoa : Mem → ℕ → ℤ → Option (Mem × ℕ)
unfolding itoa_loop itoa_sign
itoa m text (pos i) = itoa_sign text false (itoa_loop (store m (text + 11) 0) (text + 11) i 11)
itoa m text (negsuc i) =
    itoa_sign text true (itoa_loop (store m (text + 11) 0) (text + 11) (suc i) 11)
