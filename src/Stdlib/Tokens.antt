-- ===== src/Stdlib/Tokens.antt =====
-- programs/stdlib/src/string.c: strtok. `sp` is the static pointer to where the next call goes on, 0 is
-- null; `none` is that the fuel of a loop ran out.
pub mod Words
pub mod Next
use boi_os.Prelude.{
  ℕ, zero, suc, ◌+◌, Bool, true, false, ◌&&◌, Option, none, some, ◌==◌, if◌then◌else◌,
}
use boi_os.Prelude.Do.{◌>>=◌}
use boi_os.Prelude.Mem.{Mem, store}
use boi_os.CString.{strlen}

-- `for(i=0; i<len; i++)`, with `k` rounds left: whether `c` is a delimiter, that is, `i < len` behind it.
is_delimeter : Mem → ℕ → ℕ → ℕ → Bool
is_delimeter m c delimeters zero = false
is_delimeter m c delimeters (suc k) = elim (c == m delimeters) [
  | true ↦ true
  | false ↦ is_delimeter m c (delimeters + 1) k
]

-- `while(1)`: behind the delimiters.
skip_loop : Mem → ℕ → ℕ → ℕ → ℕ → Option ℕ
skip_loop m delimeters len p_start zero = none
skip_loop m delimeters len p_start (suc fuel) = elim (is_delimeter m (m p_start) delimeters len) [
  | true ↦ skip_loop m delimeters len (p_start + 1) fuel
  | false ↦ some p_start
]

-- `while(*sp != '\0')`: the memory and `sp` behind the end of the token.
end_loop : Mem → ℕ → ℕ → ℕ → ℕ → Option (Mem × ℕ)
end_loop m delimeters len sp zero = none
end_loop m delimeters len sp (suc fuel) = elim (m sp == 0) [
  | true ↦ some (m, sp)
  | false ↦ elim (is_delimeter m (m sp) delimeters len) [
    | true ↦ some (store m sp 0, sp + 1)
    | false ↦ end_loop m delimeters len (sp + 1) fuel
  ]
]

-- Behind the delimiters: the result, the memory and `sp`.
token_at : Mem → ℕ → ℕ → ℕ → ℕ → Option (ℕ × Mem × ℕ)
unfolding end_loop
token_at m delimeters len fuel p_start = elim (m p_start == 0) [
  | true ↦ some (0, m, 0)
  | false ↦ end_loop m delimeters len p_start fuel >>= λ r. some (p_start, r.0, r.1)
]

-- The result, the memory and `sp`.
pub strtok : Mem → ℕ → ℕ → ℕ → ℕ → Option (ℕ × Mem × ℕ)
unfolding skip_loop token_at
strtok m sp str delimeters fuel = if str == 0 && sp == 0 then some (0, m, sp) else do
  len ← strlen m delimeters fuel
  p_start ← skip_loop m delimeters len (if sp == 0 then str else sp) fuel
  token_at m delimeters len fuel p_start
