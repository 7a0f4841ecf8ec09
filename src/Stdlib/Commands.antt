-- ===== src/Stdlib/Commands.antt =====
-- programs/stdlib/src/boios.c: boios_parse_command. A `struct command_argument` at an address is its 512 bytes
-- of text and the address of the next one. boios_malloc gives zeroed memory, as process_malloc of the kernel
-- does, at the addresses of a list, of which each is taken once; 0 is null.
pub mod Blocks
pub mod Linked
pub mod Loop
pub mod Parsed
use boi_os.Prelude.{
  ℕ, zero, suc, ◌+◌, Bool, true, false, Option, none, some, List, [], ◌∷◌, leb, ◌==◌, if◌then◌else◌,
}
use boi_os.Prelude.Do.{◌>>=◌}
use boi_os.Prelude.Int.{ℤ, pos, negsuc}
use boi_os.Prelude.Mem.{Mem, store32}
use boi_os.Memory.{memset}
use boi_os.CString.{strncpy}
use boi_os.Stdlib.Tokens.{strtok}

-- `char argument[512]`
abbrev pub argument_size : ℕ
argument_size = 512

-- `sizeof(struct command_argument)`
abbrev pub command_argument_size : ℕ
command_argument_size = 516

-- `sizeof(scommand)`
abbrev pub scommand_size : ℕ
scommand_size = 1025

-- The pointer, the memory, and the addresses that are left.
pub boios_malloc : Mem → List ℕ → ℕ → ℕ × Mem × List ℕ
boios_malloc m [] size = (0, m, [])
boios_malloc m (ptr ∷ ptrs) size =
    if ptr == 0 then (0, m, ptrs) else (ptr, memset m ptr 0 size, ptrs)

-- The text of the token and the null pointer behind it.
pub fill_argument : Mem → ℕ → ℕ → Mem
fill_argument m command token =
    store32 (strncpy m command token argument_size) (command + argument_size) 0

-- Behind boios_malloc in a round, with `next` the rounds behind. `space` is the address of the text " ".
pub link_argument :
    ℕ
    → ℕ
    → (Mem → ℕ → ℕ → ℕ → List ℕ → Option (Mem × ℕ × List ℕ))
    → ℕ
    → ℕ
    → ℕ
    → ℕ × Mem × List ℕ
    → Option (Mem × ℕ × List ℕ)
link_argument space fuel next sp token current (zero, m, ptrs) = some (m, sp, ptrs)
link_argument space fuel next sp token current (suc n, m, ptrs) =
    let m' = store32 (fill_argument m (suc n) token) (current + argument_size) (suc n) in
    strtok m' sp 0 space fuel >>= λ r. next r.1 r.2 r.0 (suc n) ptrs

-- `while(token != 0)`: the memory, the static pointer of strtok and the addresses behind it.
pub parse_loop : ℕ → ℕ → Mem → ℕ → ℕ → ℕ → List ℕ → ℕ → Option (Mem × ℕ × List ℕ)
unfolding link_argument
parse_loop space fuel m sp token current ptrs zero = none
parse_loop space fuel m sp token current ptrs (suc rounds) = elim (token == 0) [
  | true ↦ some (m, sp, ptrs)
  | false ↦
      link_argument space fuel
        (λ m' sp' token' current' ptrs'. parse_loop space fuel m' sp' token' current' ptrs' rounds)
        sp token current (boios_malloc m ptrs command_argument_size)
]

-- Behind boios_malloc for the root.
pub begin_list : ℕ → ℕ → ℕ → ℕ → ℕ × Mem × List ℕ → Option (ℕ × Mem × ℕ × List ℕ)
unfolding parse_loop
begin_list space fuel sp token (zero, m, ptrs) = some (0, m, sp, ptrs)
begin_list space fuel sp token (suc n, m, ptrs) =
    (strtok (fill_argument m (suc n) token) sp 0 space fuel >>= λ r.
    parse_loop space fuel r.1 r.2 r.0 (suc n) ptrs fuel >>= λ s. some (suc n, s.0, s.1, s.2))

-- Behind the first token.
pub parse_root : ℕ → ℕ → ℕ × Mem × ℕ → List ℕ → Option (ℕ × Mem × ℕ × List ℕ)
unfolding begin_list
parse_root space fuel (token, m, sp) ptrs = elim (token == 0) [
  | true ↦ some (0, m, sp, ptrs)
  | false ↦ begin_list space fuel sp token (boios_malloc m ptrs command_argument_size)
]

fits_command : ℤ → Bool
fits_command (pos max) = leb scommand_size max
fits_command (negsuc n) = false

-- The root, the memory, the static pointer and the addresses. `scommand` is the address of the local buffer.
pub boios_parse_command : ℕ → ℕ → ℕ → Mem → ℕ → ℕ → ℤ → List ℕ → Option (ℕ × Mem × ℕ × List ℕ)
unfolding parse_root fits_command
boios_parse_command space scommand fuel m sp command max ptrs =
    if fits_command max
    then some (0, m, sp, ptrs)
    else (strtok (strncpy m scommand command scommand_size) sp scommand space fuel >>= λ r.
        parse_root space fuel r ptrs)
