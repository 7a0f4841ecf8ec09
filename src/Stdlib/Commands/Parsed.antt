-- ===== src/Stdlib/Commands/Parsed.antt =====
-- The list of arguments that boios_parse_command builds.
use boi_os.Prelude.{
  ℕ, zero, suc, ◌+◌, ◌≤◌, ◌<◌, ◌≡◌, ◌⊎◌, refl, ap, ◌∙◌, inl, inr, false, Option, some, List, [],
  ◌∷◌, length, take, arith, ne→==,
}
use boi_os.Prelude.Do.{◌>>=◌, >>=_assoc}
use boi_os.Prelude.Int.{pos}
use boi_os.Prelude.Mem.{Mem}
use boi_os.CString.{strncpy}
use boi_os.CString.Laws.{IsString, IsString-same, strncpy-Copied}
use boi_os.Stdlib.Tokens.{strtok}
use boi_os.Stdlib.Tokens.Words.{words, length-words}
use boi_os.Stdlib.Tokens.Next.{Found, strtok-Outcome}
use boi_os.Stdlib.Commands.{boios_parse_command, parse_loop, parse_root, begin_list, fits_command}
use boi_os.Stdlib.Commands.Blocks.{Arguments, AreBlocks, filled, filled-Filled, length-take_le}
use boi_os.Stdlib.Commands.Linked.{separators, arguments_of, argument_kept}
use boi_os.Stdlib.Commands.Loop.{boios_malloc-cons, Ready, Ready-Found, loop-Built}

-- A linked list of the words, with strtok at rest.
abbrev pub Parsed : List ℕ → Option (ℕ × Mem × ℕ × List ℕ) → Type 0
Parsed cs r =
    (root : ℕ) × (m' : Mem) × (ptrs : List ℕ) × (r ≡ some (root, m', 0, ptrs))
    × Arguments m' root (arguments_of cs)

module _ (space scommand fuel : ℕ) (here : 0 < scommand) (enough : 1025 < fuel)
    (apart : (space + 2 ≤ scommand) ⊎ (scommand + 1025 ≤ space)) where
  parse_root_step :
      (m : Mem) (sp token b : ℕ) (bs : List ℕ)
      → 0 < token
      → 0 < b
      → parse_root space fuel (token, m, sp) (b ∷ bs) ≡ (
          strtok (filled m b token) sp 0 space fuel
          >>= (λ r. parse_loop space fuel r.1 r.2 r.0 b bs fuel)
          >>= λ s. some (b, s.0, s.1, s.2))
  unfolding parse_root begin_list
  parse_root_step m sp token zero bs ht hb = absurd (omega arith)
  parse_root_step m sp token (suc b) bs ht hb =
      rw (ne→== token 0 (omega arith), parse_root, boios_malloc-cons m (suc b) 516 bs hb)
        (>>=_assoc (strtok (filled m (suc b) token) sp 0 space fuel)
          (λ r. parse_loop space fuel r.1 r.2 r.0 (suc b) bs fuel)
          (λ s. some (suc b, s.0, s.1, s.2)))

  parse_root-Parsed :
      (bs cs : List ℕ) (m m1 : Mem) (q sp1 : ℕ) (s : IsString m space separators)
      → Found m space separators s cs scommand q m1 sp1
      → length cs ≤ 1024
      → AreBlocks scommand space bs
      → length (words separators cs) ≤ length bs
      → Parsed cs (parse_root space fuel (q, m1, sp1) bs)
  parse_root-Parsed [] cs m m1 q sp1 s found le blocks room =
      absurd (omega (arith, ap (length {A = List ℕ}) found.splits))
  parse_root-Parsed (b ∷ bs) cs m m1 q sp1 s found le (pb, tb, b_buffer, b_space, b_bs, bs_blocks)
        room =
      let f =
        filled-Filled m1 b q found.word found.is_word
          (ground (arith, found.not_null, found.room)) in
      let m2 : Mem = filled m1 b q in
      let ready : Ready space scommand fuel here enough apart m2 b bs sp1 found.rest =
        Ready-Found space scommand fuel here enough apart m m1 m2 b scommand q sp1 bs cs s found
          (omega arith) (omega arith) (pb, tb, b_buffer, b_space, b_bs, bs_blocks) room f.next
          (λ a place. f.others a (ground arith)) in
      let (m', ptrs, done, l) =
        loop-Built space scommand fuel here enough apart fuel bs m2 b sp1 found.rest ready
          (omega (arith, length-words separators found.rest, found.ends, found.not_null)) in
      (
        b,
        m',
        ptrs,
        parse_root_step m1 sp1 q b bs (omega (arith, found.not_null)) pb ∙ rw done refl,
        rw found.splits (
          pb,
          argument_kept space scommand m2 m' b bs found.rest found.word l b_buffer b_bs f.argument,
          l.rest,
        ),
      )

  -- boios_parse_command, given a string, a bound of at most 1024, strtok at rest and memory for as many
  -- arguments as the string has words, ends and leaves strtok at rest. Its result is a linked list of the
  -- words of the string's first 1024 bytes between blanks, each cut to 511 bytes, and null for no word.
  pub boios_parse_command-Arguments :
      (cs bs : List ℕ) (m : Mem) (command max : ℕ)
      → IsString m command cs
      → (scommand < command) ⊎ (command + suc (length cs) ≤ scommand)
      → IsString m space separators
      → max ≤ 1024
      → AreBlocks scommand space bs
      → length (words separators (take 1024 cs)) ≤ length bs
      → Parsed (take 1024 cs) (boios_parse_command space scommand fuel m 0 command (pos max) bs)
  unfolding boios_parse_command fits_command parse_root
  boios_parse_command-Arguments cs bs m command max t over s le blocks room =
      let cut : List ℕ = take 1024 cs in
      let short = length-take_le 1024 cs in
      let c = strncpy-Copied cs m scommand command 1025 t over in
      let m0 : Mem = strncpy m scommand command 1025 in
      let s0 : IsString m0 space separators =
        IsString-same separators m m0 space (λ a lo hi. c.others a (ground (arith, short))) s in
      let allowed : fits_command (pos max) ≡ false = ground arith in
      rw allowed
        (elim (strtok-Outcome m0 space separators s0 cut 0 scommand fuel here c.stands (omega arith)
          (omega (arith, short))) [
            | inl (none_left, e) ↦ (0, m0, bs, rw e refl, rw none_left refl)
            | inr (q, m1, sp1, e, found) ↦
                let (root, m', ptrs, done, list) =
                  parse_root-Parsed bs cut m0 m1 q sp1 s0 found short blocks room in
                (root, m', ptrs, rw e done, list)
          ])
