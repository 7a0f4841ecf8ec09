-- ===== src/Stdlib/Readline/Typed.antt =====
-- The line that boios_terminal_readline leaves in memory.
use boi_os.Prelude.{
  ℕ, zero, suc, ◌+◌, ◌-◌, ◌≤◌, ◌<◌, ◌≡◌, ◌⊎◌, refl, sym, ap, ◌∙◌, inl, inr, Bool, true, false,
  Option, some, List, [], ◌∷◌, length, ltb, ◌==◌, arith, Bool-cases, ltb→lt,
}
use boi_os.Prelude.Mem.{Mem, store}
use boi_os.CString.Laws.{IsString}
use boi_os.Stdlib.Readline.{
  boios_terminal_readline, readline_loop, readline_key, boios_getkeyblock, break,
}
use boi_os.Stdlib.Readline.Edits.{
  edit, line_of, line_of-Enter, HasEnter, rev_onto, Holds, Holds-same, Holds-IsString,
  readline_key-Edited,
}

-- What the next key does to the line.
abbrev NextKey : Bool → ℕ → List ℕ → List ℕ → List ℕ × List ℕ → Type 0
NextKey output room line keys r =
    (key : ℕ) × (keys' : List ℕ) × (boios_getkeyblock keys ≡ some (key, keys'))
    × (0 < key)
    × (length keys' < length keys)
    × ((((key == 13) ≡ true) × (r ≡ (line, keys')))
        ⊎ (((key == 13) ≡ false) × (line_of output room (edit output key line) keys' ≡ some r)))

next_key :
    (keys : List ℕ) (output : Bool) (room : ℕ) (line : List ℕ) (r : List ℕ × List ℕ)
    → ltb (length line) room ≡ true
    → line_of output room line keys ≡ some r
    → NextKey output room line keys r
unfolding boios_getkeyblock
next_key [] output room line r more e = absurd (ground arith)
next_key (key ∷ keys) output room line r more e = elim (Bool-cases (key == 0)) [
  | inl no_key ↦
      let (k, ks, got, pk, lt, next) =
        next_key keys output room line r more (rw (more, no_key) at e) in
      (k, ks, rw (no_key, boios_getkeyblock) got, pk, omega arith, next)
  | inr some_key ↦ elim (Bool-cases (key == 13)) [
    | inl enter ↦ (
      key,
      keys,
      rw (some_key, boios_getkeyblock) refl,
      ground arith,
      omega arith,
      inl (enter, ground arith),
    )
    | inr other ↦ (
      key,
      keys,
      rw (some_key, boios_getkeyblock) refl,
      ground arith,
      omega arith,
      inr (other, rw (more, some_key, other) at e),
    )
  ]
]

line_of-full :
    (keys : List ℕ) (output : Bool) (room : ℕ) (line : List ℕ)
    → ltb (length line) room ≡ false
    → line_of output room line keys ≡ some (line, keys)
line_of-full [] output room line h = rw h refl
line_of-full (key ∷ keys) output room line h = rw h refl

-- The string at `out` is the line, which has at most `room` bytes, and nothing else was written.
pub record Typed (m : Mem) (out room : ℕ) (line : List ℕ) (m' : Mem) : Type 0 where
  pub stands : IsString m' out (rev_onto line [])
  pub short : length line ≤ room
  pub others : (a : ℕ) → (a < out) ⊎ (out + room < a) → m' a ≡ m a

finish :
    (m : Mem) (out room : ℕ) (line : List ℕ)
    → length line ≤ room
    → Holds m out line
    → Typed m out room line (store m (out + length line) 0)
finish m out room line le h = record {
  stands =
      Holds-IsString line (store m (out + length line) 0) out []
        (Holds-same line m (store m (out + length line) 0) out (λ a lo hi. ground arith) h)
        (ground arith);
  short = le;
  others = λ a far. ground arith;
}

length-edit :
    (output : Bool) (key : ℕ) (line : List ℕ) → length (edit output key line) ≤ suc (length line)
length-edit output key [] = ground arith
length-edit output key (c ∷ line) = ground arith

Typed-others :
    (m m1 m' : Mem) (out room : ℕ) (line : List ℕ)
    → ((a : ℕ) → (a < out) ⊎ (out + room < a) → m1 a ≡ m a)
    → Typed m1 out room line m'
    → Typed m out room line m'
Typed-others m m1 m' out room line same d = record {
  stands = d.stands;
  short = d.short;
  others = λ a far. d.others a far ∙ same a far;
}

module _ {T : Type 0} (putchar : T → ℕ → T) (out max : ℕ) (output : Bool) where
  readline_key-enter :
      (m : Mem) (i key : ℕ) (t : T)
      → (key == 13) ≡ true
      → readline_key putchar m out output i key t ≡ break t
  unfolding readline_key
  readline_key-enter m i key t e = rw e refl

  -- The line that is finished, where the specification has it too.
  finished :
      (m : Mem) (line final keys rest : List ℕ) (t : T)
      → length line ≤ max - 1
      → Holds m out line
      → ◌≡◌ {A = List ℕ × List ℕ} (line, keys) (final, rest)
      → (m' : Mem) × (t' : T) × (◌≡◌ {A = Option (Mem × T × List ℕ)}
          (some (store m (out + length line) 0, t, keys))
          (some (m', t', rest)))
        × Typed m out (max - 1) final m'
  finished m line final keys rest t le h e = (
    store m (out + length line) 0,
    t,
    ap (λ (r : List ℕ × List ℕ). some (store m (out + length line) 0, t, r.1)) e,
    rw (← ap (λ (r : List ℕ × List ℕ). r.0) e) (finish m out (max - 1) line le h),
  )

  readline_loop-Typed :
      (fuel : ℕ) (keys line : List ℕ) (m : Mem) (t : T) (final rest : List ℕ)
      → length keys < fuel
      → length line ≤ max - 1
      → Holds m out line
      → line_of output (max - 1) line keys ≡ some (final, rest)
      → (m' : Mem) × (t' : T) × (readline_loop putchar out max output (length line) m t keys fuel
          ≡ some (m', t', rest))
        × Typed m out (max - 1) final m'
  unfolding readline_loop
  readline_loop-Typed zero keys line m t final rest lt le h e = absurd (omega arith)
  readline_loop-Typed (suc fuel) keys line m t final rest lt le h e =
      elim (Bool-cases (ltb (length line) (max - 1))) [
        | inr full ↦
            let (m', t', done, typed) =
              finished m line final keys rest t le h
                (cc (line_of-full keys output (max - 1) line full)) in
            (m', t', rw (full, readline_loop) done, typed)
        | inl more ↦
            let (key, keys', got, pk, lt', next) =
              next_key keys output (max - 1) line (final, rest) more e in
            elim next [
              | inl (enter, r) ↦
                  let (m', t', done, typed) =
                    finished m line final keys' rest (putchar t 179) le h (sym r) in
                  (
                    m',
                    t',
                    rw
                        (
                          more,
                          readline_loop,
                          got,
                          readline_key-enter m (length line) key (putchar t 179) enter,
                        )
                        done,
                    typed,
                  )
              | inr (other, e') ↦
                  let d =
                    readline_key-Edited putchar output m out key line (putchar t 179) pk other h in
                  let (m', t', done, typed) =
                    readline_loop-Typed fuel keys' (edit output key line) d.mem' d.term' final rest
                      (omega arith) (omega (arith, length-edit output key line, ltb→lt _ _ more))
                      d.holds e' in
                  (
                    m',
                    t',
                    rw (more, readline_loop, got, d.goes_on) done,
                    Typed-others m d.mem' m' out (max - 1) final
                        (λ a far. d.others a (ground arith)) typed,
                  )
            ]
      ]

  -- Where Enter is among the keys, and with fuel beyond their number, boios_terminal_readline ends. At `out`
  -- stands the line that the keys up to Enter, or up to the room for `max` bytes, edit with their backspaces,
  -- with its terminator; nothing outside of these bytes is written, and the keys behind are left.
  pub boios_terminal_readline-Typed :
      (keys : List ℕ) (m : Mem) (t : T) (fuel : ℕ)
      → HasEnter keys
      → length keys < fuel
      → (line : List ℕ) × (rest : List ℕ) × (m' : Mem) × (t' : T) × (line_of output
            (max - 1)
            []
            keys
          ≡ some (line, rest))
        × (boios_terminal_readline putchar m out max output t keys fuel ≡ some (m', t', rest))
        × Typed m out (max - 1) line m'
  unfolding boios_terminal_readline
  boios_terminal_readline-Typed keys m t fuel h lt =
      let ((line, rest), e) = line_of-Enter keys output (max - 1) [] h in
      let (m', t', done, typed) =
        readline_loop-Typed fuel keys [] m t line rest lt (omega arith) tt e in
      (line, rest, m', t', e, done, typed)
