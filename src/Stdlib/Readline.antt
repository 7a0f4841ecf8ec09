-- ===== src/Stdlib/Readline.antt =====
-- programs/stdlib/src/boios.c: boios_getkeyblock and boios_terminal_readline. The keys that boios_getkey will
-- give are a list of bytes, where 0 is that no key was there; `putchar` is boios_putchar on a terminal `T`.
pub mod Edits
pub mod Typed
use boi_os.Prelude.{
  ℕ, zero, suc, ◌+◌, ◌-◌, Bool, true, false, ◌&&◌, Option, none, some, List, [], ◌∷◌, ltb, leb,
  ◌==◌, if◌then◌else◌,
}
use boi_os.Prelude.Mem.{Mem, store}

-- The key and the keys behind it; `none` is that it goes on waiting.
pub boios_getkeyblock : List ℕ → Option (ℕ × List ℕ)
boios_getkeyblock [] = none
boios_getkeyblock (val ∷ keys) = elim (val == 0) [
  | true ↦ boios_getkeyblock keys
  | false ↦ some (val, keys)
]

-- What a round leaves: the end of the line, or the next round's index, with the memory and the terminal.
pub data Round (T : Type 0) : Type 0 where
  break : T → Round T
  continue : ℕ → Mem → T → Round T

-- Behind the echo: `out[i] = key`, or one byte back.
after_echo : {T : Type 0} → Mem → ℕ → ℕ → ℕ → T → Round T
after_echo m out i key t =
    if key == 0x08 && leb 1 i
    then continue (i - 1) (store m (out + i - 1) 0x00) t
    else continue (i + 1) (store m (out + i) key) t

-- A round behind the key.
pub readline_key : {T : Type 0} → (T → ℕ → T) → Mem → ℕ → Bool → ℕ → ℕ → T → Round T
unfolding after_echo
readline_key putchar m out output i key t =
    if key == 13
    then break t
    else if output
    then (if key == 0x08 && i == 0
        then continue i m (putchar t 0x08)
        else after_echo m out i key (putchar (putchar t 0x08) key))
    else after_echo m out i key t

-- The memory with `out[i] = 0x00`, the terminal, and the keys that are left. A round takes a key at least.
readline_loop :
    {T : Type 0} → (T → ℕ → T) → ℕ → ℕ → Bool → ℕ → Mem → T → List ℕ → ℕ → Option (Mem × T × List ℕ)
unfolding readline_key
readline_loop putchar out max output i m t keys zero = none
readline_loop putchar out max output i m t keys (suc fuel) = elim (ltb i (max - 1)) [
  | false ↦ some (store m (out + i) 0x00, t, keys)
  | true ↦ elim (boios_getkeyblock keys) [
    | none ↦ none
    | some (key, keys') ↦ elim (readline_key putchar m out output i key (putchar t 179)) [
      | break t' ↦ some (store m (out + i) 0x00, t', keys')
      | continue i' m' t' ↦ readline_loop putchar out max output i' m' t' keys' fuel
    ]
  ]
]

pub boios_terminal_readline :
    {T : Type 0} → (T → ℕ → T) → Mem → ℕ → ℕ → Bool → T → List ℕ → ℕ → Option (Mem × T × List ℕ)
unfolding readline_loop
boios_terminal_readline putchar m out max output t keys fuel =
    readline_loop putchar out max output 0 m t keys fuel
