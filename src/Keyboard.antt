-- ===== src/Keyboard.antt =====
-- src/keyboard/keyboard.c and classic.c: the buffer of keys that a process has, and the keyboard that
-- fills it. A null process is `none`. The page directories that the handler switches between are not
-- part of this state.
pub mod Queue
pub mod Reads
pub mod Keys
mod Tests
use boi_os.Prelude.{
  ℕ, zero, suc, ◌+◌, ◌-◌, ◌%◌, ◌^◌, Bool, true, false, ◌&&◌, not, Option, none, some, List, [], ◌∷◌,
  ltb, leb, ◌==◌, if◌then◌else◌, bit_and, get_elem?,
}

abbrev pub keyboard_buffer_size : ℕ
keyboard_buffer_size = 1024

-- `struct keyboard_buffer`; the two ints are 32-bit words.
pub record KeyboardBuffer : Type 0 where
  pub buffer : ℕ → ℕ
  pub tail : ℕ
  pub head : ℕ

-- `buffer[index] = c`
abbrev pub put : (ℕ → ℕ) → ℕ → ℕ → ℕ → ℕ
put buffer index c i = if i == index then c else buffer i

abbrev pub keyboard_get_tail_index : KeyboardBuffer → ℕ
keyboard_get_tail_index keyboard = keyboard.tail % keyboard_buffer_size

-- What keyboard_push does with a key.
abbrev pub push_key : KeyboardBuffer → ℕ → KeyboardBuffer
push_key keyboard c = record {
  buffer = put keyboard.buffer (keyboard_get_tail_index keyboard) c;
  tail = (keyboard.tail + 1) % 2 ^ 32;
  head = keyboard.head;
}

pub keyboard_push : Option KeyboardBuffer → ℕ → Option KeyboardBuffer
keyboard_push none c = none
keyboard_push (some keyboard) c = if c == 0 then some keyboard else some (push_key keyboard c)

-- What keyboard_pop leaves where it found a key.
abbrev pub pop_key : KeyboardBuffer → KeyboardBuffer
pop_key keyboard = record {
  buffer = put keyboard.buffer (keyboard.head % keyboard_buffer_size) 0;
  tail = keyboard.tail;
  head = (keyboard.head + 1) % 2 ^ 32;
}

-- The key, and the buffer afterwards.
pub keyboard_pop : Option KeyboardBuffer → ℕ × Option KeyboardBuffer
keyboard_pop none = (0, none)
keyboard_pop (some keyboard) =
    let c = keyboard.buffer (keyboard.head % keyboard_buffer_size) in
    if c == 0 then (0, some keyboard) else (c, some (pop_key keyboard))

pub keyboard_backspace : KeyboardBuffer → KeyboardBuffer
keyboard_backspace keyboard =
    let tail = (keyboard.tail + 2 ^ 32 - 1) % 2 ^ 32 in
    record {
      buffer = put keyboard.buffer (tail % keyboard_buffer_size) 0;
      tail = tail;
      head = keyboard.head;
    }

abbrev pub esc : ℕ
esc = 0x1B

abbrev pub bck_spc : ℕ
bck_spc = 0x08

abbrev pub tab : ℕ
tab = 0x09

abbrev pub enter : ℕ
enter = 0x0D

abbrev pub space : ℕ
space = 0x20

-- The keys that have no character yet.
abbrev pub other_key : ℕ
other_key = 0x1E

abbrev pub keyboard_scan_set_one : List ℕ
keyboard_scan_set_one =
    0x00 ∷ esc ∷ b'1' ∷ b'2' ∷ b'3' ∷ b'4' ∷ b'5' ∷ b'6' ∷ b'7' ∷ b'8' ∷ b'9' ∷ b'0' ∷ b'-' ∷ b'='
    ∷ bck_spc ∷ tab ∷ b'Q' ∷ b'W' ∷ b'E' ∷ b'R' ∷ b'T' ∷ b'Y' ∷ b'U' ∷ b'I' ∷ b'O' ∷ b'P' ∷ b'['
    ∷ b']' ∷ enter ∷ other_key ∷ b'A' ∷ b'S' ∷ b'D' ∷ b'F' ∷ b'G' ∷ b'H' ∷ b'J' ∷ b'K' ∷ b'L' ∷ b';'
    ∷ 39 ∷ b'`' ∷ other_key ∷ 92 ∷ b'Z' ∷ b'X' ∷ b'C' ∷ b'V' ∷ b'B' ∷ b'N' ∷ b'M' ∷ b',' ∷ b'.'
    ∷ b'/' ∷ other_key ∷ b'*' ∷ other_key ∷ space ∷ 0x00 ∷ other_key ∷ other_key ∷ other_key
    ∷ other_key ∷ other_key ∷ other_key ∷ other_key ∷ other_key ∷ other_key ∷ other_key ∷ other_key
    ∷ other_key ∷ b'7' ∷ b'8' ∷ b'9' ∷ b'-' ∷ b'4' ∷ b'5' ∷ b'6' ∷ b'+' ∷ b'1' ∷ b'2' ∷ b'3' ∷ b'0'
    ∷ b'.' ∷ []

abbrev pub or_behind : ℕ → Option ℕ → ℕ
or_behind behind none = behind
or_behind behind (some c) = c

-- `behind` is the byte of memory behind the table, which the scan code 84 reads.
unfoldable pub classic_keyboard_scancode_to_char : ℕ → Bool → ℕ → ℕ
classic_keyboard_scancode_to_char behind capslock scancode =
    let size_of_keyboard_set_one : ℕ = 84 in
    let c = or_behind behind (get_elem? keyboard_scan_set_one scancode) in
    if ltb size_of_keyboard_set_one scancode
    then 0
    else if not capslock && (leb b'A' c && leb c b'Z')
    then (c + 32) % 256
    else c

abbrev pub classic_keyboard_key_released : ℕ
classic_keyboard_key_released = 0x80

abbrev pub classic_keyboard_caps_lock : ℕ
classic_keyboard_caps_lock = 0x3A

-- The state is the caps lock of the keyboard, true for on, and the buffer of the current process.
pub classic_keyboard_handle_interrupt :
    ℕ → Bool → Option KeyboardBuffer → ℕ → Bool × Option KeyboardBuffer
unfolding classic_keyboard_scancode_to_char keyboard_push
classic_keyboard_handle_interrupt behind capslock process scancode =
    if not (bit_and scancode classic_keyboard_key_released == 0)
    then (capslock, process)
    else let capslock' =
        if scancode == classic_keyboard_caps_lock then not capslock else capslock in
      let character = classic_keyboard_scancode_to_char behind capslock' scancode in
      (capslock', if not (character == 0) then keyboard_push process character else process)
