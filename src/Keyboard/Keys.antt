-- ===== src/Keyboard/Keys.antt =====
-- The keyboard's handler.
use boi_os.Prelude.{
  ℕ, ◌+◌, ◌%◌, ◌<◌, ◌≤◌, ◌≡◌, ◌⊎◌, refl, Bool, true, false, Option, arith, bit_and, ne→==, ltb, leb,
  ◌&&◌, if◌then◌else◌, get_elem?,
}
use boi_os.Prelude.Bits.{bit_and-top_bit}
use boi_os.Keyboard.{
  KeyboardBuffer, or_behind, keyboard_scan_set_one, classic_keyboard_scancode_to_char,
  classic_keyboard_handle_interrupt,
}

small_letter :
    (over : Bool) (c : ℕ)
    → let r = if over then 0 else if leb b'A' c && leb c b'Z' then (c + 32) % 256 else c in
      (r < b'A') ⊎ (b'Z' < r)
small_letter over c = ground arith

-- With the caps lock off no scan code gives a capital letter.
pub scancode_to_char-lower :
    (behind scancode : ℕ)
    → let c = classic_keyboard_scancode_to_char behind false scancode in (c < b'A') ⊎ (b'Z' < c)
unfolding classic_keyboard_scancode_to_char
scancode_to_char-lower behind scancode =
    small_letter (ltb 84 scancode) (or_behind behind (get_elem? keyboard_scan_set_one scancode))

-- The scan code 84 passes the bounds test and reads the byte behind the table.
pub scancode_to_char-behind :
    (behind : ℕ) → classic_keyboard_scancode_to_char behind true 84 ≡ behind
unfolding classic_keyboard_scancode_to_char
scancode_to_char-behind behind = refl

-- The release of a key changes neither the caps lock nor the buffer.
pub handle_interrupt-released :
    (behind scancode : ℕ) (capslock : Bool) (process : Option KeyboardBuffer)
    → 128 ≤ scancode
    → scancode < 256
    → classic_keyboard_handle_interrupt behind capslock process scancode ≡ (capslock, process)
unfolding classic_keyboard_handle_interrupt
handle_interrupt-released behind scancode capslock process lo hi =
    rw (ne→== (bit_and scancode 128) 0 (omega (arith, bit_and-top_bit scancode hi)))
