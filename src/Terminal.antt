-- ===== src/Terminal.antt =====
-- src/terminal/terminal.c: the text screen.
pub mod Cursor
mod Tests
use boi_os.Prelude.{
  ℕ, zero, suc, ◌+◌, ◌-◌, ◌*◌, ◌%◌, ◌^◌, Bool, ◌&&◌, Option, none, some, List, [], ◌∷◌, ltb, leb,
  ◌==◌, if◌then◌else◌, bit_or,
}
use boi_os.Prelude.Mem.{Mem, store}
use boi_os.CString.{strlen}

abbrev pub vga_width : ℕ
vga_width = 80

abbrev pub vga_height : ℕ
vga_height = 25

-- `struct terminal`; the video memory is a function of the cell's index.
pub record Terminal : Type 0 where
  pub video_mem : ℕ → ℕ
  pub terminal_row : ℕ
  pub terminal_col : ℕ

-- A `char` from 128 on is negative, and fills the high byte with ones.
pub terminal_make_char : ℕ → ℕ → ℕ
terminal_make_char c color = bit_or (color * 2 ^ 8) (if ltb c 128 then c else c + 65280) % 2 ^ 16

pub terminal_putchar : Terminal → ℕ → ℕ → ℕ → ℕ → Terminal
terminal_putchar terminal x y c color = record {
  video_mem = store terminal.video_mem (y * vga_width + x) (terminal_make_char c color);
  terminal_row = terminal.terminal_row;
  terminal_col = terminal.terminal_col;
}

abbrev pub at_cursor : Terminal → ℕ → ℕ → Terminal
at_cursor terminal row col = record {
  video_mem = terminal.video_mem;
  terminal_row = row;
  terminal_col = col;
}

-- The rest of terminal_writechar for a character that is none of the three special ones.
pub write_plain : Terminal → ℕ → ℕ → Terminal
unfolding terminal_putchar
write_plain terminal c color =
    let terminal' = terminal_putchar terminal terminal.terminal_col terminal.terminal_row c color in
    let col = (terminal.terminal_col + 1) % 2 ^ 16 in
    if leb vga_width col
    then at_cursor terminal' ((terminal.terminal_row + 1) % 2 ^ 16) 0
    else at_cursor terminal' terminal.terminal_row col

-- The cursor goes to the end of the line above from the start of a line, and then one to the left.
abbrev pub step_back : Terminal → Terminal
step_back terminal =
    if terminal.terminal_col == 0
    then at_cursor terminal ((terminal.terminal_row + 2 ^ 16 - 1) % 2 ^ 16) (vga_width - 1)
    else at_cursor terminal terminal.terminal_row (terminal.terminal_col - 1)

-- The call terminal_writechar(' ', 15) is write_plain.
pub terminal_backspace : Terminal → Terminal
unfolding write_plain
terminal_backspace terminal =
    if terminal.terminal_col == 0 && terminal.terminal_row == 0
    then terminal
    else step_back (write_plain (step_back terminal) b' ' 15)

-- A tab, with the column that it leads to.
abbrev pub tab_stop : Terminal → ℕ → Terminal
tab_stop terminal col =
    if leb vga_width col
    then at_cursor terminal ((terminal.terminal_row + 1) % 2 ^ 16) 0
    else at_cursor terminal terminal.terminal_row col

pub terminal_writechar : Terminal → ℕ → ℕ → Terminal
unfolding write_plain terminal_backspace
terminal_writechar terminal c color =
    if c == 10
    then at_cursor terminal ((terminal.terminal_row + 1) % 2 ^ 16) 0
    else if c == 9
    then tab_stop terminal ((terminal.terminal_col + 4) % 2 ^ 16)
    else if c == 8
    then terminal_backspace terminal
    else write_plain terminal c color

-- The inner loop, with `k` rounds left at the column `x`.
clear_row : Terminal → ℕ → ℕ → ℕ → Terminal
clear_row terminal y x zero = terminal
clear_row terminal y x (suc k) = clear_row (terminal_putchar terminal x y b' ' 0) y (x + 1) k

-- The outer loop, with `k` rounds left at the row `y`.
clear_rows : Terminal → ℕ → ℕ → Terminal
unfolding clear_row
clear_rows terminal y zero = terminal
clear_rows terminal y (suc k) = clear_rows (clear_row terminal y 0 vga_width) (y + 1) k

pub terminal_initialize : Terminal → Terminal
unfolding clear_rows
terminal_initialize terminal = clear_rows (at_cursor terminal 0 0) 0 vga_height

-- `k` characters are left, at the address `str + i`.
print_loop : Terminal → Mem → ℕ → ℕ → Terminal
print_loop terminal m str zero = terminal
print_loop terminal m str (suc k) =
    print_loop (terminal_writechar terminal (m str) 15) m (str + 1) k

-- `none` is that the fuel of strlen ran out.
pub print : Terminal → Mem → ℕ → ℕ → Option Terminal
unfolding print_loop
print terminal m str fuel = elim (strlen m str fuel) [
  | none ↦ none
  | some len ↦ some (print_loop terminal m str len)
]
