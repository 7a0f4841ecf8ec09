-- ===== src/Terminal/Tests.antt =====
-- terminal.c at the end of a row.
use boi_os.Prelude.{arith}
use boi_os.Terminal.{Terminal, terminal_make_char, terminal_backspace, terminal_writechar}
use boi_os.Terminal.Cursor.{Wrote, terminal_backspace-terminal_writechar}

abbrev end_of_row : Terminal
end_of_row = record { video_mem = λ i. 0; terminal_row = 3; terminal_col = 79 }

terminal_backspace-terminal_writechar_example :
    Wrote end_of_row
      (terminal_make_char b' ' 15)
      (terminal_backspace (terminal_writechar end_of_row b'x' 15))
terminal_backspace-terminal_writechar_example =
    terminal_backspace-terminal_writechar end_of_row b'x' 15 (omega arith) (omega arith)
      (omega arith) (omega arith) (omega arith)
