-- ===== src/Terminal/Cursor.antt =====
-- Where the cursor is after a character.
use boi_os.Prelude.{
  ℕ, ◌+◌, ◌*◌, ◌%◌, ◌^◌, ◌<◌, ◌≡◌, ◌≢◌, refl, inl, inr, leb, ◌==◌, ◌&&◌, if◌then◌else◌, arith,
  Bool-cases, ==→ne, true, false, ne→==, ◌∙◌, ==→eq,
}
use boi_os.Terminal.{
  Terminal, step_back, terminal_make_char, terminal_putchar, write_plain, terminal_backspace,
  terminal_writechar,
}

-- The cursor is in one of the 80 columns.
abbrev pub InRow : Terminal → Type 0
InRow t = t.terminal_col < 80

write_plain-InRow : (t : Terminal) (c color : ℕ) → InRow t → InRow (write_plain t c color)
unfolding write_plain
write_plain-InRow t c color h = ground arith

step_back-InRow : (t : Terminal) → InRow t → InRow (step_back t)
step_back-InRow t h = ground arith

terminal_backspace-InRow : (t : Terminal) → InRow t → InRow (terminal_backspace t)
unfolding terminal_backspace
terminal_backspace-InRow t h = elim (Bool-cases ((t.terminal_col == 0) && (t.terminal_row == 0))) [
  | inl e ↦ rw e h
  | inr e ↦ rw e (step_back-InRow _ (write_plain-InRow (step_back t) b' ' 15 (step_back-InRow t h)))
]

-- terminal_writechar of any character keeps the cursor in the 80 columns.
pub terminal_writechar-InRow :
    (t : Terminal) (c color : ℕ) → InRow t → InRow (terminal_writechar t c color)
unfolding terminal_writechar
terminal_writechar-InRow t c color h =
    ground (arith, terminal_backspace-InRow t h, write_plain-InRow t c color h)

-- The cursor is where it was in `t`, and the cell there is `v`.
abbrev pub Wrote : Terminal → ℕ → Terminal → Type 0
Wrote t v t' =
    (t'.terminal_row ≡ t.terminal_row)
    × (t'.terminal_col ≡ t.terminal_col)
    × ((i : ℕ)
        → t'.video_mem i ≡ (if i == t.terminal_row * 80 + t.terminal_col then v else t.video_mem i))

Wrote-again : (t t1 t2 : Terminal) (a b : ℕ) → Wrote t a t1 → Wrote t1 b t2 → Wrote t b t2
Wrote-again t t1 t2 a b (r1, c1, v1) (r2, c2, v2) =
    (r2 ∙ r1, c2 ∙ c1, λ i. v2 i ∙ ground (arith, v1 i, r1, c1))

step_back-write_plain :
    (t : Terminal) (c color : ℕ)
    → InRow t
    → t.terminal_row + 1 < 2 ^ 16
    → Wrote t (terminal_make_char c color) (step_back (write_plain t c color))
unfolding write_plain terminal_putchar
step_back-write_plain t c color h r = elim (Bool-cases (t.terminal_col == 79)) [
  | inl e ↦
      let q = ==→eq t.terminal_col 79 e in
      let wraps : leb 80 ((t.terminal_col + 1) % 2 ^ 16) ≡ true = ground arith in
      rw wraps (omega arith, omega arith, λ i. refl)
  | inr e ↦
      let q = ==→ne t.terminal_col 79 e in
      let stays : leb 80 ((t.terminal_col + 1) % 2 ^ 16) ≡ false = ground arith in
      let right : ((t.terminal_col + 1) % 2 ^ 16 == 0) ≡ false = ground arith in
      rw (stays, right) (refl, omega arith, λ i. refl)
]

not_home :
    (t : Terminal) (c color : ℕ)
    → InRow t
    → t.terminal_row + 1 < 2 ^ 16
    → let t' = write_plain t c color in ((t'.terminal_col == 0) && (t'.terminal_row == 0)) ≡ false
unfolding write_plain
not_home t c color h r = ground arith

-- With the cursor in the 80 columns and not in the last of 65536 rows, a character that is none of the
-- three special ones, and a backspace behind it, put the cursor back and leave a blank cell there; no
-- other cell changes.
pub terminal_backspace-terminal_writechar :
    (t : Terminal) (c color : ℕ)
    → InRow t
    → t.terminal_row + 1 < 2 ^ 16
    → c ≢ 10
    → c ≢ 9
    → c ≢ 8
    → Wrote t (terminal_make_char b' ' 15) (terminal_backspace (terminal_writechar t c color))
unfolding terminal_writechar terminal_backspace
terminal_backspace-terminal_writechar t c color h r n1 n2 n3 =
    let first = step_back-write_plain t c color h r in
    let t1 = step_back (write_plain t c color) in
    let blank =
      step_back-write_plain t1 b' ' 15 (omega (arith, first.1)) (omega (arith, first.0)) in
    rw (ne→== c 10 n1, ne→== c 9 n2, ne→== c 8 n3, not_home t c color h r)
      (Wrote-again t t1 _ _ _ first blank)
