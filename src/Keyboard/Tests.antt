-- ===== src/Keyboard/Tests.antt =====
-- keyboard.c and classic.c on a buffer with the keys "hi" around its end.
use boi_os.Prelude.{
  ℕ, zero, suc, ◌+◌, ◌<◌, ◌≡◌, ◌⊎◌, refl, true, false, some, List, [], ◌∷◌, ◌++◌, ◌==◌,
  if◌then◌else◌, length, arith,
}
use boi_os.Keyboard.{
  KeyboardBuffer, keyboard_push, keyboard_pop, classic_keyboard_scancode_to_char,
  classic_keyboard_handle_interrupt,
}
use boi_os.Keyboard.Queue.{Keys, Holds, keyboard_push-Holds, keyboard_pop-Holds}
use boi_os.Keyboard.Reads.{press, read, buffer_reads, buffer_reads-queue_reads}
use boi_os.Keyboard.Keys.{scancode_to_char-lower, handle_interrupt-released}

abbrev hi_around : KeyboardBuffer
hi_around = record {
  buffer = λ i. if i == 1023 then b'h' else if i == 0 then b'i' else 0;
  tail = 1025;
  head = 1023;
}

abbrev hi : List ℕ
hi = b'h' ∷ b'i' ∷ []

hi_around-Holds : Holds hi_around hi
hi_around-Holds = record {
  keys = (refl, omega arith, (refl, omega arith, tt));
  zeros = λ i lo le. ground arith;
  fits = omega arith;
  ends = refl;
}

abbrev empty : KeyboardBuffer
empty = record { buffer = λ i. 0; tail = 0; head = 0 }

empty-Holds : Holds empty []
empty-Holds = record { keys = tt; zeros = λ i lo le. refl; fits = omega arith; ends = refl }

keyboard_push-Holds_example :
    (b' : KeyboardBuffer) × (keyboard_push (some hi_around) b'!' ≡ some b')
    × Holds b' (hi ++ (b'!' ∷ []))
keyboard_push-Holds_example =
    keyboard_push-Holds hi_around hi b'!' hi_around-Holds (omega arith) (omega arith)

keyboard_pop-Holds_example :
    (b' : KeyboardBuffer) × (keyboard_pop (some hi_around) ≡ (b'h', some b')) × Holds b' (b'i' ∷ [])
keyboard_pop-Holds_example = keyboard_pop-Holds hi_around (b'i' ∷ []) b'h' hi_around-Holds

buffer_reads-queue_reads_example :
    buffer_reads (some hi_around) (read ∷ press b'!' ∷ read ∷ read ∷ read ∷ [])
    ≡ b'h' ∷ b'i' ∷ b'!' ∷ 0 ∷ []
buffer_reads-queue_reads_example =
    buffer_reads-queue_reads (read ∷ press b'!' ∷ read ∷ read ∷ read ∷ []) hi_around hi
      hi_around-Holds (omega arith, omega arith, tt)

scancode_to_char-lower_example :
    let c = classic_keyboard_scancode_to_char 0 false 30 in (c < b'A') ⊎ (b'Z' < c)
scancode_to_char-lower_example = scancode_to_char-lower 0 30

small_a : classic_keyboard_scancode_to_char 0 false 30 ≡ b'a'
unfolding classic_keyboard_scancode_to_char
small_a = refl

handle_interrupt-released_example :
    classic_keyboard_handle_interrupt 0 true (some empty) 158 ≡ (true, some empty)
handle_interrupt-released_example =
    handle_interrupt-released 0 158 true (some empty) (omega arith) (omega arith)

-- 1024 keys "a".
abbrev full : KeyboardBuffer
full = record { buffer = λ i. b'a'; tail = 1024; head = 0 }

many : ℕ → List ℕ
many zero = []
many (suc n) = b'a' ∷ many n

length-many : (n : ℕ) → length (many n) ≡ n
unfolding many
length-many zero = refl
length-many (suc n) = omega (arith, length-many n)

many-Keys : (n h : ℕ) → Keys full.buffer h (many n)
unfolding many
many-Keys zero h = tt
many-Keys (suc n) h = (refl, omega arith, many-Keys n (h + 1))

full-Holds : Holds full (many 1024)
full-Holds = record {
  keys = many-Keys 1024 0;
  zeros = λ i lo le. absurd (omega (arith, length-many 1024));
  fits = omega (arith, length-many 1024);
  ends = omega (arith, length-many 1024);
}
