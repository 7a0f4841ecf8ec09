-- ===== src/Keyboard/Queue.antt =====
-- The buffer of keys as a queue.
use boi_os.Prelude.{
  ℕ, ◌+◌, ◌-◌, ◌%◌, ◌^◌, ◌≤◌, ◌<◌, ◌≡◌, ◌≢◌, refl, ap, ◌∙◌, some, List, [], ◌∷◌, ◌++◌, ◌==◌, length,
  arith, inl, inr, Bool-cases, ==→eq, ==→ne, length-append, ne→==,
}
use boi_os.Keyboard.{
  KeyboardBuffer, put, push_key, pop_key, keyboard_push, keyboard_pop, keyboard_backspace,
}

-- From the position `h` on, the buffer has the keys `q`.
abbrev pub Keys : (ℕ → ℕ) → ℕ → List ℕ → Type 0
Keys f h [] = Unit
Keys f h (c ∷ q) = (f (h % 1024) ≡ c) × (0 < c) × Keys f (h + 1) q

-- The queue `q` stands in the buffer, whose other bytes are zero.
pub record Holds (b : KeyboardBuffer) (q : List ℕ) : Type 0 where
  pub keys : Keys b.buffer b.head q
  pub zeros : (i : ℕ) → length q ≤ i → i < 1024 → b.buffer ((b.head + i) % 1024) ≡ 0
  pub fits : length q ≤ 1024
  pub ends : b.tail ≡ (b.head + length q) % 2 ^ 32

Keys-same :
    (q : List ℕ) (f g : ℕ → ℕ) (h h' : ℕ)
    → h % 1024 ≡ h' % 1024
    → ((i : ℕ) → i < length q → g ((h' + i) % 1024) ≡ f ((h' + i) % 1024))
    → Keys f h q
    → Keys g h' q
Keys-same [] f g h h' e same k = tt
Keys-same (c ∷ q) f g h h' e same (k, pc, rest) = (
  ap g (omega arith) ∙ same 0 (omega arith) ∙ ap f (omega arith) ∙ k,
  pc,
  Keys-same q f g (h + 1) (h' + 1) (omega arith)
      (λ i l. ap g (omega arith) ∙ same (i + 1) (omega arith) ∙ ap f (omega arith)) rest,
)

Keys-append :
    (q : List ℕ) (f : ℕ → ℕ) (h c : ℕ)
    → Keys f h q
    → f ((h + length q) % 1024) ≡ c
    → 0 < c
    → Keys f h (q ++ (c ∷ []))
Keys-append [] f h c k e pc = (ap f (omega arith) ∙ e, pc, tt)
Keys-append (x ∷ q) f h c (k, px, rest) e pc =
    (k, px, Keys-append q f (h + 1) c rest (ap f (omega arith) ∙ e) pc)

Keys-front : (q : List ℕ) (f : ℕ → ℕ) (h c : ℕ) → Keys f h (q ++ (c ∷ [])) → Keys f h q
Keys-front [] f h c k = tt
Keys-front (x ∷ q) f h c (k, px, rest) = (k, px, Keys-front q f (h + 1) c rest)

put_other : (f : ℕ → ℕ) (x c i : ℕ) → i ≢ x → put f x c i ≡ f i
put_other f x c i ne = ground arith

put_self : (f : ℕ → ℕ) (x c i : ℕ) → i ≡ x → put f x c i ≡ c
put_self f x c i e = ground arith

-- keyboard_push of a key on a buffer with room puts the key at the end of the queue.
pub keyboard_push-Holds :
    (b : KeyboardBuffer) (q : List ℕ) (c : ℕ)
    → Holds b q
    → 0 < c
    → length q < 1024
    → (b' : KeyboardBuffer) × (keyboard_push (some b) c ≡ some b') × Holds b' (q ++ (c ∷ []))
unfolding keyboard_push
keyboard_push-Holds b q c h pc room = (
  push_key b c,
  rw (ne→== c 0 (omega arith)),
  record {
    keys =
        Keys-append q (push_key b c).buffer b.head c
          (Keys-same q b.buffer (push_key b c).buffer b.head b.head refl
            (λ i l. put_other b.buffer (b.tail % 1024) c _ (omega (arith, h.ends))) h.keys)
          (put_self b.buffer (b.tail % 1024) c _ (omega (arith, h.ends))) pc;
    zeros = λ i lo hi.
        put_other b.buffer _ c _ (omega (arith, h.ends, length-append q (c ∷ [])))
        ∙ h.zeros i (omega (arith, length-append q (c ∷ []))) hi;
    fits = omega (arith, length-append q (c ∷ []));
    ends = omega (arith, h.ends, length-append q (c ∷ []));
  },
)

-- keyboard_pop takes the first key off the queue.
pub keyboard_pop-Holds :
    (b : KeyboardBuffer) (q : List ℕ) (c : ℕ)
    → Holds b (c ∷ q)
    → (b' : KeyboardBuffer) × (keyboard_pop (some b) ≡ (c, some b')) × Holds b' q
unfolding keyboard_pop
keyboard_pop-Holds b q c h = (
  pop_key b,
  rw (h.keys.0, ne→== c 0 (omega (arith, h.keys.1))),
  record {
    keys =
        Keys-same q b.buffer (pop_key b).buffer (b.head + 1) ((b.head + 1) % 2 ^ 32) (omega arith)
          (λ i l. put_other b.buffer (b.head % 1024) 0 _ (omega (arith, h.fits))) h.keys.2;
    zeros = λ i lo hi. elim (Bool-cases (i == 1023)) [
      | inl e ↦ put_self b.buffer _ 0 _ (omega (arith, ==→eq i 1023 e))
      | inr e ↦
          put_other b.buffer _ 0 _ (omega (arith, ==→ne i 1023 e))
          ∙ ap b.buffer (omega arith)
          ∙ h.zeros (i + 1) (omega arith) (omega (arith, ==→ne i 1023 e))
    ];
    fits = omega (arith, h.fits);
    ends = omega (arith, h.ends);
  },
)

-- keyboard_pop of an empty queue returns 0 and changes nothing.
pub keyboard_pop-empty : (b : KeyboardBuffer) → Holds b [] → keyboard_pop (some b) ≡ (0, some b)
unfolding keyboard_pop
keyboard_pop-empty b h =
    let e : b.buffer (b.head % 1024) ≡ 0 =
      ap b.buffer (omega arith) ∙ h.zeros 0 (omega arith) (omega arith) in
    rw e

-- keyboard_backspace takes the last key off the queue.
pub keyboard_backspace-Holds :
    (b : KeyboardBuffer) (q : List ℕ) (c : ℕ)
    → Holds b (q ++ (c ∷ []))
    → Holds (keyboard_backspace b) q
unfolding keyboard_backspace
keyboard_backspace-Holds b q c h =
    let long = length-append q (c ∷ []) in
    let last : (b.tail + 2 ^ 32 - 1) % 2 ^ 32 ≡ (b.head + length q) % 2 ^ 32 =
      omega (arith, h.ends, long) in
    record {
      keys =
          Keys-same q b.buffer (keyboard_backspace b).buffer b.head b.head refl
            (λ i l.
              put_other b.buffer ((b.tail + 2 ^ 32 - 1) % 2 ^ 32 % 1024) 0 _
                (omega (arith, last, h.fits, long)))
            (Keys-front q b.buffer b.head c h.keys);
      zeros = λ i lo hi. elim (Bool-cases (i == length q)) [
        | inl e ↦ put_self b.buffer _ 0 _ (omega (arith, last, ==→eq i (length q) e))
        | inr e ↦
            let ne = ==→ne i (length q) e in
            put_other b.buffer _ 0 _ (omega (arith, last, ne))
            ∙ h.zeros i (omega (arith, long, ne)) hi
      ];
      fits = omega (arith, h.fits, long);
      ends = last;
    }

-- On a full buffer keyboard_push of a key that is not 0 overwrites the oldest key, so that keyboard_pop gives the newest one.
pub keyboard_push-full :
    (b : KeyboardBuffer) (q : List ℕ) (c : ℕ)
    → Holds b q
    → length q ≡ 1024
    → 0 < c
    → (keyboard_pop (keyboard_push (some b) c)).0 ≡ c
unfolding keyboard_push keyboard_pop
keyboard_push-full b q c h full pc =
    let e : put b.buffer (b.tail % 1024) c (b.head % 1024) ≡ c =
      put_self b.buffer (b.tail % 1024) c (b.head % 1024) (omega (arith, h.ends)) in
    rw (ne→== c 0 (omega arith), e, ne→== c 0 (omega arith))

-- keyboard_backspace on an empty queue moves the tail in front of the head, so that keyboard_pop does
-- not find the next key that keyboard_push stores.
pub keyboard_backspace-empty :
    (b : KeyboardBuffer) (c : ℕ)
    → Holds b []
    → (keyboard_pop (keyboard_push (some (keyboard_backspace b)) c)).0 ≡ 0
unfolding keyboard_push keyboard_pop keyboard_backspace
keyboard_backspace-empty b c h = elim (Bool-cases (c == 0)) [
  | inl e ↦ rw (e, back)
  | inr e ↦ rw (e, kept)
]
  where
    back : (keyboard_backspace b).buffer (b.head % 1024) ≡ 0
    back =
        put_other b.buffer ((b.tail + 2 ^ 32 - 1) % 2 ^ 32 % 1024) 0 _ (omega (arith, h.ends))
        ∙ ap b.buffer (omega arith)
        ∙ h.zeros 0 (omega arith) (omega arith)

    kept : (push_key (keyboard_backspace b) c).buffer (b.head % 1024) ≡ 0
    kept =
        put_other (keyboard_backspace b).buffer ((b.tail + 2 ^ 32 - 1) % 2 ^ 32 % 1024) c _
          (omega (arith, h.ends))
        ∙ back
