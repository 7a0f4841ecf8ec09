-- ===== src/Timer/Sleep.antt =====
-- When sleep returns.
use boi_os.Prelude.{
  ℕ, zero, suc, ◌+◌, ◌/◌, ◌^◌, ◌≤◌, ◌<◌, ◌≡◌, refl, ap, inl, inr, some, ◌≢◌, ◌⊎◌, ◌++◌, List, [],
  ◌∷◌, ltb, arith, Bool-cases, ltb→lt, ltb→le, lt→ltb,
}
use mathlib.Core.Path.{subst}
use boi_os.Prelude.Int.{pos, signed32}
use boi_os.Timer.{Timer, pit_callback, interrupts, sleep, sleep_loop}

abbrev pub sum : List ℕ → ℕ
sum [] = 0
sum (n ∷ ns) = n + sum ns

interrupts-ticks : (n : ℕ) (t : Timer) → t.ticks + n < 2 ^ 32 → (interrupts n t).ticks ≡ t.ticks + n
unfolding interrupts pit_callback
interrupts-ticks zero t h = omega arith
interrupts-ticks (suc n) t h = omega (arith, interrupts-ticks n (pit_callback t) (omega arith))

-- The first read that sees `total` ticks, counted from `a`, is the last one.
pub record Woken (a total : ℕ) (ns : List ℕ) (t : Timer) (rest : List ℕ) : Type 0 where
  pub before : List ℕ
  pub last : ℕ
  pub reads : ns ≡ before ++ (last ∷ rest)
  pub early : (before ≡ []) ⊎ (a + sum before < total)
  pub counted : t.ticks ≡ a + sum before + last
  pub late : total ≤ t.ticks

more_reads :
    (a n total : ℕ) (ns rest : List ℕ) (t : Timer)
    → a + n < total
    → Woken (a + n) total ns t rest
    → Woken a total (n ∷ ns) t rest
more_reads a n total ns rest t lt w = record {
  before = n ∷ w.before;
  last = w.last;
  reads = ap (n ∷◌) w.reads;
  early = inr (elim w.early [ inl e ↦ omega (arith, ap sum e) | inr h ↦ omega arith ]);
  counted = omega (arith, w.counted);
  late = w.late;
}

sleep_loop-Woken :
    (ns : List ℕ) (t : Timer) (total : ℕ)
    → total ≤ t.ticks + sum ns
    → t.ticks + sum ns < 2 ^ 31
    → ns ≢ []
    → (t' : Timer) × (rest : List ℕ) × (sleep_loop t (pos total) ns ≡ some (t', rest))
      × Woken t.ticks total ns t' rest
unfolding sleep_loop
sleep_loop-Woken [] t total h fits ne = absurd (ne refl)
sleep_loop-Woken (n ∷ ns) t total h fits ne =
    let read = interrupts n t in
    let count : read.ticks ≡ t.ticks + n = interrupts-ticks n t (omega arith) in
    let plain : signed32 read.ticks ≡ pos read.ticks =
      rw (lt→ltb read.ticks (2 ^ 31) (omega (arith, count))) refl in
    elim (Bool-cases (ltb read.ticks total)) [
      | inl more ↦
          let lt = ltb→lt read.ticks total more in
          let left : ns ≢ [] = λ e. absurd (omega (arith, ap sum e, lt, count)) in
          let (t', rest, e, w) =
            sleep_loop-Woken ns read total (omega (arith, count)) (omega (arith, count)) left in
          (
            t',
            rest,
            rw (plain, more, sleep_loop) e,
            more_reads t.ticks n total ns rest t' (omega (arith, lt, count))
                (subst (λ a. Woken a total ns t' rest) count w),
          )
      | inr enough ↦ (
        read,
        ns,
        rw (plain, enough, sleep_loop) refl,
        record {
          before = [];
          last = n;
          reads = refl;
          early = inl refl;
          counted = omega (arith, count);
          late = ltb→le read.ticks total enough;
        },
      )
    ]

-- Once a tenth of `millis` ticks have passed, sleep ends, at the first read that sees so many, and not in front
-- of it; the interrupts before the reads do not reach 2 ^ 31, the sign of the counter.
pub sleep-Woken :
    (t : Timer) (millis : ℕ) (ns : List ℕ)
    → millis / 10 ≤ sum ns
    → sum ns < 2 ^ 31
    → ns ≢ []
    → (t' : Timer) × (rest : List ℕ) × (sleep t (pos millis) ns ≡ some (t', rest))
      × Woken 0 (millis / 10) ns t' rest
unfolding sleep
sleep-Woken t millis ns h fits ne =
    sleep_loop-Woken ns (record t { ticks = 0 }) (millis / 10) (omega arith) (omega arith) ne
