-- ===== src/Timer.antt =====
-- src/timer/pit.c: the interval timer. What outb sends is a list of ports and bytes in their order.
pub mod Reload
pub mod Sleep
mod Tests
use boi_os.Prelude.{
  ℕ, zero, suc, ◌+◌, ◌*◌, ◌/◌, ◌%◌, ◌^◌, Bool, true, false, Option, none, some, List, [], ◌∷◌, ◌++◌,
  ltb, leb, if◌then◌else◌,
}
use boi_os.Prelude.Int.{ℤ, pos, negsuc, signed32, div_int}

-- The two variables of the file, and the writes to ports so far.
pub record Timer : Type 0 where
  pub time_in_millis : ℕ
  pub ticks : ℕ
  pub ports : List (ℕ × ℕ)

unfoldable pub pit_callback : Timer → Timer
pit_callback t = record t { ticks = (t.ticks + 1) % 2 ^ 32; ports = t.ports ++ ((0x20, 0x20) ∷ []) }

clamp_hz : ℤ → ℕ
clamp_hz (negsuc n) = 18
clamp_hz (pos hz) = if leb hz 18 then 18 else if leb 1193181 hz then 1193181 else hz

-- `outb` sends the low byte of what it is given.
pub pit_init : Timer → ℤ → Timer
unfolding clamp_hz
pit_init t hz =
    let divisor = 1193181 / clamp_hz hz in
    record {
      time_in_millis = divisor * (1000 / 1193181);
      ticks = 0;
      ports =
          t.ports ++ ((0x43, 0x36) ∷ (0x40, divisor % 256) ∷ (0x40, divisor / 2 ^ 8 % 256) ∷ []);
    }

-- `test < total_ticks`
abbrev pub less : ℤ → ℤ → Bool
less (pos test) (pos total) = ltb test total
less (pos test) (negsuc n) = false
less (negsuc m) (pos total) = true
less (negsuc m) (negsuc n) = ltb n m

-- The callbacks of `n` interrupts.
pub interrupts : ℕ → Timer → Timer
interrupts zero t = t
interrupts (suc n) t = interrupts n (pit_callback t)

-- `do`-`while`: in front of each read of `ticks` comes a number of interrupts. The result is the timer and the
-- reads that were not made; `none` is that the loop goes on.
sleep_loop : Timer → ℤ → List ℕ → Option (Timer × List ℕ)
unfolding interrupts
sleep_loop t total_ticks [] = none
sleep_loop t total_ticks (n ∷ ns) =
    let read = interrupts n t in
    elim (less (signed32 read.ticks) total_ticks) [
      | true ↦ sleep_loop read total_ticks ns
      | false ↦ some (read, ns)
    ]

pub sleep : Timer → ℤ → List ℕ → Option (Timer × List ℕ)
unfolding sleep_loop
sleep t millis ns = sleep_loop (record t { ticks = 0 }) (div_int millis 10) ns
