-- ===== src/Timer/Tests.antt =====
-- The timer of the kernel: 100 Hz, and a sleep of 50 milliseconds.
use boi_os.Prelude.{ℕ, ◌+◌, ◌*◌, ◌/◌, ◌<◌, ◌≡◌, some, List, [], ◌∷◌, ◌++◌, arith}
use boi_os.Prelude.Int.{pos}
use boi_os.Timer.{Timer, pit_init, sleep}
use boi_os.Timer.Reload.{pit_init-divisor}
use boi_os.Timer.Sleep.{Woken, sleep-Woken}

abbrev start : Timer
start = record { time_in_millis = 1; ticks = 7; ports = [] }

pit_init-divisor_example :
    (lo : ℕ) × (hi : ℕ) × ((pit_init start (pos 100)).ports
      ≡ start.ports ++ ((0x43, 0x36) ∷ (0x40, lo) ∷ (0x40, hi) ∷ []))
    × (lo < 256)
    × (hi < 256)
    × (lo + 256 * hi ≡ 1193181 / 100)
    × ((pit_init start (pos 100)).ticks ≡ 0)
pit_init-divisor_example = pit_init-divisor start 100 (omega arith) (omega arith)

abbrev reads : List ℕ
reads = 0 ∷ 2 ∷ 0 ∷ 4 ∷ 1 ∷ []

sleep-Woken_example :
    (t' : Timer) × (rest : List ℕ) × (sleep start (pos 50) reads ≡ some (t', rest))
    × Woken 0 (50 / 10) reads t' rest
sleep-Woken_example = sleep-Woken start 50 reads (omega arith) (omega arith) (cc)
