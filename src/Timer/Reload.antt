-- ===== src/Timer/Reload.antt =====
-- The counter that pit_init loads.
use boi_os.Prelude.{ℕ, ◌+◌, ◌*◌, ◌/◌, ◌%◌, ◌≤◌, ◌<◌, ◌≡◌, refl, [], ◌∷◌, ◌++◌, arith}
use native.Mathlib.Nat.{div-lt_iff_lt-mul}
use boi_os.Prelude.Int.{pos}
use boi_os.Timer.{Timer, pit_init, clamp_hz}

-- 1193181 / hz fits in two bytes.
divisor_fits : (hz : ℕ) → 19 ≤ hz → 1193181 / hz < 65536
divisor_fits hz h = (div-lt_iff_lt-mul (omega arith)).1 (omega arith)

-- For a frequency of 19 Hz to 1193181 Hz pit_init sends the mode and then the divisor of the clock, its low byte
-- first; the ticks begin at 0.
pub pit_init-divisor :
    (t : Timer) (hz : ℕ)
    → 19 ≤ hz
    → hz ≤ 1193181
    → (lo : ℕ) × (hi : ℕ) × ((pit_init t (pos hz)).ports
        ≡ t.ports ++ ((0x43, 0x36) ∷ (0x40, lo) ∷ (0x40, hi) ∷ []))
      × (lo < 256)
      × (hi < 256)
      × (lo + 256 * hi ≡ 1193181 / hz)
      × ((pit_init t (pos hz)).ticks ≡ 0)
unfolding pit_init clamp_hz
pit_init-divisor t hz h le =
    let fits = divisor_fits hz h in
    let same : clamp_hz (pos hz) ≡ hz = ground arith in
    (
      1193181 / hz % 256,
      1193181 / hz / 256 % 256,
      rw same refl,
      omega arith,
      omega arith,
      omega (arith, fits),
      refl,
    )
