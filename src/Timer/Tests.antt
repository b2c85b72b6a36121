-- ===== src/Timer/Tests.antt =====
-- The timer of kernel/timer.cpp and kernel/pit.cpp at concrete numbers.
use bare_metal_programming.Prelude.{
  ℕ, ◌+◌, ◌-◌, cast, ◌*◌, ◌/◌, ◌≤◌, ◌<◌, ◌≡◌, refl, arith, min, some, none, List, [], ◌∷◌,
}
use bare_metal_programming.Timer.{
  Timer, Interrupt, Round, handle_all, tick, other, sleep_ticks, ticks_of_ms, elapsed_ms,
  uint32_max, initialize_pit, divisor_of,
}
use bare_metal_programming.Timer.Convert.{conversions_lem}
use bare_metal_programming.Timer.Sleep.{Slept, ticks_in, sleep_ticks-Slept}
use bare_metal_programming.Timer.Divisor.{Divides, programmed, initialize_pit-Divides}

-- Two ticks before the counter wraps.
abbrev late : Timer
late = record { g_timer_ticks = 4294967294; g_timer_frequency = 100 }

abbrev one_tick : List Interrupt
one_tick = tick ∷ []

-- In the second round a tick comes between the read of the counter and the halt.
abbrev some_rounds : List Round
some_rounds =
    (record { before_halt = []; wakes = tick; after_halt = other ∷ [] })
    ∷ (record { before_halt = tick ∷ []; wakes = tick; after_halt = [] })
    ∷ (record { before_halt = []; wakes = other; after_halt = [] })
    ∷ []

sleep_ticks-Slept_example :
    (t' : Timer) × (left : List Round) × (sleep_ticks 3 one_tick some_rounds late ≡ some (t', left))
    × Slept (3 - ticks_in one_tick) some_rounds (handle_all one_tick late) t' left
    × ((handle_all one_tick late).g_timer_ticks ≡ cast 32 (late.g_timer_ticks + ticks_in one_tick))
sleep_ticks-Slept_example =
    sleep_ticks-Slept 3 one_tick some_rounds late (omega arith) (omega arith) (omega arith)
      (omega arith)

conversions_lem_example :
    (ticks_of_ms 2555 100 ≡ min uint32_max ((2555 * 100 + 999) / 1000))
    × (elapsed_ms 2555 100 ≡ min uint32_max (2555 * 1000 / 100))
conversions_lem_example = conversions_lem 2555 100 (omega arith) (omega arith) (omega arith)

-- The product in `sleep_ms` is not guarded: 999 ms at 5 MHz are 4,995,000 ticks.
unguarded : ticks_of_ms 999 5000000 ≡ 700033
unfolding ticks_of_ms
unguarded = refl

abbrev kernel_frequency : ℕ
kernel_frequency = 100

initialize_pit-Divides_example :
    (20 ≤ kernel_frequency
      → kernel_frequency ≤ 100
      → (initialize_pit kernel_frequency ≡ some (programmed (divisor_of kernel_frequency)))
        × Divides kernel_frequency (divisor_of kernel_frequency))
    × (kernel_frequency < 20 → initialize_pit kernel_frequency ≡ none)
    × (100 < kernel_frequency → initialize_pit kernel_frequency ≡ none)
initialize_pit-Divides_example = initialize_pit-Divides kernel_frequency
