-- ===== src/Timer.antt =====
-- kernel/timer.cpp, kernel/pit.cpp and tools/stopwatch.h: the tick counter and its conversions. The
-- two globals are a record; an interrupt that ends a `hlt` is an entry of a list.
pub mod Convert
pub mod Sleep
pub mod Divisor
pub mod Tests
use bare_metal_programming.Prelude.{
  ℕ, ◌+◌, ◌-◌, ◌*◌, ◌/◌, ◌^◌, bit_and, cast, wrap_sub, ◌>>>◌, ltb, ◌==◌, ◌||◌, if◌then◌else◌,
  Option, none, some, List, [], ◌∷◌, ◌++◌,
}

abbrev pub milliseconds_per_second : ℕ
milliseconds_per_second = 1000

abbrev pub uint32_max : ℕ
uint32_max = 4294967295

pub record Timer : Type 0 where
  pub g_timer_ticks : ℕ
  pub g_timer_frequency : ℕ

unfoldable pub handle_timer_interrupt : Timer → Timer
handle_timer_interrupt t = record t { g_timer_ticks = cast 32 (t.g_timer_ticks + 1) }

unfoldable pub set_timer_frequency : ℕ → Timer → Timer
set_timer_frequency frequency t = record t { g_timer_frequency = frequency }

unfoldable pub uptime_seconds : Timer → ℕ
uptime_seconds t = if t.g_timer_frequency == 0 then 0 else t.g_timer_ticks / t.g_timer_frequency

pub data Interrupt : Type 0 where
  tick : Interrupt
  other : Interrupt

unfoldable pub handle : Interrupt → Timer → Timer
handle tick t = handle_timer_interrupt t
handle other t = t

unfoldable pub handle_all : List Interrupt → Timer → Timer
handle_all [] t = t
handle_all (i ∷ interrupts) t = handle_all interrupts (handle i t)

-- The interrupts of one turn of the loop: those that come after the counter is read and before `hlt`,
-- which do not end it; the one that ends it; and those that come before the counter is read again.
pub record Round : Type 0 where
  pub before_halt : List Interrupt
  pub wakes : Interrupt
  pub after_halt : List Interrupt

abbrev pub interrupts_of : Round → List Interrupt
interrupts_of r = r.before_halt ++ (r.wakes ∷ r.after_halt)

-- The loop of `sleep_ticks`: the state when it ends and the rounds that are left, or `none` if it
-- still waits after the last of them.
unfoldable pub sleep_loop : ℕ → ℕ → List Round → Timer → Option (Timer × List Round)
sleep_loop start ticks [] t =
    if ltb (wrap_sub 32 t.g_timer_ticks start) ticks then none else some (t, [])
sleep_loop start ticks (r ∷ rounds) t =
    let rest = sleep_loop start ticks rounds (handle_all (interrupts_of r) t) in
    if ltb (wrap_sub 32 t.g_timer_ticks start) ticks then rest else some (t, r ∷ rounds)

-- `early`: the interrupts that come after `start` is read and before the first read of the loop.
unfoldable pub sleep_ticks : ℕ → List Interrupt → List Round → Timer → Option (Timer × List Round)
sleep_ticks ticks early rounds t = sleep_loop t.g_timer_ticks ticks rounds (handle_all early t)

-- The ticks that `sleep_ms` waits for, at a frequency that is not 0.
unfoldable pub ticks_of_ms : ℕ → ℕ → ℕ
ticks_of_ms ms frequency =
    let whole_seconds = ms / milliseconds_per_second in
    let remaining_milliseconds =
      wrap_sub 32 ms (cast 32 (whole_seconds * milliseconds_per_second)) in
    let whole_second_ticks = cast 32 (whole_seconds * frequency) in
    let remaining_ticks =
      wrap_sub 32 (cast 32 (cast 32 (remaining_milliseconds * frequency) + milliseconds_per_second))
        1
      / milliseconds_per_second in
    if ltb (uint32_max / frequency) whole_seconds
    then uint32_max
    else if ltb (wrap_sub 32 uint32_max remaining_ticks) whole_second_ticks
    then uint32_max
    else cast 32 (whole_second_ticks + remaining_ticks)

unfoldable pub sleep_ms : ℕ → List Interrupt → List Round → Timer → Option (Timer × List Round)
sleep_ms ms early rounds t =
    if (t.g_timer_frequency == 0) || (ms == 0)
    then some (t, rounds)
    else sleep_ticks (ticks_of_ms ms t.g_timer_frequency) early rounds t

-- `elapsed_ms` of `~stopwatch`, at a frequency that is not 0.
unfoldable pub elapsed_ms : ℕ → ℕ → ℕ
elapsed_ms time_diff frequency =
    let whole_seconds = time_diff / frequency in
    let remaining_ticks = wrap_sub 32 time_diff (cast 32 (whole_seconds * frequency)) in
    let whole_seconds_ms = cast 32 (whole_seconds * milliseconds_per_second) in
    let remaining_ms = cast 32 (remaining_ticks * milliseconds_per_second) / frequency in
    if ltb (uint32_max / milliseconds_per_second) whole_seconds
    then uint32_max
    else if ltb (wrap_sub 32 uint32_max remaining_ms) whole_seconds_ms
    then uint32_max
    else cast 32 (whole_seconds_ms + remaining_ms)

-- What `~stopwatch` shows for a stopwatch started at the tick `start`; nothing without a frequency.
unfoldable pub stopwatch_ms : ℕ → Timer → Option ℕ
stopwatch_ms start t =
    if t.g_timer_frequency == 0
    then none
    else some (elapsed_ms (wrap_sub 32 t.g_timer_ticks start) t.g_timer_frequency)

abbrev pub input_frequency : ℕ
input_frequency = 1193182

abbrev pub min_divisor : ℕ
min_divisor = 1

abbrev pub max_divisor : ℕ
max_divisor = 0xFFFF

abbrev pub min_supported_frequency : ℕ
min_supported_frequency = 20

abbrev pub max_supported_frequency : ℕ
max_supported_frequency = 100

abbrev pub channel_0_data_port : ℕ
channel_0_data_port = 0x40

abbrev pub pit_command_port : ℕ
pit_command_port = 0x43

abbrev pub channel_0_lobyte_hibyte_mode_3_binary : ℕ
channel_0_lobyte_hibyte_mode_3_binary = 0x36

abbrev pub divisor_of : ℕ → ℕ
divisor_of frequency = (input_frequency + frequency / 2) / frequency

-- The bytes that `initialize_pit` writes to the ports, in order; `none` where it panics.
unfoldable pub initialize_pit : ℕ → Option (List (ℕ × ℕ))
initialize_pit frequency =
    let divisor_32 = divisor_of frequency in
    let divisor = cast 16 divisor_32 in
    if ltb frequency min_supported_frequency || ltb max_supported_frequency frequency
    then none
    else if ltb divisor_32 min_divisor || ltb max_divisor divisor_32
    then none
    else some (
        (pit_command_port, channel_0_lobyte_hibyte_mode_3_binary)
        ∷ (channel_0_data_port, bit_and divisor 0x00FF)
        ∷ (channel_0_data_port, bit_and (divisor >>> 8) 0x00FF)
        ∷ [])
