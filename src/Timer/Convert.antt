-- ===== src/Timer/Convert.antt =====
-- kernel/timer.cpp, lines 47 to 71, and tools/stopwatch.h: milliseconds and ticks.
use bare_metal_programming.Prelude.{
  ℕ, ◌+◌, ◌-◌, ◌*◌, ◌/◌, ◌%◌, ◌^◌, ◌≤◌, ◌<◌, ◌≡◌, arith, ap, sym, ◌∙◌, min, cast,
}
use native.Mathlib.Nat.{
  div-add-mod, mod-lt, div-lt_iff_lt-mul, mul_comm, mul-le-mul_right, lt-mul-div-succ,
  div-mul-le_self, add-mul-div_left,
}
use bare_metal_programming.Timer.{uint32_max, ticks_of_ms, elapsed_ms}

-- The whole seconds fit in a word exactly when the guard says so.
fits : (f q : ℕ) → q ≤ uint32_max / f → q * f ≤ uint32_max
fits f q h =
    omega (arith, mul-le-mul_right {m = q} {n = uint32_max / f} f h, div-mul-le_self uint32_max f)

overflows : (f q : ℕ) → 0 < f → uint32_max / f < q → uint32_max < q * f
overflows f q p h = omega (
  arith,
  lt-mul-div-succ uint32_max {b = f} p,
  mul-le-mul_right {m = uint32_max / f + 1} {n = q} f (omega arith),
  mul_comm f (uint32_max / f + 1),
)

-- Milliseconds as whole seconds and a rest.
split_ms : (ms f : ℕ) → ms * f ≡ 1000 * (ms / 1000 * f) + ms % 1000 * f
split_ms ms f =
    let parts : ms ≡ 1000 * (ms / 1000) + ms % 1000 = omega arith in
    ap (λ t. t * f) parts ∙ grind arith

-- `sleep_ms` waits for the ticks of `ms` milliseconds, rounded up, or for the largest count of ticks
-- where there are more.
pub ticks_of_ms-min :
    (ms f : ℕ)
    → ms < 2 ^ 32
    → 0 < f
    → f ≤ 4299265
    → ticks_of_ms ms f ≡ min uint32_max ((ms * f + 999) / 1000)
unfolding ticks_of_ms
ticks_of_ms-min ms f hm hf bound =
    let rest : cast 32 (ms + 2 ^ 32 - cast 32 (ms / 1000 * 1000)) ≡ ms % 1000 = omega arith in
    let small : ms % 1000 * f ≤ 999 * f =
      mul-le-mul_right {m = ms % 1000} {n = 999} f (omega arith) in
    rw rest (ground (arith, small, split_ms ms f, fits f (ms / 1000), overflows f (ms / 1000) hf))

-- Ticks as whole seconds and a rest.
split_ticks : (ticks f : ℕ) → 0 < f → ticks * 1000 / f ≡ ticks % f * 1000 / f + ticks / f * 1000
split_ticks ticks f p =
    ap (λ t. t / f) parts ∙ add-mul-div_left (ticks % f * 1000) (ticks / f * 1000) p
  where
    parts : ticks * 1000 ≡ ticks % f * 1000 + f * (ticks / f * 1000)
    parts = ap (λ t. t * 1000) (sym (div-add-mod ticks f)) ∙ grind arith

-- A stopwatch shows the whole milliseconds of its ticks, or the largest word.
pub elapsed_ms-min :
    (ticks f : ℕ)
    → ticks < 2 ^ 32
    → 0 < f
    → f ≤ 4294967
    → elapsed_ms ticks f ≡ min uint32_max (ticks * 1000 / f)
unfolding elapsed_ms
elapsed_ms-min ticks f ht hf bound =
    let short : ticks % f < f = mod-lt ticks hf in
    let back : ticks / f * f ≤ ticks = div-mul-le_self ticks f in
    let rest : cast 32 (ticks + 2 ^ 32 - cast 32 (ticks / f * f)) ≡ ticks % f =
      omega (arith, back, short, div-add-mod ticks f, mul_comm f (ticks / f)) in
    let no_wrap : cast 32 (ticks % f * 1000) ≡ ticks % f * 1000 = omega (arith, short) in
    rw (rest, no_wrap) (ground (arith, split_ticks ticks f hf, below_second))
  where
    below_second : ticks % f * 1000 / f < 1000
    below_second = (div-lt_iff_lt-mul hf).1 (omega (arith, mod-lt ticks hf, mul_comm 1000 f))

-- At every frequency up to 4,294,967, which includes the 100 of the kernel: `sleep_ms` waits for the
-- ticks of the milliseconds, rounded up, and a stopwatch shows the milliseconds of its ticks, rounded
-- down; both give the largest word where the exact count is larger.
pub conversions_lem :
    (n f : ℕ)
    → n < 2 ^ 32
    → 0 < f
    → f ≤ 4294967
    → (ticks_of_ms n f ≡ min uint32_max ((n * f + 999) / 1000))
      × (elapsed_ms n f ≡ min uint32_max (n * 1000 / f))
conversions_lem n f h p bound =
    (ticks_of_ms-min n f h p (omega arith), elapsed_ms-min n f h p bound)
