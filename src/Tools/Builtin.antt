-- ===== src/Tools/Builtin.antt =====
-- tools/builtin.h and tools/math.h: bit scans and powers of two. A width `w` is the bits of the
-- template's type: 8, 16, 32 or 64. `size_t` has 32 bits.
pub mod Laws
use bare_metal_programming.Prelude.{
  ℕ, zero, suc, ◌+◌, ◌-◌, ◌*◌, ◌/◌, ◌%◌, ◌^◌, bit_and, bit_or, test_bit, cast, wrap_sub, ◌<<<◌,
  ◌==◌, Bool, ◌||◌, not, if◌then◌else◌,
}

-- `__builtin_ctz` and `__builtin_ctzll`: the zeros below the lowest one of `w` bits.
unfoldable pub count_trailing : ℕ → ℕ → ℕ
count_trailing zero x = 0
count_trailing (suc w) x = if test_bit x 0 then 0 else suc (count_trailing w (x / 2))

-- `__builtin_clz` and `__builtin_clzll`: the zeros above the highest one of `w` bits.
unfoldable pub count_leading : ℕ → ℕ → ℕ
count_leading zero x = 0
count_leading (suc w) x = if test_bit x w then 0 else suc (count_leading w x)

unfoldable pub leading_zeros : ℕ → ℕ → ℕ
leading_zeros w value =
    if w == 64
    then cast 8 (count_leading 64 value)
    else cast 8 (count_leading 32 (cast 32 (value <<< (32 - w))))

unfoldable pub trailing_zeros : ℕ → ℕ → ℕ
trailing_zeros w value =
    if w == 64 then cast 8 (count_trailing 64 value) else cast 8 (count_trailing 32 value)

unfoldable pub bit_guard_lz : ℕ → ℕ → ℕ
bit_guard_lz w value =
    if w == 64
    then (if value == 0 then 64 else cast 8 (count_leading 64 value))
    else if w == 32
    then (if value == 0 then 32 else cast 8 (count_leading 32 value))
    else cast 8 (count_leading 32 (bit_or (cast 32 (value <<< (32 - w))) (2 ^ (32 - w) - 1)))

unfoldable pub bit_guard_tz : ℕ → ℕ → ℕ
bit_guard_tz w value =
    if w == 64
    then (if value == 0 then 64 else cast 8 (count_trailing 64 value))
    else if w == 32
    then (if value == 0 then 32 else cast 8 (count_trailing 32 value))
    else cast 8 (count_trailing 32 (bit_or (1 <<< w) value))

-- `power::of_2` at an unsigned type of `w` bits: the pattern of an `int8_t`, 0xFF for -1.
unfoldable pub of_2 : ℕ → ℕ → ℕ
of_2 w value =
    if value == 0 || not (bit_and value (wrap_sub w value 1) == 0)
    then 0xFF
    else if w == 64
    then cast 8 (count_trailing 64 value)
    else cast 8 (count_trailing 32 value)

-- `power::highest_of_2` at `size_t`.
unfoldable pub highest_of_2 : ℕ → ℕ
highest_of_2 value = cast 32 (1 <<< (31 - leading_zeros 32 value))
