-- ===== src/Output/Hexadecimal.antt =====
-- terminal/output.cpp, lines 30 to 42 and 92 to 170: the loops over the nibbles write the
-- hexadecimal numeral.
use bare_metal_programming.Prelude.{
  ℕ, zero, suc, ◌-◌, ◌*◌, ◌/◌, ◌^◌, ◌≤◌, ◌<◌, ◌≡◌, refl, arith, true, false, ◌==◌, if◌then◌else◌,
  List, [], ◌∷◌,
}
use bare_metal_programming.Tools.Builtin.{count_leading}
use bare_metal_programming.Output.{Output, put_char_no_sync, put_hex_prefix, write_string_no_sync}
use bare_metal_programming.Output.Hex.{
  put_nibbles, write_pointer_no_sync, write_hex_8_no_sync, write_hex_16_no_sync,
  write_hex_32_no_sync, write_hex_64_no_sync,
}
use bare_metal_programming.Output.Nibbles.{
  count_leading_bounds, nibbles, put_nibbles-nibbles, length-nibbles, enough_nibbles, narrow_zeros,
}
use bare_metal_programming.Output.Numeral.{Writes, Writes-same, reading}

abbrev pub hex_prefix : List ℕ
hex_prefix = b'0' ∷ b'x' ∷ []

-- The part that all the widths share.
put_nibbles-Writes :
    (total lz value : ℕ)
    → lz < 4 * total
    → 2 ^ (4 * total - 1 - lz) ≤ value
    → value < 2 ^ (4 * total - lz)
    → Writes hex_prefix 16 value total (λ o. put_nibbles value (total - lz / 4) (put_hex_prefix o))
unfolding put_hex_prefix write_string_no_sync
put_nibbles-Writes total lz value inside low high = record {
  text = nibbles value (total - lz / 4);
  written = λ o. put_nibbles-nibbles value (total - lz / 4) (put_hex_prefix o);
  numeral = enough_nibbles total lz value inside low high;
  fits = omega (arith, length-nibbles value (total - lz / 4));
}

-- Zero is written as one digit.
zero-Writes :
    (size : ℕ)
    → 0 < size
    → Writes hex_prefix 16 0 size (λ o. put_char_no_sync b'0' (put_hex_prefix o))
unfolding put_hex_prefix write_string_no_sync reading
zero-Writes size h = record {
  text = b'0' ∷ [];
  written = λ o. refl;
  numeral = record {
    digits = omega arith;
    reads = refl;
    some_digit = omega arith;
    shortest = λ e. refl;
  };
  fits = omega arith;
}

-- A printer that writes "0x0" at 0 and the nibbles at other values.
by_cases :
    (total lz value : ℕ) (write : Output → Output)
    → 0 < total
    → (value ≡ 0 → (o : Output) → write o ≡ put_char_no_sync b'0' (put_hex_prefix o))
    → (0 < value → (o : Output) → write o ≡ put_nibbles value (total - lz / 4) (put_hex_prefix o))
    → (0 < value
        → (lz < 4 * total) × (2 ^ (4 * total - 1 - lz) ≤ value) × (value < 2 ^ (4 * total - lz)))
    → Writes hex_prefix 16 value total write
by_cases total lz zero write t zero_case other_case bounds =
    Writes-same (zero_case refl) (zero-Writes total t)
by_cases total lz (suc v) write t zero_case other_case bounds =
    let (inside, low, high) = bounds (omega arith) in
    Writes-same (other_case (omega arith)) (put_nibbles-Writes total lz (suc v) inside low high)

-- The two branches of a printer of `value`.
branches :
    (value : ℕ) (z n : Output → Output)
    → (value ≡ 0 → (o : Output) → (if value == 0 then z o else n o) ≡ z o)
      × (0 < value → (o : Output) → (if value == 0 then z o else n o) ≡ n o)
branches value z n = (
  λ e o. let is : (value == 0) ≡ true = ground arith in rw is refl,
  λ p o. let not_zero : (value == 0) ≡ false = ground arith in rw not_zero refl,
)

-- For every value of the four unsigned widths, the hexadecimal printers write "0x" and the shortest
-- numeral of the value in the digits 0 to 9 and A to F, which has at most one digit for four bits.
-- `write_pointer` does so for every pointer but the null pointer, whatever `__builtin_clz` gives at 0.
pub write_hex-Writes :
    (value clz_zero : ℕ)
    → (value < 2 ^ 8 → Writes hex_prefix 16 value 2 (write_hex_8_no_sync value))
      × (value < 2 ^ 16 → Writes hex_prefix 16 value 4 (write_hex_16_no_sync value))
      × (value < 2 ^ 32 → Writes hex_prefix 16 value 8 (write_hex_32_no_sync value))
      × (value < 2 ^ 64 → Writes hex_prefix 16 value 16 (write_hex_64_no_sync value))
      × (0 < value
          → value < 2 ^ 32
          → Writes hex_prefix 16 value 8 (write_pointer_no_sync clz_zero value))
unfolding write_hex_8_no_sync write_hex_16_no_sync write_hex_32_no_sync write_hex_64_no_sync
    write_pointer_no_sync
write_hex-Writes value clz_zero = (
  λ h.
      by_cases 2 (count_leading 32 value - 24) value (write_hex_8_no_sync value) (omega arith)
        (branches value (z) (n (2 - (count_leading 32 value - 24) / 4))).0
        (branches value (z) (n (2 - (count_leading 32 value - 24) / 4))).1
        (λ p. narrow_zeros 2 value (omega arith) p h),
  λ h.
      by_cases 4 (count_leading 32 value - 16) value (write_hex_16_no_sync value) (omega arith)
        (branches value (z) (n (4 - (count_leading 32 value - 16) / 4))).0
        (branches value (z) (n (4 - (count_leading 32 value - 16) / 4))).1
        (λ p. narrow_zeros 4 value (omega arith) p h),
  λ h.
      by_cases 8 (count_leading 32 value) value (write_hex_32_no_sync value) (omega arith)
        (branches value (z) (n (8 - count_leading 32 value / 4))).0
        (branches value (z) (n (8 - count_leading 32 value / 4))).1
        (λ p. count_leading_bounds 32 value p h),
  λ h.
      by_cases 16 (count_leading 64 value) value (write_hex_64_no_sync value) (omega arith)
        (branches value (z) (n (16 - count_leading 64 value / 4))).0
        (branches value (z) (n (16 - count_leading 64 value / 4))).1
        (λ p. count_leading_bounds 64 value p h),
  λ p h.
      let not_null : (value == 0) ≡ false = ground arith in
      let (inside, low, high) = count_leading_bounds 32 value p h in
      Writes-same (λ o. rw not_null refl)
        (put_nibbles-Writes 8 (count_leading 32 value) value inside low high),
)
  where
    z : Output → Output
    z o = put_char_no_sync b'0' (put_hex_prefix o)

    n : ℕ → Output → Output
    n count o = put_nibbles value count (put_hex_prefix o)
