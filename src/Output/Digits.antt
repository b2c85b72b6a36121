-- ===== src/Output/Digits.antt =====
-- terminal/output.h, lines 46 to 66, and terminal/output.cpp, lines 44 to 90: decimal numbers.
use bare_metal_programming.Prelude.{
  ℕ, zero, suc, ◌+◌, ◌-◌, ◌*◌, ◌/◌, Bool, false, cast, wrap_sub, ltb, ◌==◌, if◌then◌else◌, List,
  Option, none, some, get_or, set, replicate,
}
use bare_metal_programming.Output.{Output, put_char_no_sync}

-- The values of `int`; `negsuc n` is -(n + 1).
pub data ℤ : Type 0 where
  pos : ℕ → ℤ
  negsuc : ℕ → ℤ

abbrev pub minus : ℕ → ℤ
minus zero = pos 0
minus (suc n) = negsuc n

-- What the template uses of its type `T`: `value / 10`, the character of `value - (value / 10) * 10`,
-- `value == 0`, and the size of the buffer.
pub record Integral (T : Type 0) : Type 0 where
  pub tenth : T → T
  pub digit : T → ℕ
  pub is_zero : T → Bool
  pub max_digits : ℕ

abbrev pub size_of_digits : ℕ → ℕ
size_of_digits w = if w == 8 then 3 else if w == 16 then 5 else if w == 32 then 10 else 20

-- An unsigned type of `w` bits.
abbrev pub unsigned : ℕ → Integral ℕ
unsigned w = record {
  tenth = λ n. n / 10;
  digit = λ n. cast 8 (b'0' + (n - n / 10 * 10));
  is_zero = λ n. n == 0;
  max_digits = size_of_digits w;
}

abbrev pub int_tenth : ℤ → ℤ
int_tenth (pos n) = pos (n / 10)
int_tenth (negsuc n) = minus (suc n / 10)

-- The remainder has the sign of the value.
abbrev pub int_digit : ℤ → ℕ
int_digit (pos n) = cast 8 (b'0' + (n - n / 10 * 10))
int_digit (negsuc n) = wrap_sub 8 b'0' (suc n - suc n / 10 * 10)

abbrev pub int_is_zero : ℤ → Bool
int_is_zero (pos n) = n == 0
int_is_zero (negsuc n) = false

-- `int`, of four bytes.
abbrev pub signed_int : Integral ℤ
signed_int = record { tenth = int_tenth; digit = int_digit; is_zero = int_is_zero; max_digits = 10 }

module _ {T : Type 0} (I : Integral T) where
  -- The digits are stored from the end of the buffer on; a store in front of it gives `none`.
  unfoldable pub store_digits : T → List ℕ → ℕ → Option (List ℕ × ℕ)
  store_digits value digits zero = none
  store_digits value digits (suc current) =
      let stored = set digits current (I.digit value) in
      let rest = store_digits (I.tenth value) stored current in
      if I.is_zero (I.tenth value) then some (stored, current) else rest

-- The characters `*current` up to `end`, `count` of them.
unfoldable pub put_digits : List ℕ → ℕ → ℕ → Output → Output
put_digits digits current zero o = o
put_digits digits current (suc count) o =
    put_digits digits (suc current) count (put_char_no_sync (get_or digits current 0) o)

module _ {T : Type 0} (I : Integral T) where
  -- After a store in front of the buffer, which is undefined, nothing is written.
  unfoldable pub write_unsigned_no_sync : T → Output → Output
  write_unsigned_no_sync value o =
      elim (store_digits I value (replicate I.max_digits 0) I.max_digits) [
        | none ↦ o
        | some p ↦ put_digits p.0 p.1 (I.max_digits - p.1) o
      ]

-- `0 - value` is computed in `int` for the two narrow types, and the template is that of `int`.
unfoldable pub write_signed_8_no_sync : ℕ → Output → Output
write_signed_8_no_sync value o =
    if ltb 127 value
    then write_unsigned_no_sync signed_int (minus value) (put_char_no_sync b'-' o)
    else write_unsigned_no_sync (unsigned 8) value o

unfoldable pub write_signed_16_no_sync : ℕ → Output → Output
write_signed_16_no_sync value o =
    if ltb 32767 value
    then write_unsigned_no_sync signed_int (minus value) (put_char_no_sync b'-' o)
    else write_unsigned_no_sync (unsigned 16) value o

unfoldable pub write_signed_32_no_sync : ℕ → Output → Output
write_signed_32_no_sync value o =
    if ltb 2147483647 value
    then write_unsigned_no_sync (unsigned 32) (wrap_sub 32 0 value) (put_char_no_sync b'-' o)
    else write_unsigned_no_sync (unsigned 32) value o

unfoldable pub write_signed_64_no_sync : ℕ → Output → Output
write_signed_64_no_sync value o =
    if ltb 9223372036854775807 value
    then write_unsigned_no_sync (unsigned 64) (wrap_sub 64 0 value) (put_char_no_sync b'-' o)
    else write_unsigned_no_sync (unsigned 64) value o
