-- ===== src/Output/Keeps.antt =====
-- terminal/output.h and terminal/output.cpp: the writers go through calls on the screen only.
use bare_metal_programming.Prelude.{
  ℕ, zero, suc, Bool, true, false, if◌then◌else◌, ltb, ◌==◌, List, [], ◌∷◌, get_or, replicate,
  bit_and, ◌>>>◌, ◌*◌, ◌-◌, Option, none, some, wrap_sub,
}
use bare_metal_programming.Tools.Builtin.{count_leading}
use bare_metal_programming.Screen
use bare_metal_programming.Screen.{Screen, get_position, set_position}
use bare_metal_programming.Screen.Reach.{Reached, called, puts, feeds, starts_line}
use bare_metal_programming.Output.{
  Output, IntegerBase, dec, hex, put_char_no_sync, put_hex_prefix, write_string_no_sync, on_buffer,
}
use bare_metal_programming.Output.Digits.{
  Integral, minus, unsigned, signed_int, put_digits, store_digits, write_unsigned_no_sync,
  write_signed_8_no_sync, write_signed_16_no_sync, write_signed_32_no_sync, write_signed_64_no_sync,
}
use bare_metal_programming.Output.Hex.{
  hex_digit, put_nibbles, write_pointer_no_sync, write_hex_8_no_sync, write_hex_16_no_sync,
  write_hex_32_no_sync, write_hex_64_no_sync,
}
use bare_metal_programming.Output.Insert.{
  in_base, write_bool, true_text, false_text, write_signed_hex_8, write_signed_hex_16,
  write_signed_hex_32, write_signed_hex_64,
}
use bare_metal_programming.Output.Arrays.{write_each}

-- `f` keeps the buffer among the screens that calls reach.
abbrev pub Keeps : (Output → Output) → Type 0
Keeps f = (o : Output) → Reached o.buffer → Reached (f o).buffer

pub if-Keeps :
    (b : Bool) (f g : Output → Output) → Keeps f → Keeps g → Keeps (λ o. if b then f o else g o)
if-Keeps true f g p q = p
if-Keeps false f g p q = q

pub put_char-Keeps : (c : ℕ) → Keeps (put_char_no_sync c)
unfolding put_char_no_sync
put_char-Keeps c =
    if-Keeps (c == b'\r') (on_buffer Screen.line_start)
      (λ o. if c == b'\n' then on_buffer Screen.move_to_next_line o else on_buffer (Screen.put c) o)
      (λ o r. called r (starts_line o.buffer))
      (if-Keeps (c == b'\n') (on_buffer Screen.move_to_next_line) (on_buffer (Screen.put c))
        (λ o r. called r (feeds o.buffer)) (λ o r. called r (puts o.buffer c)))

pub write_string-Keeps : (t : List ℕ) → Keeps (write_string_no_sync t)
unfolding write_string_no_sync
write_string-Keeps [] o r = r
write_string-Keeps (c ∷ t) o r = write_string-Keeps t (put_char_no_sync c o) (put_char-Keeps c o r)

pub put_digits-Keeps :
    (digits : List ℕ) (current count : ℕ) → Keeps (put_digits digits current count)
unfolding put_digits
put_digits-Keeps digits current zero o r = r
put_digits-Keeps digits current (suc count) o r =
    put_digits-Keeps digits (suc current) count (put_char_no_sync (get_or digits current 0) o)
      (put_char-Keeps (get_or digits current 0) o r)

pub write_unsigned-Keeps :
    {T : Type 0} (I : Integral T) (value : T) → Keeps (write_unsigned_no_sync I value)
unfolding write_unsigned_no_sync
write_unsigned-Keeps I value o r = go (store_digits I value (replicate I.max_digits 0) I.max_digits)
  where
    go :
        (m : Option (List ℕ × ℕ))
        → Reached
            (elim m as (λ x. Output) [
              | none ↦ o
              | some p ↦ put_digits p.0 p.1 (I.max_digits - p.1) o
            ]).buffer
    go none = r
    go (some p) = put_digits-Keeps p.0 p.1 (I.max_digits - p.1) o r

pub put_nibbles-Keeps : (value count : ℕ) → Keeps (put_nibbles value count)
unfolding put_nibbles
put_nibbles-Keeps value zero o r = r
put_nibbles-Keeps value (suc count) o r =
    put_nibbles-Keeps value count
      (put_char_no_sync (hex_digit (bit_and (value >>> (4 * count)) 0x0F)) o)
      (put_char-Keeps (hex_digit (bit_and (value >>> (4 * count)) 0x0F)) o r)

pub prefix-Keeps : Keeps put_hex_prefix
unfolding put_hex_prefix
prefix-Keeps o r = put_char-Keeps b'x' (put_char_no_sync b'0' o) (put_char-Keeps b'0' o r)

pub in_base-Keeps : (f g : Output → Output) → Keeps f → Keeps g → Keeps (in_base f g)
in_base-Keeps f g p q o r = go o.state
  where
    go : (b : IntegerBase) → Reached (elim b as (λ x. Output) [ dec ↦ f o | hex ↦ g o ]).buffer
    go dec = p o r
    go hex = q o r

-- The two branches of a hexadecimal printer.
pub hex-Keeps :
    (value count : ℕ)
    → Keeps (λ o.
      if value == 0
      then put_char_no_sync b'0' (put_hex_prefix o)
      else put_nibbles value count (put_hex_prefix o))
hex-Keeps value count =
    if-Keeps (value == 0) (λ o. put_char_no_sync b'0' (put_hex_prefix o))
      (λ o. put_nibbles value count (put_hex_prefix o))
      (λ o r. put_char-Keeps b'0' (put_hex_prefix o) (prefix-Keeps o r))
      (λ o r. put_nibbles-Keeps value count (put_hex_prefix o) (prefix-Keeps o r))

pub pointer-Keeps : (clz_zero value : ℕ) → Keeps (write_pointer_no_sync clz_zero value)
unfolding write_pointer_no_sync
pointer-Keeps clz_zero value = λ o r.
    put_nibbles-Keeps value (8 - (if value == 0 then clz_zero else count_leading 32 value) >>> 2)
      (put_hex_prefix o) (prefix-Keeps o r)

pub bool-Keeps : (b : Bool) → Keeps (write_bool b)
unfolding write_bool
bool-Keeps b o r =
    if-Keeps o.bool_alpha_enabled (write_string_no_sync (if b then true_text else false_text))
      (put_char_no_sync (if b then b'1' else b'0'))
      (write_string-Keeps (if b then true_text else false_text))
      (put_char-Keeps (if b then b'1' else b'0')) o r

pub write_each-Keeps :
    {A : Type 0} (f : A → Output → Output)
    → ((a : A) → Keeps (f a))
    → (l : List A) → Keeps (write_each f l)
unfolding write_each
write_each-Keeps f p [] o r = r
write_each-Keeps f p (a ∷ l) o r = write_each-Keeps f p l (f a o) (p a o r)

pub hex_8-Keeps : (value : ℕ) → Keeps (write_hex_8_no_sync value)
unfolding write_hex_8_no_sync
hex_8-Keeps value = hex-Keeps value (2 - (count_leading 32 value - 24) >>> 2)

pub signed_8-Keeps : (value : ℕ) → Keeps (write_signed_8_no_sync value)
unfolding write_signed_8_no_sync
signed_8-Keeps value =
    if-Keeps (ltb 127 value)
      (λ o. write_unsigned_no_sync signed_int (minus value) (put_char_no_sync b'-' o))
      (write_unsigned_no_sync (unsigned 8) value)
      (λ o r.
        write_unsigned-Keeps signed_int (minus value) (put_char_no_sync b'-' o)
          (put_char-Keeps b'-' o r))
      (write_unsigned-Keeps (unsigned 8) value)

pub signed_hex_8-Keeps : (value : ℕ) → Keeps (write_signed_hex_8 value)
unfolding write_signed_hex_8
signed_hex_8-Keeps value =
    if-Keeps (ltb 127 value)
      (λ o. write_hex_8_no_sync (wrap_sub 8 0 value) (put_char_no_sync b'-' o))
      (write_hex_8_no_sync value)
      (λ o r. hex_8-Keeps (wrap_sub 8 0 value) (put_char_no_sync b'-' o) (put_char-Keeps b'-' o r))
      (hex_8-Keeps value)

pub hex_16-Keeps : (value : ℕ) → Keeps (write_hex_16_no_sync value)
unfolding write_hex_16_no_sync
hex_16-Keeps value = hex-Keeps value (4 - (count_leading 32 value - 16) >>> 2)

pub signed_16-Keeps : (value : ℕ) → Keeps (write_signed_16_no_sync value)
unfolding write_signed_16_no_sync
signed_16-Keeps value =
    if-Keeps (ltb 32767 value)
      (λ o. write_unsigned_no_sync signed_int (minus value) (put_char_no_sync b'-' o))
      (write_unsigned_no_sync (unsigned 16) value)
      (λ o r.
        write_unsigned-Keeps signed_int (minus value) (put_char_no_sync b'-' o)
          (put_char-Keeps b'-' o r))
      (write_unsigned-Keeps (unsigned 16) value)

pub signed_hex_16-Keeps : (value : ℕ) → Keeps (write_signed_hex_16 value)
unfolding write_signed_hex_16
signed_hex_16-Keeps value =
    if-Keeps (ltb 32767 value)
      (λ o. write_hex_16_no_sync (wrap_sub 16 0 value) (put_char_no_sync b'-' o))
      (write_hex_16_no_sync value)
      (λ o r.
        hex_16-Keeps (wrap_sub 16 0 value) (put_char_no_sync b'-' o) (put_char-Keeps b'-' o r))
      (hex_16-Keeps value)

pub hex_32-Keeps : (value : ℕ) → Keeps (write_hex_32_no_sync value)
unfolding write_hex_32_no_sync
hex_32-Keeps value = hex-Keeps value (8 - count_leading 32 value >>> 2)

pub signed_32-Keeps : (value : ℕ) → Keeps (write_signed_32_no_sync value)
unfolding write_signed_32_no_sync
signed_32-Keeps value =
    if-Keeps (ltb 2147483647 value)
      (λ o. write_unsigned_no_sync (unsigned 32) (wrap_sub 32 0 value) (put_char_no_sync b'-' o))
      (write_unsigned_no_sync (unsigned 32) value)
      (λ o r.
        write_unsigned-Keeps (unsigned 32) (wrap_sub 32 0 value) (put_char_no_sync b'-' o)
          (put_char-Keeps b'-' o r))
      (write_unsigned-Keeps (unsigned 32) value)

pub signed_hex_32-Keeps : (value : ℕ) → Keeps (write_signed_hex_32 value)
unfolding write_signed_hex_32
signed_hex_32-Keeps value =
    if-Keeps (ltb 2147483647 value)
      (λ o. write_hex_32_no_sync (wrap_sub 32 0 value) (put_char_no_sync b'-' o))
      (write_hex_32_no_sync value)
      (λ o r.
        hex_32-Keeps (wrap_sub 32 0 value) (put_char_no_sync b'-' o) (put_char-Keeps b'-' o r))
      (hex_32-Keeps value)

pub hex_64-Keeps : (value : ℕ) → Keeps (write_hex_64_no_sync value)
unfolding write_hex_64_no_sync
hex_64-Keeps value = hex-Keeps value (16 - count_leading 64 value >>> 2)

pub signed_64-Keeps : (value : ℕ) → Keeps (write_signed_64_no_sync value)
unfolding write_signed_64_no_sync
signed_64-Keeps value =
    if-Keeps (ltb 9223372036854775807 value)
      (λ o. write_unsigned_no_sync (unsigned 64) (wrap_sub 64 0 value) (put_char_no_sync b'-' o))
      (write_unsigned_no_sync (unsigned 64) value)
      (λ o r.
        write_unsigned-Keeps (unsigned 64) (wrap_sub 64 0 value) (put_char_no_sync b'-' o)
          (put_char-Keeps b'-' o r))
      (write_unsigned-Keeps (unsigned 64) value)

pub signed_hex_64-Keeps : (value : ℕ) → Keeps (write_signed_hex_64 value)
unfolding write_signed_hex_64
signed_hex_64-Keeps value =
    if-Keeps (ltb 9223372036854775807 value)
      (λ o. write_hex_64_no_sync (wrap_sub 64 0 value) (put_char_no_sync b'-' o))
      (write_hex_64_no_sync value)
      (λ o r.
        hex_64-Keeps (wrap_sub 64 0 value) (put_char_no_sync b'-' o) (put_char-Keeps b'-' o r))
      (hex_64-Keeps value)
