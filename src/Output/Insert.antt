-- ===== src/Output/Insert.antt =====
-- terminal/output.cpp, lines 180 to 398: the operators `<<` and the manipulators.
use bare_metal_programming.Prelude.{
  ℕ, Bool, true, false, wrap_sub, ltb, if◌then◌else◌, List, [], ◌∷◌,
}
use bare_metal_programming.Output.{
  Output, dec, hex, put_char_no_sync, sync_cursor, write_string_no_sync,
}
use bare_metal_programming.Output.Digits.{
  unsigned, write_unsigned_no_sync, write_signed_8_no_sync, write_signed_16_no_sync,
  write_signed_32_no_sync, write_signed_64_no_sync,
}
use bare_metal_programming.Output.Hex.{
  write_hex_8_no_sync, write_hex_16_no_sync, write_hex_32_no_sync, write_hex_64_no_sync,
  write_pointer_no_sync,
}

-- `switch(state)`
abbrev pub in_base : (Output → Output) → (Output → Output) → Output → Output
in_base decimal hexadecimal o = elim o.state [ dec ↦ decimal o | hex ↦ hexadecimal o ]

unfoldable pub insert_char : ℕ → Output → Output
insert_char c o = sync_cursor (put_char_no_sync c o)

unfoldable pub insert_string : List ℕ → Output → Output
insert_string text o = sync_cursor (write_string_no_sync text o)

unfoldable pub insert_uint8 : ℕ → Output → Output
insert_uint8 value o =
    sync_cursor (in_base (write_unsigned_no_sync (unsigned 8) value) (write_hex_8_no_sync value) o)

-- The hexadecimal digits of an `int8_t` behind its sign.
unfoldable pub write_signed_hex_8 : ℕ → Output → Output
write_signed_hex_8 value o =
    if ltb 127 value
    then write_hex_8_no_sync (wrap_sub 8 0 value) (put_char_no_sync b'-' o)
    else write_hex_8_no_sync value o

unfoldable pub insert_int8 : ℕ → Output → Output
insert_int8 value o =
    sync_cursor (in_base (write_signed_8_no_sync value) (write_signed_hex_8 value) o)

unfoldable pub insert_uint16 : ℕ → Output → Output
insert_uint16 value o =
    sync_cursor
      (in_base (write_unsigned_no_sync (unsigned 16) value) (write_hex_16_no_sync value) o)

-- The hexadecimal digits of an `int16_t` behind its sign.
unfoldable pub write_signed_hex_16 : ℕ → Output → Output
write_signed_hex_16 value o =
    if ltb 32767 value
    then write_hex_16_no_sync (wrap_sub 16 0 value) (put_char_no_sync b'-' o)
    else write_hex_16_no_sync value o

unfoldable pub insert_int16 : ℕ → Output → Output
insert_int16 value o =
    sync_cursor (in_base (write_signed_16_no_sync value) (write_signed_hex_16 value) o)

unfoldable pub insert_uint32 : ℕ → Output → Output
insert_uint32 value o =
    sync_cursor
      (in_base (write_unsigned_no_sync (unsigned 32) value) (write_hex_32_no_sync value) o)

-- The hexadecimal digits of an `int32_t` behind its sign.
unfoldable pub write_signed_hex_32 : ℕ → Output → Output
write_signed_hex_32 value o =
    if ltb 2147483647 value
    then write_hex_32_no_sync (wrap_sub 32 0 value) (put_char_no_sync b'-' o)
    else write_hex_32_no_sync value o

unfoldable pub insert_int32 : ℕ → Output → Output
insert_int32 value o =
    sync_cursor (in_base (write_signed_32_no_sync value) (write_signed_hex_32 value) o)

unfoldable pub insert_uint64 : ℕ → Output → Output
insert_uint64 value o =
    sync_cursor
      (in_base (write_unsigned_no_sync (unsigned 64) value) (write_hex_64_no_sync value) o)

-- The hexadecimal digits of an `int64_t` behind its sign.
unfoldable pub write_signed_hex_64 : ℕ → Output → Output
write_signed_hex_64 value o =
    if ltb 9223372036854775807 value
    then write_hex_64_no_sync (wrap_sub 64 0 value) (put_char_no_sync b'-' o)
    else write_hex_64_no_sync value o

unfoldable pub insert_int64 : ℕ → Output → Output
insert_int64 value o =
    sync_cursor (in_base (write_signed_64_no_sync value) (write_signed_hex_64 value) o)

abbrev pub true_text : List ℕ
true_text = b't' ∷ b'r' ∷ b'u' ∷ b'e' ∷ []

abbrev pub false_text : List ℕ
false_text = b'f' ∷ b'a' ∷ b'l' ∷ b's' ∷ b'e' ∷ []

-- The character '0' + value, or the word.
unfoldable pub write_bool : Bool → Output → Output
write_bool value o =
    if o.bool_alpha_enabled
    then write_string_no_sync (if value then true_text else false_text) o
    else put_char_no_sync (if value then b'1' else b'0') o

unfoldable pub insert_bool : Bool → Output → Output
insert_bool value o = sync_cursor (write_bool value o)

unfoldable pub insert_pointer : ℕ → ℕ → Output → Output
insert_pointer clz_zero ptr o = sync_cursor (write_pointer_no_sync clz_zero ptr o)

abbrev pub set_dec : Output → Output
set_dec o = record o { state = dec }

abbrev pub set_hex : Output → Output
set_hex o = record o { state = hex }

abbrev pub bool_alpha : Output → Output
bool_alpha o = record o { bool_alpha_enabled = true }

abbrev pub bool_no_alpha : Output → Output
bool_no_alpha o = record o { bool_alpha_enabled = false }
