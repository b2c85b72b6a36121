-- ===== src/Output/Hex.antt =====
-- terminal/output.cpp, lines 1 to 9, 30 to 42 and 92 to 170: hexadecimal numbers and pointers.
use bare_metal_programming.Prelude.{
  ℕ, zero, suc, ◌-◌, ◌*◌, bit_and, ◌>>>◌, ◌==◌, if◌then◌else◌, List, [], ◌∷◌, get_or,
}
use bare_metal_programming.Tools.Builtin.{count_leading}
use bare_metal_programming.Output.{Output, put_char_no_sync, put_hex_prefix}

abbrev pub table : List ℕ
table =
    b'0' ∷ b'1' ∷ b'2' ∷ b'3' ∷ b'4' ∷ b'5' ∷ b'6' ∷ b'7' ∷ b'8' ∷ b'9' ∷ b'A' ∷ b'B' ∷ b'C' ∷ b'D'
    ∷ b'E' ∷ b'F' ∷ []

abbrev pub hex_digit : ℕ → ℕ
hex_digit nibble = get_or table nibble 0

-- The loop over `shift`, which steps by 4 down to 0, `count` times: none if it starts below 0.
unfoldable pub put_nibbles : ℕ → ℕ → Output → Output
put_nibbles value zero o = o
put_nibbles value (suc count) o =
    put_nibbles value count (put_char_no_sync (hex_digit (bit_and (value >>> (4 * count)) 0x0F)) o)

-- `clz` at 0 is undefined: `clz_zero` is what it gives.
unfoldable pub write_pointer_no_sync : ℕ → ℕ → Output → Output
write_pointer_no_sync clz_zero value o =
    let leading_zeros = (if value == 0 then clz_zero else count_leading 32 value) >>> 2 in
    put_nibbles value (8 - leading_zeros) (put_hex_prefix o)

unfoldable pub write_hex_8_no_sync : ℕ → Output → Output
write_hex_8_no_sync value o =
    let o' = put_hex_prefix o in
    if value == 0
    then put_char_no_sync b'0' o'
    else put_nibbles value (2 - (count_leading 32 value - 24) >>> 2) o'

unfoldable pub write_hex_16_no_sync : ℕ → Output → Output
write_hex_16_no_sync value o =
    let o' = put_hex_prefix o in
    if value == 0
    then put_char_no_sync b'0' o'
    else put_nibbles value (4 - (count_leading 32 value - 16) >>> 2) o'

unfoldable pub write_hex_32_no_sync : ℕ → Output → Output
write_hex_32_no_sync value o =
    let o' = put_hex_prefix o in
    if value == 0
    then put_char_no_sync b'0' o'
    else put_nibbles value (8 - count_leading 32 value >>> 2) o'

unfoldable pub write_hex_64_no_sync : ℕ → Output → Output
write_hex_64_no_sync value o =
    let o' = put_hex_prefix o in
    if value == 0
    then put_char_no_sync b'0' o'
    else put_nibbles value (16 - count_leading 64 value >>> 2) o'
