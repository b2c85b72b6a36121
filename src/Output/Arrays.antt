-- ===== src/Output/Arrays.antt =====
-- terminal/output.h, lines 207 to 415: the operators `<<` for arrays. All write one element after
-- the other, in the base that holds when the call starts, and move the hardware cursor once.
use bare_metal_programming.Prelude.{ℕ, Bool, List, [], ◌∷◌}
use bare_metal_programming.Output.{Output, sync_cursor, write_string_no_sync}
use bare_metal_programming.Output.Digits.{
  unsigned, write_unsigned_no_sync, write_signed_8_no_sync, write_signed_16_no_sync,
  write_signed_32_no_sync, write_signed_64_no_sync,
}
use bare_metal_programming.Output.Hex.{
  write_hex_8_no_sync, write_hex_16_no_sync, write_hex_32_no_sync, write_hex_64_no_sync,
}
use bare_metal_programming.Output.Insert.{
  in_base, write_bool, write_signed_hex_8, write_signed_hex_16, write_signed_hex_32,
  write_signed_hex_64,
}

-- `for(curr = value; curr < end; ++curr)`
unfoldable pub write_each {ℓ} : {A : Type ℓ} → (A → Output → Output) → List A → Output → Output
write_each write [] o = o
write_each write (a ∷ values) o = write_each write values (write a o)

unfoldable pub insert_text : List ℕ → Output → Output
insert_text text o = sync_cursor (write_string_no_sync text o)

unfoldable pub insert_uint8s : List ℕ → Output → Output
insert_uint8s values o = sync_cursor (
    in_base (write_each (write_unsigned_no_sync (unsigned 8)) values)
      (write_each write_hex_8_no_sync values) o)

unfoldable pub insert_int8s : List ℕ → Output → Output
insert_int8s values o =
    sync_cursor
      (in_base (write_each write_signed_8_no_sync values) (write_each write_signed_hex_8 values) o)

unfoldable pub insert_uint16s : List ℕ → Output → Output
insert_uint16s values o = sync_cursor (
    in_base (write_each (write_unsigned_no_sync (unsigned 16)) values)
      (write_each write_hex_16_no_sync values) o)

unfoldable pub insert_int16s : List ℕ → Output → Output
insert_int16s values o =
    sync_cursor (
      in_base (write_each write_signed_16_no_sync values) (write_each write_signed_hex_16 values) o)

unfoldable pub insert_uint32s : List ℕ → Output → Output
insert_uint32s values o = sync_cursor (
    in_base (write_each (write_unsigned_no_sync (unsigned 32)) values)
      (write_each write_hex_32_no_sync values) o)

unfoldable pub insert_int32s : List ℕ → Output → Output
insert_int32s values o =
    sync_cursor (
      in_base (write_each write_signed_32_no_sync values) (write_each write_signed_hex_32 values) o)

unfoldable pub insert_uint64s : List ℕ → Output → Output
insert_uint64s values o = sync_cursor (
    in_base (write_each (write_unsigned_no_sync (unsigned 64)) values)
      (write_each write_hex_64_no_sync values) o)

unfoldable pub insert_int64s : List ℕ → Output → Output
insert_int64s values o =
    sync_cursor (
      in_base (write_each write_signed_64_no_sync values) (write_each write_signed_hex_64 values) o)

unfoldable pub insert_bools : List Bool → Output → Output
insert_bools values o = sync_cursor (write_each write_bool values o)
