-- ===== src/Output/Tests.antt =====
-- Runs of the printers of terminal/output.cpp, and the theorems at concrete values.
use bare_metal_programming.Prelude.{
  ℕ, ◌-◌, ◌^◌, ◌≤◌, ◌<◌, ◌≡◌, refl, arith, inl, List, [], ◌∷◌, some, false,
}
use bare_metal_programming.Screen.{fresh}
use bare_metal_programming.Screen.View.{IsScreen}
use bare_metal_programming.Output.{Output, dec, initialize}
use bare_metal_programming.Output.Digits.{
  unsigned, signed_int, minus, write_unsigned_no_sync, write_signed_8_no_sync,
  write_signed_16_no_sync, write_signed_32_no_sync, write_signed_64_no_sync,
}
use bare_metal_programming.Output.Hex.{
  write_hex_8_no_sync, write_hex_16_no_sync, write_hex_32_no_sync, write_hex_64_no_sync,
  write_pointer_no_sync,
}
use bare_metal_programming.Output.Chain.{Item, insert_all, string, uint8, int16, to_hex, pointer}
use bare_metal_programming.Output.Numeral.{Writes}
use bare_metal_programming.Output.Decimal.{spelled, write_unsigned_no_sync-Writes}
use bare_metal_programming.Output.Signed.{WritesMirrored, write_signed_wide, write_signed_narrow}
use bare_metal_programming.Output.Hexadecimal.{hex_prefix, write_hex-Writes}
use bare_metal_programming.Output.Synced.{IsSynced, insert_all-IsSynced}

-- -5 as an `int8_t`: 251 in `int`, negated, comes out as ".+/".
minus_five : spelled signed_int 10 (minus 251) [] ≡ some (b'.' ∷ b'+' ∷ b'/' ∷ [])
unfolding spelled
minus_five = refl

two_digits : spelled (unsigned 8) 3 42 [] ≡ some (b'4' ∷ b'2' ∷ [])
unfolding spelled
two_digits = refl

write_unsigned_no_sync-Writes_example : Writes [] 10 255 3 (write_unsigned_no_sync (unsigned 8) 255)
write_unsigned_no_sync-Writes_example = write_unsigned_no_sync-Writes 8 255 (inl refl) (omega arith)

abbrev minus_two : ℕ
minus_two = 2 ^ 32 - 2

write_signed_wide_example :
    (minus_two < 2 ^ 31 → Writes [] 10 minus_two 10 (write_signed_32_no_sync minus_two))
    × (2 ^ 31 ≤ minus_two
        → minus_two < 2 ^ 32
        → Writes (b'-' ∷ []) 10 (2 ^ 32 - minus_two) 10 (write_signed_32_no_sync minus_two))
    × (minus_two < 2 ^ 63 → Writes [] 10 minus_two 20 (write_signed_64_no_sync minus_two))
    × (2 ^ 63 ≤ minus_two
        → minus_two < 2 ^ 64
        → Writes (b'-' ∷ []) 10 (2 ^ 64 - minus_two) 20 (write_signed_64_no_sync minus_two))
write_signed_wide_example = write_signed_wide minus_two

abbrev pattern_of_minus_five : ℕ
pattern_of_minus_five = 251

write_signed_narrow_example :
    (pattern_of_minus_five < 2 ^ 7
      → Writes [] 10 pattern_of_minus_five 3 (write_signed_8_no_sync pattern_of_minus_five))
    × (2 ^ 7 ≤ pattern_of_minus_five
        → pattern_of_minus_five < 2 ^ 8
        → WritesMirrored pattern_of_minus_five (write_signed_8_no_sync pattern_of_minus_five))
    × (pattern_of_minus_five < 2 ^ 15
        → Writes [] 10 pattern_of_minus_five 5 (write_signed_16_no_sync pattern_of_minus_five))
    × (2 ^ 15 ≤ pattern_of_minus_five
        → pattern_of_minus_five < 2 ^ 16
        → WritesMirrored pattern_of_minus_five (write_signed_16_no_sync pattern_of_minus_five))
write_signed_narrow_example = write_signed_narrow pattern_of_minus_five

abbrev a_value : ℕ
a_value = 0xAB

write_hex-Writes_example :
    (a_value < 2 ^ 8 → Writes hex_prefix 16 a_value 2 (write_hex_8_no_sync a_value))
    × (a_value < 2 ^ 16 → Writes hex_prefix 16 a_value 4 (write_hex_16_no_sync a_value))
    × (a_value < 2 ^ 32 → Writes hex_prefix 16 a_value 8 (write_hex_32_no_sync a_value))
    × (a_value < 2 ^ 64 → Writes hex_prefix 16 a_value 16 (write_hex_64_no_sync a_value))
    × (0 < a_value
        → a_value < 2 ^ 32
        → Writes hex_prefix 16 a_value 8 (write_pointer_no_sync 0 a_value))
write_hex-Writes_example = write_hex-Writes a_value 0

abbrev some_items : List Item
some_items = string (b'n' ∷ b'\n' ∷ []) ∷ uint8 7 ∷ to_hex ∷ int16 0xFFFF ∷ pointer 0xB8000 ∷ []

abbrev at_start : Output
at_start = record { buffer = fresh (λ i. 0) 1; state = dec; bool_alpha_enabled = false }

insert_all-IsSynced_example :
    IsSynced (insert_all 0 some_items (initialize 0 0 at_start))
    × IsScreen (insert_all 0 some_items (initialize 0 0 at_start)).buffer
insert_all-IsSynced_example = insert_all-IsSynced 0 some_items 0 0 at_start
