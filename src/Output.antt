-- ===== src/Output.antt =====
-- terminal/output.h and terminal/output.cpp: formatted output. An object of the class is the flags
-- and the screen, which all objects share. A character is its code, and a string the codes before
-- its terminator. An integer of a signed type is its bit pattern.
pub mod Digits
pub mod Hex
pub mod Insert
pub mod Arrays
pub mod Numeral
pub mod Decimal
pub mod Signed
pub mod Nibbles
pub mod Hexadecimal
pub mod Chain
pub mod Keeps
pub mod Synced
pub mod Tests
use bare_metal_programming.Prelude.{
  ℕ, zero, suc, ◌+◌, Bool, true, false, ◌==◌, if◌then◌else◌, List, [], ◌∷◌,
}
use bare_metal_programming.Screen
use bare_metal_programming.Screen.{Screen}

pub data IntegerBase : Type 0 where
  dec : IntegerBase
  hex : IntegerBase

pub record Output : Type 0 where
  pub buffer : Screen
  pub state : IntegerBase
  pub bool_alpha_enabled : Bool

-- A call on the shared buffer.
abbrev pub on_buffer : (Screen → Screen) → Output → Output
on_buffer f o = record o { buffer = f o.buffer }

abbrev pub new_line : Output → Output
new_line = on_buffer Screen.move_to_next_line

abbrev pub line_start : Output → Output
line_start = on_buffer Screen.line_start

abbrev pub sync_cursor : Output → Output
sync_cursor = on_buffer λ s. Screen.set_position (Screen.get_position s) s

unfoldable pub put_char_no_sync : ℕ → Output → Output
put_char_no_sync c o =
    if c == b'\r'
    then line_start o
    else if c == b'\n'
    then new_line o
    else on_buffer (Screen.put c) o

unfoldable pub write_string_no_sync : List ℕ → Output → Output
write_string_no_sync [] o = o
write_string_no_sync (c ∷ text) o = write_string_no_sync text (put_char_no_sync c o)

unfoldable pub put_hex_prefix : Output → Output
put_hex_prefix o = put_char_no_sync b'x' (put_char_no_sync b'0' o)

-- `cursor_start` and `cursor_end`: what the cursor's registers hold.
unfoldable pub initialize : ℕ → ℕ → Output → Output
initialize cursor_start cursor_end o =
    sync_cursor (on_buffer (Screen.enable cursor_start cursor_end 14 15) (on_buffer Screen.clear o))
