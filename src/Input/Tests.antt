-- ===== src/Input/Tests.antt =====
-- Concrete runs of the input line: "ab" with the cursor on 'b'.
use bare_metal_programming.Prelude.{
  ℕ, zero, suc, ◌<◌, ◌≢◌, refl, arith, false, List, [], ◌∷◌, replicate,
}
use bare_metal_programming.Keyboard.Key
use bare_metal_programming.Keyboard.Events.{KeyboardEvent, pressed}
use bare_metal_programming.Input.Handlers.{start_data_receiving}
use bare_metal_programming.Input.Ready.{Received, start_data_receiving-Received}
use bare_metal_programming.Input.{Line, add_character, delete_character, trim_end}
use bare_metal_programming.Input.Trim.{Trimmed, trim_end-Trimmed}
use bare_metal_programming.Input.Laws.{IsLine, char_at}
use bare_metal_programming.Input.Edit.{
  Added, Deleted, SameText, add_character-Added, delete_character-Deleted,
  delete_character-add_character,
}

abbrev line : Line
line = record {
  cursor = 1;
  data_end = 2;
  input_buffer = 97 ∷ 98 ∷ replicate 127 0;
  input_ready = false;
}

line_filled : (i : ℕ) → i < 2 → char_at line i ≢ 0
line_filled zero h = omega arith
line_filled (suc zero) h = omega arith
line_filled (suc (suc i)) h = absurd (omega arith)

line-IsLine : IsLine line
line-IsLine = record {
  size = refl;
  ordered = omega arith;
  bounded = omega arith;
  closed = refl;
  filled = line_filled;
}

add_character-Added_example : Added line 99 (add_character line 99)
add_character-Added_example = add_character-Added line line-IsLine 99 (omega arith)

delete_character-Deleted_example : Deleted line (delete_character line)
delete_character-Deleted_example = delete_character-Deleted line line-IsLine

add_and_delete_example : SameText line (delete_character (add_character line 99).0).0
add_and_delete_example =
    delete_character-add_character line 99 line-IsLine (omega arith) (omega arith)

trim_end-Trimmed_example : Trimmed line (trim_end line)
trim_end-Trimmed_example = trim_end-Trimmed line line-IsLine

-- 'x', Enter, and a key that comes behind the line's end.
abbrev press : ℕ → KeyboardEvent
press key = record { key = key; key_code = 0; state = pressed; extended = false; modifiers = 0 }

abbrev some_keys : List KeyboardEvent
some_keys = press 0x2D ∷ press Key.enter ∷ press 0x2D ∷ []

start_data_receiving-Received_example :
    Received line some_keys (start_data_receiving line some_keys)
start_data_receiving-Received_example = start_data_receiving-Received line some_keys refl
