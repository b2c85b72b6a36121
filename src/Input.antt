-- ===== src/Input.antt =====
-- The input line of the terminal (terminal/input.h and terminal/input.cpp). The pointers `cursor` and
-- `data_end` are indices of the buffer. A call of the screen (`m_output`) is an entry of a list.
pub mod Handlers
pub mod Laws
pub mod Insertion
pub mod Edit
pub mod Ready
pub mod Trim
pub mod Ascii
mod Tests
use bare_metal_programming.Prelude.{
  ℕ, zero, suc, ◌+◌, ◌-◌, ◌*◌, ◌%◌, ◌^◌, cast, ltb, leb, ◌==◌, Bool, true, false, not, ◌&&◌,
  if◌then◌else◌, Option, none, some, List, [], ◌∷◌, ◌++◌, get_or, set, length, replicate,
}
use bare_metal_programming.Keyboard.Key
use bare_metal_programming.Keyboard.Events.{
  KeyboardEvent, try_translate_text_event, is_control_input_candidate_event,
  is_navigation_input_candidate_event,
}

abbrev pub input_capacity : ℕ
input_capacity = 128

abbrev pub blank : ℕ
blank = 32

abbrev pub newline : ℕ
newline = 10

-- The calls of `m_output`; `put_char` and `put_string` are its operator `<<`.
pub data ScreenCall : Type 0 where
  put_char print_char_no_sync : ℕ → ScreenCall
  put_string print_string_no_sync : List ℕ → ScreenCall
  move_cursor_left_n move_cursor_right_n : ℕ → ScreenCall
  go_backwards go_forward delete_last_char_no_sync call_cursor_sync : ScreenCall

pub record Line : Type 0 where
  pub cursor : ℕ
  pub data_end : ℕ
  pub input_buffer : List ℕ
  pub input_ready : Bool

unfoldable pub new_line : Line
new_line = record {
  cursor = 0;
  data_end = 0;
  input_buffer = replicate (input_capacity + 1) 0;
  input_ready = false;
}

-- The loop of `move_data_right`, with its number of turns.
unfoldable pub right_loop : ℕ → List ℕ → ℕ → ℕ → List ℕ
right_loop zero buffer end_ step = buffer
right_loop (suc turns) buffer end_ step =
    right_loop turns (set buffer end_ (get_or buffer (end_ - step) 0)) (end_ - 1) step

unfoldable pub move_data_right : List ℕ → ℕ → ℕ → ℕ → List ℕ
move_data_right buffer end_ begin step = right_loop (end_ - begin) buffer end_ step

unfoldable pub left_loop : ℕ → List ℕ → ℕ → ℕ → List ℕ
left_loop zero buffer begin step = buffer
left_loop (suc turns) buffer begin step =
    left_loop turns (set buffer begin (get_or buffer (begin + step) 0)) (begin + 1) step

unfoldable pub move_data_left : List ℕ → ℕ → ℕ → ℕ → List ℕ
move_data_left buffer begin end_ step = left_loop (end_ - begin) buffer begin step

-- `string_length` of a string given without its terminator.
unfoldable pub string_length : List ℕ → ℕ
string_length string = cast 8 (length string)

unfoldable pub buffer_full : Line → Bool
buffer_full l = l.data_end == input_capacity

unfoldable pub buffer_begin : Line → Bool
buffer_begin l = l.cursor == 0

unfoldable pub buffer_empty : Line → Bool
buffer_empty l = l.data_end == 0

unfoldable pub count : Line → ℕ
count l = cast 8 l.data_end

unfoldable pub add_character : Line → ℕ → Line × Bool
add_character l c =
    let moved =
      if get_or l.input_buffer l.cursor 0 == 0
      then l.input_buffer
      else move_data_right l.input_buffer l.data_end l.cursor 1 in
    if buffer_full l then (l, false) else (
      record l {
        input_buffer = set (set moved l.cursor c) (l.data_end + 1) 0;
        cursor = l.cursor + 1;
        data_end = l.data_end + 1;
      },
      true,
    )

-- The loop that copies the string to the cursor.
unfoldable pub copy_string : List ℕ → List ℕ → ℕ → List ℕ
copy_string [] buffer cursor = buffer
copy_string (c ∷ string) buffer cursor = copy_string string (set buffer cursor c) (cursor + 1)

unfoldable pub add_string : Line → List ℕ → Line × Bool
add_string l string =
    let size = string_length string in
    let data_end = l.data_end + size in
    let moved =
      if get_or l.input_buffer l.cursor 0 == 0
      then l.input_buffer
      else move_data_right l.input_buffer data_end (l.cursor + size - 1) size in
    if leb input_capacity data_end then (l, false) else (
      record l {
        input_buffer = copy_string string (set moved data_end 0) l.cursor;
        cursor = l.cursor + length string;
        data_end = data_end;
      },
      true,
    )

unfoldable pub delete_character : Line → Line × Bool
delete_character l =
    let cursor = l.cursor - 1 in
    let moved = move_data_left l.input_buffer cursor l.data_end 1 in
    if buffer_begin l then (l, false) else (
      record l {
        input_buffer = set moved (l.data_end - 1) 0;
        cursor = cursor;
        data_end = l.data_end - 1;
      },
      true,
    )

unfoldable pub move_cursor_left : Line → Line × Bool
move_cursor_left l =
    if l.cursor == 0 then (l, false) else (record l { cursor = l.cursor - 1 }, true)

unfoldable pub move_cursor_right : Line → Line × Bool
move_cursor_right l =
    if l.cursor == l.data_end then (l, false) else (record l { cursor = l.cursor + 1 }, true)

unfoldable pub reset_buffer : Line → Line
reset_buffer l = record l {
  cursor = 0;
  data_end = 0;
  input_buffer = set l.input_buffer 0 0;
  input_ready = false;
}

-- The loop of `trim_end` from an end.
unfoldable pub trimmed_end : List ℕ → ℕ → ℕ
trimmed_end buffer zero = 0
trimmed_end buffer (suc data_end) =
    let shorter = trimmed_end buffer data_end in
    if get_or buffer data_end 0 == blank then shorter else suc data_end

unfoldable pub trim_end : Line → Line
trim_end l =
    let data_end = trimmed_end l.input_buffer l.data_end in
    if l.data_end == 0
    then l
    else record l { data_end = data_end; input_buffer = set l.input_buffer data_end 0 }

-- The string that starts at an index, up to its terminator.
unfoldable pub string_from : ℕ → List ℕ → ℕ → List ℕ
string_from zero buffer index = []
string_from (suc fuel) buffer index =
    let rest = string_from fuel buffer (index + 1) in
    if get_or buffer index 0 == 0 then [] else get_or buffer index 0 ∷ rest

unfoldable pub string_at : Line → ℕ → List ℕ
string_at l index = string_from (input_capacity + 1) l.input_buffer index

-- `static_cast<uint8_t>(data_end - cursor)`.
unfoldable pub behind_cursor : Line → ℕ
behind_cursor l = cast 8 (l.data_end - l.cursor)
