-- ===== src/Input/Handlers.antt =====
-- The key handlers of the input line (terminal/input.cpp, lines 95 to 274).
use bare_metal_programming.Prelude.{
  ℕ, ◌+◌, cast, ltb, ◌==◌, true, if◌then◌else◌, Option, none, some, List, [], ◌∷◌, ◌++◌, replicate,
}
use bare_metal_programming.Keyboard.Key
use bare_metal_programming.Keyboard.Events.{
  KeyboardEvent, try_translate_text_event, is_control_input_candidate_event,
  is_navigation_input_candidate_event,
}
use bare_metal_programming.Input.{
  Line, ScreenCall, put_char, put_string, print_char_no_sync, print_string_no_sync,
  move_cursor_left_n, move_cursor_right_n, go_backwards, go_forward, delete_last_char_no_sync,
  call_cursor_sync, add_character, add_string, delete_character, move_cursor_left,
  move_cursor_right, reset_buffer, trim_end, count, string_at, behind_cursor, blank, newline,
}

unfoldable pub handle_escape : Line → Line × List ScreenCall
handle_escape l = (
  reset_buffer l,
  move_cursor_right_n (behind_cursor l) ∷ replicate (count l) delete_last_char_no_sync
      ++ (call_cursor_sync ∷ []),
)

unfoldable pub handle_backspace : Line → Line × List ScreenCall
handle_backspace l =
    let (l', deleted) = delete_character l in
    let redrawn =
      print_string_no_sync (string_at l' l'.cursor)
      ∷ print_char_no_sync blank
      ∷ move_cursor_left_n (behind_cursor l' + 1)
      ∷ [] in
    let tail = if l'.cursor == l'.data_end then [] else redrawn in
    (l', if deleted then delete_last_char_no_sync ∷ tail ++ (call_cursor_sync ∷ []) else [])

-- What follows an insertion before the end of the line.
unfoldable pub redraw : Line → List ScreenCall
redraw l =
    if l.cursor == l.data_end
    then []
    else print_string_no_sync (string_at l l.cursor)
      ∷ move_cursor_left_n (behind_cursor l)
      ∷ call_cursor_sync
      ∷ []

abbrev pub spaces : List ℕ
spaces = blank ∷ blank ∷ blank ∷ blank ∷ []

unfoldable pub handle_tab : Line → Line × List ScreenCall
handle_tab l =
    let (l', added) = add_string l spaces in
    (l', if added then put_string spaces ∷ redraw l' else [])

unfoldable pub handle_enter : Line → Line × List ScreenCall
handle_enter l =
    let l' = if ltb 0 (count l) then trim_end l else l in
    (record l' { input_ready = true }, put_char newline ∷ [])

unfoldable pub control_key_dispatch : Line → ℕ → Line × List ScreenCall
control_key_dispatch l key =
    if key == Key.escape
    then handle_escape l
    else if key == Key.backspace
    then handle_backspace l
    else if key == Key.tab
    then handle_tab l
    else if key == Key.enter
    then handle_enter l
    else (l, [])

unfoldable pub handle_home : Line → Line × List ScreenCall
handle_home l =
    (record l { cursor = 0 }, move_cursor_left_n (cast 8 l.cursor) ∷ call_cursor_sync ∷ [])

unfoldable pub handle_arrow_left : Line → Line × List ScreenCall
handle_arrow_left l =
    let (l', moved) = move_cursor_left l in
    (l', if moved then go_backwards ∷ call_cursor_sync ∷ [] else call_cursor_sync ∷ [])

unfoldable pub handle_arrow_right : Line → Line × List ScreenCall
handle_arrow_right l =
    let (l', moved) = move_cursor_right l in
    (l', if moved then go_forward ∷ call_cursor_sync ∷ [] else call_cursor_sync ∷ [])

unfoldable pub handle_end : Line → Line × List ScreenCall
handle_end l = (
  record l { cursor = l.data_end },
  move_cursor_right_n (behind_cursor l) ∷ call_cursor_sync ∷ [],
)

-- The arrows up and down and the page keys do nothing.
unfoldable pub navigation_key_dispatch : Line → ℕ → Line × List ScreenCall
navigation_key_dispatch l key =
    if key == Key.home
    then handle_home l
    else if key == Key.arrow_left
    then handle_arrow_left l
    else if key == Key.arrow_right
    then handle_arrow_right l
    else if key == Key.end
    then handle_end l
    else (l, [])

-- The body of the loop of `start_data_receiving` for an event.
unfoldable pub receive : Line → KeyboardEvent → Line × List ScreenCall
receive l event = elim (try_translate_text_event event) [
  | some c ↦
      let (l', added) = add_character l c in (l', if added then put_char c ∷ redraw l' else [])
  | none ↦
      if is_control_input_candidate_event event
      then control_key_dispatch l event.key
      else if is_navigation_input_candidate_event event
      then navigation_key_dispatch l event.key
      else (l, [])
]

-- The calls of one event, before those of the events behind it.
unfoldable pub after_calls :
    List ScreenCall → Option (Line × List ScreenCall) → Option (Line × List ScreenCall)
after_calls calls none = none
after_calls calls (some (l, more)) = some (l, calls ++ more)

-- `start_data_receiving` over the events that arrive: it takes them until the line is ready, and gives
-- `none` where it still waits after the last of them.
unfoldable pub start_data_receiving : Line → List KeyboardEvent → Option (Line × List ScreenCall)
start_data_receiving l [] = if l.input_ready then some (l, []) else none
start_data_receiving l (event ∷ events) =
    let (l', calls) = receive l event in
    let rest = start_data_receiving l' events in
    if l.input_ready then some (l, []) else after_calls calls rest
