-- ===== src/Shell.antt =====
-- apps/shell/shell.cpp with internal/shell_commands_list.h, and the test of kernel/pmm.cpp that it
-- calls. The input line's calls of the screen are run on the shell's output, since all outputs share
-- the screen. What the shell reads of the machine is a field of `Turn`.
pub mod Commands
pub mod Lookup
pub mod Execute
pub mod Runs
pub mod Tests
use bare_metal_programming.Prelude.{
  ℕ, zero, suc, ◌+◌, ◌-◌, ◌/◌, wrap_sub, cast, ◌>>>◌, ltb, leb, ◌==◌, ◌&&◌, not, if◌then◌else◌,
  Option, none, some, List, [], ◌∷◌, get_or, codes,
}
use bare_metal_programming.Keyboard.Events.{KeyboardEvent}
use bare_metal_programming.Input
use bare_metal_programming.Input.{Line, ScreenCall, new_line, reset_buffer}
use bare_metal_programming.Input.Handlers.{start_data_receiving}
use bare_metal_programming.Screen
use bare_metal_programming.Output.{
  Output, on_buffer, put_char_no_sync, write_string_no_sync, sync_cursor,
}
use bare_metal_programming.Output.Insert.{
  insert_char, insert_string, insert_uint8, insert_uint32, set_hex, set_dec,
}
use bare_metal_programming.Output.Arrays.{insert_text}
use bare_metal_programming.Pmm.Geometry.{Pmm, Bitmap, load_8, store_8, get_bit_n_byte}
use bare_metal_programming.Pmm.Search.{contiguous_8_core}

-- What one turn of the loop gets from outside: the keys until the line is ready, and what the
-- commands read.
pub record Turn : Type 0 where
  pub events : List KeyboardEvent
  pub timer_ticks : ℕ
  pub interrupt_stack_top : ℕ
  pub interrupt_stack_bottom : ℕ
  pub kernel_stack_top : ℕ
  pub kernel_stack_bottom : ℕ

pub record Shell : Type 0 where
  pub m_input : Line
  pub m_output : Output
  pub m_is_running : ℕ
  pub memory : Pmm

unfoldable pub new_shell : Output → Pmm → Shell
new_shell o g = record { m_input = new_line; m_output = o; m_is_running = 1; memory = g }

abbrev pub head : List ℕ → ℕ
head text = get_or text 0 0

-- `static_cast<int8_t>(c) - static_cast<int8_t>(o)` as the pattern of an `int8_t`; the end of a list
-- is the terminator.
unfoldable pub str_compare : List ℕ → List ℕ → ℕ
str_compare [] other = wrap_sub 8 0 (head other)
str_compare (c ∷ comparer) [] = wrap_sub 8 c 0
str_compare (c ∷ comparer) (o ∷ other) =
    let rest = str_compare comparer other in
    if not (c == 0) && (c == o) then rest else wrap_sub 8 c o

abbrev pub command_list_size : ℕ
command_list_size = 7

abbrev pub g_command_list : List (List ℕ)
g_command_list =
    codes "clear"
    ∷ codes "exit"
    ∷ codes "flag"
    ∷ codes "interrupt stack"
    ∷ codes "kernel stack"
    ∷ codes "pmm test"
    ∷ codes "ticks"
    ∷ []

-- The pattern of -1.
abbrev pub not_found : ℕ
not_found = 0xFF

-- The loop of `command_exists`; `none` if it takes more turns than `fuel`.
unfoldable pub search_loop : ℕ → List ℕ → ℕ → ℕ → Option ℕ
search_loop zero text left right = if ltb left right then none else some not_found
search_loop (suc fuel) text left right =
    let mid = cast 8 (left + (right - left) / 2) in
    let result = str_compare text (get_or g_command_list mid []) in
    let above = search_loop fuel text (cast 8 (mid + 1)) right in
    let below = search_loop fuel text left mid in
    if ltb left right
    then (if result == 0 then some mid else if leb result 127 then above else below)
    else some not_found

unfoldable pub command_exists : List ℕ → Option ℕ
command_exists text = search_loop command_list_size text 0 command_list_size

-- A call that the input line makes of the screen.
unfoldable pub on_screen : ScreenCall → Output → Output
on_screen (Input.put_char c) = insert_char c
on_screen (Input.print_char_no_sync c) = put_char_no_sync c
on_screen (Input.put_string t) = insert_string t
on_screen (Input.print_string_no_sync t) = write_string_no_sync t
on_screen (Input.move_cursor_left_n n) = on_buffer (Screen.move_cursor_left_n n)
on_screen (Input.move_cursor_right_n n) = on_buffer (Screen.move_cursor_right_n n)
on_screen Input.go_backwards = on_buffer Screen.move_backwards
on_screen Input.go_forward = on_buffer Screen.move_forward
on_screen Input.delete_last_char_no_sync = on_buffer Screen.remove_last_char
on_screen Input.call_cursor_sync = sync_cursor

unfoldable pub on_screen_all : List ScreenCall → Output → Output
on_screen_all [] o = o
on_screen_all (call ∷ calls) o = on_screen_all calls (on_screen call o)
