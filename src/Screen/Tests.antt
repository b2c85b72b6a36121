-- ===== src/Screen/Tests.antt =====
-- Runs of the screen of io/vga_text_buffer.cpp, and the theorems at concrete screens.
use bare_metal_programming.Prelude.{
  ℕ, ◌+◌, ◌*◌, ◌/◌, ◌-◌, ◌%◌, ◌^◌, ◌<◌, ◌≤◌, ◌≡◌, refl, arith, [], ◌∷◌,
}
use bare_metal_programming.Screen.{
  Screen, default_color, command_port, data_port, put, move_forward, wrap_row, reset,
  set_display_start, write_register, make_entry, set_cell, get_position, move_backwards,
  remove_last_char, move_cursor_left_n, move_cursor_right_n, move_to_next_line, clear,
}
use bare_metal_programming.Screen.Memory.{
  Cells, use_sse_2, use_avx_2, use_sse_2_copy, use_avx_2_copy, fill_loop, copy_loop, splat,
}
use bare_metal_programming.Screen.View.{
  View, register, selected, IsScreen, Shows, advance, write_at_cursor, window,
}
use bare_metal_programming.Screen.Region.{over, dispatch_lem}
use bare_metal_programming.Screen.Refine.{put-Shows}
use bare_metal_programming.Screen.Back.{move_backwards-position, remove_last_char-put}
use bare_metal_programming.Screen.Jump.{move_cursor-position}
use bare_metal_programming.Screen.Reach.{Reached-IsScreen, cleared, called, puts, feeds, erases}

abbrev some_cells : Cells
some_cells i = 0x700 + i % 256

-- The last cell of the last window of video memory.
abbrev at_end : Screen
at_end = record {
  base_row = 179;
  row = 24;
  column = 79;
  active_color = default_color;
  cells = some_cells;
  ports = (data_port, 0x37) ∷ (command_port, 0x0C) ∷ (data_port, 0xF0) ∷ (command_port, 0x0D) ∷ [];
  feature = 2;
}

at_end-IsScreen : IsScreen at_end
unfolding register selected
at_end-IsScreen = record {
  bounded = omega arith;
  row_bounded = omega arith;
  column_bounded = omega arith;
  displayed = refl;
}

abbrev at_end_view : View
at_end_view = record { cursor_row = 24; cursor_column = 79; grid = window at_end }

at_end-Shows : Shows at_end at_end_view
at_end-Shows = record { same_row = refl; same_column = refl; same_cells = λ i p. refl }

-- A character there scrolls through `reset`.
put_resets : (put b'A' at_end).base_row ≡ 1
unfolding put move_forward wrap_row reset set_display_start write_register use_avx_2_copy use_avx_2
    copy_loop fill_loop
put_resets = refl

moved_up : (put b'A' at_end).cells (80 + 23 * 80 + 79) ≡ 0xF41
unfolding put move_forward wrap_row reset set_display_start write_register use_avx_2_copy use_avx_2
    copy_loop fill_loop
moved_up = refl

blank_row : (put b'A' at_end).cells (80 + 24 * 80 + 3) ≡ 0xF20
unfolding put move_forward wrap_row reset set_display_start write_register use_avx_2_copy use_avx_2
    copy_loop fill_loop
blank_row = refl

dispatch_lem_example :
    ((i : ℕ)
      → use_sse_2 some_cells 80 160 0x0F20_0F20 i ≡ over 80 80 (splat 0x0F20_0F20) some_cells i)
    × (80 ≤ 160
        → ((i : ℕ)
            → (use_sse_2_copy some_cells 160 80 160).0 i
              ≡ over 80 80 (λ k. some_cells (160 + k)) some_cells i)
          × ((use_sse_2_copy some_cells 160 80 160).1 ≡ 160))
dispatch_lem_example = dispatch_lem 1 some_cells 160 80 160 0x0F20_0F20 refl

put-Shows_example :
    Shows (put b'A' at_end) (advance (write_at_cursor (make_entry b'A' default_color) at_end_view))
put-Shows_example = put-Shows b'A' at_end at_end_view at_end-IsScreen at_end-Shows

abbrev in_row : Screen
in_row = record at_end { column = 5 }

in_row-IsScreen : IsScreen in_row
unfolding register selected
in_row-IsScreen = record {
  bounded = omega arith;
  row_bounded = omega arith;
  column_bounded = omega arith;
  displayed = refl;
}

remove_last_char-put_example :
    remove_last_char (put b'A' in_row) ≡ set_cell (make_entry b' ' default_color) in_row
remove_last_char-put_example = remove_last_char-put b'A' in_row in_row-IsScreen (omega arith)

abbrev at_top : Screen
at_top = record {
  base_row = 3;
  row = 0;
  column = 0;
  active_color = default_color;
  cells = some_cells;
  ports = (data_port, 0) ∷ (command_port, 0x0C) ∷ (data_port, 240) ∷ (command_port, 0x0D) ∷ [];
  feature = 0;
}

at_top-IsScreen : IsScreen at_top
unfolding register selected
at_top-IsScreen = record {
  bounded = omega arith;
  row_bounded = omega arith;
  column_bounded = omega arith;
  displayed = refl;
}

move_backwards-position_example :
    (0 < at_top.row + 0 → get_position (move_backwards at_top) + 1 ≡ 240)
    × (at_top.row ≡ 0 → 0 < at_top.base_row → get_position (move_backwards at_top) ≡ 240 + 1919)
    × (at_top.row ≡ 0 → at_top.base_row ≡ 0 → (move_backwards at_top).base_row ≡ 255)
move_backwards-position_example = move_backwards-position at_top at_top-IsScreen

move_cursor-position_example :
    (1925 + 10 < 2000
      → get_position (move_cursor_right_n 10 in_row)
        ≡ get_position in_row + 10 + 80 * (1935 / 80 - 24))
    × (10 ≤ 1925
        → 24 - (1925 - 10) / 80 ≤ 179
        → get_position (move_cursor_left_n 10 in_row) + 10 + 80 * (24 - (1925 - 10) / 80)
          ≡ get_position in_row)
move_cursor-position_example = move_cursor-position 10 in_row in_row-IsScreen

abbrev three_calls : Screen
three_calls = remove_last_char (put b'A' (move_to_next_line (clear at_end)))

one_back :
    0
    < (put b'A' (move_to_next_line (clear at_end))).row
      + (put b'A' (move_to_next_line (clear at_end))).column
unfolding put move_forward wrap_row set_display_start write_register clear move_to_next_line
one_back = omega arith

Reached-IsScreen_example : IsScreen three_calls × (get_position three_calls < 2 ^ 14)
Reached-IsScreen_example = Reached-IsScreen (
    called
      (called (called (cleared at_end) (feeds (clear at_end)))
        (puts (move_to_next_line (clear at_end)) b'A'))
      (erases (put b'A' (move_to_next_line (clear at_end))) one_back))
