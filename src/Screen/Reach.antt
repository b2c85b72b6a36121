-- ===== src/Screen/Reach.antt =====
-- io/vga_text_buffer.cpp: the runs of the screen, as the sequences of calls that its callers make.
use bare_metal_programming.Prelude.{ℕ, ◌+◌, ◌^◌, ◌≤◌, ◌<◌, ◌≡◌, arith, ◌∙◌}
use bare_metal_programming.Screen.{
  Screen, enable, clear, get_position, line_start, move_backwards, move_forward, move_to_next_line,
  move_cursor_left_n, move_cursor_right_n, put, remove_last_char, set_color_code, set_position,
  write_register,
}
use bare_metal_programming.Screen.View.{
  register, selected, IsScreen, cursor_position, display_start-set_position,
  cursor_position-set_position,
}
use bare_metal_programming.Screen.Forward.{
  clear-IsScreen, get_position-lt, move_forward-IsScreen, move_to_next_line-IsScreen, put-IsScreen,
}

-- A call on the screen. The two calls that go back by one cell stand for those away from the start of
-- the window, and the two that move by several columns for those that stay in their row: the others
-- move the base row away from what is displayed (Screen/Back and Screen/Jump). `sync` is `sync_cursor` of terminal/output.h.
pub data Step : Screen → Screen → Type 0 where
  puts : (s : Screen) (c : ℕ) → Step s (put c s)
  forward : (s : Screen) → Step s (move_forward s)
  feeds : (s : Screen) → Step s (move_to_next_line s)
  starts_line : (s : Screen) → Step s (line_start s)
  clears : (s : Screen) → Step s (clear s)
  colors : (s : Screen) (color : ℕ) → Step s (set_color_code color s)
  back : (s : Screen) → 0 < s.row + s.column → Step s (move_backwards s)
  erases : (s : Screen) → 0 < s.row + s.column → Step s (remove_last_char s)
  moves_left : (s : Screen) (count : ℕ) → count ≤ s.column → Step s (move_cursor_left_n count s)
  moves_right :
      (s : Screen) (count : ℕ) → s.column + count < 80 → Step s (move_cursor_right_n count s)
  enables :
      (s : Screen) (cursor_start cursor_end start end : ℕ)
      → Step s (enable cursor_start cursor_end start end s)
  sync : (s : Screen) → Step s (set_position (get_position s) s)

-- The screens that the calls reach once `clear` has run.
pub data Reached : Screen → Type 0 where
  cleared : (s : Screen) → Reached (clear s)
  called : {s t : Screen} → Reached s → Step s t → Reached t

move_backwards-IsScreen :
    (s : Screen) → 0 < s.row + s.column → IsScreen s → IsScreen (move_backwards s)
unfolding move_backwards
move_backwards-IsScreen s h i = record {
  bounded = ground (arith, i.bounded);
  row_bounded = ground (arith, i.row_bounded);
  column_bounded = ground (arith, i.column_bounded);
  displayed = i.displayed ∙ ground (arith, i.bounded);
}

Step-IsScreen : {s t : Screen} → Step s t → IsScreen s → IsScreen t
unfolding move_cursor_left_n move_cursor_right_n remove_last_char set_position write_register enable
    register selected
Step-IsScreen (puts s c) i = put-IsScreen c s i
Step-IsScreen (forward s) i = move_forward-IsScreen s i
Step-IsScreen (feeds s) i = move_to_next_line-IsScreen s i
Step-IsScreen (starts_line s) i = record {
  bounded = i.bounded;
  row_bounded = i.row_bounded;
  column_bounded = omega arith;
  displayed = i.displayed;
}
Step-IsScreen (clears s) i = clear-IsScreen s
Step-IsScreen (colors s color) i = record {
  bounded = i.bounded;
  row_bounded = i.row_bounded;
  column_bounded = i.column_bounded;
  displayed = i.displayed;
}
Step-IsScreen (back s h) i = move_backwards-IsScreen s h i
Step-IsScreen (erases s h) i =
    let b = move_backwards-IsScreen s h i in
    record {
      bounded = b.bounded;
      row_bounded = b.row_bounded;
      column_bounded = b.column_bounded;
      displayed = b.displayed;
    }
Step-IsScreen (moves_left s n h) i = record {
  bounded = ground (arith, h, i.bounded, i.row_bounded, i.column_bounded);
  row_bounded = ground (arith, h, i.bounded, i.row_bounded, i.column_bounded);
  column_bounded = ground (arith, h, i.bounded, i.row_bounded, i.column_bounded);
  displayed = i.displayed ∙ ground (arith, h, i.bounded, i.row_bounded, i.column_bounded);
}
Step-IsScreen (moves_right s n h) i = record {
  bounded = omega (arith, h, i.bounded, i.row_bounded, i.column_bounded);
  row_bounded = omega (arith, h, i.bounded, i.row_bounded, i.column_bounded);
  column_bounded = omega (arith, h, i.bounded, i.row_bounded, i.column_bounded);
  displayed = i.displayed ∙ omega (arith, h, i.bounded, i.row_bounded, i.column_bounded);
}
Step-IsScreen (enables s cs ce start end) i = record {
  bounded = i.bounded;
  row_bounded = i.row_bounded;
  column_bounded = i.column_bounded;
  displayed = i.displayed;
}
Step-IsScreen (sync s) i = record {
  bounded = i.bounded;
  row_bounded = i.row_bounded;
  column_bounded = i.column_bounded;
  displayed = display_start-set_position s (get_position s) ∙ i.displayed;
}

-- After `clear`, for any sequence of calls in which no call steps back from the first cell of the
-- window and no move by several columns leaves its row, the cursor stays in the window of 25 rows, its cell in the 32 KiB of text memory, and the
-- hardware displays the memory from the window's first cell on.
pub Reached-IsScreen : {s : Screen} → Reached s → IsScreen s × (get_position s < 2 ^ 14)
Reached-IsScreen {s} r = let i = invariant r in (i, get_position-lt s i)
  where
    invariant : {t : Screen} → Reached t → IsScreen t
    invariant (cleared t) = clear-IsScreen t
    invariant (called q st) = Step-IsScreen st (invariant q)

-- In every such screen, syncing puts the hardware cursor on the cell that the next character goes to.
pub cursor_position_lem :
    {s : Screen} → Reached s → cursor_position (set_position (get_position s) s) ≡ get_position s
cursor_position_lem {s} r =
    cursor_position-set_position s (get_position s) (omega (arith, (Reached-IsScreen r).1))
