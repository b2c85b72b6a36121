-- ===== src/Screen/Refine.antt =====
-- io/vga_text_buffer.cpp: the screen, whose window moves through video memory, implements the
-- abstract screen of 25 rows that scrolls.
use bare_metal_programming.Prelude.{
  ℕ, ◌+◌, ◌-◌, ◌<◌, ◌≡◌, refl, arith, ◌∙◌, inl, inr, false, true, ◌==◌, Bool-cases,
}
use bare_metal_programming.Screen.{
  Screen, blank_cell, clear, make_entry, move_forward, move_to_next_line, put, set_cell,
  set_display_start, wrap_row, write_register, blank_cell_32,
}
use bare_metal_programming.Screen.View.{View, IsScreen, Shows, next_line, advance, write_at_cursor}
use bare_metal_programming.Screen.Scroll.{Scrolled, wrap_row-Scrolled, wrap_row_inside, splat_blank}
use bare_metal_programming.Screen.Forward.{
  move_to_next_line_eq, move_forward_last, move_forward_inside,
}
use bare_metal_programming.Screen.Region.{g_dispatch-at}

-- The line feed moves the cursor to the start of the next row of the abstract screen, and scrolls
-- it by one row from the last one, wherever the window is in video memory.
pub move_to_next_line-Shows :
    (s : Screen) (v : View) → IsScreen s → Shows s v → Shows (move_to_next_line s) (next_line v)
move_to_next_line-Shows s v i h =
    rw (move_to_next_line_eq s i.row_bounded) (elim (Bool-cases (s.row == 24)) [
      | inl last ↦
          let at : s.row ≡ 24 = ground arith in
          scrolls at (
            wrap_row-Scrolled (record s { column = 0; row = s.row + 1 }) i.bounded refl
              (omega arith))
      | inr before ↦
          let inside : s.row + 1 < 25 = ground (arith, i.row_bounded) in
          rw (wrap_row_inside (record s { column = 0; row = s.row + 1 }) i.bounded inside)
            (stays inside)
    ])
  where
    scrolls :
        s.row ≡ 24
        → Scrolled
            (record s { column = 0; row = s.row + 1 })
            (wrap_row (record s { column = 0; row = s.row + 1 }))
        → Shows (wrap_row (record s { column = 0; row = s.row + 1 })) (next_line v)
    scrolls at r =
        let full : (v.cursor_row == 24) ≡ true = ground (arith, h.same_row) in
        rw full (record {
          same_row = r.last_row;
          same_column = r.column_kept;
          same_cells = λ k p.
              r.cells_moved k p
              ∙ ground (arith, λ (q : k < 1920). h.same_cells (k + 80) (omega arith));
        })

    stays : s.row + 1 < 25 → Shows (record s { column = 0; row = s.row + 1 }) (next_line v)
    stays inside =
        let room : (v.cursor_row == 24) ≡ false = ground (arith, h.same_row) in
        rw room (record {
          same_row = omega (arith, h.same_row);
          same_column = refl;
          same_cells = h.same_cells;
        })

-- One step to the right moves the cursor of the abstract screen by one column, or to the next line
-- from the last column.
pub move_forward-Shows :
    (s : Screen) (v : View) → IsScreen s → Shows s v → Shows (move_forward s) (advance v)
move_forward-Shows s v i h = elim (Bool-cases (s.column == 79)) [
  | inl last ↦
      let full : (v.cursor_column == 79) ≡ true = ground (arith, h.same_column) in
      rw (move_forward_last s (ground arith), full) (move_to_next_line-Shows s v i h)
  | inr before ↦
      let inside : s.column < 79 = ground (arith, i.column_bounded) in
      let room : (v.cursor_column == 79) ≡ false = ground (arith, h.same_column) in
      rw (move_forward_inside s i.bounded i.row_bounded inside, room)
        (record {
          same_row = h.same_row;
          same_column = omega (arith, h.same_column);
          same_cells = h.same_cells;
        })
]

written :
    (entry : ℕ) (s : Screen) (v : View)
    → IsScreen s
    → Shows s v
    → Shows (set_cell entry s) (write_at_cursor entry v)
written entry s v i h = record {
  same_row = h.same_row;
  same_column = h.same_column;
  same_cells = λ k p. ground (
    arith,
    i.bounded,
    i.row_bounded,
    i.column_bounded,
    h.same_row,
    h.same_column,
    h.same_cells k p,
  );
}

-- `put` writes the character in the active colour at the cursor of the abstract screen and moves
-- the cursor on, scrolling where the character was the last of the screen.
pub put-Shows :
    (c : ℕ) (s : Screen) (v : View)
    → IsScreen s
    → Shows s v
    → Shows (put c s) (advance (write_at_cursor (make_entry c s.active_color) v))
unfolding put
put-Shows c s v i h =
    move_forward-Shows (set_cell (make_entry c s.active_color) s)
      (write_at_cursor (make_entry c s.active_color) v)
      (record {
        bounded = i.bounded;
        row_bounded = i.row_bounded;
        column_bounded = i.column_bounded;
        displayed = i.displayed;
      })
      (written (make_entry c s.active_color) s v i h)

-- After `clear` the window is blank and the cursor at its start, from any state.
pub clear-Shows :
    (s : Screen)
    → Shows (clear s) (record { cursor_row = 0; cursor_column = 0; grid = λ i. blank_cell })
unfolding clear set_display_start write_register
clear-Shows s = record {
  same_row = refl;
  same_column = refl;
  same_cells = λ k p.
      rw (g_dispatch-at s.feature s.cells 0 4000 blank_cell_32 (0 + k) refl)
        (ground (arith, splat_blank (0 + k - 0)));
}
