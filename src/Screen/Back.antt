-- ===== src/Screen/Back.antt =====
-- io/vga_text_buffer.cpp, lines 171 to 176 and 199 to 208: stepping back and erasing.
use bare_metal_programming.Prelude.{
  ℕ, ◌+◌, ◌-◌, ◌*◌, ◌<◌, ◌≡◌, arith, ap, inl, inr, ◌==◌, Bool-cases,
}
use bare_metal_programming.Screen.{
  Screen, make_entry, move_forward, put, set_cell, get_position, move_backwards, remove_last_char,
}
use bare_metal_programming.Screen.Memory.{Cells, write_cell}
use bare_metal_programming.Screen.View.{IsScreen}
use bare_metal_programming.Screen.Forward.{
  move_to_next_line_eq, move_forward_last, move_forward_inside,
}
use bare_metal_programming.Screen.Scroll.{wrap_row_inside}

back_in_row :
    (s : Screen) → IsScreen s → 0 < s.column → move_backwards s ≡ record s { column = s.column - 1 }
unfolding move_backwards
back_in_row s i c = ground (arith, i.bounded, i.row_bounded, i.column_bounded)

back_a_row :
    (s : Screen)
    → IsScreen s
    → s.column ≡ 0
    → 0 < s.row
    → move_backwards s ≡ record s { column = 79; row = s.row - 1 }
unfolding move_backwards
back_a_row s i c r = ground (arith, i.bounded, i.row_bounded, i.column_bounded)

back_at_top :
    (s : Screen)
    → IsScreen s
    → s.column ≡ 0
    → s.row ≡ 0
    → 0 < s.base_row
    → move_backwards s ≡ record s { column = 79; row = 24; base_row = s.base_row - 1 }
unfolding move_backwards
back_at_top s i c r b = ground (arith, i.bounded, i.row_bounded, i.column_bounded)

-- Away from the start of the window, a step back moves the cursor back by one cell of video memory.
-- At its start, with rows above it in video memory, the cursor goes to the last cell of the window
-- of the row before, 1919 cells on instead of one back. At the start of video memory the base row wraps to 255.
pub move_backwards-position :
    (s : Screen)
    → IsScreen s
    → (0 < s.row + s.column → get_position (move_backwards s) + 1 ≡ get_position s)
      × (s.row + s.column ≡ 0
          → 0 < s.base_row
          → get_position (move_backwards s) ≡ get_position s + 1919)
      × (s.row + s.column ≡ 0 → s.base_row ≡ 0 → (move_backwards s).base_row ≡ 255)
unfolding move_backwards
move_backwards-position s i = ground (arith, i.bounded, i.row_bounded, i.column_bounded)

-- Stepping back undoes a step forward that did not scroll.
pub move_backwards-move_forward :
    (s : Screen) → IsScreen s → s.row * 80 + s.column < 1999 → move_backwards (move_forward s) ≡ s
unfolding move_backwards
move_backwards-move_forward s i h = elim (Bool-cases (s.column == 79)) [
  | inl last ↦
      let at : s.column ≡ 79 = ground arith in
      let room : s.row < 24 = ground (arith, i.row_bounded) in
      rw
        (
          move_forward_last s at,
          move_to_next_line_eq s i.row_bounded,
          wrap_row_inside (record s { column = 0; row = s.row + 1 }) i.bounded (omega arith),
        )
        (ground (arith, i.bounded))
  | inr before ↦
      let inside : s.column < 79 = ground (arith, i.column_bounded) in
      rw (move_forward_inside s i.bounded i.row_bounded inside)
        (ground (arith, i.bounded, i.row_bounded))
]

written_twice : (p a b : ℕ) (m : Cells) → write_cell p b (write_cell p a m) ≡ write_cell p b m
written_twice p a b m j i = twice i j
  where
    twice : (i : ℕ) → write_cell p b (write_cell p a m) i ≡ write_cell p b m i
    twice i = ground arith

-- Erasing undoes writing: where the character was not the last of the screen, `remove_last_char`
-- after `put` leaves the cursor as it was, a space at its cell and every other cell as it was.
pub remove_last_char-put :
    (c : ℕ) (s : Screen)
    → IsScreen s
    → s.row * 80 + s.column < 1999
    → remove_last_char (put c s) ≡ set_cell (make_entry b' ' s.active_color) s
unfolding remove_last_char put
remove_last_char-put c s i h =
    rw
      (move_backwards-move_forward (set_cell (make_entry c s.active_color) s)
        (record {
          bounded = i.bounded;
          row_bounded = i.row_bounded;
          column_bounded = i.column_bounded;
          displayed = i.displayed;
        })
        h)
      (ap (λ m. record s { cells = m })
        (written_twice (get_position s) (make_entry c s.active_color)
          (make_entry b' ' s.active_color) s.cells))
