-- ===== src/Screen/Forward.antt =====
-- io/vga_text_buffer.cpp, lines 164 to 169, 178 to 197 and 210 to 225: the operations that go
-- forward keep the invariant of the screen.
use bare_metal_programming.Prelude.{
  ℕ, ◌+◌, ◌-◌, ◌*◌, ◌^◌, ◌%◌, ◌≤◌, ◌<◌, ◌≡◌, refl, arith, inl, inr, false, ◌==◌, Bool-cases,
}
use bare_metal_programming.Screen.{
  Screen, clear, make_entry, move_forward, move_to_next_line, put, set_cell, set_display_start,
  wrap_row, write_register, get_position,
}
use bare_metal_programming.Screen.View.{IsScreen, display_start, display_start-set_display_start}
use bare_metal_programming.Screen.Scroll.{Scrolled, wrap_row-Scrolled, wrap_row_inside}

Scrolled-IsScreen : {s t : Screen} → s.column < 80 → Scrolled s t → IsScreen t
Scrolled-IsScreen h r = record {
  bounded = r.bounded;
  row_bounded = omega (arith, r.last_row);
  column_bounded = omega (arith, r.column_kept);
  displayed = r.displayed;
}

wrap_row-IsScreen :
    (s : Screen)
    → s.base_row ≤ 179
    → s.column ≡ 0
    → s.row ≤ 25
    → display_start s ≡ s.base_row * 80
    → IsScreen (wrap_row s)
wrap_row-IsScreen s b c r d = elim (Bool-cases (s.row == 25)) [
  | inl full ↦ Scrolled-IsScreen (omega arith) (wrap_row-Scrolled s b c (ground arith))
  | inr room ↦
      let inside : s.row < 25 = ground arith in
      rw (wrap_row_inside s b inside)
        (record { bounded = b; row_bounded = inside; column_bounded = omega arith; displayed = d })
]

-- `move_to_next_line` is a line feed of `wrap_row`, and so is `move_forward` from the last column.
pub move_to_next_line_eq :
    (s : Screen)
    → s.row < 25
    → move_to_next_line s ≡ wrap_row (record s { column = 0; row = s.row + 1 })
unfolding move_to_next_line
move_to_next_line_eq s r = let e : (s.row + 1) % 256 ≡ s.row + 1 = omega arith in rw e refl

pub move_forward_last : (s : Screen) → s.column ≡ 79 → move_forward s ≡ move_to_next_line s
unfolding move_forward move_to_next_line
move_forward_last s c = rw c refl

pub move_forward_inside :
    (s : Screen)
    → s.base_row ≤ 179
    → s.row < 25
    → s.column < 79
    → move_forward s ≡ record s { column = s.column + 1 }
unfolding move_forward
move_forward_inside s b r c =
    let next : (s.column + 1) % 256 ≡ s.column + 1 = omega arith in
    let inside : (s.column + 1 == 80) ≡ false = ground arith in
    let column : (s.column + 1 + 256 - 0) % 256 ≡ s.column + 1 = omega arith in
    let row : (s.row + 0) % 256 ≡ s.row = omega arith in
    rw (next, inside, column, row) (wrap_row_inside (record s { column = s.column + 1 }) b r)

-- The line feed keeps the invariant: after it, the cursor lies in the window, the window in video
-- memory, and the display starts where the window does.
pub move_to_next_line-IsScreen : (s : Screen) → IsScreen s → IsScreen (move_to_next_line s)
move_to_next_line-IsScreen s i = rw (move_to_next_line_eq s i.row_bounded) (
    wrap_row-IsScreen (record s { column = 0; row = s.row + 1 }) i.bounded refl
      (omega (arith, i.row_bounded)) i.displayed)

-- One step to the right keeps the invariant.
pub move_forward-IsScreen : (s : Screen) → IsScreen s → IsScreen (move_forward s)
move_forward-IsScreen s i = elim (Bool-cases (s.column == 79)) [
  | inl last ↦ rw (move_forward_last s (ground arith)) (move_to_next_line-IsScreen s i)
  | inr before ↦
      let inside : s.column < 79 = ground (arith, i.column_bounded) in
      rw (move_forward_inside s i.bounded i.row_bounded inside) (record {
        bounded = i.bounded;
        row_bounded = i.row_bounded;
        column_bounded = omega arith;
        displayed = i.displayed;
      })
]

-- Writing a character keeps the invariant.
pub put-IsScreen : (c : ℕ) (s : Screen) → IsScreen s → IsScreen (put c s)
unfolding put
put-IsScreen c s i = move_forward-IsScreen (set_cell (make_entry c s.active_color) s) (record {
  bounded = i.bounded;
  row_bounded = i.row_bounded;
  column_bounded = i.column_bounded;
  displayed = i.displayed;
})

-- `clear` establishes the invariant from any state.
pub clear-IsScreen : (s : Screen) → IsScreen (clear s)
unfolding clear set_display_start write_register
clear-IsScreen s = record {
  bounded = omega arith;
  row_bounded = omega arith;
  column_bounded = omega arith;
  displayed = display_start-set_display_start s 0 (omega arith);
}

-- The cell of the cursor lies in the 32 KiB of text memory.
pub get_position-lt : (s : Screen) → IsScreen s → get_position s < 2 ^ 14
get_position-lt s i = omega (arith, i.bounded, i.row_bounded, i.column_bounded)
