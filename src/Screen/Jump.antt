-- ===== src/Screen/Jump.antt =====
-- io/vga_text_buffer.cpp, lines 227 to 249: moving the cursor by several columns.
use bare_metal_programming.Prelude.{ℕ, ◌+◌, ◌-◌, ◌*◌, ◌/◌, ◌≤◌, ◌<◌, ◌≡◌, arith}
use bare_metal_programming.Screen.{Screen, get_position, move_cursor_left_n, move_cursor_right_n}
use bare_metal_programming.Screen.View.{IsScreen}

right_by :
    (count : ℕ) (s : Screen)
    → IsScreen s
    → s.row * 80 + s.column + count < 2000
    → get_position (move_cursor_right_n count s)
      ≡ get_position s + count + 80 * ((s.row * 80 + s.column + count) / 80 - s.row)
unfolding move_cursor_right_n
right_by count s i h = omega (arith, i.bounded, i.row_bounded, i.column_bounded)

left_by :
    (count : ℕ) (s : Screen)
    → IsScreen s
    → count ≤ s.row * 80 + s.column
    → s.row - (s.row * 80 + s.column - count) / 80 ≤ s.base_row
    → get_position (move_cursor_left_n count s)
        + count
        + 80 * (s.row - (s.row * 80 + s.column - count) / 80)
      ≡ get_position s
unfolding move_cursor_left_n
left_by count s i h k = ground (arith, i.bounded, i.row_bounded, i.column_bounded)

-- A move to the right whose target lies in the window moves the cursor by `count` cells of video
-- memory where the target is in the same row; for every row that it goes down, both the row of the
-- cursor and the base row grow, and the cursor moves 80 cells further than asked. A move to the left
-- is the same the other way round, as long as the base row does not wrap.
pub move_cursor-position :
    (count : ℕ) (s : Screen)
    → IsScreen s
    → (s.row * 80 + s.column + count < 2000
        → get_position (move_cursor_right_n count s)
          ≡ get_position s + count + 80 * ((s.row * 80 + s.column + count) / 80 - s.row))
      × (count ≤ s.row * 80 + s.column
          → s.row - (s.row * 80 + s.column - count) / 80 ≤ s.base_row
          → get_position (move_cursor_left_n count s)
              + count
              + 80 * (s.row - (s.row * 80 + s.column - count) / 80)
            ≡ get_position s)
move_cursor-position count s i = (right_by count s i, left_by count s i)
