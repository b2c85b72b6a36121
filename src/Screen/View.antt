-- ===== src/Screen/View.antt =====
-- What the screen of io/vga_text_buffer.cpp shows: 25 rows of 80 cells from the display start on,
-- and the cursor among them.
use bare_metal_programming.Prelude.{
  ℕ, ◌+◌, ◌*◌, ◌/◌, ◌^◌, ◌≤◌, ◌<◌, ◌≡◌, ◌&&◌, ltb, ◌==◌, if◌then◌else◌, List, [], ◌∷◌, arith, refl,
  bit_and-ones,
}
use bare_metal_programming.Screen.{
  Screen, vga_width, vga_height, base_row_max, command_port, data_port, cursor_register_low,
  cursor_register_high, display_register_low, display_register_high, blank_cell, set_display_start,
  set_position, write_register,
}
use bare_metal_programming.Screen.Memory.{Cells}

-- The register that the last write to the command port selected.
unfoldable pub selected : List (ℕ × ℕ) → ℕ
selected [] = 0
selected ((port, value) ∷ writes) = if port == command_port then value else selected writes

-- What the controller's register `index` holds after `writes`.
unfoldable pub register : ℕ → List (ℕ × ℕ) → ℕ
register index [] = 0
register index ((port, value) ∷ writes) =
    if (port == data_port) && (selected writes == index) then value else register index writes

abbrev pub display_start : Screen → ℕ
display_start s =
    register display_register_low s.ports + register display_register_high s.ports * 256

abbrev pub cursor_position : Screen → ℕ
cursor_position s =
    register cursor_register_low s.ports + register cursor_register_high s.ports * 256

-- The invariant of the screen.
pub record IsScreen (s : Screen) : Type 0 where
  pub bounded : s.base_row ≤ base_row_max
  pub row_bounded : s.row < vga_height
  pub column_bounded : s.column < vga_width
  pub displayed : display_start s ≡ s.base_row * vga_width

-- The abstract screen: a cursor and the cells of the 25 rows, row by row.
pub record View : Type 0 where
  pub cursor_row : ℕ
  pub cursor_column : ℕ
  pub grid : Cells

abbrev pub window : Screen → Cells
window s i = s.cells (s.base_row * vga_width + i)

pub record Shows (s : Screen) (v : View) : Type 0 where
  pub same_row : s.row ≡ v.cursor_row
  pub same_column : s.column ≡ v.cursor_column
  pub same_cells : (i : ℕ) → i < 2000 → window s i ≡ v.grid i

-- The first row leaves and a blank one comes at the end.
abbrev pub scrolled : Cells → Cells
scrolled g i = if ltb i 1920 then g (i + 80) else blank_cell

abbrev pub next_line : View → View
next_line v =
    if v.cursor_row == 24
    then record { cursor_row = 24; cursor_column = 0; grid = scrolled v.grid }
    else record { cursor_row = v.cursor_row + 1; cursor_column = 0; grid = v.grid }

abbrev pub advance : View → View
advance v =
    if v.cursor_column == 79 then next_line v else record v { cursor_column = v.cursor_column + 1 }

abbrev pub write_at_cursor : ℕ → View → View
write_at_cursor entry v = record v {
  grid = λ i. if i == v.cursor_row * 80 + v.cursor_column then entry else v.grid i;
}

pub display_start-set_display_start :
    (s : Screen) (p : ℕ) → p < 2 ^ 16 → display_start (set_display_start p s) ≡ p
unfolding set_display_start write_register register selected
display_start-set_display_start s p h = omega (arith, bit_and-ones 8 p, bit_and-ones 8 (p / 2 ^ 8))

pub cursor_position-set_position :
    (s : Screen) (p : ℕ) → p < 2 ^ 16 → cursor_position (set_position p s) ≡ p
unfolding set_position write_register register selected
cursor_position-set_position s p h = omega (arith, bit_and-ones 8 p, bit_and-ones 8 (p / 2 ^ 8))

-- Moving the cursor leaves the display start alone.
pub display_start-set_position :
    (s : Screen) (p : ℕ) → display_start (set_position p s) ≡ display_start s
unfolding set_position write_register register selected
display_start-set_position s p = refl
