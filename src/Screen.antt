-- ===== src/Screen.antt =====
-- io/vga_text_buffer.h, io/vga_text_buffer.cpp and io/hardware_cursor.*: the text screen. Video
-- memory is a function from the index of a cell (its address less `VGA_BASE`, halved) to the 16-bit
-- entry there. `ports` lists the bytes written with `outb`, the newest first. `feature` is the flag
-- of cpu/features.h, which picks the fill and the copy.
pub mod Memory
pub mod View
pub mod Region
pub mod Scroll
pub mod Forward
pub mod Refine
pub mod Back
pub mod Jump
pub mod Reach
pub mod Tests
use bare_metal_programming.Prelude.{
  ℕ, zero, suc, ◌+◌, ◌-◌, ◌*◌, ◌/◌, Bool, true, false, ◌&&◌, bit_and, bit_or, cast, wrap_sub, ◌<<<◌,
  ◌>>>◌, ltb, ◌==◌, if◌then◌else◌, List, [], ◌∷◌,
}
use bare_metal_programming.Screen.Memory.{
  Cells, use_sse_2, use_avx_2, fallback_fill, use_sse_2_copy, use_avx_2_copy, fallback_copy,
  write_cell,
}

abbrev pub vga_width : ℕ
vga_width = 80

abbrev pub vga_height : ℕ
vga_height = 25

abbrev pub base_row_max : ℕ
base_row_max = 179

abbrev pub vga_length : ℕ
vga_length = cast 16 ((vga_width * vga_height) <<< 1)

-- Ports and registers of the display controller.
abbrev pub command_port : ℕ
command_port = 0x3D4

abbrev pub data_port : ℕ
data_port = 0x3D5

abbrev pub cursor_register_low : ℕ
cursor_register_low = 0x0F

abbrev pub cursor_register_high : ℕ
cursor_register_high = 0x0E

abbrev pub display_register_low : ℕ
display_register_low = 0x0D

abbrev pub display_register_high : ℕ
display_register_high = 0x0C

abbrev pub white : ℕ
white = 0xF

abbrev pub black : ℕ
black = 0x0

pub record Screen : Type 0 where
  pub base_row : ℕ
  pub row : ℕ
  pub column : ℕ
  pub active_color : ℕ
  pub cells : Cells
  pub ports : List (ℕ × ℕ)
  pub feature : ℕ

abbrev pub make_color : ℕ → ℕ → ℕ
make_color foreground background = cast 8 (bit_or foreground (background <<< 4))

abbrev pub make_entry : ℕ → ℕ → ℕ
make_entry c color = bit_or c (cast 16 (color <<< 8))

abbrev pub default_color : ℕ
default_color = cast 8 (bit_or white (black <<< 4))

abbrev pub blank_cell : ℕ
blank_cell = make_entry b' ' default_color

abbrev pub blank_cell_32 : ℕ
blank_cell_32 = bit_or (blank_cell <<< 16) blank_cell

-- The constructor, over the memory and the flag that it finds.
abbrev pub fresh : Cells → ℕ → Screen
fresh m f = record {
  base_row = 0;
  row = 0;
  column = 0;
  active_color = default_color;
  cells = m;
  ports = [];
  feature = f;
}

abbrev pub outb : ℕ → ℕ → Screen → Screen
outb port value s = record s { ports = (port, value) ∷ s.ports }

unfoldable pub write_register : ℕ → ℕ → Screen → Screen
write_register index value s = outb data_port value (outb command_port index s)

unfoldable pub set_position : ℕ → Screen → Screen
set_position position s =
    write_register cursor_register_high (bit_and (position >>> 8) 0x00FF)
      (write_register cursor_register_low (bit_and position 0x00FF) s)

unfoldable pub set_display_start : ℕ → Screen → Screen
set_display_start position s =
    write_register display_register_high (bit_and (position >>> 8) 0x00FF)
      (write_register display_register_low (bit_and position 0x00FF) s)

-- `cursor_start` and `cursor_end`: the bytes that the data port gives to the two reads.
unfoldable pub enable : ℕ → ℕ → ℕ → ℕ → Screen → Screen
enable cursor_start cursor_end start end s =
    write_register 0x0B (bit_or (bit_and cursor_end 0xE0) (bit_and end 0x1F)) (
      outb command_port 0x0B (
        write_register 0x0A (bit_or (bit_and cursor_start 0xC0) (bit_and start 0x1F))
          (outb command_port 0x0A s)))

abbrev pub get_position : Screen → ℕ
get_position s = cast 16 ((s.base_row + s.row) * vga_width + s.column)

abbrev pub at_buffer_end : Screen → Bool
at_buffer_end s = if ltb s.row vga_height then false else true

abbrev pub line_start : Screen → Screen
line_start s = record s { column = 0 }

abbrev pub set_color_code : ℕ → Screen → Screen
set_color_code color s = record s { active_color = color }

abbrev pub set_color : ℕ → ℕ → Screen → Screen
set_color foreground background s = record s { active_color = make_color foreground background }

-- `g_dispatch` and `g_dispatch_cpy`; the flag is at most 2.
abbrev pub g_dispatch : ℕ → Cells → ℕ → ℕ → ℕ → Cells
g_dispatch zero = fallback_fill
g_dispatch (suc zero) = use_sse_2
g_dispatch (suc (suc _)) = use_avx_2

abbrev pub g_dispatch_cpy : ℕ → Cells → ℕ → ℕ → ℕ → Cells × ℕ
g_dispatch_cpy zero = fallback_copy
g_dispatch_cpy (suc zero) = use_sse_2_copy
g_dispatch_cpy (suc (suc _)) = use_avx_2_copy

unfoldable pub reset : Screen → Screen
reset s =
    let copy_bytes = cast 16 (((vga_height - 1) * vga_width) <<< 1) in
    let source = 2 * ((s.base_row * vga_width) >>> 1) in
    let (copied, destination) =
      g_dispatch_cpy s.feature s.cells source (2 * (vga_width >>> 1)) copy_bytes in
    record s {
      base_row = 1;
      row = vga_height - 1;
      cells = g_dispatch s.feature copied destination (vga_width <<< 1) blank_cell_32;
    }

unfoldable pub clear : Screen → Screen
clear s = set_display_start 0 (record s {
  cells = g_dispatch s.feature s.cells 0 vga_length blank_cell_32;
  base_row = 0;
  column = 0;
  row = 0;
})

unfoldable pub clear_row : Screen → Screen
clear_row s = record s {
  cells = g_dispatch s.feature s.cells (get_position s) (vga_width <<< 1) blank_cell_32;
}

-- A `bool` as the operand of an arithmetic operator.
abbrev pub bit : Bool → ℕ
bit false = 0
bit true = 1

-- The end of `move_forward` and of `move_to_next_line`, once `row` has moved.
unfoldable pub wrap_row : Screen → Screen
wrap_row s =
    let overflowed = s.row == vga_height in
    let s1 = record s {
      base_row = cast 8 (s.base_row + bit overflowed);
      row = wrap_sub 8 s.row (bit overflowed);
    } in
    let s2 = if ltb base_row_max s1.base_row then reset s1 else clear_row s1 in
    if overflowed then set_display_start (s2.base_row * vga_width) s2 else s1

unfoldable pub move_forward : Screen → Screen
move_forward s =
    let column1 = cast 8 (s.column + 1) in
    let overflowed = column1 == vga_width in
    wrap_row (record s {
      column = wrap_sub 8 column1 (bit overflowed * vga_width);
      row = cast 8 (s.row + bit overflowed);
    })

unfoldable pub move_to_next_line : Screen → Screen
move_to_next_line s = wrap_row (record s { column = 0; row = cast 8 (s.row + 1) })

-- `*cell() = entry`
abbrev pub set_cell : ℕ → Screen → Screen
set_cell entry s = record s { cells = write_cell (get_position s) entry s.cells }

unfoldable pub put : ℕ → Screen → Screen
put c s = move_forward (set_cell (make_entry c s.active_color) s)

unfoldable pub move_backwards : Screen → Screen
move_backwards s =
    let column_at_end = s.column == 0 in
    let row_at_end = (s.row == 0) && column_at_end in
    record s {
      column = cast 8 (wrap_sub 8 s.column 1 + bit column_at_end * vga_width);
      base_row = wrap_sub 8 s.base_row (bit row_at_end);
      row = cast 8 (wrap_sub 8 s.row (bit column_at_end) + bit row_at_end * vga_height);
    }

unfoldable pub remove_last_char : Screen → Screen
remove_last_char s = let s' = move_backwards s in set_cell (make_entry b' ' s'.active_color) s'

-- `abs_pos` of the two jumps as an `int16_t` is `row * vga_width + column` less or more `count`;
-- `new_row` and `new_column` are casts of its quotient, rounded towards zero, and the rest.
unfoldable pub move_cursor_left_n : ℕ → Screen → Screen
move_cursor_left_n count s =
    let here = s.row * vga_width + s.column in
    let below_start = ltb here count in
    let new_row =
      if below_start
      then wrap_sub 8 0 (cast 8 ((count - here) / vga_width))
      else cast 8 ((here - count) / vga_width) in
    let new_column =
      if below_start
      then wrap_sub 8 0 (cast 8 (count - here + new_row * vga_width))
      else wrap_sub 8 (cast 8 (here - count)) (cast 8 (new_row * vga_width)) in
    record s {
      base_row = wrap_sub 8 s.base_row (wrap_sub 8 s.row new_row);
      row = new_row;
      column = new_column;
    }

unfoldable pub move_cursor_right_n : ℕ → Screen → Screen
move_cursor_right_n count s =
    let here = s.row * vga_width + s.column in
    let new_row = cast 8 ((here + count) / vga_width) in
    let new_column = wrap_sub 8 (cast 8 (here + count)) (cast 8 (new_row * vga_width)) in
    record s {
      base_row = wrap_sub 8 s.base_row (wrap_sub 8 s.row new_row);
      row = new_row;
      column = new_column;
    }
