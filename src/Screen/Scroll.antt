-- ===== src/Screen/Scroll.antt =====
-- `wrap_row` at a full window: lines 187 to 196 of io/vga_text_buffer.cpp scroll by one row, by
-- clearing the row behind the window or, at the end of video memory, by `reset`.
use bare_metal_programming.Prelude.{
  ℕ, ◌+◌, ◌*◌, ◌≤◌, ◌<◌, ◌≡◌, arith, refl, ap, ◌-◌, ◌==◌, inl, inr, ltb, Bool-cases, false, ◌%◌,
}
use bare_metal_programming.Screen.{
  Screen, vga_width, base_row_max, set_display_start, reset, clear_row, wrap_row, g_dispatch_cpy,
  blank_cell_32, blank_cell, write_register,
}
use bare_metal_programming.Screen.View.{
  display_start, window, scrolled, display_start-set_display_start,
}
use bare_metal_programming.Screen.Region.{g_dispatch-at, g_dispatch_cpy-at}
use bare_metal_programming.Screen.Memory.{splat}

-- `t` is `s`, whose row is one past the window, scrolled.
pub record Scrolled (s t : Screen) : Type 0 where
  pub bounded : t.base_row ≤ base_row_max
  pub last_row : t.row ≡ 24
  pub column_kept : t.column ≡ s.column
  pub color_kept : t.active_color ≡ s.active_color
  pub feature_kept : t.feature ≡ s.feature
  pub cells_moved : (i : ℕ) → i < 2000 → window t i ≡ scrolled (window s) i
  pub displayed : display_start t ≡ t.base_row * vga_width

pub splat_blank : (k : ℕ) → splat blank_cell_32 k ≡ blank_cell
splat_blank k = ground arith

wrap_row_clears :
    (s : Screen)
    → s.row ≡ 25
    → s.base_row < 179
    → wrap_row s
      ≡ set_display_start
          ((s.base_row + 1) * 80)
          (clear_row (record s { base_row = s.base_row + 1; row = 24 }))
unfolding wrap_row clear_row
wrap_row_clears s e h = rw e (
    let wraps : (s.base_row + 1) % 256 ≡ s.base_row + 1 = omega arith in
    let low : ltb 179 (s.base_row + 1) ≡ false = ground arith in rw (wraps, low) refl)

wrap_row_resets :
    (s : Screen)
    → s.row ≡ 25
    → s.base_row ≡ 179
    → wrap_row s ≡ set_display_start 80 (reset (record s { base_row = 180; row = 24 }))
unfolding wrap_row reset
wrap_row_resets s e h = rw (e, h) refl

-- The row behind the window, once it is cleared, is the last one of the next window.
cleared_cells :
    (s : Screen)
    → s.column ≡ 0
    → s.base_row < 179
    → (i : ℕ) → i < 2000
    → window (clear_row (record s { base_row = s.base_row + 1; row = 24 })) i
      ≡ scrolled (window s) i
unfolding clear_row
cleared_cells s c h i p =
    let here : ((s.base_row + 1 + 24) * 80 + s.column) % 65536 ≡ s.base_row * 80 + 2000 =
      omega arith in
    rw
      (
        g_dispatch-at s.feature s.cells (((s.base_row + 1 + 24) * 80 + s.column) % 65536) 160
            blank_cell_32 ((s.base_row + 1) * 80 + i) refl,
        here,
      )
      (ground (
        arith,
        splat_blank ((s.base_row + 1) * 80 + i - (s.base_row * 80 + 2000)),
        λ (q : i < 1920). ap s.cells (shifted q),
      ))
  where
    shifted : i < 1920 → (s.base_row + 1) * 80 + i ≡ s.base_row * 80 + (i + 80)
    shifted q = omega arith

-- `reset` moves the last 24 rows of the window to row 1 and blanks the row behind them.
reset_cells :
    (s : Screen)
    → s.base_row ≡ 179
    → (i : ℕ) → i < 2000
    → window (reset (record s { base_row = 180; row = 24 })) i ≡ scrolled (window s) i
unfolding reset
reset_cells s e i p =
    let (copied, end) = g_dispatch_cpy-at s.feature s.cells 14400 80 3840 refl (omega arith) in
    rw
      (
        g_dispatch-at s.feature (g_dispatch_cpy s.feature s.cells 14400 80 3840).0
            (g_dispatch_cpy s.feature s.cells 14400 80 3840).1 160 blank_cell_32 (80 + i) refl,
        end,
        copied (80 + i),
        e,
      )
      (ground (arith, splat_blank (80 + i - 2000), λ (q : i < 1920). ap s.cells (shifted q)))
  where
    shifted : i < 1920 → 14400 + (80 + i - 80) ≡ 179 * 80 + (i + 80)
    shifted q = omega arith

cleared :
    (s : Screen)
    → s.column ≡ 0
    → s.base_row < 179
    → Scrolled s (
        set_display_start
          ((s.base_row + 1) * 80)
          (clear_row (record s { base_row = s.base_row + 1; row = 24 })))
unfolding clear_row set_display_start write_register
cleared s c h = record {
  bounded = omega arith;
  last_row = refl;
  column_kept = refl;
  color_kept = refl;
  feature_kept = refl;
  cells_moved = cleared_cells s c h;
  displayed =
      display_start-set_display_start (clear_row (record s { base_row = s.base_row + 1; row = 24 }))
        ((s.base_row + 1) * 80) (omega arith);
}

reset_back :
    (s : Screen)
    → s.base_row ≡ 179
    → Scrolled s (set_display_start 80 (reset (record s { base_row = 180; row = 24 })))
unfolding reset set_display_start write_register
reset_back s e = record {
  bounded = omega arith;
  last_row = refl;
  column_kept = refl;
  color_kept = refl;
  feature_kept = refl;
  cells_moved = reset_cells s e;
  displayed =
      display_start-set_display_start (reset (record s { base_row = 180; row = 24 })) 80
        (omega arith);
}

-- With the row one past the window and the column 0, `wrap_row` scrolls by one row: the first row
-- of the window leaves, the others move up, the last one is blank, and the display starts at the
-- new window, which lies in video memory. This holds at the end of video memory too.
pub wrap_row-Scrolled :
    (s : Screen) → s.base_row ≤ 179 → s.column ≡ 0 → s.row ≡ 25 → Scrolled s (wrap_row s)
wrap_row-Scrolled s b c e = elim (Bool-cases (ltb s.base_row 179)) [
  | inl room ↦ let h : s.base_row < 179 = ground arith in rw (wrap_row_clears s e h) (cleared s c h)
  | inr full ↦
      let h : s.base_row ≡ 179 = ground arith in rw (wrap_row_resets s e h) (reset_back s h)
]

-- Inside the window `wrap_row` does nothing.
pub wrap_row_inside : (s : Screen) → s.base_row ≤ 179 → s.row < 25 → wrap_row s ≡ s
unfolding wrap_row
wrap_row_inside s b h =
    let inside : (s.row == 25) ≡ false = ground arith in
    let base : (s.base_row + 0) % 256 ≡ s.base_row = omega arith in
    let row : (s.row + 256 - 0) % 256 ≡ s.row = omega arith in rw (inside, base, row) refl
