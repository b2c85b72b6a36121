-- ===== src/Screen/Region.antt =====
-- io/vga_text_buffer.cpp, lines 6 to 114: what a fill and a copy leave in every cell.
use bare_metal_programming.Prelude.{
  ℕ, zero, suc, ◌+◌, ◌-◌, ◌*◌, ◌/◌, ◌%◌, ◌≤◌, ◌≡◌, refl, ap, arith,
}
use bare_metal_programming.Screen.Memory.{
  Cells, store, splat, fill_loop, copy_loop, fallback_fill, use_sse_2, use_avx_2, fallback_copy,
  use_sse_2_copy, use_avx_2_copy,
}
use bare_metal_programming.Screen.{g_dispatch, g_dispatch_cpy}

-- The cells from `dst` on, `n` of them, hold `word`; the others are those of `m`.
abbrev pub over : ℕ → ℕ → Cells → Cells → Cells
over = store

next_units : (units w : ℕ) → suc units * w ≡ w + units * w
next_units units w = grind arith

fill_loop-at :
    (lanes entry units dst : ℕ) (m : Cells) (i : ℕ)
    → fill_loop lanes entry units dst m i ≡ over dst (units * (2 * lanes)) (splat entry) m i
unfolding fill_loop
fill_loop-at lanes entry zero dst m i = ground arith
fill_loop-at lanes entry (suc units) dst m i =
    rw (fill_loop-at lanes entry units (dst + 2 * lanes) (store dst (2 * lanes) (splat entry) m) i)
      (ground (arith, next_units units (2 * lanes)))

copy_loop-at :
    (lanes units src dst : ℕ) (m : Cells) (i : ℕ)
    → dst ≤ src
    → (copy_loop lanes units src dst m).0 i ≡ over dst (units * (2 * lanes)) (λ k. m (src + k)) m i
unfolding copy_loop
copy_loop-at lanes zero src dst m i h = ground arith
copy_loop-at lanes (suc units) src dst m i h =
    rw
      (copy_loop-at lanes units (src + 2 * lanes) (dst + 2 * lanes)
        (store dst (2 * lanes) (λ k. m (src + k)) m) i (omega arith))
      (ground (arith, next_units units (2 * lanes), shifted))
  where
    shifted :
        dst + 2 * lanes ≤ i → m (src + 2 * lanes + (i - (dst + 2 * lanes))) ≡ m (src + (i - dst))
    shifted p = ap m (omega arith)

copy_loop-end :
    (lanes units src dst : ℕ) (m : Cells)
    → (copy_loop lanes units src dst m).1 ≡ dst + units * (2 * lanes)
unfolding copy_loop
copy_loop-end lanes zero src dst m = omega arith
copy_loop-end lanes (suc units) src dst m =
    rw
      (copy_loop-end lanes units (src + 2 * lanes) (dst + 2 * lanes)
        (store dst (2 * lanes) (λ k. m (src + k)) m))
      (grind arith)

-- The same for every fill of the table.
pub g_dispatch-at :
    (feature : ℕ) (m : Cells) (dst bytes entry i : ℕ)
    → bytes % 32 ≡ 0
    → g_dispatch feature m dst bytes entry i ≡ over dst (bytes / 2) (splat entry) m i
unfolding fallback_fill use_sse_2 use_avx_2
g_dispatch-at zero m dst bytes entry i h =
    let cells : bytes / 4 * 2 ≡ bytes / 2 = omega arith in
    rw (fill_loop-at 1 entry (bytes / 4) dst m i, cells) refl
g_dispatch-at (suc zero) m dst bytes entry i h =
    let cells : bytes / 16 * 8 ≡ bytes / 2 = omega arith in
    rw (fill_loop-at 4 entry (bytes / 16) dst m i, cells) refl
g_dispatch-at (suc (suc _)) m dst bytes entry i h =
    let cells : bytes / 32 * 16 ≡ bytes / 2 = omega arith in
    rw (fill_loop-at 8 entry (bytes / 32) dst m i, cells) refl

-- The same for every copy of the table.
pub g_dispatch_cpy-at :
    (feature : ℕ) (m : Cells) (src dst count : ℕ)
    → count % 32 ≡ 0
    → dst ≤ src
    → ((i : ℕ)
        → (g_dispatch_cpy feature m src dst count).0 i
          ≡ over dst (count / 2) (λ k. m (src + k)) m i)
      × ((g_dispatch_cpy feature m src dst count).1 ≡ dst + count / 2)
unfolding fallback_copy use_sse_2_copy use_avx_2_copy
g_dispatch_cpy-at zero m src dst count h le =
    let cells : count / 4 * 2 ≡ count / 2 = omega arith in
    (
      λ i. rw (copy_loop-at 1 (count / 4) src dst m i le, cells) refl,
      rw (copy_loop-end 1 (count / 4) src dst m, cells) refl,
    )
g_dispatch_cpy-at (suc zero) m src dst count h le =
    let cells : count / 16 * 8 ≡ count / 2 = omega arith in
    (
      λ i. rw (copy_loop-at 4 (count / 16) src dst m i le, cells) refl,
      rw (copy_loop-end 4 (count / 16) src dst m, cells) refl,
    )
g_dispatch_cpy-at (suc (suc _)) m src dst count h le =
    let cells : count / 32 * 16 ≡ count / 2 = omega arith in
    (
      λ i. rw (copy_loop-at 8 (count / 32) src dst m i le, cells) refl,
      rw (copy_loop-end 8 (count / 32) src dst m, cells) refl,
    )

-- For every value of the processor's flag and regions of `bytes` bytes, a multiple of 32: the fill
-- that `g_dispatch` picks writes the word `entry` over the whole region and no cell outside it; the
-- copy that `g_dispatch_cpy` picks, to a lower or equal address, gives each cell of the target what
-- the source held before, even where the regions overlap, changes no other cell, and returns the
-- address behind the target. So the three versions do the same.
pub dispatch_lem :
    (feature : ℕ) (m : Cells) (src dst bytes entry : ℕ)
    → bytes % 32 ≡ 0
    → ((i : ℕ) → g_dispatch feature m dst bytes entry i ≡ over dst (bytes / 2) (splat entry) m i)
      × (dst ≤ src
          → ((i : ℕ)
              → (g_dispatch_cpy feature m src dst bytes).0 i
                ≡ over dst (bytes / 2) (λ k. m (src + k)) m i)
            × ((g_dispatch_cpy feature m src dst bytes).1 ≡ dst + bytes / 2))
dispatch_lem feature m src dst bytes entry h =
    (λ i. g_dispatch-at feature m dst bytes entry i h, g_dispatch_cpy-at feature m src dst bytes h)
