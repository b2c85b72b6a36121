-- ===== src/Screen/Memory.antt =====
-- io/vga_text_buffer.cpp, lines 6 to 114: the loops that fill and copy video memory. A loop of the
-- source steps a pointer over words of 4, 16 or 32 bytes, `lanes` times 4, which hold `2 * lanes`
-- cells.
use bare_metal_programming.Prelude.{
  ℕ, zero, suc, ◌+◌, ◌-◌, ◌*◌, ◌%◌, cast, ◌>>>◌, ltb, leb, ◌==◌, ◌&&◌, if◌then◌else◌,
}

abbrev pub Cells : Type 0
Cells = ℕ → ℕ

abbrev pub write_cell : ℕ → ℕ → Cells → Cells
write_cell p entry m i = if i == p then entry else m i

-- One store of `n` cells at `p`: cell `k` of the word is `word k`.
abbrev pub store : ℕ → ℕ → Cells → Cells → Cells
store p n word m i = if leb p i && ltb i (p + n) then word (i - p) else m i

-- `_mm_set1_epi32`: the low and the high half of `entry`, in turn.
abbrev pub splat : ℕ → Cells
splat entry k = if k % 2 == 0 then cast 16 entry else entry >>> 16

-- `end` is `units` words away.
unfoldable pub fill_loop : ℕ → ℕ → ℕ → ℕ → Cells → Cells
fill_loop lanes entry zero dst m = m
fill_loop lanes entry (suc units) dst m =
    fill_loop lanes entry units (dst + 2 * lanes) (store dst (2 * lanes) (splat entry) m)

unfoldable pub copy_loop : ℕ → ℕ → ℕ → ℕ → Cells → Cells × ℕ
copy_loop lanes zero src dst m = (m, dst)
copy_loop lanes (suc units) src dst m =
    copy_loop lanes units (src + 2 * lanes) (dst + 2 * lanes)
      (store dst (2 * lanes) (λ k. m (src + k)) m)

unfoldable pub fallback_fill : Cells → ℕ → ℕ → ℕ → Cells
fallback_fill m dst bytes entry = fill_loop 1 entry (bytes >>> 2) dst m

unfoldable pub use_sse_2 : Cells → ℕ → ℕ → ℕ → Cells
use_sse_2 m dst bytes entry = fill_loop 4 entry (bytes >>> 4) dst m

unfoldable pub use_avx_2 : Cells → ℕ → ℕ → ℕ → Cells
use_avx_2 m dst bytes entry = fill_loop 8 entry (bytes >>> 5) dst m

unfoldable pub fallback_copy : Cells → ℕ → ℕ → ℕ → Cells × ℕ
fallback_copy m src dst count = copy_loop 1 (count >>> 2) src dst m

unfoldable pub use_sse_2_copy : Cells → ℕ → ℕ → ℕ → Cells × ℕ
use_sse_2_copy m src dst count = copy_loop 4 (count >>> 4) src dst m

unfoldable pub use_avx_2_copy : Cells → ℕ → ℕ → ℕ → Cells × ℕ
use_avx_2_copy m src dst count = copy_loop 8 (count >>> 5) src dst m
