-- ===== src/Pmm/Fill.antt =====
-- The bulk fills of the bitmap (kernel/internal/pmm_templates.h, lines 68 to 164, and
-- kernel/pmm.cpp, lines 747 to 945). A vector store is the store of its 16 or 32 bytes.
pub mod Laws
pub mod Dispatch
use bare_metal_programming.Prelude.{
  ℕ, zero, suc, ◌+◌, ◌-◌, ◌*◌, ◌/◌, ◌%◌, ◌^◌, cast, ◌>>>◌, ltb, ◌==◌, Bool, true, false,
  if◌then◌else◌,
}
use bare_metal_programming.Pmm.Geometry.{Bitmap, store_8}
use bare_metal_programming.Pmm.Sweep.{align_down, aligned_end}

-- `set_bits`.
pub data SetBits : Type 0 where
  all_zeros all_ones : SetBits

-- The fill value of `n` bytes.
unfoldable pub fill_value : SetBits → ℕ → ℕ
fill_value all_zeros n = 0
fill_value all_ones n = 2 ^ (8 * n) - 1

-- The little-endian store of `n` bytes of `value`.
unfoldable pub store : ℕ → Bitmap → ℕ → ℕ → Bitmap
store zero b p value = b
store (suc n) b p value = store n (store_8 b p (cast 8 value)) (p + 1) (value >>> 8)

module _ (s : SetBits) (n : ℕ) where
  -- `for(; current < end; ++current) *current = value;` over units of `n` bytes.
  unfoldable pub set_loop : ℕ → Bitmap → ℕ → ℕ → Bitmap × ℕ
  set_loop zero b current end_ = (b, current)
  set_loop (suc fuel) b current end_ = elim (ltb current end_) [
    | false ↦ (b, current)
    | true ↦ set_loop fuel (store n b current (fill_value s n)) (current + n) end_
  ]

  -- `set_gpr`, `set_sse2` and `set_avx2`, with their inline twins: at most `end - start` turns.
  unfoldable pub set_units : Bitmap → ℕ → ℕ → Bitmap × ℕ
  set_units b start end_ = set_loop (end_ - start) b start end_

-- The same after another fill, to an end that may depend on the cursor.
unfoldable pub then_set : SetBits → ℕ → Bitmap × ℕ → (ℕ → ℕ) → Bitmap × ℕ
then_set s n r end_ = set_units s n r.0 r.1 (end_ r.1)

-- `set_frames_used_32` and `set_frames_free_32`. The 4-byte fill is given the end of the 2-byte
-- one, as in the source.
unfoldable pub set_frames_32 : SetBits → Bitmap → ℕ → ℕ → Bitmap
set_frames_32 s b start end_ =
    let r1 = set_units s 1 b start (aligned_end start end_ 0x01) in
    let temp_end = aligned_end r1.1 end_ 0x03 in
    let r2 = then_set s 2 r1 (λ p. temp_end) in
    let r3 = then_set s 4 r2 (λ p. temp_end) in
    let r4 = then_set s 2 r3 (λ p. align_down end_ 0x01) in (then_set s 1 r4 (λ p. end_)).0

unfoldable pub set_frames_sse2 : SetBits → Bitmap → ℕ → ℕ → Bitmap
set_frames_sse2 s b start end_ =
    let r1 = set_units s 1 b start (aligned_end start end_ 0x01) in
    let r2 = then_set s 2 r1 (λ p. aligned_end p end_ 0x03) in
    let r3 = then_set s 4 r2 (λ p. aligned_end p end_ 0x0F) in
    let r4 = then_set s 16 r3 (λ p. align_down end_ 0x0F) in
    let r5 = then_set s 4 r4 (λ p. align_down end_ 0x03) in
    let r6 = then_set s 2 r5 (λ p. align_down end_ 0x01) in (then_set s 1 r6 (λ p. end_)).0

unfoldable pub set_frames_avx2 : SetBits → Bitmap → ℕ → ℕ → Bitmap
set_frames_avx2 s b start end_ =
    let r1 = set_units s 1 b start (aligned_end start end_ 0x01) in
    let r2 = then_set s 2 r1 (λ p. aligned_end p end_ 0x03) in
    let r3 = then_set s 4 r2 (λ p. aligned_end p end_ 0x0F) in
    let r4 = then_set s 16 r3 (λ p. aligned_end p end_ 0x1F) in
    let r5 = then_set s 32 r4 (λ p. align_down end_ 0x1F) in
    let r6 = then_set s 16 r5 (λ p. align_down end_ 0x0F) in
    let r7 = then_set s 4 r6 (λ p. align_down end_ 0x03) in
    let r8 = then_set s 2 r7 (λ p. align_down end_ 0x01) in (then_set s 1 r8 (λ p. end_)).0

-- `set_range_used[…]` and `set_range_free[…]`. An index past the three entries is out of range in
-- the source.
unfoldable pub set_range : SetBits → ℕ → Bitmap → ℕ → ℕ → Bitmap
set_range s index =
    if index == 0
    then set_frames_32 s
    else if index == 1
    then set_frames_sse2 s
    else set_frames_avx2 s

-- The entries of the two tables.
abbrev pub set_frames_used_32 : Bitmap → ℕ → ℕ → Bitmap
set_frames_used_32 = set_frames_32 all_ones

abbrev pub set_frames_used_sse2 : Bitmap → ℕ → ℕ → Bitmap
set_frames_used_sse2 = set_frames_sse2 all_ones

abbrev pub set_frames_used_avx2 : Bitmap → ℕ → ℕ → Bitmap
set_frames_used_avx2 = set_frames_avx2 all_ones

abbrev pub set_frames_free_32 : Bitmap → ℕ → ℕ → Bitmap
set_frames_free_32 = set_frames_32 all_zeros

abbrev pub set_frames_free_sse2 : Bitmap → ℕ → ℕ → Bitmap
set_frames_free_sse2 = set_frames_sse2 all_zeros

abbrev pub set_frames_free_avx2 : Bitmap → ℕ → ℕ → Bitmap
set_frames_free_avx2 = set_frames_avx2 all_zeros
