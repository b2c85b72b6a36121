-- ===== src/Pmm/Sweep.antt =====
-- The sweeps over the bitmap: the cursor is led to wider and wider alignments, then through the
-- rest (kernel/pmm.cpp, lines 444 to 486, 576 to 622 and 669 to 745).
pub mod Pointers
pub mod Align
pub mod Laws
pub mod Find
use bare_metal_programming.Prelude.{
  ℕ, ◌+◌, ◌-◌, ◌*◌, ◌%◌, ◌^◌, bit_and, cast, complement, ltb, leb, ◌==◌, if◌then◌else◌,
}
use bare_metal_programming.Pmm.Geometry.{Bitmap, AllocationRun, Pmm}
use bare_metal_programming.Pmm.Search.{contiguous_8_core, contiguous_16_core, contiguous_32_core}
use bare_metal_programming.Pmm.Vector.{Core, contiguous_sse2_core, contiguous_avx2_core}

-- `p & ~mask`, and `(p + mask) & ~mask`.
unfoldable pub align_down : ℕ → ℕ → ℕ
align_down p mask = bit_and p (complement 32 mask)

unfoldable pub align_up : ℕ → ℕ → ℕ
align_up p mask = align_down (cast 32 (p + mask)) mask

unfoldable pub get_best_aligned_address : ℕ → ℕ → ℕ
get_best_aligned_address addr_1 addr_2 = if leb addr_1 addr_2 then addr_1 else addr_2

-- The end pointer that leads `begin` to the alignment of `mask`, but not over `end`.
unfoldable pub aligned_end : ℕ → ℕ → ℕ → ℕ
aligned_end begin end_ mask = get_best_aligned_address (align_up begin mask) (align_down end_ mask)

module _ (frames : ℕ) where
  -- `core(run, frames, …, &begin)` after `if(run->length >= frames) return;`.
  unfoldable pub then_core : AllocationRun × ℕ → Core → (ℕ → ℕ) → AllocationRun × ℕ
  then_core r core end_ = if leb frames r.0.length then r else core r.0 (end_ r.1) r.1

module _ (b : Bitmap) (frames : ℕ) where
  unfoldable pub sweep_32 : ℕ → ℕ → AllocationRun → AllocationRun
  sweep_32 begin end_ run =
      let r1 = contiguous_8_core b frames run (aligned_end begin end_ 0x01) begin in
      let r2 = then_core frames r1 (contiguous_16_core b frames) (λ p. aligned_end p end_ 0x03) in
      let r3 = then_core frames r2 (contiguous_32_core b frames) (λ p. align_down end_ 0x03) in
      let r4 = then_core frames r3 (contiguous_16_core b frames) (λ p. align_down end_ 0x01) in
      (then_core frames r4 (contiguous_8_core b frames) (λ p. end_)).0

  unfoldable pub sweep_sse_2 : ℕ → ℕ → AllocationRun → AllocationRun
  sweep_sse_2 begin end_ run =
      let r1 = contiguous_8_core b frames run (aligned_end begin end_ 0x01) begin in
      let r2 = then_core frames r1 (contiguous_16_core b frames) (λ p. aligned_end p end_ 0x03) in
      let r3 = then_core frames r2 (contiguous_32_core b frames) (λ p. aligned_end p end_ 0x0F) in
      let r4 = then_core frames r3 (contiguous_sse2_core b frames) (λ p. align_down end_ 0x0F) in
      let r5 = then_core frames r4 (contiguous_32_core b frames) (λ p. align_down end_ 0x03) in
      let r6 = then_core frames r5 (contiguous_16_core b frames) (λ p. align_down end_ 0x01) in
      (then_core frames r6 (contiguous_8_core b frames) (λ p. end_)).0

  unfoldable pub sweep_avx_2 : ℕ → ℕ → AllocationRun → AllocationRun
  sweep_avx_2 begin end_ run =
      let r1 = contiguous_8_core b frames run (aligned_end begin end_ 0x01) begin in
      let r2 = then_core frames r1 (contiguous_16_core b frames) (λ p. aligned_end p end_ 0x03) in
      let r3 = then_core frames r2 (contiguous_32_core b frames) (λ p. aligned_end p end_ 0x0F) in
      let r4 = then_core frames r3 (contiguous_sse2_core b frames) (λ p. aligned_end p end_ 0x1F) in
      let r5 = then_core frames r4 (contiguous_avx2_core b frames) (λ p. align_down end_ 0x1F) in
      let r6 = then_core frames r5 (contiguous_sse2_core b frames) (λ p. align_down end_ 0x0F) in
      let r7 = then_core frames r6 (contiguous_32_core b frames) (λ p. align_down end_ 0x03) in
      let r8 = then_core frames r7 (contiguous_16_core b frames) (λ p. align_down end_ 0x01) in
      (then_core frames r8 (contiguous_8_core b frames) (λ p. end_)).0

-- A sweep from the hint to the end, and a second one up to the hint.
unfoldable pub find_with :
    (Bitmap → ℕ → ℕ → ℕ → AllocationRun → AllocationRun)
    → Bitmap
    → AllocationRun
    → ℕ
    → AllocationRun
find_with sweep b run frames =
    let first = sweep b frames b.search_begin b.limit run in
    if ltb first.length frames
    then sweep b frames b.start b.search_begin (record first { length = 0 })
    else first

unfoldable pub find_contiguous_frames_32 : Bitmap → AllocationRun → ℕ → AllocationRun
find_contiguous_frames_32 = find_with sweep_32

unfoldable pub find_contiguous_frames_sse2 : Bitmap → AllocationRun → ℕ → AllocationRun
find_contiguous_frames_sse2 = find_with sweep_sse_2

unfoldable pub find_contiguous_frames_avx2 : Bitmap → AllocationRun → ℕ → AllocationRun
find_contiguous_frames_avx2 = find_with sweep_avx_2

-- `simd_lut.entries[…]`. An index past the table's three entries is out of range in the source.
unfoldable pub simd_lut : ℕ → Bitmap → AllocationRun → ℕ → AllocationRun
simd_lut index =
    if index == 0
    then find_contiguous_frames_32
    else if index == 1
    then find_contiguous_frames_sse2
    else find_contiguous_frames_avx2
