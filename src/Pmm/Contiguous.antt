-- ===== src/Pmm/Contiguous.antt =====
-- Several frames in a row (kernel/pmm.cpp, lines 1135 to 1203).
pub mod Mark
pub mod Allocate
pub mod Release
use bare_metal_programming.Prelude.{
  ℕ, ◌+◌, ◌-◌, bit_and, bit_or, cast, wrap_sub, ltb, leb, ◌==◌, Bool, ◌||◌, not, if◌then◌else◌,
}
use bare_metal_programming.Pmm.Geometry.{
  Pmm, Bitmap, load_8, store_8, frame_index, frame_address, bitmap_index, ReservedVector,
}
use bare_metal_programming.Pmm.Sweep.{simd_lut}
use bare_metal_programming.Pmm.Fill.{all_ones, set_range}
use bare_metal_programming.Pmm.Ranges.{front_mask, end_mask, free_frame_range, is_frame_range_used}
use bare_metal_programming.Pmm.Frames.{
  PmmResult, success, failed, reserved, out_of_range, zero_frames, nullptr, lower_hint, in_region,
}

-- The bitmap after the frames from `start_frame` on have been marked, and the hint moved.
unfoldable pub mark_run : Bitmap → ℕ → ℕ → ℕ → Bitmap
mark_run b mm_flag start_frame frames =
    let byte_start = bitmap_index start_frame in
    let inc_end_frame = cast 32 (start_frame + frames - 1) in
    let byte_end = bitmap_index inc_end_frame in
    let start = b.start + byte_start in
    let end_ = b.start + byte_end in
    let value = load_8 b end_ in
    let one_byte =
      bit_or value (cast 8 (bit_and (front_mask start_frame) (end_mask inc_end_frame))) in
    let front = store_8 b start (bit_or (load_8 b start) (front_mask start_frame)) in
    let middle = set_range all_ones mm_flag front (start + 1) end_ in
    let last = bit_or value (end_mask inc_end_frame) in
    let value' = if byte_start == byte_end then one_byte else last in
    let marked = store_8 (if byte_start == byte_end then b else middle) end_ value' in
    record marked { search_begin = end_ + (if value' == 0xFF then 1 else 0) }

unfoldable pub pmm_allocate_contiguous_frames : Pmm → ℕ → Pmm × ℕ
pmm_allocate_contiguous_frames g frames =
    let run = simd_lut g.mm_flag g.bitmap (record { start_frame = 0; length = 0 }) frames in
    if frames == 0 then (g, nullptr) else if ltb run.length frames then (g, nullptr) else (
      record g {
        bitmap = mark_run g.bitmap g.mm_flag run.start_frame frames;
        used_frames = cast 32 (g.used_frames + frames);
      },
      frame_address run.start_frame,
    )

-- `(base - index) < frames` beside `index - base < length`: does the range meet the region?
unfoldable pub meets_region : ℕ → ℕ → ReservedVector → Bool
meets_region index frames r = in_region index r || ltb (wrap_sub 32 r.base index) frames

unfoldable pub pmm_free_contiguous_frames : Pmm → ℕ → ℕ → Pmm × PmmResult
pmm_free_contiguous_frames g address frames =
    let index = frame_index address in
    let excluded_end_frame = cast 32 (index + frames) in
    let freed = free_frame_range g index excluded_end_frame in
    if frames == 0
    then (g, zero_frames)
    else if leb g.total_frames index || ltb (wrap_sub 32 g.total_frames index) frames
    then (g, out_of_range)
    else if meets_region index frames g.reserved_0 || meets_region index frames g.reserved_1
    then (g, reserved)
    else if not (is_frame_range_used g.bitmap index excluded_end_frame)
    then (g, failed)
    else (
      record freed {
        bitmap = record (freed.bitmap) {
          search_begin =
              lower_hint (freed.bitmap.start + bitmap_index index) freed.bitmap.search_begin;
        };
      },
      success,
    )
