-- ===== src/Pmm/Frames.antt =====
-- One frame at a time, and the counters (kernel/pmm.cpp, lines 1018 to 1020 and 1088 to 1133).
pub mod Byte
pub mod Guards
pub mod Allocate
pub mod Release
pub mod RoundTrip
use bare_metal_programming.Prelude.{
  ℕ, ◌+◌, ◌-◌, bit_and, bit_or, cast, wrap_sub, complement, ◌<<<◌, ltb, leb, ◌==◌, Bool, ◌||◌, not,
  if◌then◌else◌, Option, none, some,
}
use bare_metal_programming.Tools.Builtin.{trailing_zeros}
use bare_metal_programming.Pmm.Geometry.{
  Pmm, Bitmap, load_8, bits_per_byte_shift, frame_index, frame_address, get_bit_n_byte,
  set_frame_used, set_frame_free, is_frame_used, ReservedVector,
}
use bare_metal_programming.Pmm.Ranges.{find_free_byte}

-- `pmm_result`.
pub data PmmResult : Type 0 where
  success failed reserved out_of_range zero_frames : PmmResult

unfoldable pub pmm_total_frames : Pmm → ℕ
pmm_total_frames g = g.total_frames

unfoldable pub pmm_used_frames : Pmm → ℕ
pmm_used_frames g = g.used_frames

unfoldable pub pmm_free_frames : Pmm → ℕ
pmm_free_frames g = wrap_sub 32 g.total_frames g.used_frames

abbrev pub nullptr : ℕ
nullptr = 0

-- The byte with a free frame: behind the hint first, then before it.
unfoldable pub free_byte : Bitmap → Option ℕ
free_byte b = elim (find_free_byte b b.search_begin b.limit) [
  | some byte_ptr ↦ some byte_ptr
  | none ↦ find_free_byte b b.start b.search_begin
]

-- The allocation in the byte that was found.
unfoldable pub allocate_in : Pmm → ℕ → Pmm × ℕ
allocate_in g byte_ptr =
    let value = load_8 g.bitmap byte_ptr in
    let bit_index = trailing_zeros 8 (complement 8 value) in
    let (g', value') = set_frame_used g byte_ptr value bit_index in
    let frame_pos = cast 32 ((byte_ptr - g.bitmap.start) <<< bits_per_byte_shift) in
    (
      record g' {
        bitmap = record (g'.bitmap) { search_begin = byte_ptr + (if value' == 0xFF then 1 else 0) };
      },
      frame_address (frame_pos + bit_index),
    )

unfoldable pub pmm_allocate_frame : Pmm → Pmm × ℕ
pmm_allocate_frame g = elim (free_byte g.bitmap) [
  | none ↦ (g, nullptr)
  | some byte_ptr ↦ allocate_in g byte_ptr
]

-- `(a & mask) | (hint & ~mask)` for `mask` all ones where `a < hint`, else zero.
unfoldable pub lower_hint : ℕ → ℕ → ℕ
lower_hint a hint =
    let mask = wrap_sub 32 0 (if ltb a hint then 1 else 0) in
    bit_or (bit_and a mask) (bit_and hint (complement 32 mask))

-- `index - base < length`, on wrapping words.
unfoldable pub in_region : ℕ → ReservedVector → Bool
in_region index r = ltb (wrap_sub 32 index r.base) r.length

unfoldable pub pmm_free_frame : Pmm → ℕ → Pmm × PmmResult
pmm_free_frame g address =
    let index = frame_index address in
    let pos = get_bit_n_byte index in
    let byte_ptr = g.bitmap.start + pos.byte_index in
    let freed = set_frame_free g byte_ptr pos.bit_index in
    if leb g.total_frames index
    then (g, out_of_range)
    else if in_region index g.reserved_0 || in_region index g.reserved_1
    then (g, reserved)
    else if not (is_frame_used g.bitmap byte_ptr pos.bit_index)
    then (g, failed)
    else (
      record freed {
        bitmap = record (freed.bitmap) {
          search_begin = lower_hint byte_ptr freed.bitmap.search_begin;
        };
      },
      success,
    )
