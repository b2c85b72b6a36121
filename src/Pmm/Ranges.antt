-- ===== src/Pmm/Ranges.antt =====
-- Scans and updates of whole ranges of frames (kernel/pmm.cpp, lines 947 to 999).
pub mod FreeByte
pub mod Masks
pub mod Change
pub mod Check
use bare_metal_programming.Prelude.{
  ℕ, zero, suc, ◌+◌, ◌-◌, bit_and, bit_or, cast, wrap_sub, ◌<<<◌, ◌>>>◌, ltb, ◌==◌, Bool, true,
  false, if◌then◌else◌, Option, none, some,
}
use bare_metal_programming.Pmm.Geometry.{
  Pmm, Bitmap, load_8, store_8, byte_size, bit_max_pos, bitmap_index, bit_position,
}
use bare_metal_programming.Pmm.Fill.{all_zeros, set_range}

-- The loop of `find_free_byte`; it makes at most `end - begin` turns.
unfoldable pub find_loop : Bitmap → ℕ → ℕ → ℕ → Option ℕ
find_loop b zero begin end_ = none
find_loop b (suc fuel) begin end_ = elim (ltb begin end_) [
  | false ↦ none
  | true ↦ elim (load_8 b begin == 0xFF) [
    | false ↦ some begin
    | true ↦ find_loop b fuel (begin + 1) end_
  ]
]

-- `none` is `nullptr`.
unfoldable pub find_free_byte : Bitmap → ℕ → ℕ → Option ℕ
find_free_byte b begin end_ = find_loop b (end_ - begin) begin end_

unfoldable pub front_mask : ℕ → ℕ
front_mask frame = cast 8 (0xFF <<< bit_position frame)

unfoldable pub end_mask : ℕ → ℕ
end_mask inc_end_frame = cast 8 (0xFF >>> (bit_max_pos - bit_position inc_end_frame))

-- The bits below a frame of its byte, and those above.
unfoldable pub below_mask : ℕ → ℕ
below_mask frame = cast 8 (0xFF >>> (byte_size - bit_position frame))

unfoldable pub above_mask : ℕ → ℕ
above_mask inc_end_frame = cast 8 (0xFF <<< (bit_position inc_end_frame + 1))

-- `*ptr &= mask`.
unfoldable pub and_byte : Bitmap → ℕ → ℕ → Bitmap
and_byte b ptr mask = store_8 b ptr (bit_and (load_8 b ptr) mask)

unfoldable pub free_frame_range : Pmm → ℕ → ℕ → Pmm
free_frame_range g start_frame end_frame =
    let b = g.bitmap in
    let byte_start = bitmap_index start_frame in
    let inc_end_frame = wrap_sub 32 end_frame 1 in
    let byte_end = bitmap_index inc_end_frame in
    let start = b.start + byte_start in
    let end_ = b.start + byte_end in
    let one_byte = and_byte b end_ (
      cast 8 (
        bit_or (0xFF >>> (byte_size - bit_position start_frame))
          (0xFF <<< (bit_position inc_end_frame + 1)))) in
    let front = and_byte b start (below_mask start_frame) in
    let middle = set_range all_zeros g.mm_flag front (start + 1) end_ in
    let several = and_byte middle end_ (above_mask inc_end_frame) in
    record g {
      used_frames = wrap_sub 32 g.used_frames (wrap_sub 32 end_frame start_frame);
      bitmap = if byte_start == byte_end then one_byte else several;
    }

unfoldable pub is_frame_range_used : Bitmap → ℕ → ℕ → Bool
is_frame_range_used b start_frame end_frame =
    let start_byte = bitmap_index start_frame in
    let inc_end_frame = wrap_sub 32 end_frame 1 in
    let end_byte = bitmap_index inc_end_frame in
    let start = b.start + start_byte in
    let end_ = b.start + end_byte in
    let mask = cast 8 (
      bit_and (0xFF <<< bit_position start_frame)
        (0xFF >>> (bit_max_pos - bit_position inc_end_frame))) in
    if start_byte == end_byte
    then bit_and (load_8 b start) mask == mask
    else if bit_and (load_8 b start) (front_mask start_frame) == front_mask start_frame
    then elim (find_free_byte b (start + 1) end_) [
      | some at ↦ false
      | none ↦ bit_and (load_8 b end_) (end_mask inc_end_frame) == end_mask inc_end_frame
    ]
    else false
