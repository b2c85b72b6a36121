-- ===== src/Pmm/Geometry.antt =====
-- The state of the allocator, the conversions between addresses, frames and bits, and the
-- accesses to single bits of the bitmap (kernel/pmm.cpp, lines 13 to 102).
use bare_metal_programming.Prelude.{
  ℕ, zero, suc, ◌+◌, ◌-◌, ◌*◌, ◌^◌, bit_and, bit_or, cast, wrap_sub, complement, ◌<<<◌, ◌>>>◌, ltb,
  ◌==◌, Bool, ◌&&◌, ◌||◌, not, List, get_or, set,
}

abbrev pub frame_size : ℕ
frame_size = 4096

abbrev pub frame_shift : ℕ
frame_shift = 12

abbrev pub byte_size : ℕ
byte_size = 8

abbrev pub bits_per_byte_shift : ℕ
bits_per_byte_shift = 3

abbrev pub bit_mask : ℕ
bit_mask = 7

abbrev pub bit_max_pos : ℕ
bit_max_pos = 7

pub record BitNByte : Type 0 where
  pub byte_index : ℕ
  pub bit_index : ℕ

-- `operator<` of `bit_n_byte`.
pub bit_n_byte_lt : BitNByte → BitNByte → Bool
bit_n_byte_lt a b =
    ltb a.byte_index b.byte_index || (a.byte_index == b.byte_index && ltb a.bit_index b.bit_index)

-- `bitmap`, with the bytes that it points to. `limit` is its pointer `end`.
pub record Bitmap : Type 0 where
  pub start : ℕ
  pub limit : ℕ
  pub search_begin : ℕ
  pub cells : List ℕ

pub record ReservedVector : Type 0 where
  pub base : ℕ
  pub length : ℕ

-- The globals of the translation unit, and the processor's feature flag.
pub record Pmm : Type 0 where
  pub used_frames : ℕ
  pub total_frames : ℕ
  pub bitmap : Bitmap
  pub reserved_0 : ReservedVector
  pub reserved_1 : ReservedVector
  pub mm_flag : ℕ

-- A byte read, and a byte written, through a pointer into the bitmap.
abbrev pub load_8 : Bitmap → ℕ → ℕ
load_8 b p = get_or b.cells (p - b.start) 0

abbrev pub store_8 : Bitmap → ℕ → ℕ → Bitmap
store_8 b p v = record b { cells = set b.cells (p - b.start) v }

-- A little-endian word of `n` bytes.
unfoldable pub load : Bitmap → ℕ → ℕ → ℕ
load b p zero = 0
load b p (suc n) = load_8 b p + load b (p + 1) n * 2 ^ 8

unfoldable pub frame_index : ℕ → ℕ
frame_index address = address >>> frame_shift

unfoldable pub frame_address : ℕ → ℕ
frame_address index = cast 32 (index <<< frame_shift)

unfoldable pub bitmap_index : ℕ → ℕ
bitmap_index frame = frame >>> bits_per_byte_shift

unfoldable pub bit_position : ℕ → ℕ
bit_position frame = cast 8 (bit_and frame bit_mask)

unfoldable pub get_bit_n_byte : ℕ → BitNByte
get_bit_n_byte index = record {
  byte_index = index >>> bits_per_byte_shift;
  bit_index = cast 8 (bit_and index bit_mask);
}

-- The byte at `ptr` becomes `value` with the frame's bit set; that byte is returned.
unfoldable pub set_frame_used : Pmm → ℕ → ℕ → ℕ → Pmm × ℕ
set_frame_used g ptr value left_shift =
    let value' = cast 8 (bit_or value (1 <<< left_shift)) in
    (
      record g { bitmap = store_8 g.bitmap ptr value'; used_frames = cast 32 (g.used_frames + 1) },
      value',
    )

unfoldable pub set_frame_free : Pmm → ℕ → ℕ → Pmm
set_frame_free g ptr bit_index = record g {
  bitmap =
      store_8 g.bitmap ptr
        (cast 8 (bit_and (load_8 g.bitmap ptr) (complement 32 (1 <<< bit_index))));
  used_frames = wrap_sub 32 g.used_frames 1;
}

unfoldable pub is_frame_used : Bitmap → ℕ → ℕ → Bool
is_frame_used b ptr bit_index = not (bit_and (load_8 b ptr) (1 <<< bit_index) == 0)

-- `allocation_run`.
pub record AllocationRun : Type 0 where
  pub start_frame : ℕ
  pub length : ℕ

unfoldable pub run_found : Bitmap → ℕ → ℕ → ℕ
run_found b ptr length = wrap_sub 32 (cast 32 ((ptr - b.start) <<< bits_per_byte_shift)) length
