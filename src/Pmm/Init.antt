-- ===== src/Pmm/Init.antt =====
-- `pmm_initialize` (kernel/pmm.cpp, lines 1022 to 1086) over the memory map of kernel/e820.h.
pub mod Fresh
pub mod Piece
pub mod Image
pub mod Entries
pub mod Tests
use bare_metal_programming.Prelude.{
  ℕ, ◌+◌, ◌-◌, ◌/◌, ◌^◌, cast, wrap_sub, ◌>>>◌, ltb, leb, Bool, if◌then◌else◌, List, [], ◌∷◌,
}
use bare_metal_programming.Pmm.Geometry.{
  Pmm, Bitmap, ReservedVector, frame_size, frame_shift, frame_index, bitmap_index,
}
use bare_metal_programming.Pmm.Fill.{all_ones, set_range}
use bare_metal_programming.Pmm.Ranges.{free_frame_range}

-- `e820_memory_type`.
pub data E820MemoryType : Type 0 where
  usable reserved acpi_reclaimable acpi_nvs bad_memory : E820MemoryType

pub record E820Entry : Type 0 where
  pub base : ℕ
  pub length : ℕ
  pub kind : E820MemoryType

-- `cmp::max` and `cmp::min`.
unfoldable pub cmp_max : ℕ → ℕ → ℕ
cmp_max value_1 value_2 = if leb value_2 value_1 then value_1 else value_2

unfoldable pub cmp_min : ℕ → ℕ → ℕ
cmp_min value_1 value_2 = if ltb value_1 value_2 then value_1 else value_2

unfoldable pub is_usable : E820MemoryType → Bool
is_usable usable = Bool.true
is_usable _ = Bool.false

-- `base + length` as `uint64_t`.
unfoldable pub entry_end : E820Entry → ℕ
entry_end e = cast 64 (e.base + e.length)

unfoldable pub highest_from : ℕ → List E820Entry → ℕ
highest_from highest [] = highest
highest_from highest (e ∷ entries) =
    highest_from (if is_usable e.kind then cmp_max highest (entry_end e) else highest) entries

-- The frames that 32-bit addresses reach, frame 0 included.
abbrev pub accessable_frames : ℕ
accessable_frames = (2 ^ 32 - 1) / 2 ^ frame_shift + 1

unfoldable pub frames_of_map : List E820Entry → ℕ
frames_of_map entries = cast 32 (cmp_min (highest_from 0 entries >>> frame_shift) accessable_frames)

-- One turn of the loop over the reserved regions: the frames before the region are freed.
unfoldable pub free_up_to : Pmm × ℕ → ReservedVector → ℕ → Pmm × ℕ
free_up_to (g, runner) r u_end =
    let piece_end = cmp_min r.base u_end in
    (
      if ltb runner piece_end then free_frame_range g runner piece_end else g,
      cmp_max runner (cast 32 (r.base + r.length)),
    )

-- The frames from `start_frame` up to `u_end` that lie in no reserved region are freed.
unfoldable pub free_usable : Pmm → ℕ → ℕ → Pmm
free_usable g start_frame u_end =
    let r1 = free_up_to (g, start_frame) g.reserved_0 u_end in
    let r2 = free_up_to r1 g.reserved_1 u_end in
    if ltb r2.1 u_end then free_frame_range r2.0 r2.1 u_end else r2.0

unfoldable pub free_entry : Pmm → E820Entry → Pmm
free_entry g e =
    let start_frame =
      cmp_min (cast 64 (e.base + (frame_size - 1)) >>> frame_shift) g.total_frames in
    let end_frame = cmp_min (entry_end e >>> frame_shift) g.total_frames in
    if is_usable e.kind
    then (if ltb start_frame end_frame then free_usable g start_frame end_frame else g)
    else g

unfoldable pub free_entries : Pmm → List E820Entry → Pmm
free_entries g [] = g
free_entries g (e ∷ entries) = free_entries (free_entry g e) entries

-- The state before the entries are freed: everything is used. `cells` is the memory behind the
-- kernel's image, whose bytes the bitmap takes over.
unfoldable pub all_used : ℕ → List ℕ → List E820Entry → ℕ → ℕ → Pmm
all_used mm_flag cells entries kernel_start kernel_end =
    let total_frames = frames_of_map entries in
    let limit = kernel_end + bitmap_index (total_frames + 7) in
    let b : Bitmap = record {
      start = kernel_end;
      limit = limit;
      search_begin = kernel_end;
      cells = cells;
    } in
    let kernel_start_index = frame_index kernel_start in
    let kernel_end_index = frame_index (cast 32 (limit + (frame_size - 1))) in
    record {
      used_frames = total_frames;
      total_frames = total_frames;
      bitmap = set_range all_ones mm_flag b kernel_end limit;
      reserved_0 = record { base = 0; length = 1 };
      reserved_1 = record {
        base = kernel_start_index;
        length = wrap_sub 32 kernel_end_index kernel_start_index;
      };
      mm_flag = mm_flag;
    }

unfoldable pub pmm_initialize : ℕ → List ℕ → List E820Entry → ℕ → ℕ → Pmm
pmm_initialize mm_flag cells entries kernel_start kernel_end =
    free_entries (all_used mm_flag cells entries kernel_start kernel_end) entries
