-- ===== src/Pmm/Tests.antt =====
-- Concrete runs of kernel/pmm.cpp: a bitmap of four bytes.
use bare_metal_programming.Pmm.View.{frame_used}
use bare_metal_programming.Tools.Builtin.{trailing_zeros, count_trailing}
use bare_metal_programming.Prelude.{
  ℕ, zero, suc, ◌^◌, ◌<◌, ◌≡◌, refl, arith, [], ◌∷◌, get_or, ◌≤◌, ◌*◌, true,
}
use bare_metal_programming.Pmm.Geometry.{Bitmap, Pmm, frame_address, set_frame_used}
use bare_metal_programming.Pmm.Sweep.{simd_lut}
use bare_metal_programming.Pmm.Sweep.Find.{IsBitmap, Searched, no_run, simd_lut-Searched}
use bare_metal_programming.Pmm.Fill.{all_ones, set_range}
use bare_metal_programming.Pmm.Fill.Laws.{Filled}
use bare_metal_programming.Pmm.Fill.Dispatch.{set_range-Filled}
use bare_metal_programming.Pmm.Update.{count_used}
use bare_metal_programming.Pmm.Invariant.{IsPmm}
use bare_metal_programming.Pmm.Ranges.{free_frame_range, find_free_byte, find_loop}
use bare_metal_programming.Pmm.Ranges.Change.{IsRange, RangeFreed, free_frame_range-RangeFreed}
use bare_metal_programming.Pmm.Frames.{pmm_allocate_frame, pmm_free_frame, free_byte, allocate_in}
use bare_metal_programming.Pmm.Frames.Allocate.{Allocation, pmm_allocate_frame-Allocation}
use bare_metal_programming.Pmm.Frames.Release.{Release, pmm_free_frame-Release}
use bare_metal_programming.Pmm.Frames.RoundTrip.{Restored, pmm_free_frame-pmm_allocate_frame}
use bare_metal_programming.Pmm.Contiguous.{
  pmm_allocate_contiguous_frames, pmm_free_contiguous_frames,
}
use bare_metal_programming.Pmm.Contiguous.Allocate.{
  RunAllocation, pmm_allocate_contiguous_frames-RunAllocation,
}
use bare_metal_programming.Pmm.Contiguous.Release.{
  RunRelease, pmm_free_contiguous_frames-RunRelease,
}

abbrev sample : Bitmap
sample = record {
  start = 0x100000;
  limit = 0x100004;
  search_begin = 0x100001;
  cells = 0xFF ∷ 0x0F ∷ 0xF0 ∷ 0x00 ∷ [];
}

sample_cells : (i : ℕ) → get_or sample.cells i 0 < 2 ^ 8
sample_cells zero = omega arith
sample_cells (suc zero) = omega arith
sample_cells (suc (suc zero)) = omega arith
sample_cells (suc (suc (suc zero))) = omega arith
sample_cells (suc (suc (suc (suc i)))) = omega arith

sample-IsBitmap : IsBitmap sample
sample-IsBitmap = record {
  bytes = λ p. sample_cells _;
  spans = refl;
  hint_above = omega arith;
  hint_within = omega arith;
  few = omega arith;
  low = omega arith;
}

simd_lut-Searched_example : Searched sample 6 (simd_lut 2 sample no_run 6)
simd_lut-Searched_example = simd_lut-Searched sample sample-IsBitmap 6 (omega arith) (omega arith) 2

set_range-Filled_example :
    Filled all_ones 0x100001 0x100003 sample (set_range all_ones 1 sample 0x100001 0x100003)
set_range-Filled_example =
    set_range-Filled all_ones 0x100001 0x100003 sample (omega arith) (omega arith) (omega arith)
      (omega arith) 1

-- Frames 0 to 3 are reserved; 32 frames are managed, 16 of them used.
abbrev machine : Pmm
machine = record {
  used_frames = 16;
  total_frames = 32;
  bitmap = sample;
  reserved_0 = record { base = 0; length = 1 };
  reserved_1 = record { base = 1; length = 3 };
  mm_flag = 1;
}

reserved_used : (f : ℕ) → f < 4 → frame_used sample f ≡ true
reserved_used zero h = refl
reserved_used (suc zero) h = refl
reserved_used (suc (suc zero)) h = refl
reserved_used (suc (suc (suc zero))) h = refl
reserved_used (suc (suc (suc (suc f)))) h = absurd (omega arith)

machine-IsPmm : IsPmm machine
unfolding count_used
machine-IsPmm = record {
  bitmap_ok = sample-IsBitmap;
  fits = omega arith;
  few = omega arith;
  counted = refl;
  spare = λ f p q. absurd (omega arith);
  null_frame = (refl, refl);
  kernel_fits = omega arith;
  used_0 = λ f p q. reserved_used f (omega (arith, q.1));
  used_1 = λ f p q. reserved_used f (omega (arith, q.1));
}

sample-IsRange : (s e : ℕ) → s < e → e ≤ 32 → IsRange sample s e
sample-IsRange s e h k = record {
  bytes = sample-IsBitmap.bytes;
  some_frame = h;
  fits = k;
  room = omega arith;
  few = omega arith;
}

-- The next frame is 12, in bit 4 of the byte at the hint.
allocate_machine : (pmm_allocate_frame machine).1 ≡ 12 * 4096
unfolding pmm_allocate_frame free_byte find_free_byte find_loop allocate_in trailing_zeros
    count_trailing frame_address set_frame_used
allocate_machine = refl

pmm_allocate_frame-Allocation_example : Allocation machine (pmm_allocate_frame machine)
pmm_allocate_frame-Allocation_example = pmm_allocate_frame-Allocation machine machine-IsPmm

pmm_free_frame-Release_example : Release machine 9 (pmm_free_frame machine (9 * 4096))
pmm_free_frame-Release_example = pmm_free_frame-Release machine machine-IsPmm (9 * 4096)

round_trip_example :
    Restored machine (pmm_free_frame (pmm_allocate_frame machine).0 (pmm_allocate_frame machine).1)
round_trip_example =
    pmm_free_frame-pmm_allocate_frame machine machine-IsPmm (omega (arith, allocate_machine))

pmm_allocate_contiguous_frames-RunAllocation_example :
    RunAllocation machine 6 (pmm_allocate_contiguous_frames machine 6)
pmm_allocate_contiguous_frames-RunAllocation_example =
    pmm_allocate_contiguous_frames-RunAllocation machine 6 machine-IsPmm (omega arith)

pmm_free_contiguous_frames-RunRelease_example :
    RunRelease machine 6 5 (pmm_free_contiguous_frames machine (6 * 4096) 5)
pmm_free_contiguous_frames-RunRelease_example =
    pmm_free_contiguous_frames-RunRelease machine (6 * 4096) 5 machine-IsPmm

free_frame_range-RangeFreed_example : RangeFreed machine 6 21 (free_frame_range machine 6 21)
free_frame_range-RangeFreed_example =
    free_frame_range-RangeFreed machine 6 21 (sample-IsRange 6 21 (omega arith) (omega arith))
