-- ===== src/Pmm/Vector.antt =====
-- The vector cores of the search: `contiguous_sse2_core`, its inline twin and
-- `contiguous_avx2_core_inline` (kernel/pmm.cpp, lines 488 to 668). A vector is compared lane by
-- lane, as the intrinsics of the compiler document it: `_mm_cmpeq_epi32` and `_mm256_cmpeq_epi8`
-- followed by a move mask of all ones say that every lane equals the constant.
pub mod Loop
pub mod Laws
use bare_metal_programming.Prelude.{
  ℕ, zero, suc, ◌+◌, ◌-◌, ◌*◌, ◌%◌, ◌^◌, cast, wrap_sub, ltb, leb, ◌==◌, Bool, true, false, ◌&&◌,
  if◌then◌else◌,
}
use bare_metal_programming.Pmm.Geometry.{Bitmap, AllocationRun, load, run_found}
use bare_metal_programming.Pmm.Search.{Verdict, contiguous_32_core}

-- Each of the `count` lanes of `lane` bytes from `p` on holds `value`.
unfoldable pub lanes_equal : Bitmap → ℕ → ℕ → ℕ → ℕ → Bool
lanes_equal b p zero lane value = true
lanes_equal b p (suc count) lane value =
    load b p lane == value && lanes_equal b (p + lane) count lane value

-- What the loop of a vector core does with one vector: go on with a length, stop with a run that
-- starts at a frame, or ask the next narrower core.
pub data VectorVerdict : Type 0 where
  complete : ℕ → VectorVerdict
  onward : ℕ → VectorVerdict
  narrow : VectorVerdict

unfoldable pub examine_vector : Bitmap → ℕ → ℕ → Bool → Bool → ℕ → ℕ → VectorVerdict
examine_vector b width frames all_zeros all_ones current length =
    let longer = cast 32 (length + width) in
    if all_zeros
    then (if leb frames longer
        then complete (run_found b current (wrap_sub 32 longer width))
        else onward longer)
    else if all_ones
    then onward 0
    else narrow

abbrev pub Core : Type 0
Core = AllocationRun → ℕ → ℕ → AllocationRun × ℕ

module _ (b : Bitmap) (bytes width frames : ℕ) (zeros ones : ℕ → Bool) (narrower : Core) where
  -- The loop of a vector core over vectors of `bytes` bytes: the verdict on each of them by
  -- `zeros` and `ones`, and `narrower` for a mixed one.
  unfoldable pub vector_loop : ℕ → ℕ → ℕ → ℕ → ℕ → AllocationRun × ℕ
  vector_loop zero end_ current length start_frame =
      (record { start_frame = start_frame; length = length }, current)
  vector_loop (suc fuel) end_ current length start_frame = elim (ltb current end_) [
    | false ↦ (record { start_frame = start_frame; length = length }, current)
    | true ↦ elim (examine_vector b width frames (zeros current) (ones current) current length) [
      | complete at ↦ (record { start_frame = at; length = frames }, current)
      | onward length' ↦ vector_loop fuel end_ (current + bytes) length' start_frame
      | narrow ↦
          let lanes =
            (narrower (record { start_frame = start_frame; length = length }) (current + bytes)
              current).0 in
          let rest = vector_loop fuel end_ (current + bytes) lanes.length lanes.start_frame in
          elim (leb frames lanes.length) [
            | true ↦ (record { start_frame = lanes.start_frame; length = frames }, current)
            | false ↦ rest
          ]
    ]
  ]

  unfoldable pub vector_core : Core
  vector_core run end_ start = vector_loop (end_ - start) end_ start run.length run.start_frame

unfoldable pub contiguous_sse2_core : Bitmap → ℕ → Core
contiguous_sse2_core b frames =
    vector_core b 16 128 frames (λ p. lanes_equal b p 4 4 0) (λ p. lanes_equal b p 4 4 0xFFFFFFFF)
      (contiguous_32_core b frames)

unfoldable pub contiguous_avx2_core : Bitmap → ℕ → Core
contiguous_avx2_core b frames =
    vector_core b 32 256 frames (λ p. lanes_equal b p 8 4 0) (λ p. lanes_equal b p 32 1 0xFF)
      (contiguous_sse2_core b frames)
