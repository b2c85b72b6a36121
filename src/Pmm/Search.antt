-- ===== src/Pmm/Search.antt =====
-- The search for a run of free frames: `array_of_shifts`, the word cores and the vector cores
-- (kernel/internal/pmm_templates.h, lines 26 to 66, and kernel/pmm.cpp, lines 103 to 668).
pub mod Space
pub mod Carry
pub mod Shows
pub mod Examine
pub mod Core
use bare_metal_programming.Prelude.{
  ℕ, zero, suc, ◌+◌, ◌-◌, ◌*◌, ◌/◌, ◌%◌, ◌^◌, bit_and, cast, wrap_sub, complement, ◌<<<◌, ◌>>>◌,
  ltb, leb, ◌==◌, if◌then◌else◌, Bool, true, false, ◌&&◌, not, List, [], ◌∷◌,
}
use bare_metal_programming.Tools.Builtin.{trailing_zeros, leading_zeros, highest_of_2}
use bare_metal_programming.Pmm.Geometry.{Bitmap, AllocationRun, load, run_found}

-- `compute_step<N>` of `array_of_shifts<T>` with `array_size` steps.
unfoldable pub compute_step : ℕ → ℕ → ℕ → ℕ → ℕ
compute_step array_size n frames d =
    if n == array_size - 1
    then cast 8 (wrap_sub 32 frames d)
    else cast 8 (bit_and (wrap_sub 32 d 1) (1 <<< n))

-- The steps `n`, `n + 1`, … of the array, `left` of them.
unfoldable pub steps_from : ℕ → ℕ → ℕ → ℕ → ℕ → List ℕ
steps_from zero array_size n frames d = []
steps_from (suc left) array_size n frames d =
    compute_step array_size n frames d ∷ steps_from left array_size (n + 1) frames d

-- The array that the constructor builds. `array_size` is the power of two of `T`'s width.
unfoldable pub array_of_shifts : ℕ → ℕ → List ℕ
array_of_shifts array_size frames = steps_from array_size array_size 0 frames (highest_of_2 frames)

-- `space`: the comma fold of `inv &= inv >> step[I]`.
unfoldable pub space : List ℕ → ℕ → ℕ
space [] inv = inv
space (s ∷ steps) inv = space steps (bit_and inv (inv >>> s))

-- One turn of a core's loop either ends the search with a start frame, or goes on with a length.
pub data Verdict : Type 0 where
  found : ℕ → Verdict
  onward : ℕ → Verdict

-- The types over which the cores are written: `uint8_t`, `uint16_t` and `uint32_t`.
pub data Width : Type 0 where
  byte half_word word : Width

abbrev pub bytes_of : Width → ℕ
bytes_of byte = 1
bytes_of half_word = 2
bytes_of word = 4

abbrev pub bits_of : Width → ℕ
bits_of byte = 8
bits_of half_word = 16
bits_of word = 32

abbrev pub array_size_of : Width → ℕ
array_size_of byte = 3
array_size_of half_word = 4
array_size_of word = 5

module _ (b : Bitmap) (w : Width) (frames : ℕ) where
  -- The body of the loop of `contiguous_8_core`, `contiguous_16_core` and `contiguous_32_core`
  -- at a word with free and used frames.
  unfoldable pub mixed : ℕ → ℕ → ℕ → Verdict
  mixed current length current_value =
      let width = bits_of w in
      let inverted_value =
        space (array_of_shifts (array_size_of w) frames) (complement width current_value) in
      if leb frames (cast 32 (length + trailing_zeros width current_value))
      then found (run_found b current length)
      else if leb frames (width - 1) && not (inverted_value == 0)
      then found (run_found b current (wrap_sub 32 0 (trailing_zeros width inverted_value)))
      else onward (leading_zeros width current_value)

  -- The body of the loop.
  unfoldable pub examine : ℕ → ℕ → ℕ → Verdict
  examine current length current_value =
      let width = bits_of w in
      let longer = cast 32 (length + width) in
      if current_value == 0
      then (if leb frames longer
          then found (run_found b current (wrap_sub 32 longer width))
          else onward longer)
      else if current_value == 2 ^ width - 1
      then onward 0
      else mixed current length current_value

  -- The loop: it returns the run and the pointer that goes through `start`.
  unfoldable pub contiguous_loop : ℕ → ℕ → ℕ → ℕ → ℕ → AllocationRun × ℕ
  contiguous_loop zero end_ current length start_frame =
      (record { start_frame = start_frame; length = length }, current)
  contiguous_loop (suc fuel) end_ current length start_frame = elim (ltb current end_) [
    | false ↦ (record { start_frame = start_frame; length = length }, current)
    | true ↦ elim (examine current length (load b current (bytes_of w))) [
      | found at ↦ (record { start_frame = at; length = frames }, current)
      | onward length' ↦ contiguous_loop fuel end_ (current + bytes_of w) length' start_frame
    ]
  ]

  -- `contiguous_<w>_core`; a turn moves `current` on, so `end - current` turns are enough.
  unfoldable pub contiguous_core : AllocationRun → ℕ → ℕ → AllocationRun × ℕ
  contiguous_core run end_ start =
      contiguous_loop (end_ - start) end_ start run.length run.start_frame

-- The cores of the source: each stands there twice, once inline and once not.
abbrev pub contiguous_8_core : Bitmap → ℕ → AllocationRun → ℕ → ℕ → AllocationRun × ℕ
contiguous_8_core b frames = contiguous_core b byte frames

abbrev pub contiguous_16_core : Bitmap → ℕ → AllocationRun → ℕ → ℕ → AllocationRun × ℕ
contiguous_16_core b frames = contiguous_core b half_word frames

abbrev pub contiguous_32_core : Bitmap → ℕ → AllocationRun → ℕ → ℕ → AllocationRun × ℕ
contiguous_32_core b frames = contiguous_core b word frames
