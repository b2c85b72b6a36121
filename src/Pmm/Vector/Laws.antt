-- ===== src/Pmm/Vector/Laws.antt =====
-- The vector cores keep the invariant of the search, as the word cores do.
use bare_metal_programming.Prelude.{
  ℕ, zero, suc, ◌+◌, ◌-◌, ◌*◌, ◌≤◌, ◌<◌, ◌^◌, ◌≡◌, refl, sym, ◌∙◌, arith, test_bit, ltb, Bool, true,
  false, inl, inr, Bool-cases, zero-test_bit, test_bit-ones,
}
use bare_metal_programming.Pmm.Geometry.{Bitmap, load}
use bare_metal_programming.Pmm.View.{frame_used, AllBytes, load-frame_used}
use bare_metal_programming.Pmm.Search.{Width, word, bytes_of, contiguous_core}
use bare_metal_programming.Pmm.Search.Carry.{FreeRun}
use bare_metal_programming.Pmm.Search.Core.{
  contiguous_loop-Outcome, contiguous_core_stops, bytes_of_pos,
}
use bare_metal_programming.Pmm.Vector.{lanes_equal, contiguous_sse2_core, contiguous_avx2_core}
use bare_metal_programming.Pmm.Vector.Loop.{IsCore, rounds, vector_core-IsCore}

module _ (b : Bitmap) (frames lo : ℕ) (bytes : AllBytes b) (pos : 0 < frames)
    (frames_small : frames < 2 ^ 31) where
  pub contiguous_core-IsCore :
      (w : Width) → IsCore b frames lo (bytes_of w) (contiguous_core b w frames)
  unfolding contiguous_core
  contiguous_core-IsCore w = record {
    scans = λ run k e o s small c.
        contiguous_loop-Outcome b frames lo bytes pos frames_small w k (b.start + e - (b.start + o))
          e o (b.start + e) (b.start + o) run.length run.start_frame
          (omega
            (arith, s, rounds b frames lo bytes pos frames_small k (bytes_of w) (bytes_of_pos w).0))
          refl refl s small c;
    stops = contiguous_core_stops b frames lo w;
  }

  lane_used :
      (lane o f : ℕ)
      → 8 * o ≤ f
      → f < 8 * (o + lane)
      → frame_used b f ≡ test_bit (load b (b.start + o) lane) (f - 8 * o)
  lane_used lane o f h k =
      let index : 8 * o + (f - 8 * o) ≡ f = omega arith in
      rw index at (sym (load-frame_used b lane o (f - 8 * o) bytes (omega arith)))

  -- Equal lanes show a constant stretch of frames.
  lanes-uniform :
      (state : Bool) (lane value : ℕ)
      → ((i : ℕ) → i < 8 * lane → test_bit value i ≡ state)
      → (count p o : ℕ) → p ≡ b.start + o
      → lanes_equal b p count lane value ≡ true
      → (f : ℕ) → 8 * o ≤ f
      → f < 8 * (o + count * lane)
      → frame_used b f ≡ state
  unfolding lanes_equal
  lanes-uniform state lane value same zero p o q e f h k = absurd (omega arith)
  lanes-uniform state lane value same (suc count) p o q e f h k =
      elim (Bool-cases (ltb f (8 * (o + lane)))) [
        | inl here ↦
            let is_value : load b (b.start + o) lane ≡ value = rw (sym q) (ground arith) in
            lane_used lane o f h (ground arith) ∙ rw is_value (same (f - 8 * o) (ground arith))
        | inr later ↦
            lanes-uniform state lane value same count (p + lane) (o + lane) (omega arith)
              (ground arith) f (ground arith) (omega arith)
      ]

  free_lanes :
      (count lane o : ℕ)
      → lanes_equal b (b.start + o) count lane 0 ≡ true
      → FreeRun (frame_used b) (8 * o) (8 * (count * lane))
  free_lanes count lane o e f h k =
      lanes-uniform false lane 0 (λ i q. zero-test_bit i) count (b.start + o) o refl e f h
        (omega arith)

  used_lanes :
      (count lane o : ℕ)
      → lanes_equal b (b.start + o) count lane (2 ^ (8 * lane) - 1) ≡ true
      → (f : ℕ) → 8 * o ≤ f
      → f < 8 * o + 8 * (count * lane)
      → frame_used b f ≡ true
  used_lanes count lane o e f h k =
      lanes-uniform true lane (2 ^ (8 * lane) - 1)
        (λ i q. test_bit-ones (8 * lane) i ∙ ground arith) count (b.start + o) o refl e f h
        (omega arith)

  -- The SSE2 core is a core over 16 bytes.
  pub contiguous_sse2_core-IsCore : IsCore b frames lo 16 (contiguous_sse2_core b frames)
  unfolding contiguous_sse2_core
  contiguous_sse2_core-IsCore =
      vector_core-IsCore b frames lo bytes pos frames_small 4 4 (omega arith) _ _ (free_lanes 4 4)
        (used_lanes 4 4) (contiguous_core b word frames) (contiguous_core-IsCore word)

  -- On bytes, for 1 to 2^31 - 1 frames, the AVX2 core scans whole units of 32 bytes: with a carried
  -- run that is right at the byte `o`, it finds a free run of the wanted length up to the byte
  -- `e`, or reports the free frames that end at `e` after blocking all candidates before. Where
  -- the end is not ahead of the start it changes nothing.
  pub contiguous_avx2_core-IsCore : IsCore b frames lo 32 (contiguous_avx2_core b frames)
  unfolding contiguous_avx2_core
  contiguous_avx2_core-IsCore =
      vector_core-IsCore b frames lo bytes pos frames_small 16 2 (omega arith) _ _ (free_lanes 8 4)
        (used_lanes 32 1) (contiguous_sse2_core b frames) contiguous_sse2_core-IsCore
