-- ===== src/Pmm/Frames/RoundTrip.antt =====
-- A frame allocated and freed again (kernel/pmm.cpp, lines 1088 to 1132).
use bare_metal_programming.Prelude.{
  ℕ, ◌+◌, ◌/◌, ◌≤◌, ◌<◌, ◌≡◌, ◌≢◌, ◌⊎◌, inl, inr, refl, ◌∙◌, sym, arith, ◌==◌, true, false,
  Bool-cases,
}
use mathlib.Core.Path.{subst}
use bare_metal_programming.Pmm.Geometry.{Pmm}
use bare_metal_programming.Pmm.View.{frame_used}
use bare_metal_programming.Pmm.Update.{Changed}
use bare_metal_programming.Pmm.Invariant.{IsPmm, SameMachine, InRegion}
use bare_metal_programming.Pmm.Frames.{
  PmmResult, success, nullptr, pmm_allocate_frame, pmm_free_frame,
}
use bare_metal_programming.Pmm.Frames.Allocate.{
  Allocation, exhausted, granted, pmm_allocate_frame-Allocation,
}
use bare_metal_programming.Pmm.Frames.Release.{
  Release, not_managed, in_reserved, not_used, released, pmm_free_frame-Release,
}

-- The release succeeded, and the frames and the counter are those of `g`.
pub record Restored (g : Pmm) (r : Pmm × PmmResult) : Type 0 where
  pub succeeded : r.1 ≡ success
  pub same_frames : (f : ℕ) → frame_used r.0.bitmap f ≡ frame_used g.bitmap f
  pub same_count : r.0.used_frames ≡ g.used_frames

module _ (g : Pmm) (v : IsPmm g) where
  undone :
      (f : ℕ) (g' : Pmm)
      → f < g.total_frames
      → frame_used g.bitmap f ≡ false
      → Changed true f (f + 1) g.bitmap g'.bitmap
      → g'.used_frames ≡ g.used_frames + 1
      → SameMachine g g'
      → {r : Pmm × PmmResult} → Release g' f r
      → Restored g r
  undone f g' h free c count same (not_managed past) = absurd (omega (arith, same.same_total))
  undone f g' h free c count same (in_reserved low r) = elim r [
    | inl q ↦ ground (arith, free, v.used_0 f h (subst (InRegion f) same.same_0 q))
    | inr q ↦ ground (arith, free, v.used_1 f h (subst (InRegion f) same.same_1 q))
  ]
  undone f g' h free c count same (not_used low apart clear) =
      ground (arith, clear, c.inside f (omega arith) (omega arith))
  undone f g' h free c count same (released g'' low apart held c' count' lowered same' v'') =
      record {
        succeeded = refl;
        same_frames = λ j. elim (Bool-cases (j == f)) [
          | inl here ↦
              let e : j ≡ f = ground arith in
              rw e (c'.inside f (omega arith) (omega arith) ∙ sym free)
          | inr away ↦
              c'.outside j (apart_from j (ground arith)) ∙ c.outside j (apart_from j (ground arith))
        ];
        same_count = omega (arith, count, count');
      }
    where
      apart_from : (j : ℕ) → j ≢ f → (j < f) ⊎ (f + 1 ≤ j)
      apart_from j ne = omega arith

  freed_again : {r : Pmm × ℕ} → Allocation g r → r.1 ≢ nullptr → Restored g (pmm_free_frame r.0 r.1)
  freed_again (exhausted all) ne = absurd (ne refl)
  freed_again (granted f g' address pos h free at c count same v') ne =
      let index : address / 4096 ≡ f = omega (arith, at) in
      undone f g' h free c count same (rw index at (pmm_free_frame-Release g' v' address))

  -- In a state that keeps the invariant, a frame that `pmm_allocate_frame` returns is freed by
  -- `pmm_free_frame` with `success`, and then the state of every frame and the counter are as before.
  pub pmm_free_frame-pmm_allocate_frame :
      (pmm_allocate_frame g).1 ≢ nullptr
      → Restored g (pmm_free_frame (pmm_allocate_frame g).0 (pmm_allocate_frame g).1)
  pmm_free_frame-pmm_allocate_frame = freed_again (pmm_allocate_frame-Allocation g v)
