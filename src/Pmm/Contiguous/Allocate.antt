-- ===== src/Pmm/Contiguous/Allocate.antt =====
-- What `pmm_allocate_contiguous_frames` does (kernel/pmm.cpp, lines 1134 to 1171).
use bare_metal_programming.Prelude.{
  ℕ, ◌+◌, ◌*◌, ◌^◌, ◌≤◌, ◌<◌, ◌≡◌, inl, inr, refl, arith, ltb, leb, ◌==◌, if◌then◌else◌, true,
  false, Bool-cases, length, cast, max,
}
use bare_metal_programming.Pmm.Geometry.{Pmm, AllocationRun, frame_address}
use bare_metal_programming.Pmm.View.{frame_used}
use bare_metal_programming.Pmm.Search.Carry.{FreeRun, Blocked}
use bare_metal_programming.Pmm.Sweep.{simd_lut}
use bare_metal_programming.Pmm.Sweep.Find.{
  InReach, Searched, success, failure, no_run, simd_lut-Searched,
}
use bare_metal_programming.Pmm.Update.{Changed, count_used-le}
use bare_metal_programming.Pmm.Invariant.{IsPmm, SameMachine, HintInside, mark-IsPmm}
use bare_metal_programming.Pmm.Ranges.Change.{IsRange}
use bare_metal_programming.Pmm.Frames.{nullptr}
use bare_metal_programming.Pmm.Contiguous.{mark_run, pmm_allocate_contiguous_frames}
use bare_metal_programming.Pmm.Contiguous.Mark.{RunMarked, mark_run-RunMarked}

-- The outcome of an allocation of several frames.
pub data RunAllocation (g : Pmm) (frames : ℕ) : Pmm × ℕ → Type 0 where
  nothing_asked : frames ≡ 0 → RunAllocation g frames (g, nullptr)
  no_room :
      0 < frames
      → ((s : ℕ) → InReach g.bitmap frames s → Blocked (frame_used g.bitmap) s frames)
      → RunAllocation g frames (g, nullptr)
  granted :
      (s : ℕ) (g' : Pmm) (address : ℕ)
      → 0 < frames
      → 0 < s
      → s + frames ≤ g.total_frames
      → FreeRun (frame_used g.bitmap) s frames
      → address ≡ s * 4096
      → Changed true s (s + frames) g.bitmap g'.bitmap
      → g'.used_frames ≡ g.used_frames + frames
      → SameMachine g g'
      → IsPmm g'
      → RunAllocation g frames (g', address)

module _ (g : Pmm) (v : IsPmm g) (frames : ℕ) (pos : 0 < frames) where
  module _ (s : ℕ) (reach : InReach g.bitmap frames s)
      (free : FreeRun (frame_used g.bitmap) s frames) where
    in_cells : s + frames ≤ 8 * length g.bitmap.cells
    in_cells = elim reach [
      | inl (behind, within) ↦ within
      | inr before ↦ omega (arith, v.bitmap_ok.spans, v.bitmap_ok.hint_within)
    ]

    -- The bits past the last frame are set, so that no run reaches them.
    in_total : s + frames ≤ g.total_frames
    in_total = elim (Bool-cases (leb (s + frames) g.total_frames)) [
      | inl within ↦ ground arith
      | inr beyond ↦
          let f = max s g.total_frames in
          let used = v.spare f (omega arith) (ground (arith, in_cells)) in
          ground (arith, used, free f (omega arith) (ground arith))
    ]

    not_null : 0 < s
    not_null = elim (Bool-cases (s == 0)) [
      | inl null ↦ ground (
        arith,
        free 0 (ground arith) (ground arith),
        v.used_0 0 (ground (arith, in_total))
            (omega (arith, v.null_frame.0), omega (arith, v.null_frame.0, v.null_frame.1)),
      )
      | inr pos' ↦ ground arith
    ]

    range : IsRange g.bitmap s (s + frames)
    range = record {
      bytes = v.bitmap_ok.bytes;
      some_frame = omega arith;
      fits = in_cells;
      room = omega (arith, v.bitmap_ok.low, v.bitmap_ok.spans);
      few = omega (arith, in_total, v.few);
    }

    marked : RunMarked s (s + frames) g.bitmap (mark_run g.bitmap g.mm_flag s frames)
    marked = mark_run-RunMarked g.bitmap s frames g.mm_flag range

    hint : HintInside (mark_run g.bitmap g.mm_flag s frames)
    hint = record {
      above = omega (arith, marked.hint_at, marked.change.same_start);
      within = omega (arith, marked.hint_at, marked.change.same_limit, v.bitmap_ok.spans, in_cells);
    }

    no_wrap : g.used_frames + frames < 2 ^ 32
    no_wrap =
        omega
          (arith, v.counted, count_used-le (frame_used g.bitmap) g.total_frames, v.few, in_total)

    grants : RunAllocation g frames (
      record g {
        bitmap = mark_run g.bitmap g.mm_flag s frames;
        used_frames = cast 32 (g.used_frames + frames);
      },
      frame_address s,
    )
    unfolding frame_address
    grants =
        granted s g' _ pos not_null in_total free (omega (arith, in_total, v.few)) marked.change
          count same
          (mark-IsPmm g g' v s (s + frames) (omega arith) in_total same hint marked.change free
            (omega (arith, count)))
      where
        g' : Pmm
        g' = record g {
          bitmap = mark_run g.bitmap g.mm_flag s frames;
          used_frames = cast 32 (g.used_frames + frames);
        }

        count : g'.used_frames ≡ g.used_frames + frames
        count = omega (arith, no_wrap)

        same : SameMachine g g'
        same = record { same_total = refl; same_0 = refl; same_1 = refl; same_flag = refl }

  after_search :
      (run : AllocationRun)
      → Searched g.bitmap frames run
      → RunAllocation g frames (
          if ltb run.length frames then (g, nullptr) else (
            record g {
              bitmap = mark_run g.bitmap g.mm_flag run.start_frame frames;
              used_frames = cast 32 (g.used_frames + frames);
            },
            frame_address run.start_frame,
          ))
  after_search run (success whole reach free) =
      let enough : ltb run.length frames ≡ false = ground arith in
      rw enough (grants run.start_frame reach free)
  after_search run (failure short blocked) =
      let few : ltb run.length frames ≡ true = ground arith in rw few (no_room pos blocked)

-- In a state that keeps the invariant, `pmm_allocate_contiguous_frames` for fewer than 2^31 frames
-- returns the null pointer and changes nothing if no frame is asked for, or if each stretch of
-- that many frames behind the hint, and each before it, holds a used frame. Otherwise it returns
-- the address of a free run of managed frames without frame 0, marks the run alone, counts its
-- frames and keeps the invariant.
pub pmm_allocate_contiguous_frames-RunAllocation :
    (g : Pmm) (frames : ℕ)
    → IsPmm g
    → frames < 2 ^ 31
    → RunAllocation g frames (pmm_allocate_contiguous_frames g frames)
unfolding pmm_allocate_contiguous_frames
pmm_allocate_contiguous_frames-RunAllocation g frames v small = elim (Bool-cases (frames == 0)) [
  | inl none ↦ rw none (nothing_asked (ground arith))
  | inr asked ↦
      let pos : 0 < frames = ground arith in
      rw asked (
        after_search g v frames pos (simd_lut g.mm_flag g.bitmap no_run frames)
          (simd_lut-Searched g.bitmap v.bitmap_ok frames pos small g.mm_flag))
]
