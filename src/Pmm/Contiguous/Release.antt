-- ===== src/Pmm/Contiguous/Release.antt =====
-- What `pmm_free_contiguous_frames` does (kernel/pmm.cpp, lines 1173 to 1202).
use bare_metal_programming.Prelude.{
  ℕ, ◌+◌, ◌/◌, ◌^◌, ◌≤◌, ◌<◌, ◌≡◌, ◌↔◌, ◌⊎◌, inl, inr, refl, ◌∙◌, sym, arith, min, ltb, leb, ◌==◌,
  true, false, ◌||◌, Bool-cases, cast, wrap_sub,
}
use bare_metal_programming.Pmm.Geometry.{Pmm, ReservedVector, frame_index, bitmap_index}
use bare_metal_programming.Pmm.View.{frame_used}
use bare_metal_programming.Pmm.Update.{Changed, Changed-hint, count_used-le, count_used-mark}
use bare_metal_programming.Pmm.Invariant.{IsPmm, SameMachine, HintInside, InRegion, free-IsPmm}
use bare_metal_programming.Pmm.Ranges.{free_frame_range, is_frame_range_used}
use bare_metal_programming.Pmm.Ranges.Change.{IsRange, RangeFreed, free_frame_range-RangeFreed}
use bare_metal_programming.Pmm.Ranges.Check.{AllUsed, is_frame_range_used_iff}
use bare_metal_programming.Pmm.Frames.{
  PmmResult, success, failed, reserved, out_of_range, zero_frames, lower_hint, in_region,
}
use bare_metal_programming.Pmm.Frames.Guards.{lower_hint_lem, in_region_iff}
use bare_metal_programming.Pmm.Contiguous.{meets_region, pmm_free_contiguous_frames}

-- The range starts in the region, or the region starts in the range.
abbrev pub Meets : ℕ → ℕ → ReservedVector → Type 0
Meets f frames r = InRegion f r ⊎ ((f ≤ r.base) × (r.base < f + frames))

abbrev pub MeetsReserved : Pmm → ℕ → ℕ → Type 0
MeetsReserved g f frames = Meets f frames g.reserved_0 ⊎ Meets f frames g.reserved_1

-- The outcome of a release at an address: one case for each code that it returns.
pub data RunRelease (g : Pmm) (f frames : ℕ) : Pmm × PmmResult → Type 0 where
  nothing_given : frames ≡ 0 → RunRelease g f frames (g, zero_frames)
  not_managed : 0 < frames → g.total_frames < f + frames → RunRelease g f frames (g, out_of_range)
  in_reserved :
      0 < frames
      → f + frames ≤ g.total_frames
      → MeetsReserved g f frames
      → RunRelease g f frames (g, reserved)
  not_used :
      0 < frames
      → f + frames ≤ g.total_frames
      → ¬ MeetsReserved g f frames
      → ¬ AllUsed g.bitmap f (f + frames)
      → RunRelease g f frames (g, failed)
  released :
      (g' : Pmm)
      → 0 < frames
      → f + frames ≤ g.total_frames
      → ¬ MeetsReserved g f frames
      → AllUsed g.bitmap f (f + frames)
      → Changed false f (f + frames) g.bitmap g'.bitmap
      → g'.used_frames + frames ≡ g.used_frames
      → g'.bitmap.search_begin ≡ min (g.bitmap.start + f / 8) g.bitmap.search_begin
      → SameMachine g g'
      → IsPmm g'
      → RunRelease g f frames (g', success)

-- For a range and a region inside 32 bits, the two wrapping tests tell whether they meet.
pub meets_region_iff :
    (f frames : ℕ) (r : ReservedVector)
    → f + frames < 2 ^ 32
    → r.base + r.length < 2 ^ 32
    → (meets_region f frames r ≡ true) ↔ Meets f frames r
unfolding meets_region
meets_region_iff f frames r h k = (to (Bool-cases (in_region f r)), from)
  where
    inside : (in_region f r ≡ true) ↔ InRegion f r
    inside = in_region_iff f r (omega arith) k

    to :
        (in_region f r ≡ true) ⊎ (in_region f r ≡ false)
        → (in_region f r || ltb (wrap_sub 32 r.base f) frames) ≡ true
        → Meets f frames r
    to (inl hit) e = inl (inside.0 hit)
    to (inr miss) e = inr (ground arith, ground arith)

    from : Meets f frames r → (in_region f r || ltb (wrap_sub 32 r.base f) frames) ≡ true
    from (inl q) = ground (arith, inside.1 q)
    from (inr (p, q)) =
        let tested : ltb (wrap_sub 32 r.base f) frames ≡ true = ground arith in ground arith

pub free_frame_range-SameMachine : (g : Pmm) (s e : ℕ) → SameMachine g (free_frame_range g s e)
unfolding free_frame_range
free_frame_range-SameMachine g s e = record {
  same_total = refl;
  same_0 = refl;
  same_1 = refl;
  same_flag = refl;
}

module _ (g : Pmm) (v : IsPmm g) (f frames : ℕ) (pos : 0 < frames)
    (managed : f + frames ≤ g.total_frames) where
  region_cases :
      ((meets_region f frames g.reserved_0 || meets_region f frames g.reserved_1) ≡ true
        × MeetsReserved g f frames)
      ⊎ ((meets_region f frames g.reserved_0 || meets_region f frames g.reserved_1) ≡ false
          × ¬ MeetsReserved g f frames)
  region_cases = elim (Bool-cases (meets_region f frames g.reserved_0)) [
    | inl first ↦ inl (ground arith, inl (in_0.0 first))
    | inr off_first ↦ elim (Bool-cases (meets_region f frames g.reserved_1)) [
      | inl second ↦ inl (ground arith, inr (in_1.0 second))
      | inr off_second ↦ inr (
        ground arith,
        λ r. elim r [ inl q ↦ ground (arith, in_0.1 q) | inr q ↦ ground (arith, in_1.1 q) ],
      )
    ]
  ]
    where
      in_0 : (meets_region f frames g.reserved_0 ≡ true) ↔ Meets f frames g.reserved_0
      in_0 =
          meets_region_iff f frames g.reserved_0 (omega (arith, v.few))
            (omega (arith, v.null_frame.0, v.null_frame.1))

      in_1 : (meets_region f frames g.reserved_1 ≡ true) ↔ Meets f frames g.reserved_1
      in_1 = meets_region_iff f frames g.reserved_1 (omega (arith, v.few)) v.kernel_fits

  range : IsRange g.bitmap f (f + frames)
  range = record {
    bytes = v.bitmap_ok.bytes;
    some_frame = omega arith;
    fits = omega (arith, v.fits);
    room = omega (arith, v.bitmap_ok.low, v.bitmap_ok.spans);
    few = omega (arith, v.few);
  }

  releases :
      ¬ MeetsReserved g f frames
      → AllUsed g.bitmap f (f + frames)
      → let freed = free_frame_range g f (f + frames) in
        RunRelease g f frames (
          record freed {
            bitmap = record (freed.bitmap) {
              search_begin = lower_hint (freed.bitmap.start + f / 8) freed.bitmap.search_begin;
            };
          },
          success,
        )
  releases apart held = released g' pos managed apart held c count lowered same (
      free-IsPmm g g' v f (f + frames) (omega arith) managed same hint c held
        (λ j p q r. elim r [
          | inl z ↦ apart (inl (meets j g.reserved_0 p q z))
          | inr z ↦ apart (inr (meets j g.reserved_1 p q z))
        ])
        (omega (arith, count)))
    where
      freed : Pmm
      freed = free_frame_range g f (f + frames)

      rest : SameMachine g freed
      rest = free_frame_range-SameMachine g f (f + frames)

      effect : RangeFreed g f (f + frames) freed
      effect = free_frame_range-RangeFreed g f (f + frames) range

      g' : Pmm
      g' = record freed {
        bitmap = record (freed.bitmap) {
          search_begin = lower_hint (freed.bitmap.start + f / 8) freed.bitmap.search_begin;
        };
      }

      c : Changed false f (f + frames) g.bitmap g'.bitmap
      c = Changed-hint false f (f + frames) g.bitmap _ _ effect.change

      meets :
          (j : ℕ) (r : ReservedVector) → f ≤ j → j < f + frames → InRegion j r → Meets f frames r
      meets j r p q z = elim (Bool-cases (leb r.base f)) [
        | inl before ↦ inl (ground arith, omega (arith, z.1))
        | inr after ↦ inr (ground arith, ground (arith, z))
      ]

      lowered : g'.bitmap.search_begin ≡ min (g.bitmap.start + f / 8) g.bitmap.search_begin
      lowered =
          lower_hint_lem (freed.bitmap.start + f / 8) freed.bitmap.search_begin
            (omega (arith, c.same_start, v.fits, v.bitmap_ok.low, v.bitmap_ok.spans))
            (omega (arith, effect.hint_kept, v.bitmap_ok.low, v.bitmap_ok.hint_within))
          ∙ omega (arith, c.same_start, effect.hint_kept)

      same : SameMachine g g'
      same = record {
        same_total = rest.same_total;
        same_0 = rest.same_0;
        same_1 = rest.same_1;
        same_flag = rest.same_flag;
      }

      hint : HintInside g'.bitmap
      hint = record {
        above = omega (arith, lowered, c.same_start, v.bitmap_ok.hint_above);
        within = omega (arith, lowered, c.same_limit, v.bitmap_ok.hint_within);
      }

      enough : frames ≤ g.used_frames
      enough = omega (
        arith,
        v.counted,
        count_used-mark (frame_used g'.bitmap) (frame_used g.bitmap) f (f + frames) g.total_frames
            (omega arith) (λ j p q. (c.inside j p q, held j p q)) (λ j o. sym (c.outside j o)),
      )

      count : g'.used_frames + frames ≡ g.used_frames
      count = omega (
        arith,
        effect.counter,
        enough,
        v.counted,
        v.few,
        count_used-le (frame_used g.bitmap) g.total_frames,
      )

-- In a state that keeps the invariant, `pmm_free_contiguous_frames` at any address returns
-- `zero_frames` for no frame, `out_of_range` for a range past the last frame, `reserved` for a
-- range that meets a reserved region and `failed` for one with a free frame, without a change. It
-- frees any other range and no other frame, takes its length off the counter, moves the hint down
-- to the range's first byte unless it is lower, and keeps the invariant.
pub pmm_free_contiguous_frames-RunRelease :
    (g : Pmm) (address frames : ℕ)
    → IsPmm g
    → RunRelease g (address / 4096) frames (pmm_free_contiguous_frames g address frames)
unfolding pmm_free_contiguous_frames frame_index bitmap_index
pmm_free_contiguous_frames-RunRelease g address frames v = elim (Bool-cases (frames == 0)) [
  | inl none ↦ rw none (nothing_given (ground arith))
  | inr asked ↦
      elim (Bool-cases (leb g.total_frames f || ltb (wrap_sub 32 g.total_frames f) frames)) [
        | inl past ↦
            rw (asked, past)
              (not_managed (ground arith)
                (beyond (ground arith) (Bool-cases (leb g.total_frames f)) past))
        | inr managed ↦
            let pos : 0 < frames = ground arith in
            let low : f < g.total_frames = ground arith in
            let fits : f + frames ≤ g.total_frames = within (ground arith) (ground arith) in
            let end_ : cast 32 (f + frames) ≡ f + frames = omega (arith, v.few) in
            elim (region_cases g v f frames pos fits) [
              | inl (hit, r) ↦ rw (asked, managed, hit) (in_reserved pos fits r)
              | inr (miss, apart) ↦
                  rw (asked, managed, miss, end_)
                    (elim (Bool-cases (is_frame_range_used g.bitmap f (f + frames))) [
                      | inl all ↦ rw all (
                          releases g v f frames pos fits apart (
                            (is_frame_range_used_iff g.bitmap f (f + frames)
                                (range g v f frames pos fits)).0
                              all))
                      | inr some_free ↦ rw some_free (
                          not_used pos fits apart λ held. ground (
                            arith,
                            (is_frame_range_used_iff g.bitmap f (f + frames)
                                  (range g v f frames pos fits)).1
                                held,
                          ))
                    ])
            ]
      ]
]
  where
    f : ℕ
    f = address / 4096

    within :
        f < g.total_frames
        → ltb (wrap_sub 32 g.total_frames f) frames ≡ false
        → f + frames ≤ g.total_frames
    within h e = ground (arith, v.few)

    beyond :
        0 < frames
        → (leb g.total_frames f ≡ true) ⊎ (leb g.total_frames f ≡ false)
        → (leb g.total_frames f || ltb (wrap_sub 32 g.total_frames f) frames) ≡ true
        → g.total_frames < f + frames
    beyond pos (inl after) e = ground arith
    beyond pos (inr before) e = ground (arith, v.few)
