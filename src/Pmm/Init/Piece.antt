-- ===== src/Pmm/Init/Piece.antt =====
-- The frames of one usable entry, freed piece by piece between the reserved regions
-- (kernel/pmm.cpp, lines 1069 to 1082).
use bare_metal_programming.Prelude.{
  ℕ, ◌+◌, ◌-◌, ◌^◌, ◌≤◌, ◌<◌, ◌≡◌, ◌⊎◌, inl, inr, refl, ◌∙◌, sym, arith, cast, max, min, ltb, leb,
  ◌==◌, if◌then◌else◌, true, false, Bool-cases,
}
use mathlib.Core.Path.{subst}
use bare_metal_programming.Pmm.Geometry.{Pmm, ReservedVector}
use bare_metal_programming.Pmm.View.{frame_used}
use bare_metal_programming.Pmm.Update.{count_used-le, count_used-mark}
use bare_metal_programming.Pmm.Invariant.{IsPmm, SameMachine, HintInside, InRegion, free-IsPmm}
use bare_metal_programming.Pmm.Ranges.{free_frame_range}
use bare_metal_programming.Pmm.Ranges.Change.{IsRange, RangeFreed, free_frame_range-RangeFreed}
use bare_metal_programming.Pmm.Ranges.Check.{AllUsed}
use bare_metal_programming.Pmm.Frames.Release.{Reserved}
use bare_metal_programming.Pmm.Contiguous.Release.{free_frame_range-SameMachine}
use bare_metal_programming.Pmm.Init.{cmp_max, cmp_min, free_up_to, free_usable}

-- The frames from `lo` up to `hi` have been freed, and no other; the invariant holds.
pub record PieceFreed (g : Pmm) (lo hi : ℕ) (g' : Pmm) : Type 0 where
  pub valid : IsPmm g'
  pub same : SameMachine g g'
  pub inside : (f : ℕ) → lo ≤ f → f < hi → frame_used g'.bitmap f ≡ false
  pub outside : (f : ℕ) → (f < lo) ⊎ (hi ≤ f) → frame_used g'.bitmap f ≡ frame_used g.bitmap f

pub piece : Pmm → ℕ → ℕ → Pmm
piece g lo hi = if ltb lo hi then free_frame_range g lo hi else g

module _ (g : Pmm) (v : IsPmm g) (lo hi : ℕ) (managed : hi ≤ g.total_frames)
    (held : AllUsed g.bitmap lo hi) (apart : (f : ℕ) → lo ≤ f → f < hi → ¬ Reserved g f) where
  some_piece : lo < hi → PieceFreed g lo hi (free_frame_range g lo hi)
  some_piece h = record {
    valid =
        free-IsPmm g g' v lo hi (omega arith) managed same hint effect.change held apart
          (omega (arith, count));
    same = same;
    inside = effect.change.inside;
    outside = effect.change.outside;
  }
    where
      g' : Pmm
      g' = free_frame_range g lo hi

      range : IsRange g.bitmap lo hi
      range = record {
        bytes = v.bitmap_ok.bytes;
        some_frame = h;
        fits = omega (arith, v.fits);
        room = omega (arith, v.bitmap_ok.low, v.bitmap_ok.spans);
        few = omega (arith, v.few);
      }

      effect : RangeFreed g lo hi g'
      effect = free_frame_range-RangeFreed g lo hi range

      same : SameMachine g g'
      same = free_frame_range-SameMachine g lo hi

      hint : HintInside g'.bitmap
      hint = record {
        above = omega (arith, effect.hint_kept, effect.change.same_start, v.bitmap_ok.hint_above);
        within = omega (arith, effect.hint_kept, effect.change.same_limit, v.bitmap_ok.hint_within);
      }

      enough : hi - lo ≤ g.used_frames
      enough = omega (
        arith,
        v.counted,
        count_used-mark (frame_used g'.bitmap) (frame_used g.bitmap) lo hi g.total_frames
            (omega arith) (λ j p q. (effect.change.inside j p q, held j p q))
            (λ j o. sym (effect.change.outside j o)),
      )

      count : g'.used_frames + (hi - lo) ≡ g.used_frames
      count = omega (
        arith,
        effect.counter,
        enough,
        v.counted,
        v.few,
        count_used-le (frame_used g.bitmap) g.total_frames,
      )

  piece-PieceFreed : PieceFreed g lo hi (piece g lo hi)
  unfolding piece
  piece-PieceFreed = elim (Bool-cases (ltb lo hi)) [
    | inl some_frame ↦ rw some_frame (some_piece (ground arith))
    | inr no_frame ↦ rw no_frame (record {
      valid = v;
      same = record { same_total = refl; same_0 = refl; same_1 = refl; same_flag = refl };
      inside = λ f p q. absurd (ground arith);
      outside = λ f o. refl;
    })
  ]

-- The frames from `lo` up to `hi` outside the reserved regions have been freed, and no other.
pub record EntryFreed (g : Pmm) (lo hi : ℕ) (g' : Pmm) : Type 0 where
  pub valid : IsPmm g'
  pub same : SameMachine g g'
  pub freed : (f : ℕ) → lo ≤ f → f < hi → ¬ Reserved g f → frame_used g'.bitmap f ≡ false
  pub kept :
      (f : ℕ)
      → ((f < lo) ⊎ (hi ≤ f)) ⊎ Reserved g f
      → frame_used g'.bitmap f ≡ frame_used g.bitmap f

cmp_min_lem : (a b : ℕ) → cmp_min a b ≡ min a b
unfolding cmp_min
cmp_min_lem a b = ground arith

cmp_max_lem : (a b : ℕ) → cmp_max a b ≡ max a b
unfolding cmp_max
cmp_max_lem a b = ground arith

-- One turn of the loop over the reserved regions.
free_up_to_lem :
    (g : Pmm) (runner hi : ℕ) (r : ReservedVector)
    → r.base + r.length < 2 ^ 32
    → free_up_to (g, runner) r hi ≡ (piece g runner (min r.base hi), max runner (r.base + r.length))
unfolding free_up_to piece
free_up_to_lem g runner hi r h =
    let small : cast 32 (r.base + r.length) ≡ r.base + r.length = omega arith in
    rw (cmp_min_lem r.base hi, small, cmp_max_lem runner (r.base + r.length)) refl

-- Nothing lies before frame 0, which is the first region.
skip_null : (g : Pmm) (lo hi : ℕ) → IsPmm g → free_up_to (g, lo) g.reserved_0 hi ≡ (g, max lo 1)
unfolding piece
skip_null g lo hi v =
    let none : ltb lo (min g.reserved_0.base hi) ≡ false = ground (arith, v.null_frame) in
    let one : max lo (g.reserved_0.base + g.reserved_0.length) ≡ max lo 1 =
      omega (arith, v.null_frame.0, v.null_frame.1) in
    free_up_to_lem g lo hi g.reserved_0 (omega (arith, v.null_frame.0, v.null_frame.1))
    ∙ rw (none, one) refl

free_usable-pieces :
    (g : Pmm) (lo hi : ℕ)
    → IsPmm g
    → free_usable g lo hi
      ≡ piece
          (piece g (max lo 1) (min g.reserved_1.base hi))
          (max (max lo 1) (g.reserved_1.base + g.reserved_1.length))
          hi
unfolding free_usable piece
free_usable-pieces g lo hi v =
    rw (skip_null g lo hi v, free_up_to_lem g (max lo 1) hi g.reserved_1 v.kernel_fits) refl

module _ (g : Pmm) (lo hi : ℕ) (v : IsPmm g) (managed : hi ≤ g.total_frames)
    (held : (f : ℕ) → lo ≤ f → f < hi → ¬ Reserved g f → frame_used g.bitmap f ≡ true) where
  abbrev behind_kernel : ℕ
  behind_kernel = max (max lo 1) (g.reserved_1.base + g.reserved_1.length)

  -- A frame outside both regions.
  unreserved :
      (f : ℕ)
      → 1 ≤ f
      → (f < g.reserved_1.base) ⊎ (g.reserved_1.base + g.reserved_1.length ≤ f)
      → ¬ Reserved g f
  unreserved f h o r = elim r [
    | inl q ↦ omega (arith, q.1, v.null_frame.0, v.null_frame.1)
    | inr q ↦ omega (arith, q.0, q.1, o)
  ]

  first_piece :
      PieceFreed g
        (max lo 1)
        (min g.reserved_1.base hi)
        (piece g (max lo 1) (min g.reserved_1.base hi))
  first_piece =
      piece-PieceFreed g v (max lo 1) (min g.reserved_1.base hi) (omega arith)
        (λ f p q.
          held f (omega arith) (omega arith) (unreserved f (omega arith) (inl (omega arith))))
        (λ f p q. unreserved f (omega arith) (inl (omega arith)))

  abbrev g1 : Pmm
  g1 = piece g (max lo 1) (min g.reserved_1.base hi)

  Reserved-back : (f : ℕ) → Reserved g1 f → Reserved g f
  Reserved-back f r = elim r [
    | inl q ↦ inl (subst (InRegion f) first_piece.same.same_0 q)
    | inr q ↦ inr (subst (InRegion f) first_piece.same.same_1 q)
  ]

  second_piece : PieceFreed g1 behind_kernel hi (piece g1 behind_kernel hi)
  second_piece =
      piece-PieceFreed g1 first_piece.valid behind_kernel hi
        (omega (arith, first_piece.same.same_total))
        (λ f p q.
          first_piece.outside f (omega arith)
          ∙ held f (omega arith) q (unreserved f (omega arith) (inr (omega arith))))
        (λ f p q r. unreserved f (omega arith) (inr (omega arith)) (Reserved-back f r))

  freed_at :
      (f : ℕ)
      → lo ≤ f
      → f < hi
      → ¬ Reserved g f
      → frame_used (piece g1 behind_kernel hi).bitmap f ≡ false
  freed_at f p q apart = elim (Bool-cases (ltb f g.reserved_1.base)) [
    | inl before ↦
        second_piece.outside f (inl (ground arith))
        ∙ first_piece.inside f (omega (arith, pos)) (ground arith)
    | inr from ↦
        let past : g.reserved_1.base + g.reserved_1.length ≤ f =
          behind (ground arith) (Bool-cases (leb (g.reserved_1.base + g.reserved_1.length) f)) in
        second_piece.inside f (omega (arith, pos)) q
  ]
    where
      null_region : f ≡ 0 → Reserved g f
      null_region e =
          inl (omega (arith, v.null_frame.0), omega (arith, v.null_frame.0, v.null_frame.1))

      at_null : (f == 0) ≡ true ⊎ (f == 0) ≡ false → 1 ≤ f
      at_null (inl e) = absurd (apart (null_region (ground arith)))
      at_null (inr e) = ground arith

      pos : 1 ≤ f
      pos = at_null (Bool-cases (f == 0))

      behind :
          g.reserved_1.base ≤ f
          → (leb (g.reserved_1.base + g.reserved_1.length) f ≡ true)
            ⊎ (leb (g.reserved_1.base + g.reserved_1.length) f ≡ false)
          → g.reserved_1.base + g.reserved_1.length ≤ f
      behind h (inl e) = ground arith
      behind h (inr e) = absurd (apart (inr (h, ground arith)))

  kept_at :
      (f : ℕ)
      → ((f < lo) ⊎ (hi ≤ f)) ⊎ Reserved g f
      → frame_used (piece g1 behind_kernel hi).bitmap f ≡ frame_used g.bitmap f
  kept_at f o = second_piece.outside f (off_second o) ∙ first_piece.outside f (off_first o)
    where
      off_first :
          ((f < lo) ⊎ (hi ≤ f)) ⊎ Reserved g f → (f < max lo 1) ⊎ (min g.reserved_1.base hi ≤ f)
      off_first (inl z) = omega arith
      off_first (inr (inl z)) = inl (omega (arith, z.1, v.null_frame.0, v.null_frame.1))
      off_first (inr (inr z)) = inr (omega (arith, z.0))

      off_second : ((f < lo) ⊎ (hi ≤ f)) ⊎ Reserved g f → (f < behind_kernel) ⊎ (hi ≤ f)
      off_second (inl z) = omega arith
      off_second (inr (inl z)) = inl (omega (arith, z.1, v.null_frame.0, v.null_frame.1))
      off_second (inr (inr z)) = inl (omega (arith, z.1))

  -- In a state that keeps the invariant, for a range of managed frames of which those outside the
  -- reserved regions are used, the loop over the regions frees exactly these frames and keeps the
  -- invariant.
  pub free_usable-EntryFreed : EntryFreed g lo hi (free_usable g lo hi)
  free_usable-EntryFreed = subst (EntryFreed g lo hi) (sym (free_usable-pieces g lo hi v)) (record {
    valid = second_piece.valid;
    same = record {
      same_total = second_piece.same.same_total ∙ first_piece.same.same_total;
      same_0 = second_piece.same.same_0 ∙ first_piece.same.same_0;
      same_1 = second_piece.same.same_1 ∙ first_piece.same.same_1;
      same_flag = second_piece.same.same_flag ∙ first_piece.same.same_flag;
    };
    freed = freed_at;
    kept = kept_at;
  })
