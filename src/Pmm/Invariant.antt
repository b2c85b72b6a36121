-- ===== src/Pmm/Invariant.antt =====
-- What holds of the allocator's state between two operations, and the changes that keep it.
use bare_metal_programming.Prelude.{
  ℕ, ◌+◌, ◌-◌, ◌*◌, ◌^◌, ◌≤◌, ◌<◌, ◌≡◌, ◌⊎◌, inl, inr, refl, ◌∙◌, sym, ap, arith, ltb, leb, Bool,
  true, false, Bool-cases, length,
}
use mathlib.Core.Path.{subst}
use bare_metal_programming.Pmm.Geometry.{Bitmap, Pmm, ReservedVector}
use bare_metal_programming.Pmm.View.{frame_used}
use bare_metal_programming.Pmm.Sweep.Find.{IsBitmap}
use bare_metal_programming.Pmm.Update.{Changed, count_used, count_used-mark}

-- The frame lies in the region.
abbrev pub InRegion : ℕ → ReservedVector → Type 0
InRegion f r = (r.base ≤ f) × (f < r.base + r.length)

-- The allocator's invariant. The bits past the last frame are set, the counter is right, and
-- the frames of both regions, with frame 0 among them, are used.
pub record IsPmm (g : Pmm) : Type 0 where
  pub bitmap_ok : IsBitmap g.bitmap
  pub fits : g.total_frames ≤ 8 * length g.bitmap.cells
  pub few : g.total_frames ≤ 2 ^ 20
  pub counted : g.used_frames ≡ count_used (frame_used g.bitmap) g.total_frames
  pub spare :
      (f : ℕ) → g.total_frames ≤ f → f < 8 * length g.bitmap.cells → frame_used g.bitmap f ≡ true
  pub null_frame : (g.reserved_0.base ≡ 0) × (g.reserved_0.length ≡ 1)
  pub kernel_fits : g.reserved_1.base + g.reserved_1.length < 2 ^ 32
  pub used_0 : (f : ℕ) → f < g.total_frames → InRegion f g.reserved_0 → frame_used g.bitmap f ≡ true
  pub used_1 : (f : ℕ) → f < g.total_frames → InRegion f g.reserved_1 → frame_used g.bitmap f ≡ true

-- Everything but the bitmap and the counter is as before.
pub record SameMachine (g g' : Pmm) : Type 0 where
  pub same_total : g'.total_frames ≡ g.total_frames
  pub same_0 : g'.reserved_0 ≡ g.reserved_0
  pub same_1 : g'.reserved_1 ≡ g.reserved_1
  pub same_flag : g'.mm_flag ≡ g.mm_flag

-- The hint lies in the bitmap.
pub record HintInside (b : Bitmap) : Type 0 where
  pub above : b.start ≤ b.search_begin
  pub within : b.search_begin ≤ b.limit

pub Changed-IsBitmap :
    (used : Bool) (lo hi : ℕ) (b b' : Bitmap)
    → IsBitmap b
    → Changed used lo hi b b'
    → HintInside b'
    → IsBitmap b'
Changed-IsBitmap used lo hi b b' v c h = record {
  bytes = c.bytes;
  spans = omega (arith, c.same_start, c.same_limit, c.same_length, v.spans);
  hint_above = h.above;
  hint_within = h.within;
  few = omega (arith, c.same_length, v.few);
  low = omega (arith, c.same_limit, v.low);
}

module _ (g g' : Pmm) (v : IsPmm g) (lo hi : ℕ) (ordered : lo ≤ hi) (inside : hi ≤ g.total_frames)
    (same : SameMachine g g') (hint : HintInside g'.bitmap) where
  -- Frames outside every reserved region, in case a change frees them.
  abbrev Unreserved : Type 0
  Unreserved = (f : ℕ) → lo ≤ f → f < hi → ¬ (InRegion f g.reserved_0 ⊎ InRegion f g.reserved_1)

  -- A used frame is used after the change, unless the change frees it.
  used_after :
      (used : Bool)
      → Changed used lo hi g.bitmap g'.bitmap
      → (f : ℕ) → frame_used g.bitmap f ≡ true
      → (used ≡ true) ⊎ (lo ≤ f → f < hi → ⊥)
      → frame_used g'.bitmap f ≡ true
  used_after used c f before kind = elim (Bool-cases (leb lo f)) [
    | inl from ↦ elim (Bool-cases (ltb f hi)) [
      | inl to ↦ elim kind [
        | inl marks ↦ c.inside f (ground arith) (ground arith) ∙ marks
        | inr apart ↦ absurd (apart (ground arith) (ground arith))
      ]
      | inr past ↦ c.outside f (inr (ground arith)) ∙ before
    ]
    | inr below ↦ c.outside f (inl (ground arith)) ∙ before
  ]

  change-IsPmm :
      (used : Bool)
      → Changed used lo hi g.bitmap g'.bitmap
      → (used ≡ true) ⊎ Unreserved
      → g'.used_frames ≡ count_used (frame_used g'.bitmap) g.total_frames
      → IsPmm g'
  change-IsPmm used c kind count = record {
    bitmap_ok = Changed-IsBitmap used lo hi g.bitmap g'.bitmap v.bitmap_ok c hint;
    fits = omega (arith, v.fits, c.same_length, same.same_total);
    few = omega (arith, v.few, same.same_total);
    counted = count ∙ ap (count_used (frame_used g'.bitmap)) (sym same.same_total);
    spare = λ f p q.
        c.outside f (inr (omega (arith, same.same_total)))
        ∙ v.spare f (omega (arith, same.same_total)) (omega (arith, c.same_length));
    null_frame =
        subst (λ (r : ReservedVector). (r.base ≡ 0) × (r.length ≡ 1)) (sym same.same_0)
          v.null_frame;
    kernel_fits =
        subst (λ (r : ReservedVector). r.base + r.length < 2 ^ 32) (sym same.same_1) v.kernel_fits;
    used_0 = λ f p q.
        let r = subst (InRegion f) same.same_0 q in
        used_after used c f (v.used_0 f (omega (arith, same.same_total)) r) (keeps f (inl r));
    used_1 = λ f p q.
        let r = subst (InRegion f) same.same_1 q in
        used_after used c f (v.used_1 f (omega (arith, same.same_total)) r) (keeps f (inr r));
  }
    where
      keeps :
          (f : ℕ)
          → InRegion f g.reserved_0 ⊎ InRegion f g.reserved_1
          → (used ≡ true) ⊎ (lo ≤ f → f < hi → ⊥)
      keeps f r = elim kind [ inl marks ↦ inl marks | inr apart ↦ inr λ p q. apart f p q r ]

  -- Free frames marked, and added to the counter.
  pub mark-IsPmm :
      Changed true lo hi g.bitmap g'.bitmap
      → ((f : ℕ) → lo ≤ f → f < hi → frame_used g.bitmap f ≡ false)
      → g'.used_frames ≡ g.used_frames + (hi - lo)
      → IsPmm g'
  mark-IsPmm c free count =
      let marked =
        count_used-mark (frame_used g.bitmap) (frame_used g'.bitmap) lo hi g.total_frames ordered
          (λ f p q. (free f p q, c.inside f p q)) c.outside in
      change-IsPmm true c (inl refl) (omega (arith, count, v.counted, marked))

  -- Used frames outside the reserved regions freed, and taken off the counter.
  pub free-IsPmm :
      Changed false lo hi g.bitmap g'.bitmap
      → ((f : ℕ) → lo ≤ f → f < hi → frame_used g.bitmap f ≡ true)
      → Unreserved
      → g'.used_frames + (hi - lo) ≡ g.used_frames
      → IsPmm g'
  free-IsPmm c held apart count =
      let marked =
        count_used-mark (frame_used g'.bitmap) (frame_used g.bitmap) lo hi g.total_frames ordered
          (λ f p q. (c.inside f p q, held f p q)) (λ f o. sym (c.outside f o)) in
      change-IsPmm false c (inr apart) (omega (arith, count, v.counted, marked))
