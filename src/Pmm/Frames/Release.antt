-- ===== src/Pmm/Frames/Release.antt =====
-- What `pmm_free_frame` does (kernel/pmm.cpp, lines 1109 to 1132).
use bare_metal_programming.Prelude.{
  ℕ, ◌+◌, ◌/◌, ◌%◌, ◌≤◌, ◌<◌, ◌≡◌, ◌≢◌, ◌↔◌, ◌⊎◌, inl, inr, refl, ◌∙◌, sym, arith, min, leb, ◌==◌,
  true, false, not, ◌||◌, ◌&&◌, Bool-cases, cast, complement, bit_and, ◌<<<◌, test_bit,
  bit_and-ones,
}
use bare_metal_programming.Pmm.Geometry.{
  Pmm, load_8, store_8, frame_index, get_bit_n_byte, set_frame_free, is_frame_used,
}
use bare_metal_programming.Pmm.View.{frame_used}
use bare_metal_programming.Pmm.Update.{
  Changed, store_8-Changed, Changed-hint, count_used-le, count_used-mark,
}
use bare_metal_programming.Pmm.Invariant.{IsPmm, SameMachine, HintInside, InRegion, free-IsPmm}
use bare_metal_programming.Pmm.Frames.{
  PmmResult, success, failed, reserved, out_of_range, pmm_free_frame, lower_hint, in_region,
}
use bare_metal_programming.Pmm.Frames.Byte.{one_cleared, is_frame_used_lem}
use bare_metal_programming.Pmm.Frames.Guards.{lower_hint_lem, in_region_iff}

abbrev pub Reserved : Pmm → ℕ → Type 0
Reserved g f = InRegion f g.reserved_0 ⊎ InRegion f g.reserved_1

-- The outcome of a release at an address: one case for each code that it returns.
pub data Release (g : Pmm) (f : ℕ) : Pmm × PmmResult → Type 0 where
  not_managed : g.total_frames ≤ f → Release g f (g, out_of_range)
  in_reserved : f < g.total_frames → Reserved g f → Release g f (g, reserved)
  not_used :
      f < g.total_frames → ¬ Reserved g f → frame_used g.bitmap f ≡ false → Release g f (g, failed)
  released :
      (g' : Pmm)
      → f < g.total_frames
      → ¬ Reserved g f
      → frame_used g.bitmap f ≡ true
      → Changed false f (f + 1) g.bitmap g'.bitmap
      → g'.used_frames + 1 ≡ g.used_frames
      → g'.bitmap.search_begin ≡ min (g.bitmap.start + f / 8) g.bitmap.search_begin
      → SameMachine g g'
      → IsPmm g'
      → Release g f (g', success)

module _ (g : Pmm) (v : IsPmm g) where
  region_cases :
      (f : ℕ)
      → f < g.total_frames
      → ((in_region f g.reserved_0 || in_region f g.reserved_1) ≡ true × Reserved g f)
        ⊎ ((in_region f g.reserved_0 || in_region f g.reserved_1) ≡ false × ¬ Reserved g f)
  region_cases f h = elim (Bool-cases (in_region f g.reserved_0)) [
    | inl first ↦ inl (ground arith, inl (in_0.0 first))
    | inr off_first ↦ elim (Bool-cases (in_region f g.reserved_1)) [
      | inl second ↦ inl (ground arith, inr (in_1.0 second))
      | inr off_second ↦ inr (
        ground arith,
        λ r. elim r [ inl q ↦ ground (arith, in_0.1 q) | inr q ↦ ground (arith, in_1.1 q) ],
      )
    ]
  ]
    where
      in_0 : (in_region f g.reserved_0 ≡ true) ↔ InRegion f g.reserved_0
      in_0 =
          in_region_iff f g.reserved_0 (omega (arith, v.few))
            (omega (arith, v.null_frame.0, v.null_frame.1))

      in_1 : (in_region f g.reserved_1 ≡ true) ↔ InRegion f g.reserved_1
      in_1 = in_region_iff f g.reserved_1 (omega (arith, v.few)) v.kernel_fits

  byte_Changed :
      (f : ℕ)
      → f < g.total_frames
      → Changed false f (f + 1) g.bitmap (
          store_8 g.bitmap (g.bitmap.start + f / 8) (
            cast 8
              (bit_and (load_8 g.bitmap (g.bitmap.start + f / 8)) (complement 32 (1 <<< (f % 8))))))
  byte_Changed f h =
      store_8-Changed false f (f + 1) g.bitmap (f / 8) _ v.bitmap_ok.bytes (omega (arith, v.fits))
        (omega arith) (omega arith) (omega arith)
        (λ j q r k.
          let same : j ≡ f % 8 = omega arith in
          one_cleared value (f % 8) j (omega arith) q ∙ rw same (ground arith))
        (λ j q o. one_cleared value (f % 8) j (omega arith) q ∙ other j (omega arith))
    where
      value : ℕ
      value = load_8 g.bitmap (g.bitmap.start + f / 8)

      other : (j : ℕ) → j ≢ f % 8 → (test_bit value j && not (j == f % 8)) ≡ test_bit value j
      other j ne = ground arith

  released_at :
      (f : ℕ)
      → f < g.total_frames
      → ¬ Reserved g f
      → frame_used g.bitmap f ≡ true
      → let freed = set_frame_free g (g.bitmap.start + f / 8) (f % 8) in
        Release g f (
          record freed {
            bitmap = record (freed.bitmap) {
              search_begin = lower_hint (g.bitmap.start + f / 8) freed.bitmap.search_begin;
            };
          },
          success,
        )
  unfolding set_frame_free
  released_at f h apart held = released g' h apart held c count lowered same (
      free-IsPmm g g' v f (f + 1) (omega arith) (omega arith) same hint c
        (λ j p q. let e : j ≡ f = omega arith in rw e held)
        (λ j p q. let e : j ≡ f = omega arith in rw e apart) (omega (arith, count)))
    where
      freed : Pmm
      freed = set_frame_free g (g.bitmap.start + f / 8) (f % 8)

      g' : Pmm
      g' = record freed {
        bitmap = record (freed.bitmap) {
          search_begin = lower_hint (g.bitmap.start + f / 8) freed.bitmap.search_begin;
        };
      }

      c : Changed false f (f + 1) g.bitmap g'.bitmap
      c = Changed-hint false f (f + 1) g.bitmap _ _ (byte_Changed f h)

      lowered : g'.bitmap.search_begin ≡ min (g.bitmap.start + f / 8) g.bitmap.search_begin
      lowered =
          lower_hint_lem (g.bitmap.start + f / 8) g.bitmap.search_begin
            (omega (arith, v.fits, v.bitmap_ok.low, v.bitmap_ok.spans))
            (omega (arith, v.bitmap_ok.low, v.bitmap_ok.hint_within))

      same : SameMachine g g'
      same = record { same_total = refl; same_0 = refl; same_1 = refl; same_flag = refl }

      hint : HintInside g'.bitmap
      hint = record {
        above = omega (arith, lowered, v.bitmap_ok.hint_above);
        within = omega (arith, lowered, v.bitmap_ok.hint_within);
      }

      some_used : 0 < g.used_frames
      some_used = omega (
        arith,
        v.counted,
        count_used-mark (frame_used g'.bitmap) (frame_used g.bitmap) f (f + 1) g.total_frames
            (omega arith) (λ j p q. (c.inside j p q, let e : j ≡ f = omega arith in rw e held))
            (λ j o. sym (c.outside j o)),
      )

      count : g'.used_frames + 1 ≡ g.used_frames
      count =
          omega
            (arith, some_used, v.counted, v.few, count_used-le (frame_used g.bitmap) g.total_frames)

  -- In a state that keeps the invariant, `pmm_free_frame` at any address returns `out_of_range` for
  -- a frame past the last one, `reserved` for one of the two regions and `failed` for a free
  -- one, without a change; it frees any other frame alone, takes one off the counter, moves the
  -- hint down to the frame's byte unless it is lower, and keeps the invariant.
  pub pmm_free_frame-Release : (address : ℕ) → Release g (address / 4096) (pmm_free_frame g address)
  unfolding pmm_free_frame frame_index get_bit_n_byte
  pmm_free_frame-Release address = elim (Bool-cases (leb g.total_frames f)) [
    | inl past ↦ rw past (not_managed (ground arith))
    | inr managed ↦ elim (region_cases f (ground arith)) [
      | inl (hit, r) ↦ rw (managed, hit) (in_reserved (ground arith) r)
      | inr (miss, apart) ↦
          rw (managed, miss, bit, is_used)
            (elim (Bool-cases (frame_used g.bitmap f)) [
              | inl held ↦ rw held (released_at f (ground arith) apart held)
              | inr free ↦ rw free (not_used (ground arith) apart free)
            ])
    ]
  ]
    where
      f : ℕ
      f = address / 4096

      bit : cast 8 (bit_and f 7) ≡ f % 8
      bit = omega (arith, bit_and-ones 3 f)

      is_used : is_frame_used g.bitmap (g.bitmap.start + f / 8) (f % 8) ≡ frame_used g.bitmap f
      is_used =
          is_frame_used_lem g.bitmap (g.bitmap.start + f / 8) (f % 8) (v.bitmap_ok.bytes _)
            (omega arith)
