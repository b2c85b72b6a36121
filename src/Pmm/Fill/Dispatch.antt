-- ===== src/Pmm/Fill/Dispatch.antt =====
-- Each fill of a range writes exactly the bytes of the range, on every tier.
use bare_metal_programming.Prelude.{
  ℕ, ◌+◌, ◌^◌, ◌≤◌, ◌<◌, ◌≡◌, inl, inr, refl, arith, ◌==◌, Bool-cases, length, max,
}
use native.Mathlib.Nat.{le_refl}
use bare_metal_programming.Pmm.Geometry.{Bitmap}
use bare_metal_programming.Pmm.Sweep.{align_down, aligned_end}
use bare_metal_programming.Pmm.Sweep.Align.{up_target, down_target}
use bare_metal_programming.Pmm.Sweep.Pointers.{
  Moves, Ready, Ready4, Ready16, Ready32, down, up_to, bytes_Moves, align_2, align_4, align_16,
  align_32, bulk_32, bulk_16, bulk_4, bulk_2,
}
use bare_metal_programming.Pmm.Fill.{
  SetBits, set_units, then_set, set_frames_32, set_frames_sse2, set_frames_avx2, set_range,
}
use bare_metal_programming.Pmm.Fill.Laws.{
  Filled, Filled-none, Filling, set_units-Filling, then_set-Filling,
}

module _ (s : SetBits) (lo end_ : ℕ) (b : Bitmap) (above : b.start ≤ lo) (ordered : lo ≤ end_)
    (below : end_ ≤ b.start + length b.cells) (room : end_ + 32 < 2 ^ 32) where
  abbrev Cursor : (ℕ → ℕ → Type 0) → Bitmap × ℕ → Type 0
  Cursor R r = (p : ℕ) × R p end_ × Filling s lo end_ b p r

  step :
      (n : ℕ) (R R' : ℕ → ℕ → Type 0) (to t : ℕ → ℕ)
      → 0 < n
      → ((p : ℕ) → R p end_ → p ≤ end_)
      → ((p : ℕ) → p ≤ end_ → (to p ≡ t p) × (t p ≤ end_))
      → ((p : ℕ) → R p end_ → Moves n p (t p) × R' (max p (t p)) end_)
      → (r : Bitmap × ℕ) → Cursor R r
      → Cursor R' (then_set s n r to)
  step n R R' to t pos inside target moves r (p, ready, f) = (
    max p (t p),
    (moves p ready).1,
    then_set-Filling s lo end_ b above below n p (t p) r to pos (target p (inside p ready)).0
        (target p (inside p ready)).1 (moves p ready).0 f,
  )

  align_4_step :
      (r : Bitmap × ℕ)
      → Cursor (Ready 2) r
      → Cursor Ready4 (then_set s 2 r (λ p. aligned_end p end_ 0x03))
  align_4_step =
      step 2 (Ready 2) Ready4 _ (λ p. up_to 4 p end_) (omega arith) (λ p i. i.0)
        (up_target end_ room 2 (omega arith)) (λ p i. align_4 p end_ i)

  align_16_step :
      (r : Bitmap × ℕ)
      → Cursor Ready4 r
      → Cursor Ready16 (then_set s 4 r (λ p. aligned_end p end_ 0x0F))
  align_16_step =
      step 4 Ready4 Ready16 _ (λ p. up_to 16 p end_) (omega arith) (λ p i. i.0.0)
        (up_target end_ room 4 (omega arith)) (λ p i. align_16 p end_ i)

  align_32_step :
      (r : Bitmap × ℕ)
      → Cursor Ready16 r
      → Cursor Ready32 (then_set s 16 r (λ p. aligned_end p end_ 0x1F))
  align_32_step =
      step 16 Ready16 Ready32 _ (λ p. up_to 32 p end_) (omega arith) (λ p i. i.0.0.0)
        (up_target end_ room 5 (omega arith)) (λ p i. align_32 p end_ i)

  bulk_32_step :
      (r : Bitmap × ℕ)
      → Cursor Ready32 r
      → Cursor Ready16 (then_set s 32 r (λ p. align_down end_ 0x1F))
  bulk_32_step =
      step 32 Ready32 Ready16 _ (λ p. down 32 end_) (omega arith) (λ p i. i.0.0.0.0)
        (down_target end_ room 5 (omega arith)) (λ p i. bulk_32 p end_ i)

  bulk_16_step :
      (r : Bitmap × ℕ)
      → Cursor Ready16 r
      → Cursor Ready16 (then_set s 16 r (λ p. align_down end_ 0x0F))
  bulk_16_step =
      step 16 Ready16 Ready16 _ (λ p. down 16 end_) (omega arith) (λ p i. i.0.0.0)
        (down_target end_ room 4 (omega arith)) (λ p i. bulk_16 p end_ i)

  bulk_4_step :
      (r : Bitmap × ℕ)
      → Cursor Ready4 r
      → Cursor Ready4 (then_set s 4 r (λ p. align_down end_ 0x03))
  bulk_4_step =
      step 4 Ready4 Ready4 _ (λ p. down 4 end_) (omega arith) (λ p i. i.0.0)
        (down_target end_ room 2 (omega arith)) (λ p i. bulk_4 p end_ i)

  finish :
      (r : Bitmap × ℕ)
      → Cursor (Ready 2) r
      → Filled s lo end_ b (then_set s 1 (then_set s 2 r (λ p. align_down end_ 0x01)) (λ p. end_)).0
  finish r start =
      let halves =
        step 2 (Ready 2) (Ready 2) _ (λ p. down 2 end_) (omega arith) (λ p i. i.0)
          (down_target end_ room 1 (omega arith)) (λ p i. bulk_2 p end_ i) r start in
      let last =
        step 1 (Ready 2) (λ p q. p ≡ q) (λ p. end_) (λ p. end_) (omega arith) (λ p i. i.0)
          (λ p i. (refl, le_refl _)) (λ p i. (bytes_Moves p end_ end_, omega arith)) _ halves in
      rw last.1 at last.2.filled

  wider : (r : Bitmap × ℕ) → Cursor Ready16 r → Cursor Ready4 r
  wider r (p, ready, f) = (p, ready.0, f)

  to_halves : (r : Bitmap × ℕ) → Cursor Ready4 r → Cursor (Ready 2) r
  to_halves r (p, ready, f) = (p, ready.0, f)

  first : Cursor (Ready 2) (set_units s 1 b lo (aligned_end lo end_ 0x01))
  first =
      let target = up_target end_ room 1 (omega arith) lo ordered in
      (
        max lo (up_to 2 lo end_),
        align_2 lo end_ ordered,
        rw target.0 (
            set_units-Filling s lo end_ b above below 1 lo (up_to 2 lo end_) (b, lo) (omega arith)
              target.1 (bytes_Moves lo end_ _)
              (record {
                at_p = refl;
                from_lo = le_refl _;
                to_end = ordered;
                filled = Filled-none s lo b;
              })),
      )

  set_frames_sse2-Filled : Filled s lo end_ b (set_frames_sse2 s b lo end_)
  unfolding set_frames_sse2
  set_frames_sse2-Filled = finish _ (
      to_halves _
        (bulk_4_step _ (wider _ (bulk_16_step _ (align_16_step _ (align_4_step _ first))))))

  set_frames_avx2-Filled : Filled s lo end_ b (set_frames_avx2 s b lo end_)
  unfolding set_frames_avx2
  set_frames_avx2-Filled = finish _ (
      to_halves _ (
        bulk_4_step _ (
          wider _ (
            bulk_16_step _
              (bulk_32_step _ (align_32_step _ (align_16_step _ (align_4_step _ first))))))))

  -- The two fills to the 4-byte boundary of the scalar tier: the second finds the cursor there.
  boundary_step :
      (r : Bitmap × ℕ)
      → Cursor (Ready 2) r
      → let temp_end = aligned_end r.1 end_ 0x03 in
        Cursor (Ready 2) (then_set s 4 (then_set s 2 r (λ p. temp_end)) (λ p. temp_end))
  boundary_step r (p, ready, f) =
      let target = up_target end_ room 2 (omega arith) p ready.0 in
      let is_t : aligned_end r.1 end_ 0x03 ≡ up_to 4 p end_ = rw f.at_p target.0 in
      let once =
        then_set-Filling s lo end_ b above below 2 p (up_to 4 p end_) r
          (λ q. aligned_end r.1 end_ 0x03) (omega arith) is_t target.1 (align_4 p end_ ready).0 f in
      (
        max (max p (up_to 4 p end_)) (up_to 4 p end_),
        omega (arith, align_4 p end_ ready),
        then_set-Filling s lo end_ b above below 4 (max p (up_to 4 p end_)) (up_to 4 p end_) _
            (λ q. aligned_end r.1 end_ 0x03) (omega arith) is_t target.1 (inl (omega arith)) once,
      )

  set_frames_32-Filled : Filled s lo end_ b (set_frames_32 s b lo end_)
  unfolding set_frames_32
  set_frames_32-Filled = finish _ (boundary_step _ first)

  -- On each tier, a fill of the bytes from `lo` up to `end`, which lie inside the bitmap and 32
  -- bytes below the end of the address space, sets each of them to the fill byte, and changes no
  -- other byte, no pointer and no length.
  pub set_range-Filled : (index : ℕ) → Filled s lo end_ b (set_range s index b lo end_)
  unfolding set_range
  set_range-Filled index = elim (Bool-cases (index == 0)) [
    | inl gpr ↦ rw gpr set_frames_32-Filled
    | inr wide ↦ elim (Bool-cases (index == 1)) [
      | inl sse ↦ rw (wide, sse) set_frames_sse2-Filled
      | inr avx ↦ rw (wide, avx) set_frames_avx2-Filled
    ]
  ]
