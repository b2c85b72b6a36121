-- ===== src/Pmm/Contiguous/Mark.antt =====
-- How a run of frames is marked (kernel/pmm.cpp, lines 1144 to 1169).
use bare_metal_programming.Prelude.{
  ℕ, ◌+◌, ◌-◌, ◌*◌, ◌/◌, ◌<◌, ◌≡◌, ◌≢◌, ◌⊎◌, inl, inr, refl, ◌∙◌, sym, arith, ◌==◌, if◌then◌else◌,
  Bool, true, false, Bool-cases, cast, bit_and, bit_or, test_bit-mod, test_bit-bit_and,
}
use bare_metal_programming.Pmm.Geometry.{Bitmap, load_8, store_8, bitmap_index}
use bare_metal_programming.Pmm.Fill.{all_ones, set_range}
use bare_metal_programming.Pmm.Update.{Changed, Changed-trans, Changed-hint}
use bare_metal_programming.Pmm.Ranges.{front_mask, end_mask}
use bare_metal_programming.Pmm.Ranges.Masks.{
  test_bit-front_mask, test_bit-end_mask, or-Changed, own-IsByte,
}
use bare_metal_programming.Pmm.Ranges.Change.{IsRange, set_range-Changed}
use bare_metal_programming.Pmm.Contiguous.{mark_run}

-- The effect on the bitmap: the frames are marked, and the hint stands at the byte of the last one
-- or behind it.
pub record RunMarked (s e : ℕ) (b b' : Bitmap) : Type 0 where
  pub change : Changed true s e b b'
  pub hint_at :
      (b'.search_begin ≡ b.start + (e - 1) / 8) ⊎ (b'.search_begin ≡ b.start + (e - 1) / 8 + 1)

module _ (b : Bitmap) (s e flag : ℕ) (v : IsRange b s e) where
  abbrev i : ℕ
  i = s / 8

  abbrev k : ℕ
  k = (e - 1) / 8

  abbrev value : ℕ
  value = load_8 b (b.start + k)

  one_byte-Changed :
      i ≡ k
      → Changed true s e b (
          store_8 b
            (b.start + k)
            (bit_or value (cast 8 (bit_and (front_mask s) (end_mask (e - 1))))))
  one_byte-Changed one =
      or-Changed b s e k v.bytes (omega (arith, v.some_frame, v.fits)) (omega arith)
        (omega (arith, v.some_frame)) (b.start + k) value _ refl (v.bytes _) (omega arith)
        (own-IsByte b s e k v.bytes (omega (arith, v.some_frame, v.fits)) (omega arith)
          (omega (arith, v.some_frame)))
        λ j h.
          rw
            (
              test_bit-mod 8 (bit_and (front_mask s) (end_mask (e - 1))) j,
              test_bit-bit_and j (front_mask s) (end_mask (e - 1)),
              test_bit-front_mask s j h,
              test_bit-end_mask (e - 1) j h,
            )
            (ground (arith, v.some_frame))

  abbrev front : Bitmap
  front = store_8 b (b.start + i) (bit_or (load_8 b (b.start + i)) (front_mask s))

  abbrev middle : Bitmap
  middle = set_range all_ones flag front (b.start + i + 1) (b.start + k)

  front-Changed : i < k → Changed true s (8 * (i + 1)) b front
  unfolding front_mask
  front-Changed less =
      or-Changed b s (8 * (i + 1)) i v.bytes (omega (arith, v.fits)) (omega arith) (omega arith)
        (b.start + i) _ _ refl (v.bytes _) (omega arith)
        (own-IsByte b s (8 * (i + 1)) i v.bytes (omega (arith, v.fits)) (omega arith) (omega arith))
        λ j h. test_bit-front_mask s j h ∙ ground arith

  middle-Changed : i < k → Changed true (8 * (i + 1)) (8 * k) front middle
  middle-Changed less =
      let c = front-Changed less in
      set_range-Changed all_ones flag b front i k less (omega (arith, v.fits)) v.room c.same_start
        c.same_length c.bytes

  up_to_last : i < k → Changed true s (8 * k) b middle
  up_to_last less =
      Changed-trans true s (8 * (i + 1)) (8 * k) b front middle (omega arith) (omega arith)
        (front-Changed less) (middle-Changed less)

  -- The last byte was read before the others were written; it has not changed since.
  last-Changed :
      i < k
      → Changed true
          (8 * k)
          e
          middle
          (store_8 middle (b.start + k) (bit_or value (end_mask (e - 1))))
  unfolding end_mask
  last-Changed less =
      let c = up_to_last less in
      or-Changed middle (8 * k) e k c.bytes (omega (arith, v.some_frame, v.fits, c.same_length))
        (omega arith) (omega (arith, v.some_frame)) (b.start + k) value _
        (omega (arith, c.same_start)) (v.bytes _) (omega arith)
        (λ j h.
          own-IsByte b (8 * k) e k v.bytes (omega (arith, v.some_frame, v.fits)) (omega arith)
            (omega (arith, v.some_frame)) j h
          ∙ sym (c.outside (8 * k + j) (inr (omega arith))))
        λ j h. test_bit-end_mask (e - 1) j h ∙ ground (arith, v.some_frame)

  behind :
      (full : Bool)
      → (b.start + k + (if full then 1 else 0) ≡ b.start + k)
        ⊎ (b.start + k + (if full then 1 else 0) ≡ b.start + k + 1)
  behind true = inr refl
  behind false = inl (omega arith)

-- On a range of `frames` frames of a bitmap inside the address space, the marking sets the bits of
-- the range and no other, and leaves the hint at the last byte or behind it.
pub mark_run-RunMarked :
    (b : Bitmap) (s frames flag : ℕ)
    → IsRange b s (s + frames)
    → RunMarked s (s + frames) b (mark_run b flag s frames)
unfolding mark_run bitmap_index
mark_run-RunMarked b s frames flag v = elim (Bool-cases (s / 8 == (s + frames - 1) / 8)) [
  | inl one ↦
      rw (last, one)
        (record {
          change = Changed-hint true s e b _ _ (one_byte-Changed b s e flag v (ground arith));
          hint_at = behind b s e flag v _;
        })
  | inr several ↦
      rw (last, several)
        (record {
          change = Changed-hint true s e b _ _ (
              Changed-trans true s (8 * ((e - 1) / 8)) e b _ _ (omega (arith, less (ground arith)))
                (omega (arith, v.some_frame)) (up_to_last b s e flag v (less (ground arith)))
                (last-Changed b s e flag v (less (ground arith))));
          hint_at = behind b s e flag v _;
        })
]
  where
    e : ℕ
    e = s + frames

    last : cast 32 (s + frames - 1) ≡ e - 1
    last = omega (arith, v.some_frame, v.few)

    less : s / 8 ≢ (e - 1) / 8 → s / 8 < (e - 1) / 8
    less ne = omega (arith, v.some_frame)
