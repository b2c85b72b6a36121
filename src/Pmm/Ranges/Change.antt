-- ===== src/Pmm/Ranges/Change.antt =====
-- Freeing and marking a range of frames: the two ends by masks, the whole bytes between them by a
-- fill (kernel/pmm.cpp, lines 957 to 976 and 1144 to 1169).
use bare_metal_programming.Prelude.{
  ℕ, ◌+◌, ◌-◌, ◌*◌, ◌/◌, ◌%◌, ◌^◌, ◌≤◌, ◌<◌, ◌≡◌, ◌≢◌, inl, inr, refl, ◌∙◌, ap, arith, ◌==◌, false,
  Bool-cases, length, cast, wrap_sub, bit_or, ◌<<<◌, ◌>>>◌, test_bit-mod, test_bit-shl,
  test_bit-shr, test_bit-ones, test_bit-bit_or,
}
use mathlib.Core.Path.{subst}
use bare_metal_programming.Pmm.Geometry.{Bitmap, Pmm, bit_position, bitmap_index}
use bare_metal_programming.Pmm.View.{AllBytes}
use bare_metal_programming.Pmm.Fill.{SetBits, all_zeros, set_range}
use bare_metal_programming.Pmm.Fill.Laws.{Filled}
use bare_metal_programming.Pmm.Fill.Dispatch.{set_range-Filled}
use bare_metal_programming.Pmm.Update.{Changed, Changed-trans, Filled-Changed, state_of}
use bare_metal_programming.Pmm.Ranges.{below_mask, above_mask, and_byte, free_frame_range}
use bare_metal_programming.Pmm.Ranges.Masks.{
  bit_position_lem, test_bit-below_mask, test_bit-above_mask, and-Changed,
}

-- A range of frames of a bitmap in the address space.
pub record IsRange (b : Bitmap) (s e : ℕ) : Type 0 where
  pub bytes : AllBytes b
  pub some_frame : s < e
  pub fits : e ≤ 8 * length b.cells
  pub room : b.start + length b.cells + 32 < 2 ^ 32
  pub few : e < 2 ^ 32

-- The whole bytes after the one of `i`, up to the byte `k`.
pub set_range-Changed :
    (s : SetBits) (flag : ℕ) (b b' : Bitmap) (i k : ℕ)
    → i < k
    → k ≤ length b.cells
    → b.start + length b.cells + 32 < 2 ^ 32
    → b'.start ≡ b.start
    → length b'.cells ≡ length b.cells
    → AllBytes b'
    → Changed
        (state_of s)
        (8 * (i + 1))
        (8 * k)
        b'
        (set_range s flag b' (b.start + i + 1) (b.start + k))
set_range-Changed s flag b b' i k h within room same same_length bytes =
    Filled-Changed s (i + 1) k b' _ (omega arith) bytes (
      subst
        (λ p. Filled s p (b'.start + k) b' (set_range s flag b' (b.start + i + 1) (b.start + k)))
        first
        (subst
          (λ p.
            Filled s (b.start + i + 1) p b' (set_range s flag b' (b.start + i + 1) (b.start + k)))
          last
          (set_range-Filled s (b.start + i + 1) (b.start + k) b' (omega arith) (omega arith)
            (omega arith) (omega arith) flag)))
  where
    first : b.start + i + 1 ≡ b'.start + (i + 1)
    first = omega arith

    last : b.start + k ≡ b'.start + k
    last = omega arith

module _ (b : Bitmap) (s e flag : ℕ) (v : IsRange b s e) where
  abbrev i : ℕ
  i = s / 8

  abbrev k : ℕ
  k = (e - 1) / 8

  one_byte-Changed :
      i ≡ k
      → Changed false s e b (
          and_byte b
            (b.start + k)
            (cast 8 (bit_or (0xFF >>> (8 - bit_position s)) (0xFF <<< (bit_position (e - 1) + 1)))))
  one_byte-Changed one =
      and-Changed b s e k v.bytes (omega (arith, v.some_frame, v.fits)) (omega arith)
        (omega (arith, v.some_frame)) (b.start + k) _ refl
        λ j h.
          rw
            (
              bit_position_lem s,
              bit_position_lem (e - 1),
              test_bit-mod 8 (bit_or (0xFF >>> (8 - s % 8)) (0xFF <<< ((e - 1) % 8 + 1))) j,
              test_bit-bit_or j (0xFF >>> (8 - s % 8)) (0xFF <<< ((e - 1) % 8 + 1)),
              test_bit-shr (8 - s % 8) 0xFF j,
              test_bit-ones 8 (8 - s % 8 + j),
              test_bit-shl ((e - 1) % 8 + 1) 0xFF j,
              test_bit-ones 8 (j - ((e - 1) % 8 + 1)),
            )
            (ground (arith, v.some_frame))

  abbrev freed_front : Bitmap
  freed_front = and_byte b (b.start + i) (below_mask s)

  abbrev freed_middle : Bitmap
  freed_middle = set_range all_zeros flag freed_front (b.start + i + 1) (b.start + k)

  front-Changed : i < k → Changed false s (8 * (i + 1)) b freed_front
  front-Changed less =
      and-Changed b s (8 * (i + 1)) i v.bytes (omega (arith, v.some_frame, v.fits)) (omega arith)
        (omega arith) (b.start + i) _ refl λ j h. test_bit-below_mask s j h ∙ ground arith

  middle-Changed : i < k → Changed false (8 * (i + 1)) (8 * k) freed_front freed_middle
  middle-Changed less =
      let c = front-Changed less in
      set_range-Changed all_zeros flag b freed_front i k less (omega (arith, v.fits)) v.room
        c.same_start c.same_length c.bytes

  last-Changed :
      i < k
      → Changed false
          (8 * k)
          e
          freed_middle
          (and_byte freed_middle (b.start + k) (above_mask (e - 1)))
  last-Changed less =
      let c = front-Changed less in
      let m = middle-Changed less in
      and-Changed freed_middle (8 * k) e k m.bytes
        (omega (arith, v.some_frame, v.fits, c.same_length, m.same_length)) (omega arith)
        (omega (arith, v.some_frame)) (b.start + k) _ (omega (arith, c.same_start, m.same_start))
        λ j h. test_bit-above_mask (e - 1) j h ∙ ground (arith, v.some_frame)

  several-Changed :
      i < k → Changed false s e b (and_byte freed_middle (b.start + k) (above_mask (e - 1)))
  several-Changed less =
      Changed-trans false s (8 * (i + 1)) e b freed_front _ (omega arith) (omega arith)
        (front-Changed less)
        (Changed-trans false (8 * (i + 1)) (8 * k) e freed_front freed_middle _ (omega arith)
          (omega arith) (middle-Changed less) (last-Changed less))

  and_byte-hint : (b' : Bitmap) (p mask : ℕ) → (and_byte b' p mask).search_begin ≡ b'.search_begin
  unfolding and_byte
  and_byte-hint b' p mask = refl

  set_range-hint : i < k → freed_middle.search_begin ≡ b.search_begin
  set_range-hint less =
      let c = front-Changed less in
      (set_range-Filled all_zeros (b.start + i + 1) (b.start + k) freed_front
        (omega (arith, c.same_start)) (omega arith)
        (omega (arith, c.same_start, c.same_length, v.fits)) (omega (arith, v.fits, v.room))
        flag).same_hint
      ∙ and_byte-hint b (b.start + i) (below_mask s)

-- The effect of `free_frame_range` on the allocator.
pub record RangeFreed (g : Pmm) (s e : ℕ) (g' : Pmm) : Type 0 where
  pub change : Changed false s e g.bitmap g'.bitmap
  pub hint_kept : g'.bitmap.search_begin ≡ g.bitmap.search_begin
  pub counter : g'.used_frames ≡ wrap_sub 32 g.used_frames (e - s)

-- On a range of frames of a bitmap inside the address space, `free_frame_range` frees the frames of
-- the range and no other, keeps the hint, and takes the length of the range off the counter.
pub free_frame_range-RangeFreed :
    (g : Pmm) (s e : ℕ) → IsRange g.bitmap s e → RangeFreed g s e (free_frame_range g s e)
unfolding free_frame_range bitmap_index
free_frame_range-RangeFreed g s e v = elim (Bool-cases (s / 8 == (e - 1) / 8)) [
  | inl one ↦
      rw (last, one)
        (record {
          change = one_byte-Changed g.bitmap s e g.mm_flag v (ground arith);
          hint_kept = and_byte-hint g.bitmap s e g.mm_flag v g.bitmap _ _;
          counter = count;
        })
  | inr several ↦
      rw (last, several)
        (record {
          change = several-Changed g.bitmap s e g.mm_flag v (less (ground arith));
          hint_kept =
              and_byte-hint g.bitmap s e g.mm_flag v _ _ _
              ∙ set_range-hint g.bitmap s e g.mm_flag v (less (ground arith));
          counter = count;
        })
]
  where
    last : wrap_sub 32 e 1 ≡ e - 1
    last = omega (arith, v.some_frame, v.few)

    size : wrap_sub 32 e s ≡ e - s
    size = omega (arith, v.some_frame, v.few)

    count : wrap_sub 32 g.used_frames (wrap_sub 32 e s) ≡ wrap_sub 32 g.used_frames (e - s)
    count = ap (wrap_sub 32 g.used_frames) size

    less : s / 8 ≢ (e - 1) / 8 → s / 8 < (e - 1) / 8
    less ne = omega (arith, v.some_frame)
