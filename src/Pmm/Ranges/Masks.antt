-- ===== src/Pmm/Ranges/Masks.antt =====
-- The masks at the two ends of a range of frames, and the bytes that they change
-- (kernel/pmm.cpp, lines 957 to 999 and 1144 to 1167).
use bare_metal_programming.Prelude.{
  ℕ, ◌+◌, ◌-◌, ◌*◌, ◌/◌, ◌%◌, ◌^◌, ◌≤◌, ◌<◌, ◌≡◌, refl, ◌∙◌, sym, arith, ltb, leb, Bool, true,
  false, not, ◌&&◌, length, bit_and, bit_or, ◌<<<◌, ◌>>>◌, test_bit, bit_and-ones, test_bit-mod,
  test_bit-shl, test_bit-shr, test_bit-ones, test_bit-bit_and, test_bit-bit_or, bit_or-lt,
  bit_and-le,
}
use mathlib.Core.Path.{subst}
use bare_metal_programming.Pmm.Geometry.{Bitmap, load_8, store_8, bit_position}
use bare_metal_programming.Pmm.View.{frame_used, AllBytes}
use bare_metal_programming.Pmm.Update.{Changed, store_8-Changed}
use bare_metal_programming.Pmm.Ranges.{front_mask, end_mask, below_mask, above_mask, and_byte}

pub bit_position_lem : (f : ℕ) → bit_position f ≡ f % 8
unfolding bit_position
bit_position_lem f = omega (arith, bit_and-ones 3 f)

-- The frame lies in the range, as a test.
abbrev pub in_range : ℕ → ℕ → ℕ → Bool
in_range lo hi f = leb lo f && ltb f hi

pub test_bit-front_mask : (f j : ℕ) → j < 8 → test_bit (front_mask f) j ≡ leb (f % 8) j
unfolding front_mask
test_bit-front_mask f j h =
    rw
      (
        bit_position_lem f,
        test_bit-mod 8 (0xFF <<< (f % 8)) j,
        test_bit-shl (f % 8) 0xFF j,
        test_bit-ones 8 (j - f % 8),
      )
      (ground arith)

pub test_bit-end_mask : (f j : ℕ) → j < 8 → test_bit (end_mask f) j ≡ leb j (f % 8)
unfolding end_mask
test_bit-end_mask f j h =
    rw
      (
        bit_position_lem f,
        test_bit-mod 8 (0xFF >>> (7 - f % 8)) j,
        test_bit-shr (7 - f % 8) 0xFF j,
        test_bit-ones 8 (7 - f % 8 + j),
      )
      (ground arith)

pub test_bit-below_mask : (f j : ℕ) → j < 8 → test_bit (below_mask f) j ≡ ltb j (f % 8)
unfolding below_mask
test_bit-below_mask f j h =
    rw
      (
        bit_position_lem f,
        test_bit-mod 8 (0xFF >>> (8 - f % 8)) j,
        test_bit-shr (8 - f % 8) 0xFF j,
        test_bit-ones 8 (8 - f % 8 + j),
      )
      (ground arith)

pub test_bit-above_mask : (f j : ℕ) → j < 8 → test_bit (above_mask f) j ≡ ltb (f % 8) j
unfolding above_mask
test_bit-above_mask f j h =
    rw
      (
        bit_position_lem f,
        test_bit-mod 8 (0xFF <<< (f % 8 + 1)) j,
        test_bit-shl (f % 8 + 1) 0xFF j,
        test_bit-ones 8 (j - (f % 8 + 1)),
      )
      (ground arith)

module _ (b : Bitmap) (lo hi i : ℕ) (bytes : AllBytes b) (within : i < length b.cells)
    (from : 8 * i ≤ lo) (to : hi ≤ 8 * i + 8) where
  -- The byte `i` of the bitmap, bit by bit.
  abbrev pub IsByte : ℕ → Type 0
  IsByte value = (j : ℕ) → j < 8 → test_bit value j ≡ frame_used b (8 * i + j)

  abbrev pub own_byte : ℕ
  own_byte = load_8 b (b.start + i)

  pub own-IsByte : IsByte own_byte
  own-IsByte j h =
      let byte : b.start + (8 * i + j) / 8 ≡ b.start + i = omega arith in
      let bit : (8 * i + j) % 8 ≡ j = omega arith in rw (byte, bit) refl

  -- The mask is or-ed on: its frames are used afterwards.
  pub or-Changed :
      (p value mask : ℕ)
      → p ≡ b.start + i
      → value < 2 ^ 8
      → mask < 2 ^ 8
      → IsByte value
      → ((j : ℕ) → j < 8 → test_bit mask j ≡ in_range lo hi (8 * i + j))
      → Changed true lo hi b (store_8 b p (bit_or value mask))
  or-Changed p value mask at small mask_small same bits =
      subst (λ q. Changed true lo hi b (store_8 b q (bit_or value mask))) (sym at)
        (store_8-Changed true lo hi b i (bit_or value mask) bytes within
          (bit_or-lt 8 value mask small mask_small) from to
          (λ j h q r. test_bit-bit_or j value mask ∙ ground (arith, bits j h))
          (λ j h o.
            test_bit-bit_or j value mask
            ∙ ground (arith, bits j h, o, same j h)
            ∙ sym (own-IsByte j h)))

  -- The mask is and-ed on: the frames that it leaves out are free afterwards.
  pub and-Changed :
      (p mask : ℕ)
      → p ≡ b.start + i
      → ((j : ℕ) → j < 8 → test_bit mask j ≡ not (in_range lo hi (8 * i + j)))
      → Changed false lo hi b (and_byte b p mask)
  unfolding and_byte
  and-Changed p mask at bits =
      subst (λ q. Changed false lo hi b (store_8 b q (bit_and (load_8 b q) mask))) (sym at)
        (store_8-Changed false lo hi b i (bit_and own_byte mask) bytes within
          (omega (arith, bit_and-le 8 own_byte mask (bytes _), bytes (b.start + i))) from to
          (λ j h q r. test_bit-bit_and j own_byte mask ∙ ground (arith, bits j h))
          (λ j h o. test_bit-bit_and j own_byte mask ∙ ground (arith, bits j h, o)))
