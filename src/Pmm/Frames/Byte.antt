-- ===== src/Pmm/Frames/Byte.antt =====
-- Single bits of a byte of the bitmap: the lowest free one, and one set or cleared
-- (kernel/pmm.cpp, lines 63 to 84).
use bare_metal_programming.Prelude.{
  ℕ, ◌^◌, ◌<◌, ◌≡◌, ◌≢◌, ◌⊎◌, inl, inr, refl, arith, ◌==◌, if◌then◌else◌, true, false, not, ◌&&◌,
  ◌||◌, Bool-cases, bit_and, bit_or, cast, complement, ◌<<<◌, test_bit, test_bit-bit_and,
  test_bit-bit_or, test_bit-mod, test_bit-complement, test_bit_pow, bit_and_pow, pow-lt, pow_pos,
}
use bare_metal_programming.Tools.Builtin.{trailing_zeros}
use bare_metal_programming.Pmm.Geometry.{Bitmap, load_8, is_frame_used}
use bare_metal_programming.Tools.Builtin.Laws.{trailing_zeros-IsLowest}

-- The bit that the allocator takes: the lowest clear one.
pub record IsFree (value t : ℕ) : Type 0 where
  pub inside : t < 8
  pub clear : test_bit value t ≡ false
  pub below : (j : ℕ) → j < t → test_bit value j ≡ true

pub trailing_zeros-IsFree :
    (value : ℕ)
    → value < 2 ^ 8
    → value ≢ 0xFF
    → IsFree value (trailing_zeros 8 (complement 8 value))
trailing_zeros-IsFree value h ne =
    let lowest =
      trailing_zeros-IsLowest 8 (complement 8 value) (omega arith) (omega arith) (omega arith) in
    record {
      inside = lowest.inside;
      clear = ground (
        arith,
        test_bit-complement 8 value (trailing_zeros 8 (complement 8 value)) h lowest.inside,
        lowest.set,
      );
      below = λ j q.
          ground (
            arith,
            test_bit-complement 8 value j h (omega (arith, lowest.inside)),
            lowest.below j q,
          );
    }

pub one_set :
    (value t j : ℕ)
    → j < 8
    → test_bit (cast 8 (bit_or value (1 <<< t))) j ≡ (test_bit value j || (j == t))
one_set value t j h =
    rw
      (
        test_bit-mod 8 (bit_or value (1 <<< t)) j,
        test_bit-bit_or j value (1 <<< t),
        test_bit_pow t j,
      )
      (ground arith)

pub one_cleared :
    (value t j : ℕ)
    → t < 8
    → j < 8
    → test_bit (cast 8 (bit_and value (complement 32 (1 <<< t)))) j
      ≡ (test_bit value j && not (j == t))
one_cleared value t j ht h =
    rw
      (
        test_bit-mod 8 (bit_and value (complement 32 (1 <<< t))) j,
        test_bit-bit_and j value (complement 32 (1 <<< t)),
        test_bit-complement 32 (1 <<< t) j (pow-lt t 32 (omega arith)) (omega arith),
        test_bit_pow t j,
      )
      (ground arith)

pub is_frame_used_lem :
    (b : Bitmap) (ptr t : ℕ)
    → load_8 b ptr < 2 ^ 8
    → t < 8
    → is_frame_used b ptr t ≡ test_bit (load_8 b ptr) t
unfolding is_frame_used
is_frame_used_lem b ptr t h ht =
    rw (bit_and_pow 8 (load_8 b ptr) t h ht) (split (Bool-cases (test_bit (load_8 b ptr) t)))
  where
    split :
        (test_bit (load_8 b ptr) t ≡ true) ⊎ (test_bit (load_8 b ptr) t ≡ false)
        → not ((if test_bit (load_8 b ptr) t then 1 <<< t else 0) == 0) ≡ test_bit (load_8 b ptr) t
    split (inl set) = rw set (ground (arith, pow_pos t))
    split (inr clear) = rw clear refl
