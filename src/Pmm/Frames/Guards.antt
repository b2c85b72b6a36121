-- ===== src/Pmm/Frames/Guards.antt =====
-- The branch-free tests and selections of the release functions (kernel/pmm.cpp, lines 1117 to
-- 1130 and 1182 to 1200).
use bare_metal_programming.Prelude.{
  ℕ, ◌+◌, ◌%◌, ◌^◌, ◌<◌, ◌≡◌, ◌↔◌, inl, inr, refl, arith, min, ltb, true, Bool-cases, bit_or,
  bit_and-ones, test_bit_ext, test_bit-bit_or, zero-test_bit, bit_or-lt,
}
use bare_metal_programming.Pmm.Geometry.{ReservedVector}
use bare_metal_programming.Pmm.Frames.{lower_hint, in_region}
use bare_metal_programming.Pmm.Invariant.{InRegion}

bit_or-zero : (x : ℕ) → x < 2 ^ 32 → bit_or x 0 ≡ x
bit_or-zero x h =
    test_bit_ext 32 (bit_or x 0) x (bit_or-lt 32 x 0 h (omega arith)) h
      λ i q. rw (test_bit-bit_or i x 0, zero-test_bit i) (ground arith)

zero-bit_or : (x : ℕ) → x < 2 ^ 32 → bit_or 0 x ≡ x
zero-bit_or x h =
    test_bit_ext 32 (bit_or 0 x) x (bit_or-lt 32 0 x (omega arith) h) h
      λ i q. rw (test_bit-bit_or i 0 x, zero-test_bit i) refl

-- For two pointers, the selection by a mask of the release functions is the lower one.
pub lower_hint_lem : (a hint : ℕ) → a < 2 ^ 32 → hint < 2 ^ 32 → lower_hint a hint ≡ min a hint
unfolding lower_hint
lower_hint_lem a hint ha hh = elim (Bool-cases (ltb a hint)) [
  | inl lower ↦
      rw (lower, bit_and-ones 32 a, bit_and-ones 0 hint, a_small, none hint, bit_or-zero a ha)
        (ground arith)
  | inr higher ↦
      rw (higher, bit_and-ones 32 hint, bit_and-ones 0 a, hint_small, none a, zero-bit_or hint hh)
        (ground arith)
]
  where
    none : (x : ℕ) → x % 2 ^ 0 ≡ 0
    none x = omega arith

    a_small : a % 2 ^ 32 ≡ a
    a_small = omega arith

    hint_small : hint % 2 ^ 32 ≡ hint
    hint_small = omega arith

-- For a frame index and a region inside 32 bits, the wrapping test tells whether the index lies in the region.
pub in_region_iff :
    (index : ℕ) (r : ReservedVector)
    → index < 2 ^ 32
    → r.base + r.length < 2 ^ 32
    → (in_region index r ≡ true) ↔ InRegion index r
unfolding in_region
in_region_iff index r h k = (λ e. (ground arith, ground arith), λ (p, q). ground arith)
