-- ===== src/Pmm/Sweep/Align.antt =====
-- The alignment of pointers, as arithmetic.
use bare_metal_programming.Prelude.{
  ℕ, ◌+◌, ◌-◌, ◌*◌, ◌/◌, ◌%◌, ◌≤◌, ◌<◌, ◌^◌, ◌≡◌, sym, ◌∙◌, ap, arith, bit_and, min, test_bit, ltb,
  false, not, ◌&&◌, if◌then◌else◌, complement, Bool-cases, inl, inr, test_bit_ext, test_bit-bit_and,
  test_bit-complement, test_bit-ones, test_bit-shl, test_bit-shr, bit_and-le,
}
use native.Mathlib.Nat.{pow-le-pow_right, div-mul-le_self, one-le-pow}
use bare_metal_programming.Pmm.Sweep.Pointers.{up_to, down}
use bare_metal_programming.Pmm.Sweep.{align_down, align_up, get_best_aligned_address, aligned_end}

-- Clearing the `k` low bits.
pub bit_and-high :
    (w k x : ℕ)
    → k ≤ w
    → 2 ^ k ≤ 2 ^ w
    → x < 2 ^ w
    → bit_and x (complement w (2 ^ k - 1)) ≡ x / 2 ^ k * 2 ^ k
bit_and-high w k x hk hp h =
    test_bit_ext w (bit_and x (complement w (2 ^ k - 1))) (x / 2 ^ k * 2 ^ k)
      (omega (arith, bit_and-le w x (complement w (2 ^ k - 1)) h))
      (omega (arith, div-mul-le_self x (2 ^ k))) bits
  where
    bits :
        (i : ℕ)
        → i < w
        → test_bit (bit_and x (complement w (2 ^ k - 1))) i ≡ test_bit (x / 2 ^ k * 2 ^ k) i
    bits i q =
        test_bit-bit_and i x (complement w (2 ^ k - 1))
        ∙ ap (λ t. test_bit x i && t)
            (test_bit-complement w (2 ^ k - 1) i (omega (arith, hp, one-le-pow k 2 (omega arith))) q
              ∙ ap not (test_bit-ones k i))
        ∙ masked
        ∙ sym (test_bit-shl k (x / 2 ^ k) i)
      where
        masked :
            (test_bit x i && not (ltb i k))
            ≡ (if ltb i k then false else test_bit (x / 2 ^ k) (i - k))
        masked = elim (Bool-cases (ltb i k)) [
          | inl low ↦ rw low (ground arith)
          | inr high ↦
              let index : k + (i - k) ≡ i = ground arith in
              rw (high, test_bit-shr k x (i - k), index) (ground arith)
        ]

module _ (k : ℕ) (small : k ≤ 5) where
  power_bound : (1 ≤ 2 ^ k) × (2 ^ k ≤ 2 ^ 5) × (2 ^ k ≤ 2 ^ 32)
  power_bound = (
    one-le-pow k 2 (omega arith),
    pow-le-pow_right (omega arith) small,
    pow-le-pow_right {n = 2} (omega arith) {i = k} {j = 32} (omega arith),
  )

  pub align_down_lem : (p : ℕ) → p < 2 ^ 32 → align_down p (2 ^ k - 1) ≡ p / 2 ^ k * 2 ^ k
  unfolding align_down
  align_down_lem p h = bit_and-high 32 k p (omega arith) power_bound.2 h

  -- The least of the next boundary and the last one before the end.
  pub aligned_end_lem :
      (p end_ : ℕ)
      → p + 32 < 2 ^ 32
      → end_ < 2 ^ 32
      → aligned_end p end_ (2 ^ k - 1)
        ≡ min ((p + (2 ^ k - 1)) / 2 ^ k * 2 ^ k) (end_ / 2 ^ k * 2 ^ k)
  unfolding aligned_end align_up get_best_aligned_address
  aligned_end_lem p end_ h q =
      let no_wrap : (p + (2 ^ k - 1)) % 2 ^ 32 ≡ p + (2 ^ k - 1) = omega (arith, power_bound) in
      rw
        (
          no_wrap,
          align_down_lem (p + (2 ^ k - 1)) (omega (arith, power_bound)),
          align_down_lem end_ q,
        )
        (ground arith)

-- Where the ends of the stages lie, for an end pointer that leaves room for the alignment.
module _ (end_ : ℕ) (room : end_ + 32 < 2 ^ 32) (k : ℕ) (small : k ≤ 5) where
  pub up_target :
      (p : ℕ)
      → p ≤ end_
      → (aligned_end p end_ (2 ^ k - 1) ≡ up_to (2 ^ k) p end_) × (up_to (2 ^ k) p end_ ≤ end_)
  up_target p h = (
    aligned_end_lem k small p end_ (omega arith) (omega arith),
    omega (arith, div-mul-le_self end_ (2 ^ k)),
  )

  pub down_target :
      (p : ℕ)
      → p ≤ end_
      → (align_down end_ (2 ^ k - 1) ≡ down (2 ^ k) end_) × (down (2 ^ k) end_ ≤ end_)
  down_target p h = (align_down_lem k small end_ (omega arith), div-mul-le_self end_ (2 ^ k))
