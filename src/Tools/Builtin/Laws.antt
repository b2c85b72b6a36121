-- ===== src/Tools/Builtin/Laws.antt =====
-- What the bit scans of tools/builtin.h find.
use bare_metal_programming.Prelude.{
  ℕ, zero, suc, ◌+◌, ◌-◌, ◌/◌, ◌^◌, ◌≤◌, ◌<◌, ◌≡◌, true, false, arith, test_bit, cast, ◌<<<◌, ◌==◌,
  Bool-cases, inl, inr, test_bit-shl, test_bit-mod, sym, ◌∙◌,
}
use native.Mathlib.Nat.{pow-suc}
use bare_metal_programming.Tools.Builtin.{
  count_trailing, count_leading, leading_zeros, trailing_zeros,
}

pub count_trailing-le : (w x : ℕ) → count_trailing w x ≤ w
unfolding count_trailing
count_trailing-le zero x = omega arith
count_trailing-le (suc w) x = ground (arith, count_trailing-le w (x / 2))

pub count_trailing_below : (w x j : ℕ) → j < count_trailing w x → test_bit x j ≡ false
unfolding count_trailing
count_trailing_below zero x j h = absurd (omega arith)
count_trailing_below (suc w) x zero h = ground arith
count_trailing_below (suc w) x (suc j) h = ground (arith, count_trailing_below w (x / 2) j)

pub count_trailing_at : (w x : ℕ) → count_trailing w x < w → test_bit x (count_trailing w x) ≡ true
unfolding count_trailing
count_trailing_at zero x h = absurd (omega arith)
count_trailing_at (suc w) x h = elim (Bool-cases (test_bit x 0)) [
  | inl e ↦ rw e e
  | inr e ↦ rw e (count_trailing_at w (x / 2) (ground arith))
]

pub count_leading-le : (w x : ℕ) → count_leading w x ≤ w
unfolding count_leading
count_leading-le zero x = omega arith
count_leading-le (suc w) x = ground (arith, count_leading-le w x)

count_leading_top : (w x : ℕ) → 0 < count_leading (suc w) x → test_bit x w ≡ false
unfolding count_leading
count_leading_top w x h = ground arith

pub count_leading_above : (w x j : ℕ) → j < w → w ≤ j + count_leading w x → test_bit x j ≡ false
unfolding count_leading
count_leading_above zero x j p h = absurd (omega arith)
count_leading_above (suc w) x j p h = elim (Bool-cases (j == w)) [
  | inl e ↦ let same : j ≡ w = ground arith in rw same (count_leading_top w x (ground arith))
  | inr ne ↦ ground (arith, count_leading_above w x j)
]

pub count_leading_at :
    (w x : ℕ) → count_leading w x < w → test_bit x (w - 1 - count_leading w x) ≡ true
unfolding count_leading
count_leading_at zero x h = absurd (omega arith)
count_leading_at (suc w) x h = elim (Bool-cases (test_bit x w)) [
  | inl e ↦ rw e (let i : suc w - 1 - 0 ≡ w = omega arith in rw i e)
  | inr e ↦ rw e (
      let i : suc w - 1 - suc (count_leading w x) ≡ w - 1 - count_leading w x = omega arith in
      rw i (count_leading_at w x (ground arith)))
]

-- A word with a set bit stops the scans inside its width.
count_trailing_lt : (w x k : ℕ) → k < w → test_bit x k ≡ true → count_trailing w x ≤ k
count_trailing_lt w x k h e = ground (arith, count_trailing_below w x k, count_trailing-le w x)

count_leading_lt : (w x k : ℕ) → k < w → test_bit x k ≡ true → count_leading w x + k < w
count_leading_lt w x k h e = ground (arith, count_leading_above w x k, count_leading-le w x)

-- Some bit of a non-zero word is set.
top_bit : (w x : ℕ) → 0 < x → x < 2 ^ w → (k : ℕ) × (k < w) × (test_bit x k ≡ true)
top_bit zero x p h = absurd (omega arith)
top_bit (suc w) x p h = elim (Bool-cases (test_bit x 0)) [
  | inl e ↦ (0, omega arith, e)
  | inr e ↦
      let (k, below, set) = top_bit w (x / 2) (ground arith) (omega (arith, pow-suc 2 w)) in
      (suc k, omega arith, set)
]

-- What a scan of a non-zero word from below has found.
pub record IsLowest (w x t : ℕ) : Type 0 where
  pub inside : t < w
  pub set : test_bit x t ≡ true
  pub below : (j : ℕ) → j < t → test_bit x j ≡ false

-- What a scan of a non-zero word from above has found: `t` clear bits above a set one.
pub record IsHighest (w x t : ℕ) : Type 0 where
  pub inside : t < w
  pub set : test_bit x (w - 1 - t) ≡ true
  pub above : (j : ℕ) → j < w → w ≤ j + t → test_bit x j ≡ false

-- At a non-zero value of `w` bits, `w` at most 32, `trailing_zeros` is the index of its lowest set
-- bit.
pub trailing_zeros-IsLowest :
    (w x : ℕ) → w ≤ 32 → 0 < x → x < 2 ^ w → IsLowest w x (trailing_zeros w x)
unfolding trailing_zeros
trailing_zeros-IsLowest w x hw p h =
    rw (is_count, wide)
      (record {
        inside = omega (arith, count_trailing_lt 32 x top.0 (omega (arith, top.1)) top.2, top.1);
        set =
            count_trailing_at 32 x
              (omega (arith, count_trailing_lt 32 x top.0 (omega (arith, top.1)) top.2, top.1));
        below = λ j q. count_trailing_below 32 x j q;
      })
  where
    top : (k : ℕ) × (k < w) × (test_bit x k ≡ true)
    top = top_bit w x p h

    wide : (w == 64) ≡ false
    wide = ground arith

    is_count : cast 8 (count_trailing 32 x) ≡ count_trailing 32 x
    is_count = omega (arith, count_trailing-le 32 x)

shifted_bit :
    (w x j : ℕ) → w ≤ 32 → j < w → test_bit (cast 32 (x <<< (32 - w))) (j + (32 - w)) ≡ test_bit x j
shifted_bit w x j hw h =
    rw
      (
        test_bit-mod 32 (x <<< (32 - w)) (j + (32 - w)),
        test_bit-shl (32 - w) x (j + (32 - w)),
        (let e : j + (32 - w) - (32 - w) ≡ j = omega arith in e),
      )
      (ground arith)

-- At a non-zero value of `w` bits, `w` at most 32, `leading_zeros` counts the clear bits above its
-- highest set bit.
pub leading_zeros-IsHighest :
    (w x : ℕ) → w ≤ 32 → 0 < x → x < 2 ^ w → IsHighest w x (leading_zeros w x)
unfolding leading_zeros
leading_zeros-IsHighest w x hw p h =
    rw (wide, is_count) (record { inside = inside; set = set; above = above })
  where
    y : ℕ
    y = cast 32 (x <<< (32 - w))

    top : (k : ℕ) × (k < w) × (test_bit x k ≡ true)
    top = top_bit w x p h

    wide : (w == 64) ≡ false
    wide = ground arith

    is_count : cast 8 (count_leading 32 y) ≡ count_leading 32 y
    is_count = omega (arith, count_leading-le 32 y)

    inside : count_leading 32 y < w
    inside = omega (
      arith,
      top.1,
      count_leading_lt 32 y (top.0 + (32 - w)) (omega (arith, top.1))
          (shifted_bit w x top.0 hw top.1 ∙ top.2),
    )

    set : test_bit x (w - 1 - count_leading 32 y) ≡ true
    set =
        let index : 32 - 1 - count_leading 32 y ≡ w - 1 - count_leading 32 y + (32 - w) =
          omega (arith, inside) in
        sym (shifted_bit w x (w - 1 - count_leading 32 y) hw (omega (arith, inside)))
        ∙ (rw index at (count_leading_at 32 y (omega (arith, inside))))

    above : (j : ℕ) → j < w → w ≤ j + count_leading 32 y → test_bit x j ≡ false
    above j q r =
        sym (shifted_bit w x j hw q)
        ∙ count_leading_above 32 y (j + (32 - w)) (omega arith) (omega arith)

-- At a non-zero value of `w` bits, `w` at most 32, `trailing_zeros` is the index of its lowest set
-- bit, and `leading_zeros` counts the clear bits above its highest set bit.
pub zeros_lem :
    (w x : ℕ)
    → w ≤ 32
    → 0 < x
    → x < 2 ^ w
    → IsLowest w x (trailing_zeros w x) × IsHighest w x (leading_zeros w x)
zeros_lem w x hw p h = (trailing_zeros-IsLowest w x hw p h, leading_zeros-IsHighest w x hw p h)
