-- ===== src/Prelude/Words.antt =====
-- The operators of C on unsigned words of a given width, and the bounds of their results.
use Prim.Native.Nat.{ℕ, zero, suc, ◌+◌, ◌-◌, ◌*◌, ◌/◌, ◌%◌, ◌^◌, ◌≤◌, ◌<◌, bit_and, bit_or}
use Prim.Native.Nat.{bit_and-bitwise}
use mathlib.Core.Path.{◌≡◌, refl, ap, ◌∙◌}
use mathlib.Core.Bool.{Bool, true, false, ◌&&◌}
use mathlib.Core.Logic.{◌⊎◌, inl, inr}
use native.Mathlib.Nat.{pow-suc, one-le-pow, pow-le-pow_right}
use native.Mathlib.Omega.{arith}
use bare_metal_programming.Prelude.Tests.{ltb, ◌==◌, if◌then◌else◌, Bool-cases}
use bare_metal_programming.Prelude.Bits.{test_bit, bit_and_step, bit_or_step, test_bit-bit_and}
use bare_metal_programming.Prelude.Shifts.{
  test_bit-mod, test_bit-shl, half_mod, zero-test_bit, test_bit_ext,
}

-- The cast to `uint<w>_t`.
abbrev pub cast : ℕ → ℕ → ℕ
cast w x = x % 2 ^ w

-- `x - y` on `uint<w>_t` operands, which wraps.
abbrev pub wrap_sub : ℕ → ℕ → ℕ → ℕ
wrap_sub w x y = (x + 2 ^ w - y) % 2 ^ w

-- `~x` cast to `uint<w>_t`, for `x` below `2 ^ w`.
abbrev pub complement : ℕ → ℕ → ℕ
complement w x = 2 ^ w - 1 - x

infixl 75 ◌<<<◌ ◌>>>◌
abbrev pub ◌<<<◌ : ℕ → ℕ → ℕ
x <<< k = x * 2 ^ k

abbrev pub ◌>>>◌ : ℕ → ℕ → ℕ
x >>> k = x / 2 ^ k

pub bit_and-le : (w a b : ℕ) → a < 2 ^ w → bit_and a b ≤ a
bit_and-le zero a b h =
    let none_set : a ≡ 0 = omega arith in rw none_set (omega (arith, bit_and-bitwise 0 b))
bit_and-le (suc w) a b h = omega (
  arith,
  pow-suc 2 w,
  bit_and_step a b,
  bit_and-le w (a / 2) (b / 2) (omega (arith, pow-suc 2 w)),
)

pub bit_or-lt : (w a b : ℕ) → a < 2 ^ w → b < 2 ^ w → bit_or a b < 2 ^ w
bit_or-lt zero a b ha hb =
    let ea : a ≡ 0 = omega arith in let eb : b ≡ 0 = omega arith in rw (ea, eb) (omega arith)
bit_or-lt (suc w) a b ha hb = omega (
  arith,
  pow-suc 2 w,
  bit_or_step a b,
  bit_or-lt w (a / 2) (b / 2) (omega (arith, pow-suc 2 w)) (omega (arith, pow-suc 2 w)),
)

-- `hi` above `k` bits of `lo`.
pub test_bit-fields :
    (k lo hi i : ℕ)
    → lo < 2 ^ k
    → test_bit (lo + hi * 2 ^ k) i ≡ (if ltb i k then test_bit lo i else test_bit hi (i - k))
test_bit-fields zero lo hi i h =
    let word : lo + hi * 2 ^ 0 ≡ hi = omega arith in
    let index : i - 0 ≡ i = omega arith in rw (word, index) (ground arith)
test_bit-fields (suc k) lo hi zero h =
    ground (arith, pow-suc 2 k, ap (λ (t : ℕ). hi * t) (pow-suc 2 k))
test_bit-fields (suc k) lo hi (suc i) h =
    let half : (lo + hi * 2 ^ suc k) / 2 ≡ lo / 2 + hi * 2 ^ k =
      omega (arith, ap (λ (t : ℕ). hi * t) (pow-suc 2 k)) in
    rw (half, test_bit-fields k (lo / 2) hi i (omega (arith, pow-suc 2 k))) (ground arith)

bit_and-zero : (n x : ℕ) → x ≤ n → bit_and x 0 ≡ 0
bit_and-zero zero x h = let e : x ≡ 0 = omega arith in rw e refl
bit_and-zero (suc n) x h = omega (arith, bit_and_step x 0, bit_and-zero n (x / 2) (omega arith))

-- A mask of `k` ones keeps the remainder by `2 ^ k`.
pub bit_and-ones : (k x : ℕ) → bit_and x (2 ^ k - 1) ≡ x % 2 ^ k
bit_and-ones zero x = omega (arith, bit_and-zero x x (omega arith))
bit_and-ones (suc k) x = omega (
  arith,
  pow-suc 2 k,
  bit_and_step x (2 ^ suc k - 1),
  ap (bit_and (x / 2)) half,
  bit_and-ones k (x / 2),
  half_mod k x,
  one-le-pow k 2 (omega arith),
  low_digit,
)
  where
    half : (2 ^ suc k - 1) / 2 ≡ 2 ^ k - 1
    half = omega (arith, pow-suc 2 k)

    low_digit : x % 2 ^ suc k % 2 ≡ x % 2
    low_digit = ground (arith, test_bit-mod (suc k) x 0)

-- A power of two has one bit.
pub test_bit_one :
    (s i : ℕ) → test_bit (1 <<< s) i ≡ (if ltb i s then false else test_bit 1 (i - s))
test_bit_one s i = test_bit-shl s 1 i

-- `1 << s` is the word of the bit `s` alone.
pub test_bit_pow : (s i : ℕ) → test_bit (1 <<< s) i ≡ (i == s)
test_bit_pow s i = test_bit_one s i ∙ elim (Bool-cases (ltb i s)) [
  | inl low ↦ rw low (ground arith)
  | inr high ↦ rw high (above (i - s) refl (ground arith))
]
  where
    above : (d : ℕ) → i - s ≡ d → s ≤ i → test_bit 1 (i - s) ≡ (i == s)
    above zero e h = rw e (ground arith)
    above (suc d) e h = rw e (rw (zero-test_bit d) (ground arith))

pub pow-lt : (s w : ℕ) → s < w → 1 <<< s < 2 ^ w
pow-lt s w k = omega (
  arith,
  pow-le-pow_right {n = 2} (omega arith) {i = suc s} {j = w} k,
  pow-suc 2 s,
  one-le-pow s 2 (omega arith),
)

pub pow_pos : (s : ℕ) → 0 < 1 <<< s
pow_pos s = omega (arith, one-le-pow s 2 (omega arith))

-- `x & (1 << s)` tells whether the bit `s` is set.
pub bit_and_pow :
    (w x s : ℕ) → x < 2 ^ w → s < w → bit_and x (1 <<< s) ≡ (if test_bit x s then 1 <<< s else 0)
bit_and_pow w x s h k =
    test_bit_ext w (bit_and x (1 <<< s)) (if test_bit x s then 1 <<< s else 0)
      (omega (arith, bit_and-le w x (1 <<< s) h)) (fits (test_bit x s)) λ i q. bits i
  where
    fits : (c : Bool) → (if c then 1 <<< s else 0) < 2 ^ w
    fits true = pow-lt s w k
    fits false = omega (arith, pow-lt s w k)

    bits :
        (i : ℕ)
        → test_bit (bit_and x (1 <<< s)) i ≡ test_bit (if test_bit x s then 1 <<< s else 0) i
    bits i =
        test_bit-bit_and i x (1 <<< s) ∙ rw (test_bit_pow s i) (split (Bool-cases (test_bit x s)))
      where
        split :
            (test_bit x s ≡ true) ⊎ (test_bit x s ≡ false)
            → (test_bit x i && (i == s)) ≡ test_bit (if test_bit x s then 1 <<< s else 0) i
        split (inl set) = rw set (
            rw (test_bit_pow s i) (elim (Bool-cases (i == s)) [
              | inl here ↦ let same : i ≡ s = ground arith in rw (same, set) (ground arith)
              | inr away ↦ rw away (ground arith)
            ]))
        split (inr clear) =
            rw (clear, zero-test_bit i)
              (elim (Bool-cases (i == s)) [
                | inl here ↦ let same : i ≡ s = ground arith in rw (same, clear) refl
                | inr away ↦ rw away (ground arith)
              ])
