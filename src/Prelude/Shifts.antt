-- ===== src/Prelude/Shifts.antt =====
-- The bits of shifted, masked and complemented words, at every width.
use Prim.Native.Nat.{ℕ, zero, suc, ◌+◌, ◌-◌, ◌*◌, ◌/◌, ◌%◌, ◌^◌, ◌≤◌, ◌<◌}
use mathlib.Core.Path.{◌≡◌, refl, ap}
use mathlib.Core.Bool.{false, not, ◌&&◌}
use native.Mathlib.Nat.{
  pow-suc, one-le-pow, mul_comm, div-div-eq-div-mul, div-add-mod, mod-eq-sub-div-mul,
}
use native.Mathlib.Omega.{arith}
use bare_metal_programming.Prelude.Tests.{ltb, if◌then◌else◌}
use bare_metal_programming.Prelude.Bits.{test_bit}

pub zero-test_bit : (i : ℕ) → test_bit 0 i ≡ false
zero-test_bit zero = refl
zero-test_bit (suc i) = zero-test_bit i

pub test_bit-shr : (s x i : ℕ) → test_bit (x / 2 ^ s) i ≡ test_bit x (s + i)
test_bit-shr zero x i =
    let word : x / 2 ^ 0 ≡ x = omega arith in
    let index : 0 + i ≡ i = omega arith in rw (word, index)
test_bit-shr (suc s) x i =
    let shift : x / 2 ^ suc s ≡ x / 2 / 2 ^ s =
      rw (pow-suc 2 s, mul_comm, ← div-div-eq-div-mul x 2 (2 ^ s)) refl in
    let index : suc s + i ≡ suc (s + i) = omega arith in
    rw (shift, index) (test_bit-shr s (x / 2) i)

half-mul : (s x : ℕ) → x * 2 ^ suc s ≡ 2 * (x * 2 ^ s)
half-mul s x = omega (arith, ap (λ (t : ℕ). x * t) (pow-suc 2 s))

pub test_bit-shl :
    (s x i : ℕ) → test_bit (x * 2 ^ s) i ≡ (if ltb i s then false else test_bit x (i - s))
test_bit-shl zero x i =
    let word : x * 2 ^ 0 ≡ x = omega arith in
    let index : i - 0 ≡ i = omega arith in rw (word, index) (ground arith)
test_bit-shl (suc s) x zero = ground (arith, half-mul s x)
test_bit-shl (suc s) x (suc i) =
    let half : x * 2 ^ suc s / 2 ≡ x * 2 ^ s = omega (arith, half-mul s x) in
    rw half (rw (test_bit-shl s x i) ground arith)

pub half_mod : (w x : ℕ) → x % 2 ^ suc w / 2 ≡ x / 2 % 2 ^ w
half_mod w x = omega (
  arith,
  mod-eq-sub-div-mul x (2 ^ suc w),
  mod-eq-sub-div-mul (x / 2) (2 ^ w),
  half-mul w (x / 2 ^ suc w),
  quotient,
  ap (λ (t : ℕ). t * 2 ^ w) quotient,
  div-add-mod x (2 ^ suc w),
)
  where
    quotient : x / 2 ^ suc w ≡ x / 2 / 2 ^ w
    quotient = rw (pow-suc 2 w, mul_comm, ← div-div-eq-div-mul x 2 (2 ^ w)) refl

pub test_bit-mod : (w x i : ℕ) → test_bit (x % 2 ^ w) i ≡ (ltb i w && test_bit x i)
test_bit-mod zero x i =
    rw (let e : x % 2 ^ 0 ≡ 0 = omega arith in e, zero-test_bit i) (ground arith)
test_bit-mod (suc w) x zero = ground (arith, half-mul w (x / 2 ^ suc w))
test_bit-mod (suc w) x (suc i) = rw (half_mod w x, test_bit-mod w (x / 2) i) (ground arith)

pub test_bit_of_lt : (w x i : ℕ) → x < 2 ^ w → w ≤ i → test_bit x i ≡ false
test_bit_of_lt zero x i h p = rw (let e : x ≡ 0 = omega arith in e) (zero-test_bit i)
test_bit_of_lt (suc w) x zero h p = absurd (omega arith)
test_bit_of_lt (suc w) x (suc i) h p =
    test_bit_of_lt w (x / 2) i (omega (arith, pow-suc 2 w)) (omega arith)

pub test_bit-complement :
    (w x i : ℕ) → x < 2 ^ w → i < w → test_bit (2 ^ w - 1 - x) i ≡ not (test_bit x i)
test_bit-complement zero x i h p = absurd (omega arith)
test_bit-complement (suc w) x zero h p = ground (arith, pow-suc 2 w)
test_bit-complement (suc w) x (suc i) h p =
    let half : (2 ^ suc w - 1 - x) / 2 ≡ 2 ^ w - 1 - x / 2 = omega (arith, pow-suc 2 w) in
    rw half (test_bit-complement w (x / 2) i (omega (arith, pow-suc 2 w)) (omega arith))

pub test_bit-ones : (w i : ℕ) → test_bit (2 ^ w - 1) i ≡ ltb i w
test_bit-ones zero i = rw (zero-test_bit i) (ground arith)
test_bit-ones (suc w) zero = ground (arith, pow-suc 2 w, one-le-pow w 2)
test_bit-ones (suc w) (suc i) =
    let half : (2 ^ suc w - 1) / 2 ≡ 2 ^ w - 1 = omega (arith, pow-suc 2 w) in
    rw half (rw (test_bit-ones w i) ground arith)

-- Words below `2 ^ w` that agree on their `w` bits are equal.
pub test_bit_ext :
    (w x y : ℕ) → x < 2 ^ w → y < 2 ^ w → ((i : ℕ) → i < w → test_bit x i ≡ test_bit y i) → x ≡ y
test_bit_ext zero x y hx hy h = omega arith
test_bit_ext (suc w) x y hx hy h = ground (
  arith,
  h 0,
  test_bit_ext w (x / 2) (y / 2) (omega (arith, pow-suc 2 w)) (omega (arith, pow-suc 2 w))
      (λ i p. h (suc i) (omega arith)),
)
