-- ===== src/Prelude/Bits.antt =====
-- Bits of words: the laws of `&`, `|`, `~` and the shifts, read off one binary digit at a time.
use Prim.Native.Nat.{ℕ, zero, suc, ◌+◌, ◌-◌, ◌*◌, ◌/◌, ◌%◌, ◌≤◌, min, max}
use Prim.Native.Nat.{bit_and, bit_or, digits, bit_and-bitwise, bit_or-bitwise}
use mathlib.Core.Path.{◌≡◌, refl, ap, ◌∙◌}
use mathlib.Core.Bool.{Bool, ◌&&◌, ◌||◌}
use native.Mathlib.Omega.{arith}
use bare_metal_programming.Prelude.Tests.{◌==◌}

-- Bit `i` of `x`.
abbrev pub test_bit : ℕ → ℕ → Bool
test_bit x zero = x % 2 == 1
test_bit x (suc i) = test_bit (x / 2) i

module _ (rest : ℕ → ℕ) (digit : ℕ → ℕ → ℕ) where
  abbrev word : ℕ → ℕ → ℕ → ℕ
  word = digits rest digit

  -- One more turn than the first word's value changes nothing, and so do `k` more.
  word-turn : (x n y : ℕ) → x ≤ n → word (suc n) x y ≡ word n x y
  word-turn zero zero y h = refl
  word-turn zero (suc n) y h = refl
  word-turn (suc x) zero y h = absurd (omega arith)
  word-turn (suc x) (suc n) y h = omega (arith, word-turn (suc x / 2) n (y / 2) (omega arith))

  word-turns : (k x n y : ℕ) → x ≤ n → word (k + n) x y ≡ word n x y
  word-turns zero x n y h = let none : 0 + n ≡ n = omega arith in ap (λ m. word m x y) none
  word-turns (suc k) x n y h =
      let one : suc k + n ≡ suc (k + n) = omega arith in
      ap (λ m. word m x y) one ∙ word-turn x (k + n) y (omega arith) ∙ word-turns k x n y h

  -- The word of the halves, with just enough turns.
  word-half : (x y : ℕ) → word x (suc x / 2) y ≡ word (suc x / 2) (suc x / 2) y
  word-half x y =
      let turns : x ≡ x - suc x / 2 + suc x / 2 = omega arith in
      ap (λ n. word n (suc x / 2) y) turns
      ∙ word-turns (x - suc x / 2) (suc x / 2) (suc x / 2) y (omega arith)

pub bit_or_step : (x y : ℕ) → bit_or x y ≡ bit_or (x / 2) (y / 2) * 2 + max (x % 2) (y % 2)
bit_or_step zero y = rw (bit_or-bitwise 0 y, bit_or-bitwise 0 (y / 2)) (omega arith)
bit_or_step (suc x) y =
    rw (bit_or-bitwise (suc x) y, bit_or-bitwise (suc x / 2) (y / 2))
      (omega (arith, word-half (λ d. d) max x (y / 2)))

pub bit_and_step : (x y : ℕ) → bit_and x y ≡ bit_and (x / 2) (y / 2) * 2 + min (x % 2) (y % 2)
bit_and_step zero y = rw (bit_and-bitwise 0 y, bit_and-bitwise 0 (y / 2)) (omega arith)
bit_and_step (suc x) y =
    rw (bit_and-bitwise (suc x) y, bit_and-bitwise (suc x / 2) (y / 2))
      (omega (arith, word-half (λ d. 0) min x (y / 2)))

pub test_bit-bit_and : (i a b : ℕ) → test_bit (bit_and a b) i ≡ (test_bit a i && test_bit b i)
test_bit-bit_and zero a b = ground (arith, bit_and_step a b)
test_bit-bit_and (suc i) a b =
    let half : bit_and a b / 2 ≡ bit_and (a / 2) (b / 2) = omega (arith, bit_and_step a b) in
    rw half (test_bit-bit_and i (a / 2) (b / 2))

pub test_bit-bit_or : (i a b : ℕ) → test_bit (bit_or a b) i ≡ (test_bit a i || test_bit b i)
test_bit-bit_or zero a b = ground (arith, bit_or_step a b)
test_bit-bit_or (suc i) a b =
    let half : bit_or a b / 2 ≡ bit_or (a / 2) (b / 2) = omega (arith, bit_or_step a b) in
    rw half (test_bit-bit_or i (a / 2) (b / 2))
