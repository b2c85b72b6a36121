-- ===== src/Output/Nibbles.antt =====
-- terminal/output.cpp, lines 30 to 42 and 92 to 170: what the leading zeros of a word say of its
-- nibbles, and what the nibbles spell.
use bare_metal_programming.Prelude.{
  ℕ, zero, suc, ◌+◌, ◌-◌, ◌*◌, ◌/◌, ◌%◌, ◌^◌, ◌≤◌, ◌<◌, ◌≡◌, refl, arith, ap, sym, ◌∙◌, inl, inr,
  Bool, true, Bool-cases, leb, ◌==◌, bit_and, ◌&&◌, ◌||◌, bit_and-ones, test_bit, ◌>>>◌, List, [],
  ◌∷◌, length,
}
use native.Mathlib.Nat.{
  pow-suc, pow-le-pow_right, one-le-pow, div-eq_of_lt, div-lt_iff_lt-mul, div-div-eq-div-mul,
}
use bare_metal_programming.Tools.Builtin.{count_leading}
use bare_metal_programming.Output.{Output, put_char_no_sync, write_string_no_sync}
use bare_metal_programming.Output.Hex.{hex_digit, put_nibbles}
use bare_metal_programming.Output.Numeral.{All, IsDigit, IsNumeral, reading, digit_value}

-- A word below 2 ^ (w + 1) has its bit `w` exactly when it reaches 2 ^ w.
top_bit_of : (w x : ℕ) → x < 2 ^ suc w → test_bit x w ≡ leb (2 ^ w) x
top_bit_of zero x h = ground arith
top_bit_of (suc w) x h =
    top_bit_of w (x / 2) (omega (arith, pow-suc 2 (suc w))) ∙ ground (arith, pow-suc 2 w)

-- The leading zeros of `w` bits place the word between two powers of two.
pub count_leading_bounds :
    (w x : ℕ)
    → 0 < x
    → x < 2 ^ w
    → (count_leading w x < w)
      × (2 ^ (w - 1 - count_leading w x) ≤ x)
      × (x < 2 ^ (w - count_leading w x))
unfolding count_leading
count_leading_bounds zero x p h = absurd (omega arith)
count_leading_bounds (suc w) x p h = elim (Bool-cases (test_bit x w)) [
  | inl top ↦
      let reached : 2 ^ w ≤ x = ground (arith, top_bit_of w x h) in
      let e : suc w - 1 - 0 ≡ w = omega arith in
      let f : suc w - 0 ≡ suc w = omega arith in rw (top, e, f) (omega arith, reached, h)
  | inr low ↦
      let below : x < 2 ^ w = ground (arith, top_bit_of w x h) in
      let (inside, lower, upper) = count_leading_bounds w x p below in
      let e : suc w - 1 - suc (count_leading w x) ≡ w - 1 - count_leading w x = omega arith in
      let f : suc w - suc (count_leading w x) ≡ w - count_leading w x = omega arith in
      rw (low, e, f) (omega (arith, inside), lower, upper)
]

-- The characters of the lowest `n` nibbles, the highest of them first.
unfoldable pub nibbles : ℕ → ℕ → List ℕ
nibbles value zero = []
nibbles value (suc n) = hex_digit (bit_and (value >>> (4 * n)) 0x0F) ∷ nibbles value n

pub put_nibbles-nibbles :
    (value n : ℕ) (o : Output) → put_nibbles value n o ≡ write_string_no_sync (nibbles value n) o
unfolding put_nibbles nibbles write_string_no_sync
put_nibbles-nibbles value zero o = refl
put_nibbles-nibbles value (suc n) o =
    put_nibbles-nibbles value n (put_char_no_sync (hex_digit (bit_and (value >>> (4 * n)) 0x0F)) o)

pub length-nibbles : (value n : ℕ) → length (nibbles value n) ≡ n
unfolding nibbles
length-nibbles value zero = refl
length-nibbles value (suc n) = ap suc (length-nibbles value n)

all_below : ℕ → (ℕ → Bool) → Bool
all_below zero f = true
all_below (suc n) f = f n && all_below n f

all_below-at : (n d : ℕ) (f : ℕ → Bool) → all_below n f ≡ true → d < n → f d ≡ true
unfolding all_below
all_below-at zero d f e h = absurd (omega arith)
all_below-at (suc n) d f e h = elim (Bool-cases (d == n)) [
  | inl last ↦ let same : d ≡ n = ground arith in rw same (ground (arith, e))
  | inr before ↦ all_below-at n d f (ground (arith, e)) (ground arith)
]

abbrev is_digit_of : ℕ → Bool
is_digit_of d =
    leb b'0' (hex_digit d)
    && (leb (hex_digit d) b'9' || leb b'A' (hex_digit d))
    && (digit_value (hex_digit d) == d)

hex_digit_ok : (d : ℕ) → d < 16 → is_digit_of d ≡ true
unfolding all_below
hex_digit_ok d h = all_below-at 16 d is_digit_of refl h

digit_value-hex_digit : (d : ℕ) → d < 16 → digit_value (hex_digit d) ≡ d
digit_value-hex_digit d h = ground (arith, hex_digit_ok d h)

hex_digit-IsDigit : (d : ℕ) → d < 16 → IsDigit 16 (hex_digit d)
hex_digit-IsDigit d h = ground (arith, hex_digit_ok d h)

pow_nibble : (n : ℕ) → 2 ^ (4 * suc n) ≡ 2 ^ (4 * n) * 16
pow_nibble n =
    let e : 4 * suc n ≡ suc (suc (suc (suc (4 * n)))) = omega arith in
    rw e (
      omega (
        arith,
        pow-suc 2 (4 * n),
        pow-suc 2 (suc (4 * n)),
        pow-suc 2 (suc (suc (4 * n))),
        pow-suc 2 (suc (suc (suc (4 * n)))),
      ))

nibble : (value n : ℕ) → bit_and (value >>> (4 * n)) 0x0F ≡ value / 2 ^ (4 * n) % 16
nibble value n = bit_and-ones 4 (value >>> (4 * n))

nibbles-digits : (value n : ℕ) → All (IsDigit 16) (nibbles value n)
unfolding nibbles
nibbles-digits value zero = tt
nibbles-digits value (suc n) = (
  hex_digit-IsDigit (bit_and (value >>> (4 * n)) 0x0F) (omega (arith, nibble value n)),
  nibbles-digits value n,
)

-- Read behind what the value has above them, the lowest `n` nibbles give the value.
reading-nibbles : (value n : ℕ) → reading 16 (value / 2 ^ (4 * n)) (nibbles value n) ≡ value
unfolding nibbles reading
reading-nibbles value zero = omega arith
reading-nibbles value (suc n) =
    ap (λ t. reading 16 t (nibbles value n)) sum ∙ reading-nibbles value n
  where
    high : value / 2 ^ (4 * suc n) ≡ value / 2 ^ (4 * n) / 16
    high = rw (pow_nibble n, ← div-div-eq-div-mul value (2 ^ (4 * n)) 16) refl

    sum :
        value / 2 ^ (4 * suc n) * 16 + digit_value (hex_digit (bit_and (value >>> (4 * n)) 0x0F))
        ≡ value / 2 ^ (4 * n)
    sum = omega (
      arith,
      high,
      nibble value n,
      digit_value-hex_digit (bit_and (value >>> (4 * n)) 0x0F) (omega (arith, nibble value n)),
    )

zero_digit : (d : ℕ) → d < 16 → hex_digit d ≡ b'0' → d ≡ 0
zero_digit d h e = omega (arith, ap digit_value e, digit_value-hex_digit d h)

-- The nibbles of a value whose highest one is not zero.
nibbles-IsNumeral :
    (value n : ℕ)
    → 2 ^ (4 * n) ≤ value
    → value < 2 ^ (4 * suc n)
    → IsNumeral 16 value (nibbles value (suc n))
unfolding nibbles
nibbles-IsNumeral value n low high = record {
  digits = nibbles-digits value (suc n);
  reads =
      ap (λ t. reading 16 t (nibbles value (suc n))) (sym (div-eq_of_lt high))
      ∙ reading-nibbles value (suc n);
  some_digit = omega arith;
  shortest = λ e. absurd (
      omega (
        arith,
        top_value,
        top_nonzero,
        zero_digit (bit_and (value >>> (4 * n)) 0x0F) (omega (arith, nibble value n)) e,
        nibble value n,
      ));
}
  where
    positive : 0 < 2 ^ (4 * n)
    positive = one-le-pow (4 * n) 2 (omega arith)

    top_value : value / 2 ^ (4 * n) < 16
    top_value = (div-lt_iff_lt-mul positive).1 (omega (arith, pow_nibble n))

    top_nonzero : 0 < value / 2 ^ (4 * n)
    top_nonzero =
        ground (arith, (div-lt_iff_lt-mul {k = 2 ^ (4 * n)} {x = value} {y = 1} positive).0)

-- `lz` leading zeros of a word of `4 * total` bits leave this many nibbles.
pub enough_nibbles :
    (total lz value : ℕ)
    → lz < 4 * total
    → 2 ^ (4 * total - 1 - lz) ≤ value
    → value < 2 ^ (4 * total - lz)
    → IsNumeral 16 value (nibbles value (total - lz / 4))
enough_nibbles total lz value inside low high =
    let e : total - lz / 4 ≡ suc (total - lz / 4 - 1) = omega arith in
    rw e (
      nibbles-IsNumeral value (total - lz / 4 - 1)
        (omega (
          arith,
          low,
          pow-le-pow_right {n = 2} (omega arith) {i = 4 * (total - lz / 4 - 1)}
              {j = 4 * total - 1 - lz} (omega arith),
        ))
        (omega (
          arith,
          high,
          pow-le-pow_right {n = 2} (omega arith) {i = 4 * total - lz}
              {j = 4 * suc (total - lz / 4 - 1)} (omega arith),
        )))

-- In a word of 32 bits, the value of a narrow type has the zeros above it as well.
pub narrow_zeros :
    (total value : ℕ)
    → total ≤ 8
    → 0 < value
    → value < 2 ^ (4 * total)
    → (count_leading 32 value - (32 - 4 * total) < 4 * total)
      × (2 ^ (4 * total - 1 - (count_leading 32 value - (32 - 4 * total))) ≤ value)
      × (value < 2 ^ (4 * total - (count_leading 32 value - (32 - 4 * total))))
narrow_zeros total value t p h =
    let (inside, low, high) = count_leading_bounds 32 value p (
      omega (
        arith,
        h,
        pow-le-pow_right {n = 2} (omega arith) {i = 4 * total} {j = 32} (omega arith),
      )) in
    let many : 32 - 4 * total ≤ count_leading 32 value = ground (
      arith,
      λ (q : 4 * total ≤ 31 - count_leading 32 value). pow-le-pow_right {n = 2} (omega arith) q,
    ) in
    let e : 4 * total - 1 - (count_leading 32 value - (32 - 4 * total))
        ≡ 31 - count_leading 32 value =
      omega arith in
    let f : 4 * total - (count_leading 32 value - (32 - 4 * total)) ≡ 32 - count_leading 32 value =
      omega arith in
    rw (e, f) (omega arith, low, high)
