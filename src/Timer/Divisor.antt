-- ===== src/Timer/Divisor.antt =====
-- kernel/pit.cpp: the divisor of the interval timer.
use bare_metal_programming.Prelude.{
  ℕ, ◌+◌, ◌*◌, ◌/◌, ◌%◌, ◌^◌, ◌≤◌, ◌<◌, ◌≡◌, refl, arith, ◌∙◌, ltb, true, false, cast, none, some,
  List, [], ◌∷◌, bit_and, ◌||◌, bit_and-ones,
}
use native.Mathlib.Nat.{div-add-mod, mod-lt, div-lt_iff_lt-mul, mul_comm}
use bare_metal_programming.Timer.{divisor_of, initialize_pit, input_frequency}

-- The bytes that program channel 0 with a divisor, low byte first.
abbrev pub programmed : ℕ → List (ℕ × ℕ)
programmed divisor = (0x43, 0x36) ∷ (0x40, divisor % 256) ∷ (0x40, divisor / 256) ∷ []

pub record Divides (f divisor : ℕ) : Type 0 where
  pub positive : 0 < divisor
  pub fits_word : divisor < 2 ^ 16
  pub not_high : 2 * (divisor * f) ≤ 2 * input_frequency + f
  pub not_low : 2 * input_frequency ≤ 2 * (divisor * f) + f

divisor_of-Divides : (f : ℕ) → 20 ≤ f → f ≤ 100 → Divides f (divisor_of f)
divisor_of-Divides f low high = record {
  positive = ground (arith, λ (h : divisor_of f < 1). compared h);
  fits_word = (div-lt_iff_lt-mul some_f).1 (omega arith);
  not_high = omega (arith, exact, short, mul_comm f (divisor_of f));
  not_low = omega (arith, exact, short, mul_comm f (divisor_of f));
}
  where
    some_f : 0 < f
    some_f = omega arith

    exact : f * divisor_of f + (input_frequency + f / 2) % f ≡ input_frequency + f / 2
    exact = div-add-mod (input_frequency + f / 2) f

    short : (input_frequency + f / 2) % f < f
    short = mod-lt (input_frequency + f / 2) some_f

    compared : divisor_of f < 1 → input_frequency + f / 2 < 1 * f
    compared h = (div-lt_iff_lt-mul some_f).0 h

-- For every frequency of 20 to 100 Hz, `initialize_pit` sends the command and the two bytes of a
-- divisor that fits 16 bits and is the best one: times the frequency, it is off the input frequency
-- by at most half the frequency, so that the second of the two guards never panics. For every other
-- frequency it panics and sends nothing.
pub initialize_pit-Divides :
    (f : ℕ)
    → (20 ≤ f
        → f ≤ 100
        → (initialize_pit f ≡ some (programmed (divisor_of f))) × Divides f (divisor_of f))
      × (f < 20 → initialize_pit f ≡ none)
      × (100 < f → initialize_pit f ≡ none)
unfolding initialize_pit
initialize_pit-Divides f = (
  λ low high.
      let d = divisor_of-Divides f low high in
      let served : (ltb f 20 || ltb 100 f) ≡ false = ground arith in
      let usable : (ltb (divisor_of f) 1 || ltb 0xFFFF (divisor_of f)) ≡ false =
        ground (arith, d.positive, d.fits_word) in
      let whole : cast 16 (divisor_of f) ≡ divisor_of f = omega (arith, d.fits_word) in
      let low_byte : bit_and (divisor_of f) 0xFF ≡ divisor_of f % 256 =
        bit_and-ones 8 (divisor_of f) in
      let high_byte : bit_and (divisor_of f / 256) 0xFF ≡ divisor_of f / 256 =
        bit_and-ones 8 (divisor_of f / 256) ∙ omega (arith, d.fits_word) in
      (rw (served, usable, whole, low_byte, high_byte) refl, d),
  λ h. let refused : (ltb f 20 || ltb 100 f) ≡ true = ground arith in rw refused refl,
  λ h. let refused : (ltb f 20 || ltb 100 f) ≡ true = ground arith in rw refused refl,
)
