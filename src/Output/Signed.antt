-- ===== src/Output/Signed.antt =====
-- terminal/output.cpp, lines 44 to 90: numbers of the signed types.
use bare_metal_programming.Prelude.{
  ℕ, zero, suc, ◌-◌, ◌/◌, ◌^◌, ◌≤◌, ◌<◌, ◌≡◌, refl, arith, ap, ◌∙◌, inl, inr, true, false, ltb,
  ◌==◌, if◌then◌else◌, wrap_sub, List, [], ◌∷◌, Option, none, some,
}
use mathlib.Core.List.{map, append-nil}
use bare_metal_programming.Output.{Output, put_char_no_sync, write_string_no_sync}
use bare_metal_programming.Output.Digits.{
  int_is_zero, negsuc, minus, unsigned, signed_int, write_unsigned_no_sync, write_signed_8_no_sync,
  write_signed_16_no_sync, write_signed_32_no_sync, write_signed_64_no_sync,
}
use bare_metal_programming.Output.Numeral.{IsNumeral, Writes, Writes-same}
use bare_metal_programming.Output.Decimal.{
  spelled, spelled-IsNumeral, write_unsigned-spelled, write_unsigned_no_sync-Writes,
}

-- A sign, then what follows.
behind_sign :
    (value size : ℕ) (write : Output → Output)
    → Writes [] 10 value size write
    → Writes (b'-' ∷ []) 10 value size (λ o. write (put_char_no_sync b'-' o))
unfolding write_string_no_sync
behind_sign value size write h = record {
  text = h.text;
  written = λ o. h.written (put_char_no_sync b'-' o);
  numeral = h.numeral;
  fits = h.fits;
}

-- For every value of an `int32_t` or an `int64_t`, given as its bit pattern: one that is not
-- negative is written as its decimal numeral, and a negative one as '-' and the numeral of its
-- absolute value, the least value of the type included.
pub write_signed_wide :
    (p : ℕ)
    → (p < 2 ^ 31 → Writes [] 10 p 10 (write_signed_32_no_sync p))
      × (2 ^ 31 ≤ p
          → p < 2 ^ 32
          → Writes (b'-' ∷ []) 10 (2 ^ 32 - p) 10 (write_signed_32_no_sync p))
      × (p < 2 ^ 63 → Writes [] 10 p 20 (write_signed_64_no_sync p))
      × (2 ^ 63 ≤ p
          → p < 2 ^ 64
          → Writes (b'-' ∷ []) 10 (2 ^ 64 - p) 20 (write_signed_64_no_sync p))
unfolding write_signed_32_no_sync write_signed_64_no_sync
write_signed_wide p = (
  λ h.
      let plain : ltb 2147483647 p ≡ false = ground arith in
      Writes-same (λ o. rw plain refl)
        (write_unsigned_no_sync-Writes 32 p (inr (inr (inl refl))) (omega arith)),
  λ h k.
      let below : ltb 2147483647 p ≡ true = ground arith in
      let absolute : wrap_sub 32 0 p ≡ 2 ^ 32 - p = omega arith in
      Writes-same (λ o. rw (below, absolute) refl)
        (behind_sign (2 ^ 32 - p) 10 (write_unsigned_no_sync (unsigned 32) (2 ^ 32 - p))
          (write_unsigned_no_sync-Writes 32 (2 ^ 32 - p) (inr (inr (inl refl))) (omega arith))),
  λ h.
      let plain : ltb 9223372036854775807 p ≡ false = ground arith in
      Writes-same (λ o. rw plain refl)
        (write_unsigned_no_sync-Writes 64 p (inr (inr (inr refl))) (omega arith)),
  λ h k.
      let below : ltb 9223372036854775807 p ≡ true = ground arith in
      let absolute : wrap_sub 64 0 p ≡ 2 ^ 64 - p = omega arith in
      Writes-same (λ o. rw (below, absolute) refl)
        (behind_sign (2 ^ 64 - p) 20 (write_unsigned_no_sync (unsigned 64) (2 ^ 64 - p))
          (write_unsigned_no_sync-Writes 64 (2 ^ 64 - p) (inr (inr (inr refl))) (omega arith))),
)

-- The character that stands as far below '0' as `c` does above it.
abbrev pub mirrored : ℕ → ℕ
mirrored c = 96 - c

mirror : Option (List ℕ) → Option (List ℕ)
mirror none = none
mirror (some t) = some (map mirrored t)

mirror_step :
    (w n q c d : ℕ) (text : List ℕ)
    → c ≡ mirrored d
    → ((k : ℕ)
        → spelled signed_int n (negsuc k) (map mirrored (d ∷ text))
          ≡ mirror (spelled (unsigned w) n (suc k) (d ∷ text)))
    → (if int_is_zero (minus q)
        then some (c ∷ map mirrored text)
        else spelled signed_int n (minus q) (c ∷ map mirrored text))
      ≡ mirror (if q == 0 then some (d ∷ text) else spelled (unsigned w) n q (d ∷ text))
unfolding mirror
mirror_step w n zero c d text e rest = ap (λ x. some (x ∷ map mirrored text)) e
mirror_step w n (suc k) c d text e rest =
    let more : (suc k == 0) ≡ false = ground arith in rw (e, more) (rest k)

-- At `int` the loop runs as at an unsigned type, but writes the mirrored digits of a negative value.
spelled-mirror :
    (w n m : ℕ) (text : List ℕ)
    → spelled signed_int n (negsuc m) (map mirrored text)
      ≡ mirror (spelled (unsigned w) n (suc m) text)
unfolding spelled mirror
spelled-mirror w zero m text = refl
spelled-mirror w (suc n) m text =
    mirror_step w n (suc m / 10) (signed_int.digit (negsuc m)) ((unsigned w).digit (suc m)) text
      (omega arith) (λ k. spelled-mirror w n k ((unsigned w).digit (suc m) ∷ text))

pub record WritesMirrored (p : ℕ) (write : Output → Output) : Type 0 where
  pub text : List ℕ
  pub written : (o : Output) → write o ≡ write_string_no_sync (b'-' ∷ map mirrored text) o
  pub numeral : IsNumeral 10 p text

negative_int :
    (p : ℕ) (write : Output → Output)
    → 0 < p
    → p < 10 ^ 10
    → ((o : Output)
        → write o ≡ write_unsigned_no_sync signed_int (minus p) (put_char_no_sync b'-' o))
    → WritesMirrored p write
unfolding write_string_no_sync mirror
negative_int zero write h k e = absurd (omega arith)
negative_int (suc m) write h k e =
    let (t, spells, numeral, short) = spelled-IsNumeral 32 10 (suc m) [] (omega arith) k in
    record {
      text = t;
      written = λ o.
          e o
          ∙ write_unsigned-spelled signed_int (negsuc m) (map mirrored t)
              (spelled-mirror 32 10 m [] ∙ ap mirror (spells ∙ ap some (append-nil t)))
              (put_char_no_sync b'-' o);
      numeral = numeral;
    }

-- For every value of an `int8_t` or an `int16_t`, given as its bit pattern `p`: one that is not
-- negative is written as its decimal numeral. A negative one is not: behind the '-', `int` arithmetic
-- takes the digits of -p, and each digit d of p comes out as the character '0' - d, which is a digit
-- for d = 0 only.
pub write_signed_narrow :
    (p : ℕ)
    → (p < 2 ^ 7 → Writes [] 10 p 3 (write_signed_8_no_sync p))
      × (2 ^ 7 ≤ p → p < 2 ^ 8 → WritesMirrored p (write_signed_8_no_sync p))
      × (p < 2 ^ 15 → Writes [] 10 p 5 (write_signed_16_no_sync p))
      × (2 ^ 15 ≤ p → p < 2 ^ 16 → WritesMirrored p (write_signed_16_no_sync p))
unfolding write_signed_8_no_sync write_signed_16_no_sync
write_signed_narrow p = (
  λ h.
      let plain : ltb 127 p ≡ false = ground arith in
      Writes-same (λ o. rw plain refl) (write_unsigned_no_sync-Writes 8 p (inl refl) (omega arith)),
  λ h k.
      let below : ltb 127 p ≡ true = ground arith in
      negative_int p (write_signed_8_no_sync p) (omega arith) (omega arith) (λ o. rw below refl),
  λ h.
      let plain : ltb 32767 p ≡ false = ground arith in
      Writes-same (λ o. rw plain refl)
        (write_unsigned_no_sync-Writes 16 p (inr (inl refl)) (omega arith)),
  λ h k.
      let below : ltb 32767 p ≡ true = ground arith in
      negative_int p (write_signed_16_no_sync p) (omega arith) (omega arith) (λ o. rw below refl),
)
