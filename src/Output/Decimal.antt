-- ===== src/Output/Decimal.antt =====
-- terminal/output.h, lines 46 to 66: the loop over the digits buffer writes the decimal numeral of
-- an unsigned value, and stays inside the buffer.
use bare_metal_programming.Prelude.{
  ℕ, zero, suc, ◌+◌, ◌-◌, ◌*◌, ◌/◌, ◌%◌, ◌^◌, ◌≤◌, ◌<◌, ◌≡◌, inl, inr, refl, arith, ap, sym, ◌∙◌,
  ◌==◌, Bool, true, false, Bool-cases, if◌then◌else◌, List, [], ◌∷◌, ◌++◌, length, get_or, set,
  replicate, length-set, get_or-set_self, get_or-set_ne, length-replicate, Option, none, some,
}
use mathlib.Core.Path.{subst}
use mathlib.Core.List.{append_assoc, append-nil}
use native.Mathlib.Nat.{pow-suc}
use bare_metal_programming.Output.{Output, put_char_no_sync, write_string_no_sync}
use bare_metal_programming.Output.Digits.{
  size_of_digits, Integral, unsigned, store_digits, put_digits, write_unsigned_no_sync,
}
use bare_metal_programming.Output.Numeral.{
  IsDigit, IsNumeral, IsNumeral-next, length-append_one, reading, digit_value, Writes, IsWidth,
}

-- `count` characters of the buffer from `current` on.
slice : List ℕ → ℕ → ℕ → List ℕ
slice digits current zero = []
slice digits current (suc count) = get_or digits current 0 ∷ slice digits (suc current) count

put_digits-slice :
    (digits : List ℕ) (current count : ℕ) (o : Output)
    → put_digits digits current count o ≡ write_string_no_sync (slice digits current count) o
unfolding put_digits write_string_no_sync slice
put_digits-slice digits current zero o = refl
put_digits-slice digits current (suc count) o =
    put_digits-slice digits (suc current) count (put_char_no_sync (get_or digits current 0) o)

slice-set :
    (digits : List ℕ) (i current count v : ℕ)
    → i < current
    → slice (set digits i v) current count ≡ slice digits current count
unfolding slice
slice-set digits i current zero v h = refl
slice-set digits i current (suc count) v h =
    rw
      (
        get_or-set_ne digits i current v 0 (λ e. absurd (omega (arith, e))),
        slice-set digits i (suc current) count v (omega arith),
      )
      refl

-- The slice to the end of the buffer once a character is stored in front of it.
slice_stored :
    (digits : List ℕ) (current v : ℕ)
    → current < length digits
    → slice (set digits current v) current (length digits - current)
      ≡ v ∷ slice digits (suc current) (length digits - suc current)
unfolding slice
slice_stored digits current v h =
    let e : length digits - current ≡ suc (length digits - suc current) = omega arith in
    rw
      (
        e,
        get_or-set_self digits current v 0 h,
        slice-set digits current (suc current) (length digits - suc current) v (omega arith),
      )
      refl

module _ {T : Type 0} (I : Integral T) where
  -- The text that the loop stores before `text`, with room for `n` more characters.
  unfoldable pub spelled : ℕ → T → List ℕ → Option (List ℕ)
  spelled zero value text = none
  spelled (suc n) value text =
      let rest = spelled n (I.tenth value) (I.digit value ∷ text) in
      if I.is_zero (I.tenth value) then some (I.digit value ∷ text) else rest

  abbrev text_of : ℕ → Option (List ℕ × ℕ) → Option (List ℕ)
  text_of size none = none
  text_of size (some p) = some (slice p.0 p.1 (size - p.1))

  text_of-if :
      (b : Bool) (size : ℕ) (p : List ℕ × ℕ) (r : Option (List ℕ × ℕ)) (t : List ℕ)
      (u : Option (List ℕ))
      → slice p.0 p.1 (size - p.1) ≡ t
      → text_of size r ≡ u
      → text_of size (if b then some p else r) ≡ (if b then some t else u)
  text_of-if true size p r t u e f = ap some e
  text_of-if false size p r t u e f = f

  store_digits-spelled :
      (value : T) (digits : List ℕ) (current : ℕ)
      → current ≤ length digits
      → text_of (length digits) (store_digits I value digits current)
        ≡ spelled current value (slice digits current (length digits - current))
  unfolding store_digits spelled
  store_digits-spelled value digits zero h = refl
  store_digits-spelled value digits (suc current) h =
      text_of-if (I.is_zero (I.tenth value)) (length digits)
        (set digits current (I.digit value), current)
        (store_digits I (I.tenth value) (set digits current (I.digit value)) current)
        (I.digit value ∷ slice digits (suc current) (length digits - suc current))
        (spelled current (I.tenth value)
          (I.digit value ∷ slice digits (suc current) (length digits - suc current)))
        (slice_stored digits current (I.digit value) h)
        (rw
          (
            ← slice_stored digits current (I.digit value) h,
            ← length-set digits current (I.digit value),
          )
          (store_digits-spelled (I.tenth value) (set digits current (I.digit value)) current
            (omega (arith, length-set digits current (I.digit value)))))

  written_text :
      (size : ℕ) (r : Option (List ℕ × ℕ)) (text : List ℕ) (o : Output)
      → text_of size r ≡ some text
      → elim r [ none ↦ o | some p ↦ put_digits p.0 p.1 (size - p.1) o ]
        ≡ write_string_no_sync text o
  written_text size none text o e = cc e
  written_text size (some p) text o e = cc (e, put_digits-slice p.0 p.1 (size - p.1) o)

  from_full :
      (value : T) (full : List ℕ) (size : ℕ)
      → length full ≡ size
      → text_of size (store_digits I value full size) ≡ spelled size value []
  unfolding slice
  from_full value full size e =
      let none_left : length full - length full ≡ 0 = omega arith in
      rw (← e) (store_digits-spelled value full (length full) (omega arith) ∙ rw none_left refl)

  -- A text that `spelled` gives is the one that the template writes.
  pub write_unsigned-spelled :
      (value : T) (text : List ℕ)
      → spelled I.max_digits value [] ≡ some text
      → (o : Output) → write_unsigned_no_sync I value o ≡ write_string_no_sync text o
  unfolding write_unsigned_no_sync
  write_unsigned-spelled value text e o =
      written_text I.max_digits (store_digits I value (replicate I.max_digits 0) I.max_digits) text
        o
        (from_full value (replicate I.max_digits 0) I.max_digits
            (length-replicate {A = ℕ} I.max_digits 0)
          ∙ e)

last_digit-IsDigit : (n : ℕ) → IsDigit 10 ((unsigned 8).digit n)
last_digit-IsDigit n = ground arith

digit_value-digit : (n : ℕ) → digit_value ((unsigned 8).digit n) ≡ n % 10
digit_value-digit n = ground arith

more_room : (n value : ℕ) → value < 10 ^ suc n → 0 < value / 10 → 0 < n
more_room zero value h p = absurd (omega arith)
more_room (suc n) value h p = omega arith

-- Up to 10 ^ n, the n places are enough.
pub spelled-IsNumeral :
    (w n value : ℕ) (text : List ℕ)
    → 0 < n
    → value < 10 ^ n
    → (t : List ℕ) × (spelled (unsigned w) n value text ≡ some (t ++ text))
      × IsNumeral 10 value t
      × (length t ≤ n)
unfolding spelled reading
spelled-IsNumeral w zero value text p h = absurd (omega arith)
spelled-IsNumeral w (suc n) value text p h = elim (Bool-cases (value / 10 == 0)) [
  | inl last ↦ rw last (
    digit ∷ [],
    refl,
    record {
      digits = (last_digit-IsDigit value, tt);
      reads = ground (arith, digit_value-digit value);
      some_digit = omega arith;
      shortest = λ e. ap (λ c. c ∷ []) e;
    },
    omega arith,
  )
  | inr more ↦
      let left : 0 < value / 10 = ground arith in
      let (t, e, numeral, short) =
        spelled-IsNumeral w n (value / 10) (digit ∷ text) (more_room n value h left)
          (omega (arith, pow-suc 10 n)) in
      let sum : value / 10 * 10 + digit_value digit ≡ value =
        omega (arith, digit_value-digit value) in
      rw more (
        t ++ (digit ∷ []),
        e ∙ ap some (sym (append_assoc t (digit ∷ []) text)),
        IsNumeral-next 10 (value / 10) digit value t sum numeral left (last_digit-IsDigit value),
        omega (arith, length-append_one t digit),
      )
]
  where
    digit : ℕ
    digit = (unsigned 8).digit value

size_enough :
    (w value : ℕ)
    → IsWidth w
    → value < 2 ^ w
    → (0 < size_of_digits w) × (value < 10 ^ size_of_digits w)
size_enough w value width = elim width [
  | inl e ↦ subst Enough (sym e) (λ b. omega arith)
  | inr (inl e) ↦ subst Enough (sym e) (λ b. omega arith)
  | inr (inr (inl e)) ↦ subst Enough (sym e) (λ b. omega arith)
  | inr (inr (inr e)) ↦ subst Enough (sym e) (λ b. omega arith)
]
  where
    Enough : ℕ → Type 0
    Enough x = value < 2 ^ x → (0 < size_of_digits x) × (value < 10 ^ size_of_digits x)

-- For every value of an unsigned type, the template stores no digit in front of its buffer of 3, 5,
-- 10 or 20 characters, and writes the decimal numeral of the value: digits that read as the value,
-- at least one of them, and no zero in front.
pub write_unsigned_no_sync-Writes :
    (w value : ℕ)
    → IsWidth w
    → value < 2 ^ w
    → Writes [] 10 value (size_of_digits w) (write_unsigned_no_sync (unsigned w) value)
write_unsigned_no_sync-Writes w value width h =
    let (room, below) = size_enough w value width h in
    let (t, e, numeral, short) = spelled-IsNumeral w (size_of_digits w) value [] room below in
    record {
      text = t;
      written = write_unsigned-spelled (unsigned w) value t (e ∙ ap some (append-nil t));
      numeral = numeral;
      fits = short;
    }
