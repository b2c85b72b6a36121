-- ===== src/Output/Numeral.antt =====
-- What the number printers of terminal/output.cpp promise: the shortest numeral of the value.
use bare_metal_programming.Prelude.{
  ℕ, suc, ◌+◌, ◌-◌, ◌*◌, ◌≤◌, ◌<◌, ◌≡◌, refl, arith, ap, ◌∙◌, leb, if◌then◌else◌, List, [], ◌∷◌,
  ◌++◌, length, get_or, ◌⊎◌,
}
use bare_metal_programming.Output.{Output, write_string_no_sync}

abbrev pub All {ℓ κ} : {A : Type ℓ} → (A → Type κ) → List A → Type κ
All P [] = Unit
All P (x ∷ xs) = P x × All P xs

-- '0' to '9' and 'A' to 'F'.
abbrev pub digit_value : ℕ → ℕ
digit_value c = if leb c b'9' then c - b'0' else c - b'A' + 10

abbrev pub IsDigit : ℕ → ℕ → Type 0
IsDigit base c = (b'0' ≤ c) × (b'9' < c → b'A' ≤ c) × (digit_value c < base)

-- The number that digits spell behind `n`.
unfoldable pub reading : ℕ → ℕ → List ℕ → ℕ
reading base n [] = n
reading base n (c ∷ text) = reading base (n * base + digit_value c) text

pub record IsNumeral (base value : ℕ) (text : List ℕ) : Type 0 where
  pub digits : All (IsDigit base) text
  pub reads : reading base 0 text ≡ value
  pub some_digit : 0 < length text
  pub shortest : get_or text 0 0 ≡ b'0' → text ≡ b'0' ∷ []

pub reading-append :
    (base n : ℕ) (s t : List ℕ) → reading base n (s ++ t) ≡ reading base (reading base n s) t
unfolding reading
reading-append base n [] t = refl
reading-append base n (c ∷ s) t = reading-append base (n * base + digit_value c) s t

pub All-append {ℓ κ} :
    {A : Type ℓ} (P : A → Type κ) (xs ys : List A) → All P xs → All P ys → All P (xs ++ ys)
All-append P [] ys hx hy = hy
All-append P (x ∷ xs) ys hx hy = (hx.0, All-append P xs ys hx.1 hy)

pub length-append_one {ℓ} :
    {A : Type ℓ} (xs : List A) (a : A) → length (xs ++ (a ∷ [])) ≡ suc (length xs)
length-append_one [] a = refl
length-append_one (x ∷ xs) a = ap suc (length-append_one xs a)

-- One more digit behind a numeral that is not 0.
pub IsNumeral-next :
    (base value digit total : ℕ) (text : List ℕ)
    → value * base + digit_value digit ≡ total
    → IsNumeral base value text
    → 0 < value
    → IsDigit base digit
    → IsNumeral base total (text ++ (digit ∷ []))
unfolding reading
IsNumeral-next base value digit total [] sum n p d = absurd (omega (arith, n.some_digit))
IsNumeral-next base value digit total (c ∷ text) sum n p d = record {
  digits = All-append (IsDigit base) (c ∷ text) (digit ∷ []) n.digits (d, tt);
  reads = rw (reading-append base 0 (c ∷ text) (digit ∷ []), n.reads) sum;
  some_digit = omega arith;
  shortest = λ e. absurd (zero_alone (n.shortest e));
}
  where
    zero_alone : c ∷ text ≡ b'0' ∷ [] → ⊥
    zero_alone e = grind (arith, ap (reading base 0) e, n.reads, p)

-- `write` writes the shortest numeral of `value`, of at most `size` digits, behind `front`.
pub record Writes (front : List ℕ) (base value size : ℕ) (write : Output → Output) : Type 0 where
  pub text : List ℕ
  pub written : (o : Output) → write o ≡ write_string_no_sync (front ++ text) o
  pub numeral : IsNumeral base value text
  pub fits : length text ≤ size

-- The widths of the integer types.
abbrev pub IsWidth : ℕ → Type 0
IsWidth w = (w ≡ 8) ⊎ (w ≡ 16) ⊎ (w ≡ 32) ⊎ (w ≡ 64)

-- A function with the same values writes the same.
pub Writes-same :
    {front : List ℕ} {base value size : ℕ} {write other : Output → Output}
    → ((o : Output) → other o ≡ write o)
    → Writes front base value size write
    → Writes front base value size other
Writes-same same h = record {
  text = h.text;
  written = λ o. same o ∙ h.written o;
  numeral = h.numeral;
  fits = h.fits;
}
