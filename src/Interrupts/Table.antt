-- ===== src/Interrupts/Table.antt =====
-- Tables that are filled with one value and then changed at some places.
use bare_metal_programming.Prelude.{
  ℕ, Bool, true, false, zero, suc, ◌≤◌, ◌≡◌, refl, arith, ltb, ◌==◌, inl, inr, Bool-cases,
  if◌then◌else◌, List, [], ◌∷◌, get_or, set, replicate, length, get_or-set_self, get_or-set_ne,
}

pub if_cases {ℓ ℓ'} :
    {A : Type ℓ} (P : A → Type ℓ') (b : Bool) (x y : A)
    → (b ≡ true → P x)
    → (b ≡ false → P y)
    → P (if b then x else y)
if_cases P true x y l r = l refl
if_cases P false x y l r = r refl

module _ {ℓ} {A : Type ℓ} where
  pub get_or-replicate : (n : ℕ) (a : A) (i : ℕ) → get_or (replicate n a) i a ≡ a
  get_or-replicate zero a i = refl
  get_or-replicate (suc n) a zero = refl
  get_or-replicate (suc n) a (suc i) = get_or-replicate n a i

  get_or-set_past : (xs : List A) (i : ℕ) (v d : A) → length xs ≤ i → get_or (set xs i v) i d ≡ d
  get_or-set_past [] i v d h = refl
  get_or-set_past (x ∷ xs) zero v d h = absurd (omega arith)
  get_or-set_past (x ∷ xs) (suc i) v d h = get_or-set_past xs i v d (omega arith)

  pub get_or-set :
      (xs : List A) (i : ℕ) (v : A) (j : ℕ) (d : A)
      → get_or (set xs i v) j d
        ≡ (if j == i then (if ltb i (length xs) then v else d) else get_or xs j d)
  get_or-set xs i v j d = elim (Bool-cases (j == i)) [
    | inl here ↦
        let same : j ≡ i = ground arith in
        rw (here, same)
          (elim (Bool-cases (ltb i (length xs))) [
            | inl within ↦ rw within (get_or-set_self xs i v d (ground (arith, within)))
            | inr past ↦ rw past (get_or-set_past xs i v d (ground (arith, past)))
          ])
    | inr away ↦ rw away (get_or-set_ne xs i j v d (λ e. absurd (ground (arith, e, away))))
  ]
