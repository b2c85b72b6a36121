-- ===== src/Pmm/View.antt =====
-- The bitmap read frame by frame, and the words that the cores load as stretches of frames.
use bare_metal_programming.Prelude.{
  ℕ, zero, suc, ◌+◌, ◌-◌, ◌*◌, ◌/◌, ◌%◌, ◌^◌, ◌<◌, ◌≡◌, refl, ◌∙◌, arith, test_bit, ltb,
  if◌then◌else◌, Bool, inl, inr, Bool-cases, test_bit-fields,
}
use native.Mathlib.Numerals.{towards_suc}
use bare_metal_programming.Pmm.Geometry.{Bitmap, load_8, load}

-- Frame `f` stands in bit `f % 8` of byte `f / 8`; a set bit means that it is used.
abbrev pub frame_used : Bitmap → ℕ → Bool
frame_used b f = test_bit (load_8 b (b.start + f / 8)) (f % 8)

abbrev pub AllBytes : Bitmap → Type 0
AllBytes b = (p : ℕ) → load_8 b p < 2 ^ 8

pub load_bit :
    (b : Bitmap) (n p i : ℕ)
    → AllBytes b
    → i < 8 * n
    → test_bit (load b p n) i ≡ test_bit (load_8 b (p + i / 8)) (i % 8)
unfolding load
load_bit b zero p i bytes h = absurd (omega arith)
load_bit b (suc n) p i bytes h =
    test_bit-fields 8 (load_8 b p) (load b (p + 1) n) i (bytes p)
    ∙ split λ q. load_bit b n (p + 1) (i - 8) bytes q
  where
    split :
        (i - 8 < 8 * n
          → test_bit (load b (p + 1) n) (i - 8)
            ≡ test_bit (load_8 b (p + 1 + (i - 8) / 8)) ((i - 8) % 8))
        → (if ltb i 8 then test_bit (load_8 b p) i else test_bit (load b (p + 1) n) (i - 8))
          ≡ test_bit (load_8 b (p + i / 8)) (i % 8)
    split rest = elim (Bool-cases (ltb i 8)) [
      | inl low ↦
          let bit : i % 8 ≡ i = ground arith in
          let at : p + i / 8 ≡ p = ground arith in rw (low, bit, at) refl
      | inr high ↦
          let bit : i % 8 ≡ (i - 8) % 8 = ground arith in
          let at : p + i / 8 ≡ p + 1 + (i - 8) / 8 = ground arith in
          rw (high, bit, at) (rest (ground arith))
    ]

-- Bit `i` of the word at the byte `o` of the bitmap is the state of frame `8 * o + i`.
pub load-frame_used :
    (b : Bitmap) (n o i : ℕ)
    → AllBytes b
    → i < 8 * n
    → test_bit (load b (b.start + o) n) i ≡ frame_used b (8 * o + i)
load-frame_used b n o i bytes h =
    let bit : (8 * o + i) % 8 ≡ i % 8 = omega arith in
    let at : b.start + (8 * o + i) / 8 ≡ b.start + o + i / 8 = omega arith in
    rw (bit, at) (load_bit b n (b.start + o) i bytes h)

pub load-lt : (b : Bitmap) (p n : ℕ) → AllBytes b → load b p n < 2 ^ (8 * n)
unfolding load
load-lt b p zero bytes = omega arith
load-lt b p (suc n) bytes =
    let exponent : 8 * suc n ≡ 8 + 8 * n = omega arith in
    rw (exponent, pow-add-eight (8 * n)) (omega (arith, bytes p, load-lt b (p + 1) n bytes))
  where
    pow-add-eight : (k : ℕ) → 2 ^ (8 + k) ≡ 2 ^ k * 2 ^ 8
    pow-add-eight k =
        let index : 8 + k ≡ k + 8 = omega arith in rw index (simp towards_suc (omega arith))
