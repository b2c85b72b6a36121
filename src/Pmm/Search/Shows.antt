-- ===== src/Pmm/Search/Shows.antt =====
-- What a word shows of the frames from a place on, and the runs inside it.
use bare_metal_programming.Prelude.{
  ℕ, zero, suc, ◌+◌, ◌-◌, ◌*◌, ◌^◌, ◌≤◌, ◌<◌, ◌≡◌, ap, sym, ◌∙◌, arith, test_bit, ltb, leb, Bool,
  false, not, ◌⊎◌, inl, inr, Bool-cases, wrap_sub, complement, test_bit-complement, test_bit_of_lt,
  List, [], ◌∷◌, ◌>>>◌, bit_and, bit_and-le,
}
use bare_metal_programming.Pmm.Geometry.{Bitmap, run_found}
use bare_metal_programming.Pmm.Search.{
  Verdict, found, onward, Width, byte, half_word, word, bits_of, space,
}
use bare_metal_programming.Pmm.Search.Space.{Window}
use bare_metal_programming.Pmm.Search.Carry.{Blocked, Carry, IsRun}

pub bits_le_32 : (w : Width) → (8 ≤ bits_of w) × (bits_of w ≤ 32)
bits_le_32 byte = omega arith
bits_le_32 half_word = omega arith
bits_le_32 word = omega arith

pub run_found_lem :
    (b : Bitmap) (o l : ℕ) → l ≤ 8 * o → 8 * o < 2 ^ 31 → run_found b (b.start + o) l ≡ 8 * o - l
unfolding run_found
run_found_lem b o l h small = omega arith

-- The negative length by which a run inside a word is reported.
pub run_found_inside :
    (b : Bitmap) (o t : ℕ)
    → t < 32
    → 8 * o + 32 < 2 ^ 31
    → run_found b (b.start + o) (wrap_sub 32 0 t) ≡ 8 * o + t
unfolding run_found
run_found_inside b o t h small = omega arith

-- Either all `n` bits are set, or a clear one is at hand.
pub Window-or : (x i n : ℕ) → Window x i n ⊎ ((j : ℕ) × (j < n) × (test_bit x (i + j) ≡ false))
Window-or x i zero = inl (λ j h. absurd (omega arith))
Window-or x i (suc n) = elim (Window-or x i n) [
  | inr (j, h, e) ↦ inr (j, omega arith, e)
  | inl all ↦ elim (Bool-cases (test_bit x (i + n))) [
    | inr clear ↦ inr (n, omega arith, clear)
    | inl set ↦ inl λ j h. elim (Bool-cases (ltb j n)) [
      | inl below ↦ all j (ground arith)
      | inr last ↦ let same : j ≡ n = ground arith in rw same set
    ]
  ]
]

pub space-le : (w : ℕ) (steps : List ℕ) (x : ℕ) → x < 2 ^ w → space steps x ≤ x
unfolding space
space-le w [] x h = omega arith
space-le w (s ∷ steps) x h = omega (
  arith,
  bit_and-le w x (x >>> s) h,
  space-le w steps (bit_and x (x >>> s)) (omega (arith, bit_and-le w x (x >>> s) h)),
)

module _ (used : ℕ → Bool) (frames lo : ℕ) (pos : 0 < frames) where
  -- What a turn must have established when it leaves the frames before `hi` behind.
  abbrev pub Progress : ℕ → Verdict → Type 0
  Progress hi (found at) = IsRun used frames lo hi at
  Progress hi (onward l) = Carry used frames lo hi l

  -- The word `v` of `w` bits shows the frames from `p` on.
  pub record Shows (w p v : ℕ) : Type 0 where
    pub fits : v < 2 ^ w
    pub bit : (i : ℕ) → i < w → test_bit v i ≡ used (p + i)

  module _ {w p v : ℕ} (s : Shows w p v) where
    pub shown : (f : ℕ) → p ≤ f → f < p + w → used f ≡ test_bit v (f - p)
    shown f h k =
        let index : p + (f - p) ≡ f = omega arith in rw index at (sym (s.bit (f - p) (omega arith)))

    pub inverted_bit : (j : ℕ) → j < w → test_bit (complement w v) j ≡ not (used (p + j))
    inverted_bit j h = test_bit-complement w v j s.fits h ∙ ap not (s.bit j h)

    pub inverted_above : (j : ℕ) → w ≤ j → test_bit (complement w v) j ≡ false
    inverted_above j h = test_bit_of_lt w (complement w v) j (omega (arith, s.fits)) h

    -- A window of the inverted word is a free run that ends inside the word.
    pub Window-IsRun :
        {l : ℕ} (c : Carry used frames lo p l) (i : ℕ)
        → Window (complement w v) i frames
        → IsRun used frames lo (p + w) (p + i)
    Window-IsRun c i win = record {
      from_lo = omega (arith, c.room);
      to_hi = omega (arith, ends);
      all_free = λ f h k.
          let index : i + (f - (p + i)) ≡ f - p = omega arith in
          let back : p + (f - p) ≡ f = omega arith in
          let bit = win (f - (p + i)) (omega arith) in
          ground (arith, rw index at bit, rw back at (inverted_bit (f - p) (omega (arith, ends))));
    }
      where
        ends : i + frames ≤ w
        ends = elim (Bool-cases (leb (i + frames) w)) [
          | inl e ↦ ground arith
          | inr e ↦
              let index : i + (frames - 1) ≡ i + frames - 1 = omega arith in
              ground (
                arith,
                rw index at (win (frames - 1) (omega arith)),
                inverted_above (i + frames - 1) (ground arith),
              )
        ]

    -- Where no window starts, every candidate inside the word is blocked.
    pub no-Window-Blocked :
        ((i : ℕ) → i + frames ≤ w → ¬ Window (complement w v) i frames)
        → (f : ℕ) → p ≤ f
        → f + frames ≤ p + w
        → Blocked used f frames
    no-Window-Blocked no_window f h k = elim (Window-or (complement w v) (f - p) frames) [
      | inl win ↦ absurd (no_window (f - p) (omega arith) win)
      | inr (j, below, clear) ↦
          let index : p + (f - p + j) ≡ f + j = omega arith in
          (
            f + j,
            omega arith,
            omega arith,
            ground (arith, clear, rw index at (inverted_bit (f - p + j) (omega arith))),
          )
    ]
