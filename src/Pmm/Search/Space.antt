-- ===== src/Pmm/Search/Space.antt =====
-- What `array_of_shifts::space` computes: a bit survives exactly when `frames` bits from it are set.
use bare_metal_programming.Prelude.{
  ℕ, zero, suc, ◌+◌, ◌-◌, ◌≤◌, ◌<◌, ◌≡◌, refl, sym, arith, bit_and, test_bit, ◌>>>◌, leb, ◌==◌,
  Bool, true, ◌&&◌, ◌||◌, List, [], ◌∷◌, inl, inr, Bool-cases, test_bit-bit_and, test_bit-shr, ltb,
}
use bare_metal_programming.Tools.Builtin.{highest_of_2, leading_zeros, count_leading}
use bare_metal_programming.Pmm.Search.{
  space, array_of_shifts, steps_from, compute_step, Width, byte, half_word, word, bits_of,
  array_size_of,
}

-- The `n` bits of `x` from bit `i` on are set.
abbrev pub Window : ℕ → ℕ → ℕ → Type 0
Window x i n = (j : ℕ) → j < n → test_bit x (i + j) ≡ true

-- Each set bit of `x'` stands for `n` set bits of `x`.
abbrev pub Represents : ℕ → ℕ → ℕ → Type 0
Represents x' x n =
    (i : ℕ) → (test_bit x' i ≡ true → Window x i n) × (Window x i n → test_bit x' i ≡ true)

-- A step never leaps over more bits than a set bit stands for, and the steps add up.
covers : List ℕ → ℕ → ℕ → Bool
covers [] n frames = n == frames
covers (s ∷ steps) n frames = leb s n && covers steps (n + s) frames

Window-add : (x i n s : ℕ) → s ≤ n → Window x i n → Window x (s + i) n → Window x i (n + s)
Window-add x i n s h p q j r = elim (Bool-cases (ltb j n)) [
  | inl below ↦ p j (ground arith)
  | inr above ↦
      let index : i + j ≡ s + i + (j - s) = ground arith in rw index (q (j - s) (ground arith))
]

Represents-shift :
    (x' x n s : ℕ) → s ≤ n → Represents x' x n → Represents (bit_and x' (x' >>> s)) x (n + s)
Represents-shift x' x n s h r i = (to, from)
  where
    both : test_bit (bit_and x' (x' >>> s)) i ≡ (test_bit x' i && test_bit x' (s + i))
    both = rw (test_bit-bit_and i x' (x' >>> s), test_bit-shr s x' i) refl

    to : test_bit (bit_and x' (x' >>> s)) i ≡ true → Window x i (n + s)
    to e =
        Window-add x i n s h ((r i).0 (ground (arith, both))) ((r (s + i)).0 (ground (arith, both)))

    from : Window x i (n + s) → test_bit (bit_and x' (x' >>> s)) i ≡ true
    from w =
        let low = (r i).1 (λ j p. w j (omega arith)) in
        let high = (r (s + i)).1 λ j p.
          let index : s + i + j ≡ i + (s + j) = omega arith in rw index (w (s + j) (omega arith)) in
        ground (arith, both, low, high)

space-Represents :
    (steps : List ℕ) (n frames x' x : ℕ)
    → covers steps n frames ≡ true
    → Represents x' x n
    → Represents (space steps x') x frames
unfolding space covers
space-Represents [] n frames x' x c r = let e : n ≡ frames = ground arith in rw (sym e) r
space-Represents (s ∷ steps) n frames x' x c r =
    space-Represents steps (n + s) frames (bit_and x' (x' >>> s)) x (ground arith)
      (Represents-shift x' x n s (ground arith) r)

Represents-self : (x : ℕ) → Represents x x 1
Represents-self x i = (to, from)
  where
    to : test_bit x i ≡ true → Window x i 1
    to e j h = let index : i + j ≡ i = omega arith in rw index e

    from : Window x i 1 → test_bit x i ≡ true
    from w = let index : i ≡ i + 0 = omega arith in rw index (w 0 (omega arith))

-- The steps that the constructor computes are right for every size of run inside a word: a table.
abbrev good_steps : Width → ℕ → Bool
good_steps w frames = frames == 0 || covers (array_of_shifts (array_size_of w) frames) 1 frames

tabulated : Width → ℕ → Bool
tabulated w zero = true
tabulated w (suc size) = tabulated w size && good_steps w size

tabulated-good_steps :
    (w : Width) (frames size : ℕ)
    → frames < size
    → tabulated w size ≡ true
    → good_steps w frames ≡ true
unfolding tabulated
tabulated-good_steps w frames zero below table = absurd (omega arith)
tabulated-good_steps w frames (suc size) below table = elim (Bool-cases (frames == size)) [
  | inl last ↦ let same : frames ≡ size = ground arith in rw same (ground (arith, table))
  | inr earlier ↦ tabulated-good_steps w frames size (ground arith) (ground (arith, table))
]

table : (w : Width) → tabulated w (bits_of w) ≡ true
unfolding tabulated covers array_of_shifts steps_from compute_step highest_of_2 leading_zeros
    count_leading
table byte = refl
table half_word = refl
table word = refl

steps_cover :
    (w : Width) (frames : ℕ)
    → 0 < frames
    → frames < bits_of w
    → covers (array_of_shifts (array_size_of w) frames) 1 frames ≡ true
steps_cover w frames p h = ground (arith, tabulated-good_steps w frames (bits_of w) h (table w))

-- For a request of at least one frame and of fewer frames than the word has bits, `space` keeps a
-- bit exactly when that many bits from it on are set.
pub space_lem :
    (w : Width) (frames inv : ℕ)
    → 0 < frames
    → frames < bits_of w
    → Represents (space (array_of_shifts (array_size_of w) frames) inv) inv frames
space_lem w frames inv p h =
    space-Represents (array_of_shifts (array_size_of w) frames) 1 frames inv inv
      (steps_cover w frames p h) (Represents-self inv)
