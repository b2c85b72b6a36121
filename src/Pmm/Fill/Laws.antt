-- ===== src/Pmm/Fill/Laws.antt =====
-- What a fill has done to the bitmap.
use bare_metal_programming.Prelude.{
  ℕ, zero, suc, ◌+◌, ◌-◌, ◌*◌, ◌/◌, ◌^◌, ◌≤◌, ◌<◌, ◌≡◌, ◌⊎◌, inl, inr, refl, ◌∙◌, arith, cast,
  ◌>>>◌, ltb, leb, Bool-cases, length, length-set, get_or-set_self, get_or-set_ne, max,
}
use native.Mathlib.Nat.{one-le-pow}
use native.Mathlib.Numerals.{towards_suc}
use bare_metal_programming.Pmm.Geometry.{Bitmap, load_8, store_8}
use bare_metal_programming.Pmm.Sweep.Pointers.{Moves}
use bare_metal_programming.Pmm.Fill.{
  SetBits, all_zeros, all_ones, fill_value, store, set_loop, set_units, then_set,
}

abbrev pub byte_of : SetBits → ℕ
byte_of all_zeros = 0
byte_of all_ones = 0xFF

-- The bytes from `lo` up to `hi` are the fill byte; nothing else has changed.
pub record Filled (s : SetBits) (lo hi : ℕ) (b b' : Bitmap) : Type 0 where
  pub same_start : b'.start ≡ b.start
  pub same_limit : b'.limit ≡ b.limit
  pub same_hint : b'.search_begin ≡ b.search_begin
  pub same_length : length b'.cells ≡ length b.cells
  pub inside : (p : ℕ) → lo ≤ p → p < hi → load_8 b' p ≡ byte_of s
  pub outside : (p : ℕ) → b.start ≤ p → (p < lo) ⊎ (hi ≤ p) → load_8 b' p ≡ load_8 b p

pub Filled-none : (s : SetBits) (p : ℕ) (b : Bitmap) → Filled s p p b b
Filled-none s p b = record {
  same_start = refl;
  same_limit = refl;
  same_hint = refl;
  same_length = refl;
  inside = λ q h k. absurd (omega arith);
  outside = λ q h k. refl;
}

pub Filled-trans :
    (s : SetBits) (x y z : ℕ) (b b' b'' : Bitmap)
    → b.start ≤ x
    → x ≤ y
    → y ≤ z
    → Filled s x y b b'
    → Filled s y z b' b''
    → Filled s x z b b''
Filled-trans s x y z b b' b'' a h k f g = record {
  same_start = g.same_start ∙ f.same_start;
  same_limit = g.same_limit ∙ f.same_limit;
  same_hint = g.same_hint ∙ f.same_hint;
  same_length = g.same_length ∙ f.same_length;
  inside = λ p q r. elim (Bool-cases (ltb p y)) [
    | inl first ↦
        g.outside p (omega (arith, f.same_start)) (inl (ground arith)) ∙ f.inside p q (ground arith)
    | inr second ↦ g.inside p (ground arith) r
  ];
  outside = λ p q o.
      g.outside p (omega (arith, f.same_start)) (omega arith) ∙ f.outside p q (omega arith);
}

store_8-Filled :
    (s : SetBits) (b : Bitmap) (p : ℕ)
    → b.start ≤ p
    → p < b.start + length b.cells
    → Filled s p (p + 1) b (store_8 b p (byte_of s))
store_8-Filled s b p above below = record {
  same_start = refl;
  same_limit = refl;
  same_hint = refl;
  same_length = length-set b.cells (p - b.start) (byte_of s);
  inside = λ q h k.
      let same : q ≡ p = omega arith in
      rw same (get_or-set_self b.cells (p - b.start) (byte_of s) 0 (omega arith));
  outside = λ q h k. get_or-set_ne b.cells (p - b.start) (q - b.start) (byte_of s) 0 (omega arith);
}

-- The fill value is the fill byte, over and over.
fill_value-suc :
    (s : SetBits) (n : ℕ)
    → (cast 8 (fill_value s (suc n)) ≡ byte_of s) × (fill_value s (suc n) >>> 8 ≡ fill_value s n)
unfolding fill_value
fill_value-suc all_zeros n = (refl, refl)
fill_value-suc all_ones n =
    let index : 8 * suc n ≡ 8 * n + 8 = omega arith in
    let power : 2 ^ (8 * n + 8) ≡ 256 * 2 ^ (8 * n) = simp towards_suc (omega arith) in
    rw (index, power)
      (
        omega (arith, one-le-pow (8 * n) 2 (omega arith)),
        omega (arith, one-le-pow (8 * n) 2 (omega arith)),
      )

pub store-Filled :
    (s : SetBits) (n : ℕ) (b : Bitmap) (p : ℕ)
    → b.start ≤ p
    → p + n ≤ b.start + length b.cells
    → Filled s p (p + n) b (store n b p (fill_value s n))
unfolding store
store-Filled s zero b p above below =
    let same : p + 0 ≡ p = omega arith in rw same (Filled-none s p b)
store-Filled s (suc n) b p above below =
    rw ((fill_value-suc s n).0, (fill_value-suc s n).1)
      (let index : p + suc n ≡ p + 1 + n = omega arith in
        rw index (
          Filled-trans s p (p + 1) (p + 1 + n) b (store_8 b p (byte_of s)) _ above (omega arith)
            (omega arith) (store_8-Filled s b p above (omega arith))
            (store-Filled s n (store_8 b p (byte_of s)) (p + 1) (omega arith)
              (omega (arith, length-set b.cells (p - b.start) (byte_of s))))))

-- A fill in progress: the bytes from `lo` up to the cursor `p` are done.
pub record Filling (s : SetBits) (lo end_ : ℕ) (b : Bitmap) (p : ℕ) (r : Bitmap × ℕ) : Type 0 where
  pub at_p : r.1 ≡ p
  pub from_lo : lo ≤ p
  pub to_end : p ≤ end_
  pub filled : Filled s lo p b r.0

set_loop_stops :
    (s : SetBits) (n fuel : ℕ) (c : Bitmap) (current to : ℕ)
    → to ≤ current
    → set_loop s n fuel c current to ≡ (c, current)
unfolding set_loop
set_loop_stops s n zero c current to h = refl
set_loop_stops s n (suc fuel) c current to h = ground arith

module _ (s : SetBits) (lo end_ : ℕ) (b : Bitmap) (above : b.start ≤ lo)
    (below : end_ ≤ b.start + length b.cells) where
  set_loop_turn :
      (n fuel : ℕ) (c : Bitmap) (current to : ℕ)
      → current < to
      → set_loop s n (suc fuel) c current to
        ≡ set_loop s n fuel (store n c current (fill_value s n)) (current + n) to
  unfolding set_loop
  set_loop_turn n fuel c current to h = ground arith

  set_loop-Filling :
      (n k fuel : ℕ) (c : Bitmap) (current to : ℕ)
      → 0 < n
      → k ≤ fuel
      → to ≡ current + k * n
      → to ≤ end_
      → Filling s lo end_ b current (c, current)
      → Filling s lo end_ b to (set_loop s n fuel c current to)
  set_loop-Filling n zero fuel c current to pos h units within f =
      let there : to ≡ current = omega arith in
      rw (set_loop_stops s n fuel c current to (omega arith), there) f
  set_loop-Filling n (suc k) zero c current to pos h units within f = absurd (omega arith)
  set_loop-Filling n (suc k) (suc fuel) c current to pos h units within f =
      rw (set_loop_turn n fuel c current to (omega arith)) (
        set_loop-Filling n k fuel (store n c current (fill_value s n)) (current + n) to pos
          (omega arith) (omega arith) within
          (record {
            at_p = refl;
            from_lo = omega (arith, f.from_lo);
            to_end = omega arith;
            filled =
                Filled-trans s lo current (current + n) b c _ above f.from_lo (omega arith) f.filled
                  (store-Filled s n c current (omega (arith, f.from_lo, f.filled.same_start))
                    (omega (arith, f.filled.same_start, f.filled.same_length)));
          }))

  rounds : (k n : ℕ) → 0 < n → k ≤ k * n
  rounds k n h = grind arith

  -- A fill stage of whole units.
  pub set_units-Filling :
      (n p t : ℕ) (r : Bitmap × ℕ)
      → 0 < n
      → t ≤ end_
      → Moves n p t
      → Filling s lo end_ b p r
      → Filling s lo end_ b (max p t) (set_units s n r.0 r.1 t)
  unfolding set_units
  set_units-Filling n p t r pos within moves f = elim (Bool-cases (leb t p)) [
    | inl behind ↦
        let stays : max p t ≡ p = ground arith in
        rw (f.at_p, set_loop_stops s n (t - p) r.0 p t (ground arith), stays)
          (record { at_p = refl; from_lo = f.from_lo; to_end = f.to_end; filled = f.filled })
    | inr ahead ↦
        let goes : max p t ≡ t = ground arith in
        rw (f.at_p, goes)
          (set_loop-Filling n ((t - p) / n) (t - p) r.0 p t pos (rounds_below (ground arith))
            (whole (ground arith)) within
            (record { at_p = refl; from_lo = f.from_lo; to_end = f.to_end; filled = f.filled }))
  ]
    where
      whole : p < t → t ≡ p + (t - p) / n * n
      whole h = omega (arith, moves)

      rounds_below : p < t → (t - p) / n ≤ t - p
      rounds_below h = omega (arith, whole h, rounds ((t - p) / n) n pos)

  pub then_set-Filling :
      (n p t : ℕ) (r : Bitmap × ℕ) (to : ℕ → ℕ)
      → 0 < n
      → to p ≡ t
      → t ≤ end_
      → Moves n p t
      → Filling s lo end_ b p r
      → Filling s lo end_ b (max p t) (then_set s n r to)
  unfolding then_set
  then_set-Filling n p t r to pos is_t within moves f =
      let target : to r.1 ≡ t = rw f.at_p is_t in
      rw target (set_units-Filling n p t r pos within moves f)
