-- ===== src/Pmm/Ranges/Check.antt =====
-- What `is_frame_range_used` tells (kernel/pmm.cpp, lines 978 to 999).
use bare_metal_programming.Prelude.{
  ℕ, ◌+◌, ◌-◌, ◌*◌, ◌/◌, ◌%◌, ◌^◌, ◌≤◌, ◌<◌, ◌≡◌, ◌≢◌, ◌↔◌, inl, inr, refl, ◌∙◌, sym, ap, arith,
  ltb, ◌==◌, if◌then◌else◌, Bool, true, false, Bool-cases, cast, wrap_sub, Option, some, none,
  bit_and, ◌<<<◌, ◌>>>◌, test_bit, test_bit-mod, test_bit-shl, test_bit-shr, test_bit-ones,
  test_bit-bit_and, test_bit_ext, bit_and-le,
}
use mathlib.Core.Path.{subst}
use bare_metal_programming.Pmm.Geometry.{Bitmap, load_8, bit_position, bitmap_index}
use bare_metal_programming.Pmm.View.{frame_used, AllBytes}
use bare_metal_programming.Pmm.Ranges.{front_mask, end_mask, is_frame_range_used}
use bare_metal_programming.Pmm.Ranges.FreeByte.{FreeByte, at_byte, nowhere, find_free_byte-FreeByte}
use bare_metal_programming.Pmm.Ranges.Masks.{
  bit_position_lem, in_range, test_bit-front_mask, test_bit-end_mask,
}
use bare_metal_programming.Pmm.Ranges.Change.{IsRange}

-- All frames of the range are used.
abbrev pub AllUsed : Bitmap → ℕ → ℕ → Type 0
AllUsed b lo hi = (f : ℕ) → lo ≤ f → f < hi → frame_used b f ≡ true

AllUsed-add : (b : Bitmap) (lo mid hi : ℕ) → AllUsed b lo mid → AllUsed b mid hi → AllUsed b lo hi
AllUsed-add b lo mid hi low high f p q = elim (Bool-cases (ltb f mid)) [
  | inl before ↦ low f p (ground arith)
  | inr after ↦ high f (ground arith) q
]

module _ (b : Bitmap) (bytes : AllBytes b) where
  -- A byte under a mask whose bits are the frames of the range.
  mask_test :
      (lo hi i mask : ℕ)
      → 8 * i ≤ lo
      → hi ≤ 8 * i + 8
      → mask < 2 ^ 8
      → ((j : ℕ) → j < 8 → test_bit mask j ≡ in_range lo hi (8 * i + j))
      → ((bit_and (load_8 b (b.start + i)) mask == mask) ≡ true) ↔ AllUsed b lo hi
  mask_test lo hi i mask from to small bits = (used, covered)
    where
      value : ℕ
      value = load_8 b (b.start + i)

      used : (bit_and value mask == mask) ≡ true → AllUsed b lo hi
      used e f p q =
          let byte : f / 8 ≡ i = omega arith in
          let bit : 8 * i + f % 8 ≡ f = omega arith in
          let same : bit_and value mask ≡ mask = ground arith in
          let both =
            sym (test_bit-bit_and (f % 8) value mask) ∙ ap (λ x. test_bit x (f % 8)) same in
          let set = bits (f % 8) (omega arith) in rw byte (ground (arith, both, set, bit))

      value_bit : (j : ℕ) → j < 8 → test_bit value j ≡ frame_used b (8 * i + j)
      value_bit j h =
          let byte : b.start + (8 * i + j) / 8 ≡ b.start + i = omega arith in
          let bit : (8 * i + j) % 8 ≡ j = omega arith in rw (byte, bit) refl

      covered : AllUsed b lo hi → (bit_and value mask == mask) ≡ true
      covered all =
          let same : bit_and value mask ≡ mask =
            test_bit_ext 8 (bit_and value mask) mask
              (omega (arith, bit_and-le 8 value mask (bytes _), bytes (b.start + i))) small
              λ j h.
                test_bit-bit_and j value mask
                ∙ ground (arith, bits j h, value_bit j h, all (8 * i + j)) in
          ground arith

  full_byte :
      (p : ℕ)
      → b.start ≤ p
      → AllUsed b (8 * (p - b.start)) (8 * (p - b.start) + 8)
      → load_8 b p ≡ 0xFF
  full_byte p above all = test_bit_ext 8 (load_8 b p) 0xFF (bytes p) (omega arith) λ j h.
      let byte : b.start + (8 * (p - b.start) + j) / 8 ≡ p = omega arith in
      let bit : (8 * (p - b.start) + j) % 8 ≡ j = omega arith in
      (rw (byte, bit) at (all (8 * (p - b.start) + j) (omega arith) (omega arith)))
      ∙ sym (test_bit-ones 8 j ∙ ground arith)

  is_none : Option ℕ → Bool
  is_none none = true
  is_none (some p) = false

  -- The whole bytes between the two ends.
  bytes_test :
      (i k p : ℕ)
      → p ≡ b.start + i
      → {o : Option ℕ} → FreeByte b p (b.start + k) o
      → (is_none o ≡ true) ↔ AllUsed b (8 * i) (8 * k)
  unfolding is_none
  bytes_test i k _ at (at_byte p from to free first) = (
    λ e. ground arith,
    λ all. absurd (free (full_byte p (omega arith) λ f h q. all f (omega arith) (omega arith))),
  )
  bytes_test i k _ at (nowhere all) = (
    λ e f h q.
        ap (λ x. test_bit x (f % 8)) (all (b.start + f / 8) (omega arith) (omega arith))
        ∙ test_bit-ones 8 (f % 8)
        ∙ ground arith,
    λ all'. refl,
  )

module _ (b : Bitmap) (s e : ℕ) (v : IsRange b s e) where
  abbrev i : ℕ
  i = s / 8

  abbrev k : ℕ
  k = (e - 1) / 8

  abbrev one_mask : ℕ
  one_mask = cast 8 (bit_and (0xFF <<< bit_position s) (0xFF >>> (7 - bit_position (e - 1))))

  one_test :
      i ≡ k → ((bit_and (load_8 b (b.start + i)) one_mask == one_mask) ≡ true) ↔ AllUsed b s e
  one_test one =
      mask_test b v.bytes s e i one_mask (omega arith) (omega (arith, v.some_frame)) (omega arith)
        λ j h.
          rw
            (
              bit_position_lem s,
              bit_position_lem (e - 1),
              test_bit-mod 8 (bit_and (0xFF <<< (s % 8)) (0xFF >>> (7 - (e - 1) % 8))) j,
              test_bit-bit_and j (0xFF <<< (s % 8)) (0xFF >>> (7 - (e - 1) % 8)),
              test_bit-shr (7 - (e - 1) % 8) 0xFF j,
              test_bit-ones 8 (7 - (e - 1) % 8 + j),
              test_bit-shl (s % 8) 0xFF j,
              test_bit-ones 8 (j - s % 8),
            )
            (ground (arith, v.some_frame))

  front_test :
      i < k
      → ((bit_and (load_8 b (b.start + i)) (front_mask s) == front_mask s) ≡ true)
        ↔ AllUsed b s (8 * (i + 1))
  unfolding front_mask
  front_test less =
      mask_test b v.bytes s (8 * (i + 1)) i (front_mask s) (omega arith) (omega arith) (omega arith)
        λ j h. test_bit-front_mask s j h ∙ ground arith

  end_test :
      i < k
      → ((bit_and (load_8 b (b.start + k)) (end_mask (e - 1)) == end_mask (e - 1)) ≡ true)
        ↔ AllUsed b (8 * k) e
  unfolding end_mask
  end_test less =
      mask_test b v.bytes (8 * k) e k (end_mask (e - 1)) (omega arith) (omega (arith, v.some_frame))
        (omega arith) λ j h. test_bit-end_mask (e - 1) j h ∙ ground (arith, v.some_frame)

  end_test_at :
      (x : ℕ)
      → x ≡ e - 1
      → i < k
      → ((bit_and (load_8 b (b.start + x / 8)) (end_mask x) == end_mask x) ≡ true)
        ↔ AllUsed b (8 * k) e
  end_test_at x at less =
      subst
        (λ y.
          ((bit_and (load_8 b (b.start + y / 8)) (end_mask y) == end_mask y) ≡ true)
          ↔ AllUsed b (8 * k) e)
        (sym at) (end_test less)

  -- The last two tests of several bytes.
  after_front :
      (o : Option ℕ) (c : Bool)
      → (is_none b v.bytes o ≡ true) ↔ AllUsed b (8 * (i + 1)) (8 * k)
      → (c ≡ true) ↔ AllUsed b (8 * k) e
      → 8 * (i + 1) ≤ 8 * k
      → (elim o [ some at ↦ false | none ↦ c ] ≡ true) ↔ AllUsed b (8 * (i + 1)) e
  unfolding is_none
  after_front (some p') c m l h =
      (λ q. ground arith, λ all. m.1 λ f p q. all f p (omega (arith, v.some_frame)))
  after_front none c m l h = (
    λ q. AllUsed-add b (8 * (i + 1)) (8 * k) e (m.0 refl) (l.0 q),
    λ all. l.1 λ f p q. all f (omega (arith, h)) q,
  )

  and_then :
      (a c : Bool)
      → (a ≡ true) ↔ AllUsed b s (8 * (i + 1))
      → (c ≡ true) ↔ AllUsed b (8 * (i + 1)) e
      → i < k
      → ((if a then c else false) ≡ true) ↔ AllUsed b s e
  and_then false c x y less =
      (λ q. ground arith, λ all. x.1 λ f p q. all f p (omega (arith, v.some_frame)))
  and_then true c x y less = (
    λ q. AllUsed-add b s (8 * (i + 1)) e (x.0 refl) (y.0 q),
    λ all. y.1 λ f p q. all f (omega arith) q,
  )

  -- On a range of frames of a bitmap inside the address space, `is_frame_range_used` is true exactly
  -- when every frame of the range is used.
  pub is_frame_range_used_iff : (is_frame_range_used b s e ≡ true) ↔ AllUsed b s e
  unfolding is_frame_range_used bitmap_index
  is_frame_range_used_iff = elim (Bool-cases (i == k)) [
    | inl one ↦ rw (last, one) (one_test (ground arith))
    | inr several ↦
        rw (last, several)
          (and_then _ _ (front_test (less (ground arith)))
            (after_front _ _
              (bytes_test b v.bytes (i + 1) k (b.start + i + 1) (omega arith)
                (find_free_byte-FreeByte b (b.start + i + 1) (b.start + k)))
              (end_test_at (wrap_sub 32 e 1) last (less (ground arith)))
              (omega (arith, less (ground arith))))
            (less (ground arith)))
  ]
    where
      last : wrap_sub 32 e 1 ≡ e - 1
      last = omega (arith, v.some_frame, v.few)

      less : i ≢ k → i < k
      less ne = omega (arith, v.some_frame)
