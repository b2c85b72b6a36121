-- ===== src/Pmm/Search/Examine.antt =====
-- One turn of a core's loop keeps the invariant of the search, or has found a run.
use bare_metal_programming.Prelude.{
  ℕ, ◌+◌, ◌-◌, ◌*◌, ◌^◌, ◌≤◌, ◌<◌, ◌≡◌, refl, sym, ◌∙◌, arith, ltb, leb, ◌==◌, Bool, true, false,
  not, ◌&&◌, inl, inr, Bool-cases, cast, wrap_sub, complement, zero-test_bit, test_bit-ones,
}
use bare_metal_programming.Tools.Builtin.{trailing_zeros, leading_zeros}
use bare_metal_programming.Tools.Builtin.Laws.{
  IsLowest, IsHighest, trailing_zeros-IsLowest, leading_zeros-IsHighest,
}
use bare_metal_programming.Pmm.Geometry.{Bitmap}
use bare_metal_programming.Pmm.Search.{
  found, onward, Width, bits_of, array_size_of, examine, mixed, space, array_of_shifts,
}
use bare_metal_programming.Pmm.Search.Space.{Window, space_lem}
use bare_metal_programming.Pmm.Search.Carry.{
  FreeRun, Carry, extend-Carry, extend-IsRun, reset-Carry, mixed-Carry, joined-IsRun,
}
use bare_metal_programming.Pmm.Search.Shows.{
  bits_le_32, run_found_lem, run_found_inside, space-le, Progress, Shows, shown, inverted_bit,
  Window-IsRun, no-Window-Blocked,
}

module _ (used : ℕ → Bool) (frames lo : ℕ) (pos : 0 < frames) where
  module _ (b : Bitmap) (w : Width) (o l v : ℕ) (small : 8 * o + 32 < 2 ^ 31)
      (frames_small : frames < 2 ^ 31) (s : Shows used frames lo pos (bits_of w) (8 * o) v)
      (c : Carry used frames lo (8 * o) l) where
    width : (8 ≤ bits_of w) × (bits_of w ≤ 32)
    width = bits_le_32 w

    inverted : ℕ
    inverted = space (array_of_shifts (array_size_of w) frames) (complement (bits_of w) v)

    module _ (p : 0 < v) (q : v < 2 ^ bits_of w - 1) where
      lowest : IsLowest (bits_of w) v (trailing_zeros (bits_of w) v)
      lowest = trailing_zeros-IsLowest (bits_of w) v width.1 p s.fits

      highest : IsHighest (bits_of w) v (leading_zeros (bits_of w) v)
      highest = leading_zeros-IsHighest (bits_of w) v width.1 p s.fits

      joined_case :
          frames ≤ l + trailing_zeros (bits_of w) v
          → Progress used frames lo pos (8 * o + bits_of w) (mixed b w frames (b.start + o) l v)
      joined_case long = rw run (
          joined-IsRun used frames lo c (bits_of w) (trailing_zeros (bits_of w) v) lowest.inside
            free_start long)
        where
          run : mixed b w frames (b.start + o) l v ≡ found (8 * o - l)
          run =
              unfold mixed in
              ground (arith, run_found_lem b o l, c.room, c.short, lowest.inside, width)

          free_start : FreeRun used (8 * o) (trailing_zeros (bits_of w) v)
          free_start f h k =
              shown used frames lo pos s f h (omega (arith, lowest.inside))
              ∙ lowest.below (f - 8 * o) (omega arith)

      inside_case :
          l + trailing_zeros (bits_of w) v < frames
          → frames ≤ bits_of w - 1
          → 0 < inverted
          → Progress used frames lo pos (8 * o + bits_of w) (mixed b w frames (b.start + o) l v)
      unfolding inverted
      inside_case short inside some_bit =
          rw run (Window-IsRun used frames lo pos s c (trailing_zeros (bits_of w) inverted) win)
        where
          first : IsLowest (bits_of w) inverted (trailing_zeros (bits_of w) inverted)
          first = trailing_zeros-IsLowest (bits_of w) inverted width.1 some_bit (
              omega (
                arith,
                space-le (bits_of w) (array_of_shifts (array_size_of w) frames)
                    (complement (bits_of w) v),
                s.fits,
              ))

          win : Window (complement (bits_of w) v) (trailing_zeros (bits_of w) inverted) frames
          win =
              (space_lem w frames (complement (bits_of w) v) pos (omega (arith, width))
                  (trailing_zeros (bits_of w) inverted)).0
                first.set

          run :
              mixed b w frames (b.start + o) l v
              ≡ found (8 * o + trailing_zeros (bits_of w) inverted)
          run =
              unfold mixed in
              ground (
                arith,
                run_found_inside b o (trailing_zeros (bits_of w) inverted),
                first.inside,
                lowest.inside,
                c.short,
                width,
              )

      onward_case :
          l + trailing_zeros (bits_of w) v < frames
          → (frames ≤ bits_of w - 1 → inverted ≡ 0)
          → Progress used frames lo pos (8 * o + bits_of w) (mixed b w frames (b.start + o) l v)
      unfolding inverted
      onward_case short no_bit = rw run (
          mixed-Carry used frames lo c (bits_of w) (trailing_zeros (bits_of w) v)
            (leading_zeros (bits_of w) v) lowest.inside highest.inside low high free_end z_short
            short (no-Window-Blocked used frames lo pos s no_window))
        where
          run : mixed b w frames (b.start + o) l v ≡ onward (leading_zeros (bits_of w) v)
          run = unfold mixed in ground (arith, no_bit, lowest.inside, c.short, width)

          low : used (8 * o + trailing_zeros (bits_of w) v) ≡ true
          low = sym (s.bit (trailing_zeros (bits_of w) v) lowest.inside) ∙ lowest.set

          high : used (8 * o + bits_of w - leading_zeros (bits_of w) v - 1) ≡ true
          high =
              let index : 8 * o + bits_of w - leading_zeros (bits_of w) v - 1
                  ≡ 8 * o + (bits_of w - 1 - leading_zeros (bits_of w) v) =
                omega (arith, highest.inside) in
              rw index (
                sym (s.bit (bits_of w - 1 - leading_zeros (bits_of w) v) (omega (arith, width)))
                ∙ highest.set)

          free_end :
              (f : ℕ)
              → 8 * o + bits_of w ≤ f + leading_zeros (bits_of w) v
              → f < 8 * o + bits_of w
              → used f ≡ false
          free_end f h k =
              shown used frames lo pos s f (omega (arith, highest.inside)) k
              ∙ highest.above (f - 8 * o) (omega (arith, highest.inside))
                  (omega (arith, highest.inside))

          no_window :
              (i : ℕ) → i + frames ≤ bits_of w → ¬ Window (complement (bits_of w) v) i frames
          no_window i h win = elim (Bool-cases (leb frames (bits_of w - 1))) [
            | inl inside ↦
                let some_bit =
                  (space_lem w frames (complement (bits_of w) v) pos (ground (arith, width)) i).1
                    win in
                ground (arith, rw (no_bit (ground arith)) at some_bit, zero-test_bit i)
            | inr whole ↦
                let t = trailing_zeros (bits_of w) v in
                let start : i + t ≡ t = ground arith in
                ground (
                  arith,
                  rw start at (win t (ground (arith, lowest.inside))),
                  inverted_bit used frames lo pos s t lowest.inside,
                  low,
                )
          ]

          z_short : leading_zeros (bits_of w) v < frames
          z_short = elim (Bool-cases (ltb (leading_zeros (bits_of w) v) frames)) [
            | inl e ↦ ground arith
            | inr e ↦ absurd (
                no_window (bits_of w - leading_zeros (bits_of w) v) (ground (arith, highest.inside))
                  (λ j h. ground (
                    arith,
                    highest.inside,
                    inverted_bit used frames lo pos s (bits_of w - leading_zeros (bits_of w) v + j),
                    free_end (8 * o + (bits_of w - leading_zeros (bits_of w) v + j)),
                  )))
          ]

      mixed-Progress :
          Progress used frames lo pos (8 * o + bits_of w) (mixed b w frames (b.start + o) l v)
      mixed-Progress = elim (Bool-cases (leb frames (l + trailing_zeros (bits_of w) v))) [
        | inl long ↦ joined_case (ground arith)
        | inr short ↦ elim (Bool-cases (leb frames (bits_of w - 1) && not (inverted == 0))) [
          | inl yes_ ↦ inside_case (ground arith) (ground arith) (ground arith)
          | inr no_ ↦ onward_case (ground arith) (λ h. ground arith)
        ]
      ]

    pub examine-Progress :
        Progress used frames lo pos (8 * o + bits_of w) (examine b w frames (b.start + o) l v)
    examine-Progress = elim (Bool-cases (v == 0)) [
      | inl free_word ↦ elim (Bool-cases (leb frames (l + bits_of w))) [
        | inl long ↦
            rw (complete free_word (ground arith))
              (extend-IsRun used frames lo c (bits_of w) (all_free free_word) (ground arith))
        | inr short ↦
            rw (longer free_word (ground arith))
              (extend-Carry used frames lo c (bits_of w) (all_free free_word) (ground arith))
      ]
      | inr not_free ↦ elim (Bool-cases (v == 2 ^ bits_of w - 1)) [
        | inl used_word ↦ rw (reset not_free used_word) (
            reset-Carry used frames lo c (bits_of w) pos (omega (arith, width))
              (all_used used_word))
        | inr not_used ↦
            rw (other not_free not_used) (mixed-Progress (ground arith) (ground (arith, s.fits)))
      ]
    ]
      where
        all_free : (v == 0) ≡ true → FreeRun used (8 * o) (bits_of w)
        all_free e f h k =
            let none_set : v ≡ 0 = ground arith in
            shown used frames lo pos s f h k ∙ rw none_set (zero-test_bit (f - 8 * o))

        all_used :
            (v == 2 ^ bits_of w - 1) ≡ true
            → (f : ℕ) → 8 * o ≤ f
            → f < 8 * o + bits_of w
            → used f ≡ true
        all_used e f h k =
            let all_set : v ≡ 2 ^ bits_of w - 1 = ground arith in
            shown used frames lo pos s f h k
            ∙ rw all_set (rw (test_bit-ones (bits_of w) (f - 8 * o)) (ground arith))

        complete :
            (v == 0) ≡ true
            → frames ≤ l + bits_of w
            → examine b w frames (b.start + o) l v ≡ found (8 * o - l)
        complete e h =
            let back : wrap_sub 32 (cast 32 (l + bits_of w)) (bits_of w) ≡ l =
              omega (arith, c.short, width) in
            unfold examine in rw back (ground (arith, run_found_lem b o l, c.room, c.short, width))

        longer :
            (v == 0) ≡ true
            → l + bits_of w < frames
            → examine b w frames (b.start + o) l v ≡ onward (l + bits_of w)
        longer e h = unfold examine in ground (arith, c.short, width)

        reset :
            (v == 0) ≡ false
            → (v == 2 ^ bits_of w - 1) ≡ true
            → examine b w frames (b.start + o) l v ≡ onward 0
        reset e h = unfold examine in rw (e, h) refl

        other :
            (v == 0) ≡ false
            → (v == 2 ^ bits_of w - 1) ≡ false
            → examine b w frames (b.start + o) l v ≡ mixed b w frames (b.start + o) l v
        other e h = unfold examine in rw (e, h) refl
