-- ===== src/Input/Insertion.antt =====
-- The buffer after an insertion (terminal/input.cpp, lines 35 to 62).
use bare_metal_programming.Prelude.{
  ℕ, ◌+◌, ◌-◌, ◌≤◌, ◌<◌, ◌≡◌, ◌≢◌, ◌⊎◌, inl, inr, refl, ◌∙◌, sym, ap, arith, leb, ltb, ◌==◌, true,
  false, ◌&&◌, Bool-cases, if◌then◌else◌, List, get_or, set, length, length-set, get_or-set_self,
  get_or-set_ne,
}
use bare_metal_programming.Input.{Line, move_data_right}
use bare_metal_programming.Input.Laws.{char_at, IsLine, length-right_loop, right_loop-at}

module _ (l : Line) (v : IsLine l) where
  abbrev pub moved_right : List ℕ
  moved_right =
      if char_at l l.cursor == 0
      then l.input_buffer
      else move_data_right l.input_buffer l.data_end l.cursor 1

  -- The move happens exactly if characters stand behind the cursor.
  moved_right-at :
      (p : ℕ)
      → get_or moved_right p 0
        ≡ (if ltb l.cursor p && leb p l.data_end then char_at l (p - 1) else char_at l p)
  unfolding move_data_right
  moved_right-at p = elim (Bool-cases (char_at l l.cursor == 0)) [
    | inl at_end ↦
        let last : l.cursor ≡ l.data_end =
          at_data_end (Bool-cases (ltb l.cursor l.data_end)) (ground arith) in
        rw at_end (ground (arith, last))
    | inr inside ↦
        let turns : l.data_end - (l.data_end - l.cursor) ≡ l.cursor = omega (arith, v.ordered) in
        rw inside (
          right_loop-at (l.data_end - l.cursor) l.input_buffer l.data_end 1 p (omega arith)
            (omega (arith, v.size, v.bounded))
          ∙ ap (λ b. if ltb b p && leb p l.data_end then char_at l (p - 1) else char_at l p) turns)
  ]
    where
      at_data_end :
          (ltb l.cursor l.data_end ≡ true) ⊎ (ltb l.cursor l.data_end ≡ false)
          → char_at l l.cursor ≡ 0
          → l.cursor ≡ l.data_end
      at_data_end (inl before) e = absurd (v.filled l.cursor (ground arith) e)
      at_data_end (inr behind) e = ground (arith, v.ordered)

  length-moved_right : length moved_right ≡ 129
  unfolding move_data_right
  length-moved_right = elim (Bool-cases (char_at l l.cursor == 0)) [
    | inl at_end ↦ rw at_end v.size
    | inr inside ↦
        rw inside (length-right_loop (l.data_end - l.cursor) l.input_buffer l.data_end 1 ∙ v.size)
  ]

  module _ (c : ℕ) (printable : c ≢ 0) (room : l.data_end < 128) where
    abbrev pub buffer' : List ℕ
    buffer' = set (set moved_right l.cursor c) (l.data_end + 1) 0

    length-buffer' : length buffer' ≡ 129
    length-buffer' =
        length-set (set moved_right l.cursor c) (l.data_end + 1) 0
        ∙ length-set moved_right l.cursor c
        ∙ length-moved_right

    -- Every place but the cursor and the new end.
    buffer'-at :
        (p : ℕ)
        → p ≢ l.data_end + 1
        → p ≢ l.cursor
        → get_or buffer' p 0
          ≡ (if ltb l.cursor p && leb p l.data_end then char_at l (p - 1) else char_at l p)
    buffer'-at p not_end not_cursor =
        get_or-set_ne (set moved_right l.cursor c) (l.data_end + 1) p 0 0 (λ e. not_end (sym e))
        ∙ get_or-set_ne moved_right l.cursor p c 0 (λ e. not_cursor (sym e))
        ∙ moved_right-at p

    pub buffer'-cursor : get_or buffer' l.cursor 0 ≡ c
    buffer'-cursor =
        get_or-set_ne (set moved_right l.cursor c) (l.data_end + 1) l.cursor 0 0
          (omega (arith, v.ordered))
        ∙ get_or-set_self moved_right l.cursor c 0 (omega (arith, length-moved_right, v.ordered))

    pub before_cursor : (i : ℕ) → i < l.cursor → get_or buffer' i 0 ≡ char_at l i
    before_cursor i h = buffer'-at i (omega (arith, v.ordered)) (omega arith) ∙ ground arith

    pub behind : (i : ℕ) → l.cursor ≤ i → i < l.data_end → get_or buffer' (i + 1) 0 ≡ char_at l i
    behind i h k =
        let back : i + 1 - 1 ≡ i = omega arith in
        buffer'-at (i + 1) (omega arith) (omega arith)
        ∙ elim (Bool-cases (ltb l.cursor (i + 1) && leb (i + 1) l.data_end)) [
          | inl within ↦ rw (within, back) refl
          | inr outside ↦ absurd (ground arith)
        ]

    added_filled : (i : ℕ) → i < l.data_end + 1 → get_or buffer' i 0 ≢ 0
    added_filled i h e = elim (Bool-cases (ltb i l.cursor)) [
      | inl before ↦
          v.filled i (ground (arith, v.ordered)) (sym (before_cursor i (ground arith)) ∙ e)
      | inr from ↦ elim (Bool-cases (i == l.cursor)) [
        | inl at ↦
            let same : i ≡ l.cursor = ground arith in
            printable (sym buffer'-cursor ∙ ap (λ p. get_or buffer' p 0) (sym same) ∙ e)
        | inr past ↦
            let next : i - 1 + 1 ≡ i = ground arith in
            v.filled (i - 1) (ground arith) (
              sym (behind (i - 1) (ground arith) (ground arith))
              ∙ ap (λ p. get_or buffer' p 0) next
              ∙ e)
      ]
    ]

    pub added-IsLine :
        IsLine
          (record l { input_buffer = buffer'; cursor = l.cursor + 1; data_end = l.data_end + 1 })
    added-IsLine = record {
      size = length-buffer';
      ordered = omega (arith, v.ordered);
      bounded = omega arith;
      closed =
          get_or-set_self (set moved_right l.cursor c) (l.data_end + 1) 0 0
            (omega (arith, length-set moved_right l.cursor c, length-moved_right));
      filled = added_filled;
    }
