-- ===== src/Input/Edit.antt =====
-- Characters added to the input line and deleted from it (terminal/input.cpp, lines 35 to 76).
use bare_metal_programming.Prelude.{
  ℕ, ◌+◌, ◌-◌, ◌≤◌, ◌<◌, ◌≡◌, ◌≢◌, inl, inr, refl, ◌∙◌, sym, ap, arith, leb, ltb, ◌==◌, Bool, true,
  false, ◌&&◌, Bool-cases, if◌then◌else◌, List, get_or, set, length, length-set, get_or-set_self,
  get_or-set_ne,
}
use bare_metal_programming.Input.{
  Line, move_data_left, buffer_full, buffer_begin, add_character, delete_character,
}
use bare_metal_programming.Input.Laws.{char_at, IsLine, length-left_loop, left_loop-at}
use bare_metal_programming.Input.Insertion.{buffer'-cursor, before_cursor, behind, added-IsLine}

-- The outcome of an insertion at the cursor.
pub data Added (l : Line) (c : ℕ) : Line × Bool → Type 0 where
  no_room : l.data_end ≡ 128 → Added l c (l, false)
  added :
      (l' : Line)
      → l.data_end < 128
      → l'.cursor ≡ l.cursor + 1
      → l'.data_end ≡ l.data_end + 1
      → l'.input_ready ≡ l.input_ready
      → char_at l' l.cursor ≡ c
      → ((i : ℕ) → i < l.cursor → char_at l' i ≡ char_at l i)
      → ((i : ℕ) → l.cursor ≤ i → i < l.data_end → char_at l' (i + 1) ≡ char_at l i)
      → IsLine l'
      → Added l c (l', true)

-- The outcome of a deletion before the cursor.
pub data Deleted (l : Line) : Line × Bool → Type 0 where
  at_begin : l.cursor ≡ 0 → Deleted l (l, false)
  deleted :
      (l' : Line)
      → l'.cursor + 1 ≡ l.cursor
      → l'.data_end + 1 ≡ l.data_end
      → l'.input_ready ≡ l.input_ready
      → ((i : ℕ) → i < l'.cursor → char_at l' i ≡ char_at l i)
      → ((i : ℕ) → l'.cursor ≤ i → i < l'.data_end → char_at l' i ≡ char_at l (i + 1))
      → IsLine l'
      → Deleted l (l', true)

module _ (l : Line) (v : IsLine l) where
  -- On a well-formed line, `add_character` of a character that is no terminator changes nothing and
  -- returns false if 128 characters stand in the line; otherwise it puts the character at the
  -- cursor, moves the characters from the cursor on by one place, keeps those before it, and keeps
  -- the line well formed.
  pub add_character-Added : (c : ℕ) → c ≢ 0 → Added l c (add_character l c)
  unfolding add_character buffer_full
  add_character-Added c printable = elim (Bool-cases (l.data_end == 128)) [
    | inl full ↦ rw full (no_room (ground arith))
    | inr not_full ↦
        let room : l.data_end < 128 = ground (arith, v.bounded) in
        rw not_full (
          added _ room refl refl refl (buffer'-cursor l v c printable room)
            (before_cursor l v c printable room) (behind l v c printable room)
            (added-IsLine l v c printable room))
  ]

  module _ (some_before : 0 < l.cursor) where
    abbrev cut : List ℕ
    cut = set (move_data_left l.input_buffer (l.cursor - 1) l.data_end 1) (l.data_end - 1) 0

    cut-at :
        (p : ℕ)
        → p ≢ l.data_end - 1
        → get_or cut p 0
          ≡ (if leb (l.cursor - 1) p && ltb p l.data_end then char_at l (p + 1) else char_at l p)
    unfolding move_data_left
    cut-at p not_end =
        let turns : l.cursor - 1 + (l.data_end - (l.cursor - 1)) ≡ l.data_end =
          omega (arith, v.ordered) in
        get_or-set_ne (move_data_left l.input_buffer (l.cursor - 1) l.data_end 1) (l.data_end - 1) p
          0 0 (λ e. not_end (sym e))
        ∙ left_loop-at (l.data_end - (l.cursor - 1)) l.input_buffer (l.cursor - 1) 1 p
            (omega (arith, v.ordered, v.size, v.bounded))
        ∙ ap (λ b. if leb (l.cursor - 1) p && ltb p b then char_at l (p + 1) else char_at l p) turns

    length-cut : length cut ≡ 129
    unfolding move_data_left
    length-cut =
        length-set (move_data_left l.input_buffer (l.cursor - 1) l.data_end 1) (l.data_end - 1) 0
        ∙ length-left_loop (l.data_end - (l.cursor - 1)) l.input_buffer (l.cursor - 1) 1
        ∙ v.size

    cut_before : (i : ℕ) → i < l.cursor - 1 → get_or cut i 0 ≡ char_at l i
    cut_before i h = cut-at i (omega (arith, v.ordered)) ∙ ground arith

    cut_behind :
        (i : ℕ) → l.cursor - 1 ≤ i → i < l.data_end - 1 → get_or cut i 0 ≡ char_at l (i + 1)
    cut_behind i h k = cut-at i (omega arith) ∙ ground arith

    cut_filled : (i : ℕ) → i < l.data_end - 1 → get_or cut i 0 ≢ 0
    cut_filled i h e = elim (Bool-cases (ltb i (l.cursor - 1))) [
      | inl before ↦ v.filled i (ground arith) (sym (cut_before i (ground arith)) ∙ e)
      | inr from ↦ v.filled (i + 1) (ground arith) (sym (cut_behind i (ground arith) h) ∙ e)
    ]

    cut-IsLine :
        IsLine (record l { input_buffer = cut; cursor = l.cursor - 1; data_end = l.data_end - 1 })
    unfolding move_data_left
    cut-IsLine = record {
      size = length-cut;
      ordered = omega (arith, v.ordered);
      bounded = omega (arith, v.bounded);
      closed =
          get_or-set_self (move_data_left l.input_buffer (l.cursor - 1) l.data_end 1)
            (l.data_end - 1) 0 0
            (omega (
              arith,
              length-left_loop (l.data_end - (l.cursor - 1)) l.input_buffer (l.cursor - 1) 1,
              v.size,
              v.bounded,
            ));
      filled = cut_filled;
    }

  -- On a well-formed line, `delete_character` changes nothing and returns false with the cursor at
  -- the begin; otherwise it takes out the character before the cursor, moves those behind it by one
  -- place, keeps those before it, and keeps the line well formed.
  pub delete_character-Deleted : Deleted l (delete_character l)
  unfolding delete_character buffer_begin
  delete_character-Deleted = elim (Bool-cases (l.cursor == 0)) [
    | inl first ↦ rw first (at_begin (ground arith))
    | inr later ↦
        let pos : 0 < l.cursor = ground arith in
        rw later (
          deleted _ (omega arith) (omega (arith, v.ordered)) refl (cut_before pos) (cut_behind pos)
            (cut-IsLine pos))
  ]

-- The same text, with the cursor at the same place.
pub record SameText (l l' : Line) : Type 0 where
  pub same_cursor : l'.cursor ≡ l.cursor
  pub same_end : l'.data_end ≡ l.data_end
  pub same_chars : (i : ℕ) → i < l.data_end → char_at l' i ≡ char_at l i

module _ (l : Line) (c : ℕ) (room : l.data_end < 128) where
  after_delete :
      (l' : Line)
      → l'.cursor ≡ l.cursor + 1
      → l'.data_end ≡ l.data_end + 1
      → ((i : ℕ) → i < l.cursor → char_at l' i ≡ char_at l i)
      → ((i : ℕ) → l.cursor ≤ i → i < l.data_end → char_at l' (i + 1) ≡ char_at l i)
      → {r : Line × Bool} → Deleted l' r
      → SameText l r.0
  after_delete l' at end_ before behind (at_begin none) = absurd (omega arith)
  after_delete l' at end_ before behind (deleted l'' at' end_' ready before' behind' v'') = record {
    same_cursor = omega arith;
    same_end = omega arith;
    same_chars = λ i h. elim (Bool-cases (ltb i l.cursor)) [
      | inl low ↦ before' i (ground (arith, at, at')) ∙ before i (ground arith)
      | inr high ↦
          behind' i (ground (arith, at, at')) (ground (arith, h, end_, end_'))
          ∙ behind i (ground arith) h
    ];
  }

  after_add : {r : Line × Bool} → Added l c r → SameText l (delete_character r.0).0
  after_add (no_room full) = absurd (omega arith)
  after_add (added l' room' at end_ ready char before behind v') =
      after_delete l' at end_ before behind (delete_character-Deleted l' v')

-- On a well-formed line with room, a character added and deleted again leaves the text and the cursor
-- as they were.
pub delete_character-add_character :
    (l : Line) (c : ℕ)
    → IsLine l
    → c ≢ 0
    → l.data_end < 128
    → SameText l (delete_character (add_character l c).0).0
delete_character-add_character l c v printable room =
    after_add l c room (add_character-Added l v c printable)
