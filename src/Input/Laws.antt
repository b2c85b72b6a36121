-- ===== src/Input/Laws.antt =====
-- The buffer of the input line and its editing (terminal/input.cpp, lines 10 to 93).
use bare_metal_programming.Prelude.{
  ℕ, zero, suc, ◌+◌, ◌-◌, ◌≤◌, ◌<◌, ◌≡◌, ◌≢◌, inl, inr, refl, ◌∙◌, arith, leb, ltb, ◌==◌, true,
  false, ◌&&◌, Bool-cases, if◌then◌else◌, List, get_or, set, length, length-set, get_or-set_self,
  get_or-set_ne,
}
use bare_metal_programming.Input.{Line, right_loop, left_loop}

abbrev pub char_at : Line → ℕ → ℕ
char_at l i = get_or l.input_buffer i 0

-- The text stands before `data_end`, with a terminator behind it, and the cursor in it or behind it.
pub record IsLine (l : Line) : Type 0 where
  pub size : length l.input_buffer ≡ 129
  pub ordered : l.cursor ≤ l.data_end
  pub bounded : l.data_end ≤ 128
  pub closed : char_at l l.data_end ≡ 0
  pub filled : (i : ℕ) → i < l.data_end → char_at l i ≢ 0

pub length-right_loop :
    (turns : ℕ) (buffer : List ℕ) (end_ step : ℕ)
    → length (right_loop turns buffer end_ step) ≡ length buffer
unfolding right_loop
length-right_loop zero buffer end_ step = refl
length-right_loop (suc turns) buffer end_ step =
    length-right_loop turns (set buffer end_ (get_or buffer (end_ - step) 0)) (end_ - 1) step
    ∙ length-set buffer end_ (get_or buffer (end_ - step) 0)

pub length-left_loop :
    (turns : ℕ) (buffer : List ℕ) (begin step : ℕ)
    → length (left_loop turns buffer begin step) ≡ length buffer
unfolding left_loop
length-left_loop zero buffer begin step = refl
length-left_loop (suc turns) buffer begin step =
    length-left_loop turns (set buffer begin (get_or buffer (begin + step) 0)) (begin + 1) step
    ∙ length-set buffer begin (get_or buffer (begin + step) 0)

-- A character after the move: it comes from `step` places before inside the range that is moved.
pub right_loop-at :
    (turns : ℕ) (buffer : List ℕ) (end_ step p : ℕ)
    → turns ≤ end_
    → end_ < length buffer
    → get_or (right_loop turns buffer end_ step) p 0 ≡ (
        if ltb (end_ - turns) p && leb p end_
        then get_or buffer (p - step) 0
        else get_or buffer p 0)
unfolding right_loop
right_loop-at zero buffer end_ step p h k = ground arith
right_loop-at (suc turns) buffer end_ step p h k =
    right_loop-at turns moved (end_ - 1) step p (omega arith)
      (omega (arith, length-set buffer end_ value))
    ∙ elim (Bool-cases (ltb (end_ - suc turns) p && leb p end_)) [
      | inl within ↦ elim (Bool-cases (p == end_)) [
        | inl last ↦
            let same : p ≡ end_ = ground arith in
            let past : (ltb (end_ - 1 - turns) p && leb p (end_ - 1)) ≡ false = ground arith in
            rw (within, past, same) (get_or-set_self buffer end_ value 0 k)
        | inr before ↦
            let inner : (ltb (end_ - 1 - turns) p && leb p (end_ - 1)) ≡ true = ground arith in
            rw (within, inner) (get_or-set_ne buffer end_ (p - step) value 0 (ground arith))
      ]
      | inr outside ↦
          let outer : (ltb (end_ - 1 - turns) p && leb p (end_ - 1)) ≡ false = ground arith in
          rw (outside, outer) (get_or-set_ne buffer end_ p value 0 (ground arith))
    ]
  where
    value : ℕ
    value = get_or buffer (end_ - step) 0

    moved : List ℕ
    moved = set buffer end_ value

pub left_loop-at :
    (turns : ℕ) (buffer : List ℕ) (begin step p : ℕ)
    → begin + turns ≤ length buffer
    → get_or (left_loop turns buffer begin step) p 0 ≡ (
        if leb begin p && ltb p (begin + turns)
        then get_or buffer (p + step) 0
        else get_or buffer p 0)
unfolding left_loop
left_loop-at zero buffer begin step p h = ground arith
left_loop-at (suc turns) buffer begin step p h =
    left_loop-at turns moved (begin + 1) step p (omega (arith, length-set buffer begin value))
    ∙ elim (Bool-cases (leb begin p && ltb p (begin + suc turns))) [
      | inl within ↦ elim (Bool-cases (p == begin)) [
        | inl first ↦
            let same : p ≡ begin = ground arith in
            let past : (leb (begin + 1) p && ltb p (begin + 1 + turns)) ≡ false = ground arith in
            rw (within, past, same) (get_or-set_self buffer begin value 0 (omega arith))
        | inr behind ↦
            let inner : (leb (begin + 1) p && ltb p (begin + 1 + turns)) ≡ true = ground arith in
            rw (within, inner) (get_or-set_ne buffer begin (p + step) value 0 (ground arith))
      ]
      | inr outside ↦
          let outer : (leb (begin + 1) p && ltb p (begin + 1 + turns)) ≡ false = ground arith in
          rw (outside, outer) (get_or-set_ne buffer begin p value 0 (ground arith))
    ]
  where
    value : ℕ
    value = get_or buffer (begin + step) 0

    moved : List ℕ
    moved = set buffer begin value
