-- ===== src/Input/Trim.antt =====
-- The blanks cut off when a line is entered (terminal/input.cpp, lines 87 to 93).
use bare_metal_programming.Prelude.{
  ℕ, zero, suc, ◌-◌, ◌≤◌, ◌<◌, ◌≡◌, ◌≢◌, ◌⊎◌, inl, inr, refl, arith, ◌==◌, Bool-cases, List, get_or,
  get_or-set_self, get_or-set_ne,
}
use bare_metal_programming.Input.{Line, trimmed_end, trim_end, blank}
use bare_metal_programming.Input.Laws.{char_at, IsLine}

-- The end that is found: blanks behind it, and none right before it.
record LastText (buffer : List ℕ) (n at : ℕ) : Type 0 where
  within : at ≤ n
  blanks : (i : ℕ) → at ≤ i → i < n → get_or buffer i 0 ≡ blank
  text_before : (at ≡ 0) ⊎ (get_or buffer (at - 1) 0 ≢ blank)

trimmed_end-LastText : (buffer : List ℕ) (n : ℕ) → LastText buffer n (trimmed_end buffer n)
unfolding trimmed_end
trimmed_end-LastText buffer zero = record {
  within = omega arith;
  blanks = λ i p q. absurd (omega arith);
  text_before = inl refl;
}
trimmed_end-LastText buffer (suc n) = elim (Bool-cases (get_or buffer n 0 == blank)) [
  | inl cut ↦
      let rest = trimmed_end-LastText buffer n in
      rw cut (record {
        within = omega (arith, rest.within);
        blanks = λ i p q. elim (Bool-cases (i == n)) [
          | inl last ↦ let same : i ≡ n = ground arith in rw same (ground (arith, cut))
          | inr before ↦ rest.blanks i p (ground arith)
        ];
        text_before = rest.text_before;
      })
  | inr text ↦
      let back : suc n - 1 ≡ n = omega arith in
      rw text (record {
        within = omega arith;
        blanks = λ i p q. absurd (omega arith);
        text_before = inr (rw back (ground (arith, text)));
      })
]

-- The line after the blanks at its end have been cut off.
pub record Trimmed (l l' : Line) : Type 0 where
  pub shorter : l'.data_end ≤ l.data_end
  pub blanks : (i : ℕ) → l'.data_end ≤ i → i < l.data_end → char_at l i ≡ blank
  pub text_before : (l'.data_end ≡ 0) ⊎ (char_at l (l'.data_end - 1) ≢ blank)
  pub closed : char_at l' l'.data_end ≡ 0
  pub same_text : (i : ℕ) → i < l'.data_end → char_at l' i ≡ char_at l i
  pub same_cursor : l'.cursor ≡ l.cursor

-- On a well-formed line, `trim_end` ends the text behind its last character that is no blank, puts a
-- terminator there, keeps the characters before, and leaves the cursor where it was, which may be
-- behind the new end.
pub trim_end-Trimmed : (l : Line) → IsLine l → Trimmed l (trim_end l)
unfolding trim_end
trim_end-Trimmed l v = elim (Bool-cases (l.data_end == 0)) [
  | inl empty ↦ rw empty (record {
    shorter = omega arith;
    blanks = λ i p q. absurd (omega arith);
    text_before = inl (ground arith);
    closed = v.closed;
    same_text = λ i h. refl;
    same_cursor = refl;
  })
  | inr text ↦ rw text (record {
    shorter = found.within;
    blanks = found.blanks;
    text_before = found.text_before;
    closed =
        get_or-set_self l.input_buffer (trimmed_end l.input_buffer l.data_end) 0 0
          (omega (arith, found.within, v.size, v.bounded));
    same_text = λ i h.
        get_or-set_ne l.input_buffer (trimmed_end l.input_buffer l.data_end) i 0 0 (omega arith);
    same_cursor = refl;
  })
]
  where
    found : LastText l.input_buffer l.data_end (trimmed_end l.input_buffer l.data_end)
    found = trimmed_end-LastText l.input_buffer l.data_end
