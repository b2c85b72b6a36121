-- ===== src/Keyboard/Text.antt =====
-- The translation of an event to a character (drivers/keyboard/keyboard.cpp, lines 239 to 262).
use bare_metal_programming.Prelude.{
  ℕ, zero, suc, ◌+◌, ◌≤◌, ◌<◌, ◌≡◌, inl, inr, refl, ◌∙◌, sym, ap, arith, leb, ltb, ◌==◌, Bool, true,
  false, not, ◌&&◌, ◌||◌, Bool-cases, if◌then◌else◌, Option, none, some,
}
use bare_metal_programming.Keyboard.Tables.{
  get_normal_character, get_shifted_character, normal_characters_table, shifted_characters_table,
  fill_table,
}
use bare_metal_programming.Keyboard.Events.{
  KeyboardEvent, is_text_key, is_letter_key, is_digit_key, is_space_key, is_symbol_key, KeyState,
  pressed, released, is_modifier_key, is_input_candidate_event, is_pressed_event,
  is_non_modifier_event, is_modifier_event, is_shift_active, is_caps_lock_active,
  is_text_input_candidate_event, try_translate_text_event, differ,
}

-- Both characters of a key are printable, and those of a letter are its two cases.
unfoldable pub printable_key : ℕ → Bool
printable_key key =
    leb 32 (get_normal_character key)
    && leb (get_normal_character key) 126
    && leb 32 (get_shifted_character key)
    && leb (get_shifted_character key) 126
    && (not (is_letter_key key)
        || (leb 97 (get_normal_character key)
            && leb (get_normal_character key) 122
            && (get_shifted_character key + 32 == get_normal_character key)))

text_keys_printable : ℕ → Bool
text_keys_printable zero = true
text_keys_printable (suc key) =
    text_keys_printable key && (not (is_text_key key) || printable_key key)

text_keys_table : text_keys_printable 64 ≡ true
unfolding text_keys_printable printable_key is_text_key is_letter_key is_digit_key is_space_key
    is_symbol_key get_normal_character get_shifted_character normal_characters_table
    shifted_characters_table fill_table
text_keys_table = refl

text_key_small : (key : ℕ) → is_text_key key ≡ true → key < 64
unfolding is_text_key is_letter_key is_digit_key is_space_key is_symbol_key
text_key_small key h = ground arith

text_keys_printable_at :
    (size key : ℕ)
    → key < size
    → text_keys_printable size ≡ true
    → is_text_key key ≡ true
    → printable_key key ≡ true
unfolding text_keys_printable
text_keys_printable_at zero key below table text = absurd (omega arith)
text_keys_printable_at (suc size) key below table text = elim (Bool-cases (key == size)) [
  | inl last ↦
      let same : key ≡ size = ground arith in
      let text' : is_text_key size ≡ true = ap is_text_key (sym same) ∙ text in
      rw same (ground (arith, table, text'))
  | inr earlier ↦ text_keys_printable_at size key (ground arith) (ground (arith, table)) text
]

abbrev pub is_upper : ℕ → Bool
is_upper c = leb 65 c && leb c 90

-- The key has a printable character in the table of characters without shift.
abbrev pub types : ℕ → Bool
types key = ltb key 128 && leb 32 (get_normal_character key)

-- The text keys are those that type, and no modifier is among them.
same_in_tables : ℕ → Bool
same_in_tables zero = true
same_in_tables (suc key) =
    same_in_tables key
    && (if is_text_key key then types key && not (is_modifier_key key) else not (types key))

same_in_both : same_in_tables 128 ≡ true
unfolding same_in_tables is_text_key is_letter_key is_digit_key is_space_key is_symbol_key
    get_normal_character normal_characters_table fill_table is_modifier_key
same_in_both = refl

same_at :
    (size key : ℕ)
    → key < size
    → same_in_tables size ≡ true
    → (if is_text_key key then types key && not (is_modifier_key key) else not (types key)) ≡ true
unfolding same_in_tables
same_at zero key below table = absurd (omega arith)
same_at (suc size) key below table = elim (Bool-cases (key == size)) [
  | inl last ↦ let same : key ≡ size = ground arith in rw same (ground (arith, table))
  | inr earlier ↦ same_at size key (ground arith) (ground (arith, table))
]

-- A press of a key that types.
abbrev pub IsTyped : KeyboardEvent → Type 0
IsTyped event = (event.state ≡ pressed) × (types event.key ≡ true)

character : Bool → ℕ → ℕ
character shifted key = if shifted then get_shifted_character key else get_normal_character key

-- What an event is translated to: nothing, or a printable character, for a letter in the case that
-- shift and caps lock ask for and for another key from the table that shift asks for.
pub data Translated (event : KeyboardEvent) : Option ℕ → Type 0 where
  no_text : ¬ IsTyped event → Translated event none
  text :
      (c : ℕ)
      → IsTyped event
      → 32 ≤ c
      → c ≤ 126
      → (is_letter_key event.key ≡ true
          → is_upper c
            ≡ differ (is_shift_active event.modifiers) (is_caps_lock_active event.modifiers))
      → (is_letter_key event.key ≡ false
          → c ≡ (
              if is_shift_active event.modifiers
              then get_shifted_character event.key
              else get_normal_character event.key))
      → Translated event (some c)

candidate-IsTyped :
    (event : KeyboardEvent) → is_text_input_candidate_event event ≡ true → IsTyped event
unfolding is_text_input_candidate_event is_input_candidate_event is_pressed_event
candidate-IsTyped event c =
    let is_text : is_text_key event.key ≡ true = ground (arith, c) in
    let same =
      same_at 128 event.key (omega (arith, text_key_small event.key is_text)) same_in_both in
    (down event.state (ground (arith, c)), ground (arith, same, is_text))
  where
    down : (s : KeyState) → (elim s [ pressed ↦ true | released ↦ false ]) ≡ true → s ≡ pressed
    down pressed h = refl
    down released h = absurd (ground (arith, h))

typed_candidate :
    (event : KeyboardEvent) → IsTyped event → is_text_input_candidate_event event ≡ true
unfolding is_text_input_candidate_event is_input_candidate_event is_pressed_event
    is_non_modifier_event is_modifier_event
typed_candidate event (p, t) =
    let same = same_at 128 event.key (ground (arith, t)) same_in_both in
    rw p (ground (arith, same, t))

character_printable :
    (shifted : Bool) (key : ℕ)
    → printable_key key ≡ true
    → (32 ≤ character shifted key)
      × (character shifted key ≤ 126)
      × (is_letter_key key ≡ true → is_upper (character shifted key) ≡ shifted)
unfolding character printable_key
character_printable true key h = (ground (arith, h), ground (arith, h), λ l. ground (arith, h, l))
character_printable false key h = (ground (arith, h), ground (arith, h), λ l. ground (arith, h, l))

-- For any event, `try_translate_text_event` gives a character exactly for the press of a key that has
-- a printable character in the table without shift. The character is printable. A letter is a capital
-- exactly if one of shift and caps lock is on; another key's is the one of the table that shift picks.
pub try_translate_text_event-Translated :
    (event : KeyboardEvent) → Translated event (try_translate_text_event event)
unfolding try_translate_text_event is_text_input_candidate_event character
try_translate_text_event-Translated event =
    elim (Bool-cases (is_text_input_candidate_event event)) [
      | inl yes_text ↦ rw yes_text (elim (Bool-cases (is_letter_key event.key)) [
        | inl letter ↦ rw letter (
            let (low, high, cased) = facts yes_text both in
            text _ (candidate-IsTyped event yes_text) low high cased
              (λ o. absurd (ground (arith, o, letter))))
        | inr other ↦ rw other (
            let (low, high, cased) = facts yes_text (is_shift_active event.modifiers) in
            text _ (candidate-IsTyped event yes_text) low high
              (λ l. absurd (ground (arith, l, other))) (λ o. refl))
      ])
      | inr not_text ↦
          rw not_text (no_text λ t. absurd (ground (arith, not_text, typed_candidate event t)))
    ]
  where
    both : Bool
    both = differ (is_shift_active event.modifiers) (is_caps_lock_active event.modifiers)

    facts :
        is_text_input_candidate_event event ≡ true
        → (shifted : Bool)
        → (32 ≤ character shifted event.key)
          × (character shifted event.key ≤ 126)
          × (is_letter_key event.key ≡ true → is_upper (character shifted event.key) ≡ shifted)
    facts e shifted =
        let is_text : is_text_key event.key ≡ true = ground (arith, e) in
        character_printable shifted event.key (
          text_keys_printable_at 64 event.key (text_key_small event.key is_text) text_keys_table
            is_text)
