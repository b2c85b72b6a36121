-- ===== src/Input/Ready.antt =====
-- terminal/input.cpp: what makes a line ready.
use bare_metal_programming.Prelude.{
  ℕ, ◌+◌, ◌≡◌, refl, arith, ap, ◌∙◌, sym, ◌==◌, not, ◌&&◌, ◌||◌, leb, Bool, true, false, inl, inr,
  Bool-cases, if◌then◌else◌, Option, none, some, List, [], ◌∷◌, ◌++◌,
}
use mathlib.Core.Path.{subst}
use bare_metal_programming.Keyboard.Key
use bare_metal_programming.Keyboard.Events.{
  KeyboardEvent, KeyState, pressed, released, try_translate_text_event,
  is_control_input_candidate_event, is_navigation_input_candidate_event, is_input_candidate_event,
  is_pressed_event, is_non_modifier_event, is_modifier_event, is_modifier_key, is_control_key,
}
use bare_metal_programming.Keyboard.Modifiers.{is_down}
use bare_metal_programming.Keyboard.Tables.{
  get_normal_character, normal_characters_table, fill_table,
}
use bare_metal_programming.Keyboard.Text.{
  Translated, no_text, text, types, try_translate_text_event-Translated,
}
use bare_metal_programming.Input.{
  Line, ScreenCall, put_char, add_character, add_string, delete_character, move_cursor_left,
  move_cursor_right, reset_buffer, buffer_full, buffer_begin, input_capacity, string_length,
}
use bare_metal_programming.Input.Handlers.{
  redraw, spaces, handle_escape, handle_backspace, handle_tab, handle_enter, handle_home,
  handle_arrow_left, handle_arrow_right, handle_end, control_key_dispatch, navigation_key_dispatch,
  receive, after_calls, start_data_receiving,
}

-- The press of the Enter key, and whether one is among the events.
abbrev pub is_enter : KeyboardEvent → Bool
is_enter event = is_down event.state && event.key == Key.enter

abbrev pub enters : List KeyboardEvent → Bool
enters [] = false
enters (event ∷ events) = is_enter event || enters events

-- A branch of an operation that returns a line and more.
choose :
    {A : Type 0} (r b : Bool) (x y : Line × A)
    → (b ≡ true → x.0.input_ready ≡ r)
    → (b ≡ false → y.0.input_ready ≡ r)
    → (if b then x else y).0.input_ready ≡ r
choose r true x y p q = p refl
choose r false x y p q = q refl

add_character-input_ready : (l : Line) (c : ℕ) → (add_character l c).0.input_ready ≡ l.input_ready
unfolding add_character
add_character-input_ready l c = choose l.input_ready (buffer_full l) _ _ (λ b. refl) (λ b. refl)

add_string-input_ready : (l : Line) (s : List ℕ) → (add_string l s).0.input_ready ≡ l.input_ready
unfolding add_string
add_string-input_ready l s =
    choose l.input_ready (leb input_capacity (l.data_end + string_length s)) _ _ (λ b. refl)
      (λ b. refl)

delete_character-input_ready : (l : Line) → (delete_character l).0.input_ready ≡ l.input_ready
unfolding delete_character
delete_character-input_ready l = choose l.input_ready (buffer_begin l) _ _ (λ b. refl) (λ b. refl)

control_key_dispatch-input_ready :
    (l : Line) (key : ℕ)
    → l.input_ready ≡ false
    → (control_key_dispatch l key).0.input_ready ≡ (key == Key.enter)
unfolding control_key_dispatch handle_escape handle_backspace handle_tab handle_enter reset_buffer
control_key_dispatch-input_ready l key h =
    choose (key == Key.enter) (key == Key.escape) _ _ (λ b. ground (arith, b))
      (λ _.
        choose (key == Key.enter) (key == Key.backspace) _ _
          (λ b. delete_character-input_ready l ∙ h ∙ ground (arith, b))
          (λ _.
            choose (key == Key.enter) (key == Key.tab) _ _
              (λ b. add_string-input_ready l spaces ∙ h ∙ ground (arith, b))
              (λ _.
                choose (key == Key.enter) (key == Key.enter) _ _ (λ b. sym b) (λ b. h ∙ sym b))))

navigation_key_dispatch-input_ready :
    (l : Line) (key : ℕ) → (navigation_key_dispatch l key).0.input_ready ≡ l.input_ready
unfolding navigation_key_dispatch handle_home handle_arrow_left handle_arrow_right handle_end
    move_cursor_left move_cursor_right
navigation_key_dispatch-input_ready l key =
    choose l.input_ready (key == Key.home) _ _ (λ _. refl)
      (λ _.
        choose l.input_ready (key == Key.arrow_left) _ _
          (λ _. choose l.input_ready (l.cursor == 0) _ _ (λ _. refl) (λ _. refl))
          (λ _.
            choose l.input_ready (key == Key.arrow_right) _ _
              (λ _. choose l.input_ready (l.cursor == l.data_end) _ _ (λ _. refl) (λ _. refl))
              (λ _. choose l.input_ready (key == Key.end) _ _ (λ _. refl) (λ _. refl))))

control_enter :
    (event : KeyboardEvent)
    → is_control_input_candidate_event event ≡ true
    → (event.key == Key.enter) ≡ is_enter event
unfolding is_control_input_candidate_event is_input_candidate_event is_pressed_event
control_enter event c = by_state event.state (ground (arith, c))
  where
    by_state :
        (s : KeyState)
        → (elim s [ pressed ↦ true | released ↦ false ]) ≡ true
        → (event.key == Key.enter) ≡ (is_down s && event.key == Key.enter)
    by_state pressed h = refl
    by_state released h = absurd (ground (arith, h))

no_control_enter :
    (event : KeyboardEvent)
    → is_control_input_candidate_event event ≡ false
    → is_enter event ≡ false
unfolding is_control_input_candidate_event is_input_candidate_event is_pressed_event
    is_non_modifier_event is_modifier_event is_modifier_key is_control_key
no_control_enter event c = elim (Bool-cases (event.key == Key.enter)) [
  | inl at ↦
      let same : event.key ≡ Key.enter = ground (arith, at) in
      ap (λ k. is_down event.state && k == Key.enter) same
      ∙ go event.state (
          ap
            (λ k.
              (elim event.state [ pressed ↦ true | released ↦ false ] && not (is_modifier_key k))
              && is_control_key k)
            (sym same)
          ∙ c)
  | inr away ↦ ground (arith, away)
]
  where
    go :
        (s : KeyState)
        → ((elim s [ pressed ↦ true | released ↦ false ] && not (is_modifier_key Key.enter))
            && is_control_key Key.enter)
          ≡ false
        → (is_down s && Key.enter == Key.enter) ≡ false
    go pressed h = h
    go released h = refl

text_enter :
    {event : KeyboardEvent} {o : Option ℕ}
    → Translated event o
    → (c : ℕ) → o ≡ some c
    → is_enter event ≡ false
unfolding get_normal_character normal_characters_table fill_table
text_enter {event} (no_text h) c e = cc
text_enter {event} (text d t low high letter other) c e =
    elim (Bool-cases (event.key == Key.enter)) [
      | inl at ↦
          let same : event.key ≡ Key.enter = ground (arith, at) in
          let silent : types Key.enter ≡ false = refl in
          absurd (ground (arith, t.1, silent, ap types same))
      | inr away ↦ ground (arith, away)
    ]

receive-input_ready :
    (l : Line) (event : KeyboardEvent)
    → l.input_ready ≡ false
    → (receive l event).0.input_ready ≡ is_enter event
unfolding receive
receive-input_ready l event h =
    go (try_translate_text_event event) (try_translate_text_event-Translated event)
  where
    go :
        (o : Option ℕ)
        → Translated event o
        → (elim o as (λ x. Line × List ScreenCall) [
          | some c ↦
              let (l', added) = add_character l c in
              (l', if added then put_char c ∷ redraw l' else [])
          | none ↦
              if is_control_input_candidate_event event
              then control_key_dispatch l event.key
              else if is_navigation_input_candidate_event event
              then navigation_key_dispatch l event.key
              else (l, [])
        ]).0.input_ready
          ≡ is_enter event
    go none t =
        choose (is_enter event) (is_control_input_candidate_event event) _ _
          (λ c. control_key_dispatch-input_ready l event.key h ∙ control_enter event c)
          (λ c.
            let no_enter = no_control_enter event c in
            choose (is_enter event) (is_navigation_input_candidate_event event) _ _
              (λ _. navigation_key_dispatch-input_ready l event.key ∙ h ∙ sym no_enter)
              (λ _. h ∙ sym no_enter))
    go (some c) t = add_character-input_ready l c ∙ h ∙ sym (text_enter t c refl)

-- How the wait for a line ends: with a line that is ready, if Enter was among the events, and else not.
pub data Received (l : Line) (events : List KeyboardEvent)
    : Option (Line × List ScreenCall) → Type 0 where
  finished :
      (l' : Line) (calls : List ScreenCall)
      → enters events ≡ true
      → l'.input_ready ≡ true
      → Received l events (some (l', calls))
  waits : enters events ≡ false → Received l events none

ready_at_once :
    (l : Line) (events : List KeyboardEvent)
    → l.input_ready ≡ true
    → start_data_receiving l events ≡ some (l, [])
unfolding start_data_receiving
ready_at_once l [] h = rw h refl
ready_at_once l (event ∷ events) h = rw h refl

after-Received :
    (l : Line) (event : KeyboardEvent) (events : List KeyboardEvent) (calls : List ScreenCall)
    (l' : Line) (o : Option (Line × List ScreenCall))
    → is_enter event ≡ false
    → Received l' events o
    → Received l (event ∷ events) (after_calls calls o)
unfolding after_calls
after-Received l event events calls l' _ away (finished l'' more e r) =
    finished l'' (calls ++ more) (rw away e) r
after-Received l event events calls l' _ away (waits e) = waits (rw away e)

-- The wait of a line that is not ready takes an event.
if_false {ℓ} : {A : Type ℓ} (b : Bool) (x y : A) → b ≡ false → (if b then x else y) ≡ y
if_false true x y h = absurd (ground (arith, h))
if_false false x y h = refl

next_event :
    (l : Line) (event : KeyboardEvent) (events : List KeyboardEvent)
    → l.input_ready ≡ false
    → start_data_receiving l (event ∷ events)
      ≡ after_calls (receive l event).1 (start_data_receiving (receive l event).0 events)
unfolding start_data_receiving
next_event l event events h = if_false l.input_ready _ _ h

at_enter :
    (l : Line) (event : KeyboardEvent) (events : List KeyboardEvent) (r : Line × List ScreenCall)
    → is_enter event ≡ true
    → r.0.input_ready ≡ true
    → Received l (event ∷ events) (after_calls r.1 (start_data_receiving r.0 events))
unfolding after_calls
at_enter l event events r enter ready =
    subst (λ o. Received l (event ∷ events) (after_calls r.1 o))
      (sym (ready_at_once r.0 events ready)) (finished r.0 (r.1 ++ []) (rw enter refl) ready)

no_events : (l : Line) → l.input_ready ≡ false → Received l [] (start_data_receiving l [])
unfolding start_data_receiving
no_events l h = rw h (waits refl)

-- From a line that is not ready, whatever events arrive: `start_data_receiving` ends, with a line that
-- is ready, exactly if a press of Enter is among them.
pub start_data_receiving-Received :
    (l : Line) (events : List KeyboardEvent)
    → l.input_ready ≡ false
    → Received l events (start_data_receiving l events)
start_data_receiving-Received l [] h = no_events l h
start_data_receiving-Received l (event ∷ events) h =
    subst (Received l (event ∷ events)) (sym (next_event l event events h))
      (elim (Bool-cases (is_enter event)) [
        | inl enter ↦
            at_enter l event events (receive l event) enter (receive-input_ready l event h ∙ enter)
        | inr away ↦ after-Received l event events (receive l event).1 (receive l event).0 _ away (
            start_data_receiving-Received (receive l event).0 events
              (receive-input_ready l event h ∙ away))
      ])
