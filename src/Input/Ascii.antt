-- ===== src/Input/Ascii.antt =====
-- terminal/input.cpp: whatever keys are pressed, the buffer of the line holds ASCII codes.
use bare_metal_programming.Prelude.{
  ℕ, zero, suc, ◌+◌, ◌-◌, ◌<◌, ◌≡◌, refl, arith, ◌==◌, ltb, leb, Bool, true, false, if◌then◌else◌,
  Option, none, some, List, [], ◌∷◌, get_or, set, replicate, length,
}
use mathlib.Core.Option.{some-injective}
use mathlib.Core.Path.{subst}
use bare_metal_programming.Keyboard.Key
use bare_metal_programming.Keyboard.Events.{
  KeyboardEvent, try_translate_text_event, is_control_input_candidate_event,
  is_navigation_input_candidate_event,
}
use bare_metal_programming.Keyboard.Text.{
  Translated, no_text, text, try_translate_text_event-Translated,
}
use bare_metal_programming.Input.{
  input_capacity, Line, ScreenCall, put_char, right_loop, left_loop, move_data_right,
  move_data_left, string_length, copy_string, add_character, add_string, delete_character,
  move_cursor_left, move_cursor_right, reset_buffer, trim_end, trimmed_end, buffer_full,
  buffer_begin, count,
}
use bare_metal_programming.Input.Handlers.{
  redraw, spaces, handle_escape, handle_backspace, handle_tab, handle_enter, handle_home,
  handle_arrow_left, handle_arrow_right, handle_end, control_key_dispatch, navigation_key_dispatch,
  receive, after_calls, start_data_receiving,
}

-- Every character of the buffer is an ASCII code.
abbrev pub IsAscii : List ℕ → Type 0
IsAscii buffer = (i : ℕ) → get_or buffer i 0 < 128

pub set-IsAscii : (buffer : List ℕ) (k v : ℕ) → v < 128 → IsAscii buffer → IsAscii (set buffer k v)
set-IsAscii [] k v h a i = a i
set-IsAscii (x ∷ buffer) zero v h a zero = h
set-IsAscii (x ∷ buffer) zero v h a (suc i) = a (suc i)
set-IsAscii (x ∷ buffer) (suc k) v h a zero = a zero
set-IsAscii (x ∷ buffer) (suc k) v h a (suc i) = set-IsAscii buffer k v h (λ j. a (suc j)) i

pub replicate-IsAscii : (n : ℕ) → IsAscii (replicate n 0)
replicate-IsAscii zero i = omega arith
replicate-IsAscii (suc n) zero = omega arith
replicate-IsAscii (suc n) (suc i) = replicate-IsAscii n i

right_loop-IsAscii :
    (turns : ℕ) (buffer : List ℕ) (end_ step : ℕ)
    → IsAscii buffer
    → IsAscii (right_loop turns buffer end_ step)
unfolding right_loop
right_loop-IsAscii zero buffer end_ step a = a
right_loop-IsAscii (suc turns) buffer end_ step a =
    right_loop-IsAscii turns (set buffer end_ (get_or buffer (end_ - step) 0)) (end_ - 1) step
      (set-IsAscii buffer end_ (get_or buffer (end_ - step) 0) (a (end_ - step)) a)

left_loop-IsAscii :
    (turns : ℕ) (buffer : List ℕ) (begin step : ℕ)
    → IsAscii buffer
    → IsAscii (left_loop turns buffer begin step)
unfolding left_loop
left_loop-IsAscii zero buffer begin step a = a
left_loop-IsAscii (suc turns) buffer begin step a =
    left_loop-IsAscii turns (set buffer begin (get_or buffer (begin + step) 0)) (begin + 1) step
      (set-IsAscii buffer begin (get_or buffer (begin + step) 0) (a (begin + step)) a)

copy_string-IsAscii :
    (string buffer : List ℕ) (cursor : ℕ)
    → IsAscii string
    → IsAscii buffer
    → IsAscii (copy_string string buffer cursor)
unfolding copy_string
copy_string-IsAscii [] buffer cursor s a = a
copy_string-IsAscii (c ∷ string) buffer cursor s a =
    copy_string-IsAscii string (set buffer cursor c) (cursor + 1) (λ i. s (suc i))
      (set-IsAscii buffer cursor c (s 0) a)

if-IsAscii : (b : Bool) (x y : List ℕ) → IsAscii x → IsAscii y → IsAscii (if b then x else y)
if-IsAscii true x y p q = p
if-IsAscii false x y p q = q

-- A branch of an operation that returns a line and more.
pick :
    {A : Type 0} (b : Bool) (x y : Line × A)
    → IsAscii (x.0).input_buffer
    → IsAscii (y.0).input_buffer
    → IsAscii ((if b then x else y).0).input_buffer
pick true x y p q = p
pick false x y p q = q

add_character-IsAscii :
    (l : Line) (c : ℕ)
    → c < 128
    → IsAscii l.input_buffer
    → IsAscii ((add_character l c).0).input_buffer
unfolding add_character move_data_right
add_character-IsAscii l c h a = pick (buffer_full l) _ _ a (
    set-IsAscii _ (l.data_end + 1) 0 (omega arith) (
      set-IsAscii _ l.cursor c h (
        if-IsAscii (get_or l.input_buffer l.cursor 0 == 0) _ _ a
          (right_loop-IsAscii _ l.input_buffer l.data_end 1 a))))

add_string-IsAscii :
    (l : Line) (s : List ℕ)
    → IsAscii s
    → IsAscii l.input_buffer
    → IsAscii ((add_string l s).0).input_buffer
unfolding add_string move_data_right
add_string-IsAscii l s h a =
    pick (leb input_capacity (l.data_end + string_length s)) (l, false)
      (
        record l {
          input_buffer = copy_string s (set moved (l.data_end + string_length s) 0) l.cursor;
          cursor = l.cursor + length s;
          data_end = l.data_end + string_length s;
        },
        true,
      )
      a
      (copy_string-IsAscii s (set moved (l.data_end + string_length s) 0) l.cursor h (
        set-IsAscii moved (l.data_end + string_length s) 0 (omega arith) (
          if-IsAscii (get_or l.input_buffer l.cursor 0 == 0) _ _ a (
            right_loop-IsAscii _ l.input_buffer (l.data_end + string_length s) (string_length s)
              a))))
  where
    moved : List ℕ
    moved =
        if get_or l.input_buffer l.cursor 0 == 0
        then l.input_buffer
        else move_data_right l.input_buffer (l.data_end + string_length s)
            (l.cursor + string_length s - 1) (string_length s)

delete_character-IsAscii :
    (l : Line) → IsAscii l.input_buffer → IsAscii ((delete_character l).0).input_buffer
unfolding delete_character move_data_left
delete_character-IsAscii l a = pick (buffer_begin l) _ _ a (
    set-IsAscii _ (l.data_end - 1) 0 (omega arith)
      (left_loop-IsAscii _ l.input_buffer (l.cursor - 1) 1 a))

trim_end-IsAscii : (l : Line) → IsAscii l.input_buffer → IsAscii (trim_end l).input_buffer
unfolding trim_end
trim_end-IsAscii l a = go (l.data_end == 0)
  where
    go :
        (b : Bool)
        → IsAscii
            (if b then l else record l {
              data_end = trimmed_end l.input_buffer l.data_end;
              input_buffer = set l.input_buffer (trimmed_end l.input_buffer l.data_end) 0;
            }).input_buffer
    go true = a
    go false = set-IsAscii l.input_buffer (trimmed_end l.input_buffer l.data_end) 0 (omega arith) a

handle_enter-IsAscii :
    (l : Line) → IsAscii l.input_buffer → IsAscii ((handle_enter l).0).input_buffer
unfolding handle_enter
handle_enter-IsAscii l a = go (ltb 0 (count l))
  where
    go : (b : Bool) → IsAscii (if b then trim_end l else l).input_buffer
    go true = trim_end-IsAscii l a
    go false = a

spaces-IsAscii : IsAscii spaces
spaces-IsAscii zero = omega arith
spaces-IsAscii (suc zero) = omega arith
spaces-IsAscii (suc (suc zero)) = omega arith
spaces-IsAscii (suc (suc (suc zero))) = omega arith
spaces-IsAscii (suc (suc (suc (suc i)))) = omega arith

control-IsAscii :
    (l : Line) (key : ℕ)
    → IsAscii l.input_buffer
    → IsAscii ((control_key_dispatch l key).0).input_buffer
unfolding control_key_dispatch handle_escape handle_backspace handle_tab reset_buffer
control-IsAscii l key a =
    pick (key == Key.escape) _ _ (set-IsAscii l.input_buffer 0 0 (omega arith) a) (
      pick (key == Key.backspace) _ _ (delete_character-IsAscii l a) (
        pick (key == Key.tab) _ _ (add_string-IsAscii l spaces spaces-IsAscii a)
          (pick (key == Key.enter) _ _ (handle_enter-IsAscii l a) a)))

navigation-IsAscii :
    (l : Line) (key : ℕ)
    → IsAscii l.input_buffer
    → IsAscii ((navigation_key_dispatch l key).0).input_buffer
unfolding navigation_key_dispatch handle_home handle_arrow_left handle_arrow_right handle_end
    move_cursor_left move_cursor_right
navigation-IsAscii l key a = pick (key == Key.home) _ _ a (
    pick (key == Key.arrow_left) _ _ (pick (l.cursor == 0) _ _ a a) (
      pick (key == Key.arrow_right) _ _ (pick (l.cursor == l.data_end) _ _ a a)
        (pick (key == Key.end) _ _ a a)))

small : {event : KeyboardEvent} {o : Option ℕ} → Translated event o → (c : ℕ) → o ≡ some c → c < 128
small (no_text h) c e = cc
small (text d h low high letter other) c e = omega (arith, some-injective d c e)

receive-IsAscii :
    (l : Line) (event : KeyboardEvent)
    → IsAscii l.input_buffer
    → IsAscii ((receive l event).0).input_buffer
unfolding receive
receive-IsAscii l event a =
    go (try_translate_text_event event) (try_translate_text_event-Translated event)
  where
    go :
        (o : Option ℕ)
        → Translated event o
        → IsAscii
            ((elim o as (λ x. Line × List ScreenCall) [
              | some c ↦
                  let (l', added) = add_character l c in
                  (l', if added then put_char c ∷ redraw l' else [])
              | none ↦
                  if is_control_input_candidate_event event
                  then control_key_dispatch l event.key
                  else if is_navigation_input_candidate_event event
                  then navigation_key_dispatch l event.key
                  else (l, [])
            ]).0
              ).input_buffer
    go none t =
        pick (is_control_input_candidate_event event) _ _ (control-IsAscii l event.key a) (
          pick (is_navigation_input_candidate_event event) _ _ (navigation-IsAscii l event.key a) a)
    go (some c) t = add_character-IsAscii l c (small t c refl) a

after_calls-IsAscii :
    (calls : List ScreenCall) (o : Option (Line × List ScreenCall))
    → ((r : Line × List ScreenCall) → o ≡ some r → IsAscii r.0.input_buffer)
    → (r : Line × List ScreenCall) → after_calls calls o ≡ some r
    → IsAscii r.0.input_buffer
unfolding after_calls
after_calls-IsAscii calls none a r e = cc
after_calls-IsAscii calls (some (l, more)) a r e =
    subst (λ (x : Line × List ScreenCall). IsAscii x.0.input_buffer) (some-injective _ r e)
      (a (l, more) refl)

ready_or-IsAscii :
    (b : Bool) (l : Line) (o : Option (Line × List ScreenCall))
    → IsAscii l.input_buffer
    → ((r : Line × List ScreenCall) → o ≡ some r → IsAscii r.0.input_buffer)
    → (r : Line × List ScreenCall) → (if b then some (l, []) else o) ≡ some r
    → IsAscii r.0.input_buffer
ready_or-IsAscii true l o a rest r e =
    subst (λ (x : Line × List ScreenCall). IsAscii x.0.input_buffer) (some-injective (l, []) r e) a
ready_or-IsAscii false l o a rest r e = rest r e

-- Whatever events make a line ready, they leave ASCII codes in a buffer that holds ASCII codes.
pub start_data_receiving-IsAscii :
    (l : Line) (events : List KeyboardEvent)
    → IsAscii l.input_buffer
    → (r : Line × List ScreenCall) → start_data_receiving l events ≡ some r
    → IsAscii r.0.input_buffer
unfolding start_data_receiving
start_data_receiving-IsAscii l [] a r e = ready_or-IsAscii l.input_ready l none a (λ r' n. cc) r e
start_data_receiving-IsAscii l (event ∷ events) a r e =
    ready_or-IsAscii l.input_ready l _ a
      (after_calls-IsAscii (receive l event).1 _
        (start_data_receiving-IsAscii (receive l event).0 events (receive-IsAscii l event a)))
      r e
