-- ===== src/Keyboard/Events.antt =====
-- Events and their classification (drivers/keyboard/keyboard.h), and the translation of an event to
-- a character (drivers/keyboard/keyboard.cpp, lines 239 to 262).
use bare_metal_programming.Prelude.{
  ℕ, bit_and, leb, ◌==◌, Bool, true, false, not, ◌&&◌, ◌||◌, if◌then◌else◌, Option, none, some,
}
use bare_metal_programming.Keyboard.Key
use bare_metal_programming.Keyboard.Tables.{get_normal_character, get_shifted_character}

pub data KeyState : Type 0 where
  released pressed : KeyState

-- The bits of `keyboard_modifier_state`.
abbrev pub left_shift_down : ℕ
left_shift_down = 0x01

abbrev pub right_shift_down : ℕ
right_shift_down = 0x02

abbrev pub left_ctrl_down : ℕ
left_ctrl_down = 0x04

abbrev pub right_ctrl_down : ℕ
right_ctrl_down = 0x08

abbrev pub left_alt_down : ℕ
left_alt_down = 0x10

abbrev pub right_alt_down : ℕ
right_alt_down = 0x20

abbrev pub caps_lock_down : ℕ
caps_lock_down = 0x40

abbrev pub caps_lock_on : ℕ
caps_lock_on = 0x80

pub record KeyboardEvent : Type 0 where
  pub key : ℕ
  pub key_code : ℕ
  pub state : KeyState
  pub extended : Bool
  pub modifiers : ℕ

unfoldable pub is_shift_active : ℕ → Bool
is_shift_active mod_ = not (bit_and mod_ 0x03 == 0)

unfoldable pub is_ctrl_active : ℕ → Bool
is_ctrl_active mod_ = not (bit_and mod_ 0x0C == 0)

unfoldable pub is_alt_active : ℕ → Bool
is_alt_active mod_ = not (bit_and mod_ 0x30 == 0)

unfoldable pub is_caps_down : ℕ → Bool
is_caps_down mod_ = not (bit_and mod_ caps_lock_down == 0)

unfoldable pub is_caps_lock_active : ℕ → Bool
is_caps_lock_active mod_ = not (bit_and mod_ caps_lock_on == 0)

unfoldable pub is_modifier_key : ℕ → Bool
is_modifier_key key =
    key == Key.left_shift
    || key == Key.right_shift
    || key == Key.left_ctrl
    || key == Key.right_ctrl
    || key == Key.right_alt
    || key == Key.left_alt
    || key == Key.caps_lock

-- `first <= key && key <= last`.
abbrev between : ℕ → ℕ → ℕ → Bool
between first last key = leb first key && leb key last

unfoldable pub is_letter_key : ℕ → Bool
is_letter_key key = between Key.q Key.p key || between Key.a Key.l key || between Key.z Key.m key

unfoldable pub is_digit_key : ℕ → Bool
is_digit_key key = between Key.digit_1 Key.digit_0 key

unfoldable pub is_space_key : ℕ → Bool
is_space_key key = key == Key.space

unfoldable pub is_symbol_key : ℕ → Bool
is_symbol_key key =
    between Key.semicolon Key.backtick key
    || between Key.comma Key.slash key
    || (key == Key.minus
        || key == Key.equals
        || key == Key.left_bracket
        || key == Key.right_bracket
        || key == Key.back_slash)

unfoldable pub is_arrow_key : ℕ → Bool
is_arrow_key key =
    key == Key.arrow_up || key == Key.arrow_down || key == Key.arrow_left || key == Key.arrow_right

unfoldable pub is_navigation_key : ℕ → Bool
is_navigation_key key =
    key == Key.home
    || key == Key.page_up
    || key == Key.end
    || key == Key.page_down
    || is_arrow_key key

unfoldable pub is_editing_key : ℕ → Bool
is_editing_key key = key == Key.insert || key == Key.delete_key || key == Key.backspace

unfoldable pub is_text_key : ℕ → Bool
is_text_key key = is_letter_key key || is_digit_key key || is_space_key key || is_symbol_key key

unfoldable pub is_control_key : ℕ → Bool
is_control_key key = key == Key.escape || key == Key.backspace || key == Key.tab || key == Key.enter

unfoldable pub is_pressed_event : KeyboardEvent → Bool
is_pressed_event event = elim event.state [ pressed ↦ true | released ↦ false ]

unfoldable pub is_released_event : KeyboardEvent → Bool
is_released_event event = elim event.state [ pressed ↦ false | released ↦ true ]

unfoldable pub is_modifier_event : KeyboardEvent → Bool
is_modifier_event event = is_modifier_key event.key

unfoldable pub is_non_modifier_event : KeyboardEvent → Bool
is_non_modifier_event event = not (is_modifier_event event)

unfoldable pub is_non_modifier_press_event : KeyboardEvent → Bool
is_non_modifier_press_event event = is_pressed_event event && is_non_modifier_event event

unfoldable pub is_input_candidate_event : KeyboardEvent → Bool
is_input_candidate_event event = is_pressed_event event && is_non_modifier_event event

unfoldable pub is_text_input_candidate_event : KeyboardEvent → Bool
is_text_input_candidate_event event = is_input_candidate_event event && is_text_key event.key

unfoldable pub is_control_input_candidate_event : KeyboardEvent → Bool
is_control_input_candidate_event event = is_input_candidate_event event && is_control_key event.key

unfoldable pub is_navigation_input_candidate_event : KeyboardEvent → Bool
is_navigation_input_candidate_event event =
    is_input_candidate_event event && is_navigation_key event.key

-- `shift_pressed != caps_on`.
abbrev pub differ : Bool → Bool → Bool
differ true c = not c
differ false c = c

-- `none` where the source returns false and stores '\0'.
unfoldable pub try_translate_text_event : KeyboardEvent → Option ℕ
try_translate_text_event event =
    let shift_pressed = is_shift_active event.modifiers in
    let caps_on = is_caps_lock_active event.modifiers in
    let shifted = if is_letter_key event.key then differ shift_pressed caps_on else shift_pressed in
    if is_text_input_candidate_event event
    then some (if shifted then get_shifted_character event.key else get_normal_character event.key)
    else none
