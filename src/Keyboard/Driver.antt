-- ===== src/Keyboard/Driver.antt =====
-- The driver's state and its operations (drivers/keyboard/keyboard.cpp, lines 28 to 30, 146 to 224
-- and 264 to 333). The port reads of the handler are its arguments.
use bare_metal_programming.Prelude.{
  ℕ, ◌+◌, bit_and, bit_or, cast, wrap_sub, complement, leb, ◌==◌, Bool, true, false, if◌then◌else◌,
  Option, none, some, List, get_or, set, replicate,
}
use bare_metal_programming.Keyboard.Key
use bare_metal_programming.Keyboard.Tables.{map_scancode_set_1_key}
use bare_metal_programming.Keyboard.Events.{
  KeyState, released, pressed, KeyboardEvent, is_caps_down, is_caps_lock_active, left_shift_down,
  right_shift_down, left_ctrl_down, right_ctrl_down, left_alt_down, right_alt_down, caps_lock_down,
  caps_lock_on,
}

abbrev pub output_buffer_full : ℕ
output_buffer_full = 0x01

abbrev pub release_mask : ℕ
release_mask = 0x80

abbrev pub key_code_mask : ℕ
key_code_mask = 0x7F

abbrev pub extended_prefix : ℕ
extended_prefix = 0xE0

abbrev pub keyboard_event_queue_size : ℕ
keyboard_event_queue_size = 64

abbrev pub keyboard_event_queue_mask : ℕ
keyboard_event_queue_mask = 63

pub record KeyboardEventQueue : Type 0 where
  pub entries : List KeyboardEvent
  pub head : ℕ
  pub tail : ℕ
  pub count : ℕ

-- The globals of the translation unit.
pub record KeyboardState : Type 0 where
  pub extended_pending : Bool
  pub modifier_state : ℕ
  pub queue : KeyboardEventQueue

-- A zero-initialised entry.
abbrev pub blank_event : KeyboardEvent
blank_event = record {
  key = Key.unknown;
  key_code = 0;
  state = released;
  extended = false;
  modifiers = 0;
}

unfoldable pub initial_state : KeyboardState
initial_state = record {
  extended_pending = false;
  modifier_state = 0;
  queue = record {
    entries = replicate keyboard_event_queue_size blank_event;
    head = 0;
    tail = 0;
    count = 0;
  };
}

unfoldable pub next_keyboard_event : ℕ → ℕ
next_keyboard_event index = cast 8 (bit_and (index + 1) keyboard_event_queue_mask)

unfoldable pub commit_keyboard_event : KeyboardEventQueue → KeyboardEventQueue
commit_keyboard_event q = record q {
  tail = next_keyboard_event q.tail;
  count = cast 8 (q.count + 1);
}

-- `|= bit` and `&= ~bit`.
unfoldable pub raise : ℕ → ℕ → ℕ
raise modifiers bit = bit_or modifiers bit

unfoldable pub lower : ℕ → ℕ → ℕ
lower modifiers bit = cast 8 (bit_and modifiers (complement 32 bit))

unfoldable pub follow : ℕ → KeyState → ℕ → ℕ
follow bit pressed modifiers = raise modifiers bit
follow bit released modifiers = lower modifiers bit

unfoldable pub update_caps_lock : KeyState → ℕ → ℕ
update_caps_lock released modifiers = lower modifiers caps_lock_down
update_caps_lock pressed modifiers =
    let held = raise modifiers caps_lock_down in
    if is_caps_down modifiers
    then modifiers
    else if is_caps_lock_active held
    then lower held caps_lock_on
    else raise held caps_lock_on

unfoldable pub update_modifier_state : ℕ → KeyState → ℕ → ℕ
update_modifier_state key state modifiers =
    if key == Key.left_shift
    then follow left_shift_down state modifiers
    else if key == Key.right_shift
    then follow right_shift_down state modifiers
    else if key == Key.left_ctrl
    then follow left_ctrl_down state modifiers
    else if key == Key.right_ctrl
    then follow right_ctrl_down state modifiers
    else if key == Key.left_alt
    then follow left_alt_down state modifiers
    else if key == Key.right_alt
    then follow right_alt_down state modifiers
    else if key == Key.caps_lock
    then update_caps_lock state modifiers
    else modifiers

-- The event of a scan code, after the modifiers have been updated.
unfoldable pub event_of : KeyboardState → ℕ → KeyboardEvent
event_of k scancode =
    let key_code = bit_and scancode key_code_mask in
    let key = map_scancode_set_1_key key_code k.extended_pending in
    let state = if bit_and scancode release_mask == 0 then pressed else released in
    record {
      key = key;
      key_code = key_code;
      state = state;
      extended = k.extended_pending;
      modifiers = update_modifier_state key state k.modifier_state;
    }

-- `handle_keyboard_interrupt` with the bytes that the status port and the data port give.
unfoldable pub handle_keyboard_interrupt : KeyboardState → ℕ → ℕ → KeyboardState
handle_keyboard_interrupt k status scancode =
    let event = event_of k scancode in
    if bit_and status output_buffer_full == 0
    then k
    else if scancode == extended_prefix
    then record k { extended_pending = true }
    else if leb keyboard_event_queue_size k.queue.count
    then k
    else record {
      extended_pending = false;
      modifier_state = event.modifiers;
      queue =
          commit_keyboard_event
            (record (k.queue) { entries = set k.queue.entries k.queue.tail event });
    }

unfoldable pub current_keyboard_modifier_state : KeyboardState → ℕ
current_keyboard_modifier_state k = k.modifier_state

-- `none` where the source returns false.
unfoldable pub poll_keyboard_event : KeyboardState → KeyboardState × Option KeyboardEvent
poll_keyboard_event k = if k.queue.count == 0 then (k, none) else (
  record k {
    queue = record (k.queue) {
      head = next_keyboard_event k.queue.head;
      count = wrap_sub 8 k.queue.count 1;
    };
  },
  some (get_or k.queue.entries k.queue.head blank_event),
)

unfoldable pub has_pending_keyboard_event : KeyboardState → ℕ
has_pending_keyboard_event k = k.queue.count
