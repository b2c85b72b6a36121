-- ===== src/Keyboard/Tests.antt =====
-- Concrete runs of the keyboard driver.
use bare_metal_programming.Prelude.{refl, [], ℕ, ◌≡◌, arith, false, test_bit, if◌then◌else◌, ◌==◌}
use bare_metal_programming.Keyboard.Key
use bare_metal_programming.Keyboard.Events.{KeyboardEvent, pressed, try_translate_text_event}
use bare_metal_programming.Keyboard.Driver.{
  initial_state, update_modifier_state, handle_keyboard_interrupt, poll_keyboard_event,
}
use bare_metal_programming.Keyboard.Queue.{
  Handled, Polled, handle_keyboard_interrupt-Handled, poll_keyboard_event-Polled,
  initial_state-IsQueue,
}
use bare_metal_programming.Output.{Output, dec}
use bare_metal_programming.Screen.{fresh}
use bare_metal_programming.Keyboard.Started.{Started, initialize_keyboard-Started}
use bare_metal_programming.Keyboard.Start.{
  Wire, initialize_keyboard, flush_keyboard_output_buffer, flush_loop, then_send, sent,
  acknowledged, send_keyboard_byte_and_wait_ack, wait_input_buffer_clear, input_loop,
  read_keyboard_ack, wait_output_buffer_full, output_loop,
}
use bare_metal_programming.Keyboard.Modifiers.{
  HeldKey, is_down, caps_lock_bit, update_modifier_state_lem,
}
use bare_metal_programming.Keyboard.Text.{Translated, try_translate_text_event-Translated}

-- 'A', with the left shift key held.
abbrev capital_a : KeyboardEvent
capital_a = record {
  key = Key.a;
  key_code = 0x1E;
  state = pressed;
  extended = false;
  modifiers = 0x01;
}

handle_keyboard_interrupt-Handled_example :
    Handled initial_state 1 0x1E (handle_keyboard_interrupt initial_state 1 0x1E)
handle_keyboard_interrupt-Handled_example =
    handle_keyboard_interrupt-Handled initial_state initial_state-IsQueue.0 1 0x1E

poll_keyboard_event-Polled_example : Polled initial_state (poll_keyboard_event initial_state)
poll_keyboard_event-Polled_example =
    poll_keyboard_event-Polled initial_state initial_state-IsQueue.0

update_modifier_state_lem_example :
    ((key bit : ℕ)
      → HeldKey key bit
      → test_bit (update_modifier_state key pressed 0x01) 7
        ≡ (if 7 == bit then is_down pressed else test_bit 0x01 7))
    × (test_bit (update_modifier_state Key.caps_lock pressed 0x01) 7 ≡ caps_lock_bit pressed 0x01 7)
update_modifier_state_lem_example =
    update_modifier_state_lem pressed 0x01 7 (omega arith) (omega arith)

try_translate_text_event-Translated_example :
    Translated capital_a (try_translate_text_event capital_a)
try_translate_text_event-Translated_example = try_translate_text_event-Translated capital_a

-- A controller that is never busy, has a byte ready after the first read, and acknowledges.
abbrev obedient : ℕ → ℕ → ℕ
obedient turn port = if port == 0x60 then 0xFA else if turn == 0 then 0x00 else 0x01

abbrev untouched : Wire
untouched = record { reads = 0; writes = [] }

abbrev a_log : Output
a_log = record { buffer = fresh (λ i. 0) 0; state = dec; bool_alpha_enabled = false }

seven_reads : (initialize_keyboard obedient initial_state untouched a_log).1.reads ≡ 7
unfolding initialize_keyboard flush_keyboard_output_buffer flush_loop then_send sent acknowledged
    send_keyboard_byte_and_wait_ack wait_input_buffer_clear input_loop read_keyboard_ack
    wait_output_buffer_full output_loop
seven_reads = refl

initialize_keyboard-Started_example :
    Started obedient initial_state untouched a_log
      (initialize_keyboard obedient initial_state untouched a_log)
initialize_keyboard-Started_example =
    initialize_keyboard-Started obedient initial_state untouched a_log
