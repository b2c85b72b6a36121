-- ===== src/Keyboard/Start.antt =====
-- The start of the keyboard (drivers/keyboard/keyboard.cpp, lines 11 to 20, 102 to 144 and 244 to
-- 254): the exchange of bytes with its controller. What a read of a port gives is a function of the
-- number of reads before it and of the port.
use bare_metal_programming.Prelude.{
  ℕ, zero, suc, ◌+◌, bit_and, ◌==◌, Bool, true, false, List, ◌∷◌, codes,
}
use bare_metal_programming.Interrupts.Logger.{warning}
use bare_metal_programming.Keyboard.Driver.{KeyboardState, output_buffer_full}
use bare_metal_programming.Output.{Output}
use bare_metal_programming.Output.Arrays.{insert_text}

abbrev pub data_port : ℕ
data_port = 0x60

abbrev pub status_port : ℕ
status_port = 0x64

abbrev pub input_buffer_full : ℕ
input_buffer_full = 0x02

abbrev pub keyboard_timeout : ℕ
keyboard_timeout = 100000

abbrev pub keyboard_ack : ℕ
keyboard_ack = 0xFA

abbrev pub set_leds_command : ℕ
set_leds_command = 0xED

abbrev pub all_leds_off : ℕ
all_leds_off = 0x00

-- A byte written, with the number of reads before it.
pub record Write : Type 0 where
  pub time : ℕ
  pub port : ℕ
  pub value : ℕ

-- The reads so far, and what was written, the newest first.
pub record Wire : Type 0 where
  pub reads : ℕ
  pub writes : List Write

abbrev pub outb : ℕ → ℕ → Wire → Wire
outb port value w = record w {
  writes = (record { time = w.reads; port = port; value = value }) ∷ w.writes;
}

-- `io_wait`
abbrev pub wait : Wire → Wire
wait = outb 0x80 0

abbrev pub after_read : Wire → Wire
after_read w = record w { reads = w.reads + 1 }

unfoldable pub warn_unless : Bool → Output → Output
warn_unless true log = log
warn_unless false log = insert_text (codes "Failed to initialize Keyboard\n") (warning log)

module _ (device : ℕ → ℕ → ℕ) where
  abbrev pub inb : ℕ → Wire → ℕ
  inb port w = device w.reads port

  unfoldable pub input_loop : ℕ → Wire → Bool × Wire
  input_loop zero w = (false, w)
  input_loop (suc attempts) w = elim (bit_and (inb status_port w) input_buffer_full == 0) [
    | true ↦ (true, after_read w)
    | false ↦ input_loop attempts (wait (after_read w))
  ]

  unfoldable pub wait_input_buffer_clear : Wire → Bool × Wire
  wait_input_buffer_clear w = input_loop keyboard_timeout w

  unfoldable pub output_loop : ℕ → Wire → Bool × Wire
  output_loop zero w = (false, w)
  output_loop (suc attempts) w = elim (bit_and (inb status_port w) output_buffer_full == 0) [
    | false ↦ (true, after_read w)
    | true ↦ output_loop attempts (wait (after_read w))
  ]

  unfoldable pub wait_output_buffer_full : Wire → Bool × Wire
  wait_output_buffer_full w = output_loop keyboard_timeout w

  unfoldable pub acknowledged : Bool × Wire → Bool × Wire
  acknowledged (false, w) = (false, w)
  acknowledged (true, w) = (inb data_port w == keyboard_ack, after_read w)

  unfoldable pub read_keyboard_ack : Wire → Bool × Wire
  read_keyboard_ack w = acknowledged (wait_output_buffer_full w)

  unfoldable pub sent : ℕ → Bool × Wire → Bool × Wire
  sent byte (false, w) = (false, w)
  sent byte (true, w) = read_keyboard_ack (outb data_port byte w)

  unfoldable pub send_keyboard_byte_and_wait_ack : ℕ → Wire → Bool × Wire
  send_keyboard_byte_and_wait_ack byte w = sent byte (wait_input_buffer_clear w)

  unfoldable pub flush_loop : ℕ → Wire → Wire
  flush_loop zero w = w
  flush_loop (suc attempts) w = elim (bit_and (inb status_port w) output_buffer_full == 0) [
    | true ↦ after_read w
    | false ↦ flush_loop attempts (wait (after_read (after_read w)))
  ]

  unfoldable pub flush_keyboard_output_buffer : Wire → Wire
  flush_keyboard_output_buffer w = flush_loop keyboard_timeout w

  -- The second command is sent only if the first is acknowledged.
  unfoldable pub then_send : ℕ → Bool × Wire → Bool × Wire
  then_send byte (false, w) = (false, w)
  then_send byte (true, w) = send_keyboard_byte_and_wait_ack byte w

  -- `log`: what a new logger holds.
  unfoldable pub initialize_keyboard : KeyboardState → Wire → Output → KeyboardState × Wire × Output
  initialize_keyboard k w log =
      let w = flush_keyboard_output_buffer w in
      let result = then_send all_leds_off (send_keyboard_byte_and_wait_ack set_leds_command w) in
      (record k { modifier_state = 0 }, result.1, warn_unless result.0 log)
