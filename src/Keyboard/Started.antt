-- ===== src/Keyboard/Started.antt =====
-- What the start of the keyboard sends, waits for and reports (drivers/keyboard/keyboard.cpp, lines 244
-- to 254).
use bare_metal_programming.Prelude.{
  ℕ, ◌+◌, ◌≤◌, ◌<◌, ◌≡◌, refl, ◌∙◌, ap, arith, inl, inr, Bool, true, false, ◌∷◌, codes,
}
use bare_metal_programming.Interrupts.Logger.{warning}
use bare_metal_programming.Keyboard.Driver.{KeyboardState}
use bare_metal_programming.Keyboard.Start.{
  Wire, data_port, keyboard_timeout, set_leds_command, all_leds_off, flush_keyboard_output_buffer,
  then_send, warn_unless, initialize_keyboard,
}
use bare_metal_programming.Keyboard.Exchange.{
  data_bytes, Polled, IsClear, Sent, send-Sent, flush_loop-Polled,
}
use bare_metal_programming.Output.{Output}
use bare_metal_programming.Output.Arrays.{insert_text}

abbrev pub ready : KeyboardState → KeyboardState
ready k = record k { modifier_state = 0 }

abbrev pub warned : Output → Output
warned log = insert_text (codes "Failed to initialize Keyboard\n") (warning log)

-- The two bytes with the reads `clear_1` and `clear_2` just before them, and the answer to the first.
pub data Started (device : ℕ → ℕ → ℕ) (k : KeyboardState) (w : Wire) (log : Output)
    : KeyboardState × Wire × Output → Type 0 where
  completed :
      (w' : Wire) (clear_1 answer_1 clear_2 answer_2 : ℕ)
      → w'.reads ≤ w.reads + 600002
      → data_bytes w' ≡ (clear_2 + 1, 0x00) ∷ (clear_1 + 1, 0xED) ∷ data_bytes w
      → (w.reads ≤ clear_1)
        × (clear_1 < answer_1)
        × (answer_1 < clear_2)
        × (clear_2 < answer_2)
        × (answer_2 < w'.reads)
      → IsClear device clear_1 × IsClear device clear_2
      → (device answer_1 data_port ≡ 0xFA) × (device answer_2 data_port ≡ 0xFA)
      → Started device k w log (ready k, w', log)
  nothing_sent :
      (w' : Wire)
      → w'.reads ≤ w.reads + 400001
      → data_bytes w' ≡ data_bytes w
      → Started device k w log (ready k, w', warned log)
  first_failed :
      (w' : Wire) (clear_1 : ℕ)
      → w'.reads ≤ w.reads + 400001
      → data_bytes w' ≡ (clear_1 + 1, 0xED) ∷ data_bytes w
      → (w.reads ≤ clear_1) × (clear_1 < w'.reads)
      → IsClear device clear_1
      → Started device k w log (ready k, w', warned log)
  second_unsent :
      (w' : Wire) (clear_1 answer_1 : ℕ)
      → w'.reads ≤ w.reads + 600002
      → data_bytes w' ≡ (clear_1 + 1, 0xED) ∷ data_bytes w
      → (w.reads ≤ clear_1) × (clear_1 < answer_1) × (answer_1 < w'.reads)
      → IsClear device clear_1
      → device answer_1 data_port ≡ 0xFA
      → Started device k w log (ready k, w', warned log)
  second_failed :
      (w' : Wire) (clear_1 answer_1 clear_2 : ℕ)
      → w'.reads ≤ w.reads + 600002
      → data_bytes w' ≡ (clear_2 + 1, 0x00) ∷ (clear_1 + 1, 0xED) ∷ data_bytes w
      → (w.reads ≤ clear_1) × (clear_1 < answer_1) × (answer_1 < clear_2) × (clear_2 < w'.reads)
      → IsClear device clear_1 × IsClear device clear_2
      → device answer_1 data_port ≡ 0xFA
      → Started device k w log (ready k, w', warned log)

module _ (device : ℕ → ℕ → ℕ) (k : KeyboardState) (w : Wire) (log : Output) where
  abbrev result_of : Bool × Wire → KeyboardState × Wire × Output
  result_of r = (ready k, r.1, warn_unless r.0 log)

  second-Started :
      (w0 w1 : Wire) (r : Bool × Wire)
      → Polled 200000 w w0
      → Sent device set_leds_command w0 (true, w1)
      → Sent device all_leds_off w1 r
      → Started device k w log (result_of r)
  unfolding warn_unless
  second-Started w0 w1 (true, w2) p first second =
      let (clear_1, answer_1, at_1, l1, l2, ack_1) = first.success refl in
      let (clear_2, answer_2, at_2, m1, m2, ack_2) = second.success refl in
      completed w2 clear_1 answer_1 clear_2 answer_2 (omega (arith, p.few, first.few, second.few))
        (at_2.bytes
          ∙ ap (λ t. (clear_2 + 1, 0x00) ∷ t)
              (at_1.bytes ∙ ap (λ t. (clear_1 + 1, 0xED) ∷ t) p.quiet))
        (omega (arith, p.forward, at_1.later), l1, omega (arith, at_2.later), m1, omega arith)
        (at_1.is_clear, at_2.is_clear) (ack_1, ack_2)
  second-Started w0 w1 (false, w2) p first second =
      let (clear_1, answer_1, at_1, l1, l2, ack_1) = first.success refl in
      let bytes : data_bytes w1 ≡ (clear_1 + 1, 0xED) ∷ data_bytes w =
        at_1.bytes ∙ ap (λ t. (clear_1 + 1, 0xED) ∷ t) p.quiet in
      let few : w2.reads ≤ w.reads + 600002 = omega (arith, p.few, first.few, second.few) in
      let begin : w.reads ≤ clear_1 = omega (arith, p.forward, at_1.later) in
      elim (second.failure refl) [
        | inl same ↦
            second_unsent w2 clear_1 answer_1 few (same ∙ bytes)
              (begin, l1, omega (arith, second.forward)) at_1.is_clear ack_1
        | inr (clear_2, at_2) ↦
            second_failed w2 clear_1 answer_1 clear_2 few
              (at_2.bytes ∙ ap (λ t. (clear_2 + 1, 0x00) ∷ t) bytes)
              (begin, l1, omega (arith, at_2.later), at_2.before) (at_1.is_clear, at_2.is_clear)
              ack_1
      ]

  first-Started :
      (w0 : Wire) (r : Bool × Wire)
      → Polled 200000 w w0
      → Sent device set_leds_command w0 r
      → Started device k w log (result_of (then_send device all_leds_off r))
  unfolding then_send warn_unless
  first-Started w0 (true, w1) p first =
      second-Started w0 w1 _ p first (send-Sent device all_leds_off w1)
  first-Started w0 (false, w1) p first =
      let few : w1.reads ≤ w.reads + 400001 = omega (arith, p.few, first.few) in
      elim (first.failure refl) [
        | inl same ↦ nothing_sent w1 few (same ∙ p.quiet)
        | inr (clear_1, at_1) ↦
            first_failed w1 clear_1 few (at_1.bytes ∙ ap (λ t. (clear_1 + 1, 0xED) ∷ t) p.quiet)
              (omega (arith, p.forward, at_1.later), at_1.before) at_1.is_clear
      ]

  -- Whatever the controller answers, `initialize_keyboard` ends after at most 600,002 reads with no
  -- modifier held and the rest of the driver's state unchanged. What it writes to the data port is
  -- nothing, 0xED, or 0xED and then 0x00; the last read before each of these bytes found the input
  -- buffer clear; and 0x00 follows only where 0xFA was read after 0xED. It is silent only if 0xFA was
  -- read after 0x00 too, and otherwise it warns.
  pub initialize_keyboard-Started : Started device k w log (initialize_keyboard device k w log)
  unfolding initialize_keyboard flush_keyboard_output_buffer
  initialize_keyboard-Started =
      first-Started _ _ (flush_loop-Polled device keyboard_timeout w)
        (send-Sent device set_leds_command _)
