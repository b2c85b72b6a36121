-- ===== src/Keyboard/Exchange.antt =====
-- What one command to the keyboard sends and waits for (drivers/keyboard/keyboard.cpp, lines 102 to
-- 144).
use bare_metal_programming.Prelude.{
  ℕ, zero, suc, ◌+◌, ◌*◌, ◌≤◌, ◌<◌, ◌≡◌, refl, ◌∙◌, ap, arith, bit_and, ◌==◌, ◌⊎◌, inl, inr, Bool,
  true, false, if◌then◌else◌, List, [], ◌∷◌,
}
use bare_metal_programming.Keyboard.Start.{
  Write, Wire, data_port, status_port, input_buffer_full, keyboard_timeout, keyboard_ack,
  after_read, wait, outb, inb, input_loop, wait_input_buffer_clear, output_loop,
  wait_output_buffer_full, acknowledged, read_keyboard_ack, sent, send_keyboard_byte_and_wait_ack,
  flush_loop,
}

-- The bytes for the data port, each with the number of reads before it.
unfoldable pub bytes_of : List Write → List (ℕ × ℕ)
bytes_of [] = []
bytes_of (w ∷ writes) =
    let rest = bytes_of writes in if w.port == data_port then (w.time, w.value) ∷ rest else rest

abbrev pub data_bytes : Wire → List (ℕ × ℕ)
data_bytes w = bytes_of w.writes

-- At most `n` reads, and nothing written to the data port.
pub record Polled (n : ℕ) (w w' : Wire) : Type 0 where
  pub quiet : data_bytes w' ≡ data_bytes w
  pub forward : w.reads ≤ w'.reads
  pub few : w'.reads ≤ w.reads + n

pub Polled-trans :
    (m n k : ℕ) (a b c : Wire) → m + n ≤ k → Polled m a b → Polled n b c → Polled k a c
Polled-trans m n k a b c h p q = record {
  quiet = q.quiet ∙ p.quiet;
  forward = omega (arith, p.forward, q.forward);
  few = omega (arith, p.few, q.few);
}

-- One read, with or without a wait after it.
read-Polled : (w : Wire) → Polled 1 w (after_read w)
read-Polled w = record { quiet = refl; forward = omega arith; few = omega arith }

pause-Polled : (w : Wire) → Polled 1 w (wait (after_read w))
unfolding bytes_of
pause-Polled w = record { quiet = refl; forward = omega arith; few = omega arith }

pub more-Polled : (m n : ℕ) (w w' : Wire) → m ≤ n → Polled m w w' → Polled n w w'
more-Polled m n w w' h p = record {
  quiet = p.quiet;
  forward = p.forward;
  few = omega (arith, p.few);
}

module _ (device : ℕ → ℕ → ℕ) where
  abbrev pub IsClear : ℕ → Type 0
  IsClear t = (bit_and (device t status_port) input_buffer_full == 0) ≡ true

  -- After a success, the last read found the input buffer clear.
  abbrev Cleared : ℕ → Wire → Bool × Wire → Type 0
  Cleared n w r =
      Polled n w r.1 × (r.0 ≡ true → (t : ℕ) × (w.reads ≤ t) × (suc t ≡ r.1.reads) × IsClear t)

  input_step :
      (n : ℕ) (w : Wire) (b : Bool) (r : Bool × Wire)
      → (bit_and (inb device status_port w) input_buffer_full == 0) ≡ b
      → Cleared n (wait (after_read w)) r
      → Cleared (suc n) w (elim b [ true ↦ (true, after_read w) | false ↦ r ])
  input_step n w true r e c = (
    more-Polled 1 (suc n) w _ (omega arith) (read-Polled w),
    λ _. (w.reads, omega arith, omega arith, e),
  )
  input_step n w false r e (p, found) = (
    Polled-trans 1 n (suc n) w _ r.1 (omega arith) (pause-Polled w) p,
    λ ok. let (t, after, last, clear) = found ok in (t, omega arith, last, clear),
  )

  input_loop-Cleared : (n : ℕ) (w : Wire) → Cleared n w (input_loop device n w)
  unfolding input_loop
  input_loop-Cleared zero w = (
    record { quiet = refl; forward = omega arith; few = omega arith },
    λ ok. absurd (ground (arith, ok)),
  )
  input_loop-Cleared (suc n) w =
      input_step n w _ _ refl (input_loop-Cleared n (wait (after_read w)))

  output_step :
      (n : ℕ) (w : Wire) (b : Bool) (r : Bool × Wire)
      → Polled n (wait (after_read w)) r.1
      → Polled
          (suc n)
          w
          (elim b as (λ _. Bool × Wire) [ false ↦ (true, after_read w) | true ↦ r ]).1
  output_step n w false r p = more-Polled 1 (suc n) w _ (omega arith) (read-Polled w)
  output_step n w true r p = Polled-trans 1 n (suc n) w _ r.1 (omega arith) (pause-Polled w) p

  output_loop-Polled : (n : ℕ) (w : Wire) → Polled n w (output_loop device n w).1
  unfolding output_loop
  output_loop-Polled zero w = record { quiet = refl; forward = omega arith; few = omega arith }
  output_loop-Polled (suc n) w = output_step n w _ _ (output_loop-Polled n (wait (after_read w)))

  flush_step :
      (n : ℕ) (w r : Wire) (b : Bool)
      → Polled (2 * n) (wait (after_read (after_read w))) r
      → Polled (2 * suc n) w (elim b [ true ↦ after_read w | false ↦ r ])
  flush_step n w r true p = more-Polled 1 (2 * suc n) w _ (omega arith) (read-Polled w)
  flush_step n w r false p =
      let twice =
        Polled-trans 1 1 2 w _ _ (omega arith) (read-Polled w) (pause-Polled (after_read w)) in
      Polled-trans 2 (2 * n) (2 * suc n) w _ r (omega arith) twice p

  pub flush_loop-Polled : (n : ℕ) (w : Wire) → Polled (2 * n) w (flush_loop device n w)
  unfolding flush_loop
  flush_loop-Polled zero w = record { quiet = refl; forward = omega arith; few = omega arith }
  flush_loop-Polled (suc n) w =
      flush_step n w _ _ (flush_loop-Polled n (wait (after_read (after_read w))))

  -- The byte was written once, and the last read before it found the input buffer clear.
  pub record WrittenAt (clear byte : ℕ) (w w' : Wire) : Type 0 where
    pub later : w.reads ≤ clear
    pub before : clear < w'.reads
    pub is_clear : IsClear clear
    pub bytes : data_bytes w' ≡ (clear + 1, byte) ∷ data_bytes w

  -- What one command leaves: at most 200,001 reads; without a success the byte may be written or not,
  -- and after one the last read is the answer.
  pub record Sent (byte : ℕ) (w : Wire) (r : Bool × Wire) : Type 0 where
    pub forward : w.reads ≤ r.1.reads
    pub few : r.1.reads ≤ w.reads + 200001
    pub failure :
        r.0 ≡ false → (data_bytes r.1 ≡ data_bytes w) ⊎ ((clear : ℕ) × WrittenAt clear byte w r.1)
    pub success :
        r.0 ≡ true
        → (clear : ℕ) × (answer : ℕ) × WrittenAt clear byte w r.1
          × (clear < answer)
          × (suc answer ≡ r.1.reads)
          × (device answer data_port ≡ keyboard_ack)

  -- The byte is written after the read `clear`, and the wait for the answer follows.
  written_at :
      (byte : ℕ) (w w1 w2 : Wire) (clear : ℕ)
      → w.reads ≤ clear
      → suc clear ≡ w1.reads
      → IsClear clear
      → data_bytes w1 ≡ data_bytes w
      → Polled 100000 (outb data_port byte w1) w2
      → WrittenAt clear byte w w2
  unfolding bytes_of
  written_at byte w w1 w2 clear after last c q p = record {
    later = after;
    before = omega (arith, p.forward);
    is_clear = c;
    bytes =
        p.quiet
        ∙ ap (λ t. (w1.reads, byte) ∷ t) q
        ∙ ap (λ t. (t, byte) ∷ data_bytes w) (let at : w1.reads ≡ clear + 1 = omega arith in at);
  }

  acknowledged-Sent :
      (byte : ℕ) (w w1 : Wire) (clear : ℕ) (r : Bool × Wire)
      → w.reads ≤ clear
      → suc clear ≡ w1.reads
      → w1.reads ≤ w.reads + 100000
      → IsClear clear
      → data_bytes w1 ≡ data_bytes w
      → Polled 100000 (outb data_port byte w1) r.1
      → Sent byte w (acknowledged device r)
  unfolding acknowledged
  acknowledged-Sent byte w w1 clear (false, w2) after last few c q p = record {
    forward = omega (arith, p.forward);
    few = omega (arith, p.few);
    failure = λ _. inr (clear, written_at byte w w1 w2 clear after last c q p);
    success = λ ok. absurd (ground (arith, ok));
  }
  acknowledged-Sent byte w w1 clear (true, w2) after last few c q p = record {
    forward = omega (arith, p.forward);
    few = omega (arith, p.few);
    failure = λ _. inr (clear, at);
    success =
        λ ok. (clear, w2.reads, at, omega (arith, p.forward), omega arith, ground (arith, ok));
  }
    where
      at : WrittenAt clear byte w (after_read w2)
      at =
          let a = written_at byte w w1 w2 clear after last c q p in
          record {
            later = a.later;
            before = omega (arith, a.before);
            is_clear = a.is_clear;
            bytes = a.bytes;
          }

  sent-Sent :
      (byte : ℕ) (w : Wire) (r : Bool × Wire)
      → Cleared 100000 w r
      → Sent byte w (sent device byte r)
  unfolding sent read_keyboard_ack wait_output_buffer_full
  sent-Sent byte w (false, w1) (p, found) = record {
    forward = p.forward;
    few = omega (arith, p.few);
    failure = λ _. inl p.quiet;
    success = λ ok. absurd (ground (arith, ok));
  }
  sent-Sent byte w (true, w1) (p, found) =
      let (clear, after, last, c) = found refl in
      acknowledged-Sent byte w w1 clear _ after last p.few c p.quiet
        (output_loop-Polled keyboard_timeout (outb data_port byte w1))

  pub send-Sent :
      (byte : ℕ) (w : Wire) → Sent byte w (send_keyboard_byte_and_wait_ack device byte w)
  unfolding send_keyboard_byte_and_wait_ack wait_input_buffer_clear
  send-Sent byte w = sent-Sent byte w _ (input_loop-Cleared keyboard_timeout w)
