-- ===== src/Interrupts/Dispatch.antt =====
-- kernel/exceptions.cpp: where each interrupt ends.
use bare_metal_programming.Prelude.{
  codes, ℕ, ◌-◌, ◌&&◌, ◌<◌, ◌≤◌, ◌≡◌, sym, refl, arith, cast, ltb, leb, ◌==◌, ◌⊎◌, inl, inr, true,
  false, Bool-cases, if◌then◌else◌, List, ◌∷◌, get_or,
}
use mathlib.Core.Path.{subst}
use bare_metal_programming.Interrupts.Logger.{panic}
use bare_metal_programming.Keyboard.Driver
use bare_metal_programming.Timer
use bare_metal_programming.Interrupts.{send_eoi}
use bare_metal_programming.Interrupts.Handlers.{
  InterruptFrame, Kernel, Handler, Outcome, returned, halted, irq_base, irq_max, handle_exception,
  handle_cpu_exception, default_interrupt_handler, handle_timer_interrupt,
  handle_keyboard_interrupt, interrupt_vector_count, g_interrupt_handlers, acknowledge,
  interrupt_dispatcher,
}
use bare_metal_programming.Interrupts.Report.{
  CpuException, divide_error, invalid_opcode, general_protection_fault, page_fault,
  exception_report, unhandled_report, reported, default_interrupt_handler_lem, handle_exception_lem,
}
use bare_metal_programming.Interrupts.Table.{if_cases, get_or-replicate, get_or-set}

handler_of_lem :
    (v : ℕ)
    → get_or g_interrupt_handlers v default_interrupt_handler ≡ (
        if v == 33
        then handle_keyboard_interrupt
        else if v == 32
        then handle_timer_interrupt
        else if v == 14
        then handle_cpu_exception
        else if v == 13
        then handle_cpu_exception
        else if v == 6
        then handle_cpu_exception
        else if v == 0
        then handle_cpu_exception
        else default_interrupt_handler)
unfolding g_interrupt_handlers
handler_of_lem v = simp (get_or-set, get_or-replicate)

pub data Dispatched (frame : InterruptFrame) (k : Kernel) : Outcome → Type 0 where
  timed :
      frame.vector ≡ 32
      → Dispatched frame k (
          returned (record k {
            timer = Timer.handle_timer_interrupt k.timer;
            ports = (0x20, 0x20) ∷ k.ports;
          }))
  typed :
      frame.vector ≡ 33
      → Dispatched frame k (
          returned (record k {
            keyboard = Driver.handle_keyboard_interrupt k.keyboard k.status k.scancode;
            ports = (0x20, 0x20) ∷ k.ports;
          }))
  logged_master :
      34 ≤ frame.vector
      → frame.vector < 40
      → Dispatched frame k (
          returned (record k {
            log = reported (unhandled_report frame) k;
            ports = (0x20, 0x20) ∷ k.ports;
          }))
  logged_slave :
      40 ≤ frame.vector
      → frame.vector ≤ 47
      → Dispatched frame k (
          returned (record k {
            log = reported (unhandled_report frame) k;
            ports = (0x20, 0x20) ∷ (0xA0, 0x20) ∷ k.ports;
          }))
  faulted :
      {name mnemonic : List ℕ}
      → CpuException frame.vector name mnemonic
      → Dispatched frame k (
          halted (record k {
            log =
                panic
                  (codes "Unhandled CPU exception")
                  (reported (exception_report name mnemonic frame) k);
          }))
  stopped :
      (frame.vector < 32) ⊎ (47 < frame.vector)
      → ((name mnemonic : List ℕ) → ¬ CpuException frame.vector name mnemonic)
      → Dispatched frame k (halted (record k { log = reported (unhandled_report frame) k }))

acknowledge_master :
    (v : ℕ) (k : Kernel)
    → 32 ≤ v
    → v < 40
    → acknowledge v (returned k) ≡ returned (record k { ports = (0x20, 0x20) ∷ k.ports })
unfolding acknowledge send_eoi
acknowledge_master v k l h =
    let number : cast 8 (v - 32) ≡ v - 32 = omega arith in
    let irq : (leb irq_base v && leb v irq_max) ≡ true = ground arith in
    let master : ltb 7 (v - 32) ≡ false = ground arith in rw irq (rw (number, master) refl)

acknowledge_slave :
    (v : ℕ) (k : Kernel)
    → 40 ≤ v
    → v ≤ 47
    → acknowledge v (returned k)
      ≡ returned (record k { ports = (0x20, 0x20) ∷ (0xA0, 0x20) ∷ k.ports })
unfolding acknowledge send_eoi
acknowledge_slave v k l h =
    let number : cast 8 (v - 32) ≡ v - 32 = omega arith in
    let irq : (leb irq_base v && leb v irq_max) ≡ true = ground arith in
    let slave : ltb 7 (v - 32) ≡ true = ground arith in rw irq (rw (number, slave) refl)

-- The report of an exception is the one of its vector.
titled :
    {v : ℕ} {name mnemonic : List ℕ}
    → CpuException v name mnemonic
    → (frame : InterruptFrame) (k : Kernel) → frame.vector ≡ v
    → handle_cpu_exception frame k ≡ handle_exception name mnemonic frame k
unfolding handle_cpu_exception
titled divide_error frame k e =
    let is : (frame.vector == 0) ≡ true = ground (arith, e) in rw is refl
titled invalid_opcode frame k e =
    let not_0 : (frame.vector == 0) ≡ false = ground (arith, e) in
    let is : (frame.vector == 6) ≡ true = ground (arith, e) in rw (not_0, is) refl
titled general_protection_fault frame k e =
    let not_0 : (frame.vector == 0) ≡ false = ground (arith, e) in
    let not_6 : (frame.vector == 6) ≡ false = ground (arith, e) in
    let is : (frame.vector == 13) ≡ true = ground (arith, e) in rw (not_0, not_6, is) refl
titled page_fault frame k e =
    let not_0 : (frame.vector == 0) ≡ false = ground (arith, e) in
    let not_6 : (frame.vector == 6) ≡ false = ground (arith, e) in
    let not_13 : (frame.vector == 13) ≡ false = ground (arith, e) in
    let is : (frame.vector == 14) ≡ true = ground (arith, e) in rw (not_0, not_6, not_13, is) refl

exception-Dispatched :
    {v : ℕ} {name mnemonic : List ℕ} (frame : InterruptFrame) (k : Kernel)
    → CpuException v name mnemonic
    → frame.vector ≡ v
    → Dispatched frame k (acknowledge frame.vector (handle_cpu_exception frame k))
unfolding acknowledge
exception-Dispatched {v} {name} {mnemonic} frame k c e =
    rw (titled c frame k e, handle_exception_lem name mnemonic frame k)
      (faulted (subst (λ n. CpuException n name mnemonic) (sym e) c))

no_exception :
    {v : ℕ} {name mnemonic : List ℕ}
    → ¬ (v ≡ 0)
    → ¬ (v ≡ 6)
    → ¬ (v ≡ 13)
    → ¬ (v ≡ 14)
    → ¬ CpuException v name mnemonic
no_exception a b c d divide_error = a refl
no_exception a b c d invalid_opcode = b refl
no_exception a b c d general_protection_fault = c refl
no_exception a b c d page_fault = d refl

default-Dispatched :
    (frame : InterruptFrame) (k : Kernel)
    → ¬ (frame.vector ≡ 32)
    → ¬ (frame.vector ≡ 33)
    → ((name mnemonic : List ℕ) → ¬ CpuException frame.vector name mnemonic)
    → Dispatched frame k (acknowledge frame.vector (default_interrupt_handler frame k))
unfolding acknowledge
default-Dispatched frame k t y none_of =
    rw (default_interrupt_handler_lem frame k)
      (elim (Bool-cases (leb irq_base frame.vector && leb frame.vector irq_max)) [
        | inl irq ↦ rw irq (elim (Bool-cases (ltb frame.vector 40)) [
          | inl m ↦
              let low : 34 ≤ frame.vector = ground (arith, irq, t, y) in
              let below : frame.vector < 40 = ground (arith, m) in
              rw
                (acknowledge_master frame.vector
                  (record k { log = reported (unhandled_report frame) k }) (omega arith) below)
                (logged_master low below)
          | inr s ↦
              let above : 40 ≤ frame.vector = ground (arith, s) in
              let high : frame.vector ≤ 47 = ground (arith, irq) in
              rw
                (acknowledge_slave frame.vector
                  (record k { log = reported (unhandled_report frame) k }) above high)
                (logged_slave above high)
        ])
        | inr other ↦ rw other (stopped (outside other) none_of)
      ])
  where
    outside :
        (leb irq_base frame.vector && leb frame.vector irq_max) ≡ false
        → (frame.vector < 32) ⊎ (47 < frame.vector)
    outside other = elim (Bool-cases (ltb frame.vector 32)) [
      | inl h ↦ inl (ground (arith, h))
      | inr h ↦ inr (ground (arith, h, other))
    ]

keyboard-Dispatched :
    (frame : InterruptFrame) (k : Kernel)
    → frame.vector ≡ 33
    → Dispatched frame k (acknowledge frame.vector (handle_keyboard_interrupt frame k))
unfolding handle_keyboard_interrupt
keyboard-Dispatched frame k v =
    rw (acknowledge_master frame.vector _ (omega arith) (omega arith)) (typed v)

timer-Dispatched :
    (frame : InterruptFrame) (k : Kernel)
    → frame.vector ≡ 32
    → Dispatched frame k (acknowledge frame.vector (handle_timer_interrupt frame k))
unfolding handle_timer_interrupt
timer-Dispatched frame k v =
    rw (acknowledge_master frame.vector _ (omega arith) (omega arith)) (timed v)

-- Where `interrupt_dispatcher` ends, for a vector below 256. The timer's interrupt, 32, counts a tick
-- and the keyboard's, 33, runs its handler, and both are then acknowledged at the first controller; a
-- vector from 34 to 39 is acknowledged there and one from 40 to 47 first at the second; for an
-- exception with a handler (0, 6, 13 and 14) and for any other vector the processor stops. The log then
-- holds the report of the exception, with its title and the panic, and for every other vector but 32
-- and 33 the report of an unhandled interrupt. Nothing else changes.
pub interrupt_dispatcher-Dispatched :
    (frame : InterruptFrame) (k : Kernel)
    → frame.vector < interrupt_vector_count
    → Dispatched frame k (interrupt_dispatcher frame k)
unfolding interrupt_dispatcher
interrupt_dispatcher-Dispatched frame k h =
    let Ends : Handler → Type 0 =
      λ handler. Dispatched frame k (acknowledge frame.vector (handler frame k)) in
    rw (handler_of_lem frame.vector) (
      if_cases Ends (frame.vector == 33) _ _ (λ v. keyboard-Dispatched frame k (ground (arith, v)))
        (λ y.
          if_cases Ends (frame.vector == 32) _ _ (λ v. timer-Dispatched frame k (ground (arith, v)))
            (λ t.
              if_cases Ends (frame.vector == 14) _ _
                (λ v. exception-Dispatched frame k page_fault (ground (arith, v)))
                (λ d.
                  if_cases Ends (frame.vector == 13) _ _
                    (λ v. exception-Dispatched frame k general_protection_fault (ground (arith, v)))
                    (λ c.
                      if_cases Ends (frame.vector == 6) _ _
                        (λ v. exception-Dispatched frame k invalid_opcode (ground (arith, v)))
                        (λ b.
                          if_cases Ends (frame.vector == 0) _ _
                            (λ v. exception-Dispatched frame k divide_error (ground (arith, v)))
                            (λ a.
                              default-Dispatched frame k (λ e. absurd (ground (arith, e, t)))
                                (λ e. absurd (ground (arith, e, y)))
                                (λ n m.
                                  no_exception (λ e. absurd (ground (arith, e, a)))
                                    (λ e. absurd (ground (arith, e, b)))
                                    (λ e. absurd (ground (arith, e, c)))
                                    (λ e. absurd (ground (arith, e, d)))))))))))
