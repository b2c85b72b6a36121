-- ===== src/Interrupts/Installed.antt =====
-- kernel/exceptions.cpp, `initialize_exceptions`: the gates and the bytes for the controller.
use bare_metal_programming.Prelude.{
  ℕ, ◌+◌, ◌*◌, ◌/◌, ◌^◌, ◌<◌, ◌≡◌, refl, arith, bit_and-ones, true, false, Bool, ◌==◌, ◌||◌,
  if◌then◌else◌, List, ◌∷◌, get_or,
}
use bare_metal_programming.Interrupts.{
  at_controller, Ports, pic_remap, mask_all_except_timer_and_keyboard,
}
use bare_metal_programming.Interrupts.Gates.{
  IdtEntry, empty_entry, idt_entry_table, set_interrupt_gate, cpu_interrupt_list,
  hardware_interrupt_list, install_exception, install_all, initialize_exceptions,
}
use bare_metal_programming.Interrupts.Table.{if_cases, get_or-replicate, get_or-set}

-- The vectors of the two lists.
abbrev pub is_listed : ℕ → Bool
is_listed v = v == 0 || v == 6 || v == 13 || v == 14 || v == 32 || v == 33

pub data Gate (stub : ℕ → ℕ) (v : ℕ) (entry : IdtEntry) : Type 0 where
  filled :
      is_listed v ≡ true
      → entry.offset_low + entry.offset_high * 65536 ≡ stub v
      → entry.selector ≡ 8
      → entry.type_attributes ≡ 0x8E
      → Gate stub v entry
  unused : is_listed v ≡ false → entry ≡ empty_entry → Gate stub v entry

pub record Initialized (stub : ℕ → ℕ) (master_mask slave_mask : ℕ) (ports : Ports)
    (result : List IdtEntry × Ports) : Type 0 where
  pub gates : (v : ℕ) → Gate stub v (get_or result.0 v empty_entry)
  pub master :
      at_controller 0x20 0x21 result.1
      ≡ (0x21, 0xFC)
        ∷ (0x21, master_mask)
        ∷ (0x21, 0x01)
        ∷ (0x21, 0x04)
        ∷ (0x21, 32)
        ∷ (0x20, 0x11)
        ∷ at_controller 0x20 0x21 ports
  pub slave :
      at_controller 0xA0 0xA1 result.1
      ≡ (0xA1, 0xFF)
        ∷ (0xA1, slave_mask)
        ∷ (0xA1, 0x01)
        ∷ (0xA1, 0x02)
        ∷ (0xA1, 40)
        ∷ (0xA0, 0x11)
        ∷ at_controller 0xA0 0xA1 ports

module _ (stub : ℕ → ℕ) (in_range : (v : ℕ) → stub v < 2 ^ 32) where
  gate_of : ℕ → IdtEntry
  gate_of v = get_or (set_interrupt_gate 0 (stub v) 0x08 0x8E idt_entry_table) 0 empty_entry

  gates_lem :
      (v : ℕ)
      → get_or
          (install_all stub hardware_interrupt_list
            (install_all stub cpu_interrupt_list idt_entry_table))
          v
          empty_entry
        ≡ (if v == 33
            then gate_of 33
            else if v == 32
            then gate_of 32
            else if v == 14
            then gate_of 14
            else if v == 13
            then gate_of 13
            else if v == 6
            then gate_of 6
            else if v == 0
            then gate_of 0
            else empty_entry)
  unfolding install_all install_exception set_interrupt_gate gate_of
  gates_lem v = simp (get_or-set, get_or-replicate)

  gate_of-Gate : (v n : ℕ) → v ≡ n → is_listed v ≡ true → Gate stub v (gate_of n)
  unfolding gate_of set_interrupt_gate
  gate_of-Gate v n e l =
      let bound = in_range n in
      filled l (rw e (ground (arith, bit_and-ones 16 (stub n), bit_and-ones 16 (stub n / 2 ^ 16))))
        refl refl

  -- After `initialize_exceptions`, for stubs at addresses of 32 bits: exactly the vectors of the two
  -- lists have a gate, with the stub's address, the code selector and the attributes of an interrupt
  -- gate, and each controller got, in this order, its start, its first vector (32 and 40), its place,
  -- its mode, its old mask and the mask that leaves only timer and keyboard.
  pub initialize_exceptions-Initialized :
      (master_mask slave_mask : ℕ) (ports : Ports)
      → Initialized stub master_mask slave_mask ports
          (initialize_exceptions stub master_mask slave_mask (idt_entry_table, ports))
  unfolding initialize_exceptions pic_remap mask_all_except_timer_and_keyboard at_controller
  initialize_exceptions-Initialized master_mask slave_mask ports = record {
    gates = λ v. rw (gates_lem v) (gates_of v);
    master = refl;
    slave = refl;
  }
    where
      gates_of :
          (v : ℕ)
          → Gate stub v (
              if v == 33
              then gate_of 33
              else if v == 32
              then gate_of 32
              else if v == 14
              then gate_of 14
              else if v == 13
              then gate_of 13
              else if v == 6
              then gate_of 6
              else if v == 0
              then gate_of 0
              else empty_entry)
      gates_of v =
          let hit = gate_of-Gate v in
          if_cases (Gate stub v) (v == 33) _ _ (λ e. hit 33 (ground (arith, e)) (ground (arith, e)))
            (λ a.
              if_cases (Gate stub v) (v == 32) _ _
                (λ e. hit 32 (ground (arith, e)) (ground (arith, e)))
                (λ b.
                  if_cases (Gate stub v) (v == 14) _ _
                    (λ e. hit 14 (ground (arith, e)) (ground (arith, e)))
                    (λ c.
                      if_cases (Gate stub v) (v == 13) _ _
                        (λ e. hit 13 (ground (arith, e)) (ground (arith, e)))
                        (λ d.
                          if_cases (Gate stub v) (v == 6) _ _
                            (λ e. hit 6 (ground (arith, e)) (ground (arith, e)))
                            (λ f.
                              if_cases (Gate stub v) (v == 0) _ _
                                (λ e. hit 0 (ground (arith, e)) (ground (arith, e)))
                                (λ g. unused (rw (a, b, c, d, f, g) refl) refl))))))
