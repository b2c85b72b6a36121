-- ===== src/Interrupts/Gates.antt =====
-- kernel/idt.h, kernel/idt.cpp and the end of kernel/exceptions.cpp: the interrupt gates.
use bare_metal_programming.Prelude.{ℕ, bit_and, cast, ◌>>>◌, List, [], ◌∷◌, set, replicate}
use bare_metal_programming.Interrupts.{Ports, pic_remap, mask_all_except_timer_and_keyboard}

pub record IdtEntry : Type 0 where
  pub offset_low : ℕ
  pub selector : ℕ
  pub zero_byte : ℕ
  pub type_attributes : ℕ
  pub offset_high : ℕ

abbrev pub total_entries : ℕ
total_entries = 256

abbrev pub empty_entry : IdtEntry
empty_entry = record {
  offset_low = 0;
  selector = 0;
  zero_byte = 0;
  type_attributes = 0;
  offset_high = 0;
}

-- `idt_entry_table` at the start.
abbrev pub idt_entry_table : List IdtEntry
idt_entry_table = replicate total_entries empty_entry

unfoldable pub set_interrupt_gate : ℕ → ℕ → ℕ → ℕ → List IdtEntry → List IdtEntry
set_interrupt_gate vector handler_address selector type_attributes table =
    set table vector (record {
      offset_low = cast 16 (bit_and handler_address 0xFFFF);
      selector = selector;
      zero_byte = 0;
      type_attributes = type_attributes;
      offset_high = cast 16 (bit_and (handler_address >>> 16) 0xFFFF);
    })

abbrev pub kernel_code_selector : ℕ
kernel_code_selector = 0x08

abbrev pub interrupt_gate_attributes : ℕ
interrupt_gate_attributes = 0x8E

-- The vectors of CPU_INTERRUPT_LIST and HARDWARE_INTERRUPT_LIST.
abbrev pub cpu_interrupt_list : List ℕ
cpu_interrupt_list = 0 ∷ 6 ∷ 13 ∷ 14 ∷ []

abbrev pub hardware_interrupt_list : List ℕ
hardware_interrupt_list = 32 ∷ 33 ∷ []

-- `stub` gives the address of the assembly entry of a vector.
module _ (stub : ℕ → ℕ) where
  unfoldable pub install_exception : ℕ → List IdtEntry → List IdtEntry
  install_exception vector table =
      set_interrupt_gate vector (stub vector) kernel_code_selector interrupt_gate_attributes table

  unfoldable pub install_all : List ℕ → List IdtEntry → List IdtEntry
  install_all [] table = table
  install_all (vector ∷ vectors) table = install_all vectors (install_exception vector table)

  -- `initialize_exceptions` up to the load of the table.
  unfoldable pub initialize_exceptions : ℕ → ℕ → List IdtEntry × Ports → List IdtEntry × Ports
  initialize_exceptions master_mask slave_mask (table, ports) = (
    install_all hardware_interrupt_list (install_all cpu_interrupt_list table),
    mask_all_except_timer_and_keyboard (pic_remap master_mask slave_mask 32 40 ports),
  )
