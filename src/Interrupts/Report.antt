-- ===== src/Interrupts/Report.antt =====
-- kernel/exceptions.cpp, lines 66 to 105: what the handlers write of an interrupt.
use bare_metal_programming.Prelude.{ℕ, ◌&&◌, ◌≡◌, refl, leb, if◌then◌else◌, List, [], ◌∷◌, codes}
use bare_metal_programming.Output.{Output}
use bare_metal_programming.Output.Chain.{
  Item, char, string, uint32, text, to_dec, to_hex, insert, insert_all,
}
use bare_metal_programming.Interrupts.Logger.{error, panic}
use bare_metal_programming.Interrupts.Handlers.{
  InterruptFrame, Kernel, returned, halted, irq_base, irq_max, handle_exception,
  default_interrupt_handler,
}

-- The four exceptions that have a handler, with their titles and mnemonics.
pub data CpuException : ℕ → List ℕ → List ℕ → Type 0 where
  divide_error : CpuException 0 (codes "Divide Error") (codes "#DE")
  invalid_opcode : CpuException 6 (codes "Invalid Opcode") (codes "#UD")
  general_protection_fault : CpuException 13 (codes "General Protection Fault") (codes "#GP")
  page_fault : CpuException 14 (codes "Page Fault") (codes "#PF")

-- What is written of an exception and of an interrupt without a handler, behind "[ERROR]: ".
abbrev pub exception_report : List ℕ → List ℕ → InterruptFrame → List Item
exception_report name mnemonic frame =
    text (codes "CPU exception: ")
    ∷ string name
    ∷ char b' '
    ∷ string mnemonic
    ∷ to_hex
    ∷ text (codes "\nEIP:")
    ∷ uint32 frame.eip
    ∷ text (codes "\nEFLAGS:")
    ∷ uint32 frame.eflags
    ∷ text (codes "\nError Code:")
    ∷ uint32 frame.error_code
    ∷ text (codes "\nEAX:")
    ∷ uint32 frame.eax
    ∷ text (codes "     ECX:")
    ∷ uint32 frame.ecx
    ∷ text (codes "\nEDX:")
    ∷ uint32 frame.edx
    ∷ text (codes " EBX:")
    ∷ uint32 frame.ebx
    ∷ text (codes "\nESP:")
    ∷ uint32 frame.esp
    ∷ text (codes " EBP:")
    ∷ uint32 frame.ebp
    ∷ text (codes "\nESI:")
    ∷ uint32 frame.esi
    ∷ text (codes "  EDI:")
    ∷ uint32 frame.edi
    ∷ text (codes "\nVector:")
    ∷ uint32 frame.vector
    ∷ char b'\n'
    ∷ []

abbrev pub unhandled_report : InterruptFrame → List Item
unhandled_report frame =
    text (codes "Unhandled interrupt vector: ")
    ∷ uint32 frame.vector
    ∷ text (codes "\nError Code: ")
    ∷ uint32 frame.error_code
    ∷ text (codes "\nEIP: ")
    ∷ to_hex
    ∷ uint32 frame.eip
    ∷ char b'\n'
    ∷ to_dec
    ∷ []

-- The log after a report; a report holds no pointer, so that the parameter of the printers is 0.
abbrev pub reported : List Item → Kernel → Output
reported items k = insert_all 0 items (error k.log)

pub default_interrupt_handler_lem :
    (frame : InterruptFrame) (k : Kernel)
    → default_interrupt_handler frame k ≡ (
        if leb irq_base frame.vector && leb frame.vector irq_max
        then returned (record k { log = reported (unhandled_report frame) k })
        else halted (record k { log = reported (unhandled_report frame) k }))
unfolding default_interrupt_handler insert_all insert
default_interrupt_handler_lem frame k = refl

pub handle_exception_lem :
    (name mnemonic : List ℕ) (frame : InterruptFrame) (k : Kernel)
    → handle_exception name mnemonic frame k
      ≡ halted (record k {
        log =
            panic
              (codes "Unhandled CPU exception")
              (reported (exception_report name mnemonic frame) k);
      })
unfolding handle_exception insert_all insert
handle_exception_lem name mnemonic frame k = refl
