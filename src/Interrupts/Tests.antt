-- ===== src/Interrupts/Tests.antt =====
-- The interrupts at concrete frames and addresses.
use bare_metal_programming.Prelude.{ℕ, ◌+◌, ◌*◌, ◌<◌, ◌^◌, ◌%◌, ◌≡◌, refl, arith, [], ◌∷◌, false}
use bare_metal_programming.Keyboard.Driver.{initial_state}
use bare_metal_programming.Output.{dec}
use bare_metal_programming.Screen.{fresh}
use bare_metal_programming.Interrupts.Segments.{
  gdt_table, get_segment, Segment, get_segment-Segment,
}
use bare_metal_programming.Interrupts.Gates.{idt_entry_table, initialize_exceptions}
use bare_metal_programming.Interrupts.Handlers.{InterruptFrame, Kernel, interrupt_dispatcher}
use bare_metal_programming.Interrupts.Dispatch.{Dispatched, interrupt_dispatcher-Dispatched}
use bare_metal_programming.Interrupts.Installed.{Initialized, initialize_exceptions-Initialized}

abbrev frame_of : ℕ → InterruptFrame
frame_of number = record {
  edi = 0;
  esi = 0;
  ebp = 0;
  esp = 0;
  ebx = 0;
  edx = 0;
  ecx = 0;
  eax = 0;
  vector = number;
  error_code = 0;
  eip = 0x7E00;
  cs = 8;
  eflags = 0x202;
}

abbrev a_kernel : Kernel
a_kernel = record {
  timer = record { g_timer_ticks = 4294967295; g_timer_frequency = 100 };
  keyboard = initial_state;
  log = record { buffer = fresh (λ i. 0) 0; state = dec; bool_alpha_enabled = false };
  ports = [];
  status = 1;
  scancode = 0x1E;
}

interrupt_dispatcher-Dispatched_example :
    Dispatched (frame_of 44) a_kernel (interrupt_dispatcher (frame_of 44) a_kernel)
interrupt_dispatcher-Dispatched_example =
    interrupt_dispatcher-Dispatched (frame_of 44) a_kernel (omega arith)

-- Eight bytes of code for each vector.
abbrev stub_at : ℕ → ℕ
stub_at v = 0x10000 + v % 256 * 8

stub_at-lt : (v : ℕ) → stub_at v < 2 ^ 32
stub_at-lt v = omega arith

initialize_exceptions-Initialized_example :
    Initialized stub_at 0xB8 0x8E [] (initialize_exceptions stub_at 0xB8 0x8E (idt_entry_table, []))
initialize_exceptions-Initialized_example =
    initialize_exceptions-Initialized stub_at stub_at-lt 0xB8 0x8E []

asserted : gdt_table ≡ 0 ∷ 0x00CF9B000000FFFF ∷ 0x00CF93000000FFFF ∷ []
unfolding gdt_table get_segment
asserted = refl

get_segment-Segment_example :
    Segment 0x12345678 0xABCDE 0x9B 0x0C (get_segment 0x12345678 0xABCDE 0x9B 0x0C)
get_segment-Segment_example =
    get_segment-Segment 0x12345678 0xABCDE 0x9B 0x0C (omega arith) (omega arith) (omega arith)
      (omega arith)
