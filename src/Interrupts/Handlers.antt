-- ===== src/Interrupts/Handlers.antt =====
-- kernel/exceptions.cpp, lines 13 to 137, and kernel/internal/interrupt_frame.h: the handlers and the
-- dispatcher.
use bare_metal_programming.Prelude.{
  ℕ, ◌-◌, cast, leb, ◌==◌, ◌&&◌, if◌then◌else◌, List, get_or, set, replicate, codes,
}
use bare_metal_programming.Keyboard.Driver
use bare_metal_programming.Keyboard.Driver.{KeyboardState}
use bare_metal_programming.Output.{Output}
use bare_metal_programming.Output.Insert.{
  insert_char, insert_string, insert_uint32, set_dec, set_hex,
}
use bare_metal_programming.Output.Arrays.{insert_text}
use bare_metal_programming.Timer
use bare_metal_programming.Timer.{Timer}
use bare_metal_programming.Interrupts.{Ports, send_eoi}
use bare_metal_programming.Interrupts.Logger.{error, warning, panic}

pub record InterruptFrame : Type 0 where
  pub edi : ℕ
  pub esi : ℕ
  pub ebp : ℕ
  pub esp : ℕ
  pub ebx : ℕ
  pub edx : ℕ
  pub ecx : ℕ
  pub eax : ℕ
  pub vector : ℕ
  pub error_code : ℕ
  pub eip : ℕ
  pub cs : ℕ
  pub eflags : ℕ

-- What the handlers change; `status` and `scancode` are the bytes that the keyboard's ports give.
pub record Kernel : Type 0 where
  pub timer : Timer
  pub keyboard : KeyboardState
  pub log : Output
  pub ports : Ports
  pub status : ℕ
  pub scancode : ℕ

pub data Outcome : Type 0 where
  returned : Kernel → Outcome
  halted : Kernel → Outcome

abbrev pub irq_base : ℕ
irq_base = 32

abbrev pub irq_max : ℕ
irq_max = 47

-- A chain of `<<`: the output, then what takes it.
infixl 20 ◌◁◌
abbrev pub ◌◁◌ : Output → (Output → Output) → Output
o ◁ write = write o

unfoldable pub handle_exception : List ℕ → List ℕ → InterruptFrame → Kernel → Outcome
handle_exception name mnemonic frame k = halted (record k {
  log =
      error k.log
      ◁ insert_text (codes "CPU exception: ")
      ◁ insert_string name
      ◁ insert_char b' '
      ◁ insert_string mnemonic
      ◁ set_hex
      ◁ insert_text (codes "\nEIP:")
      ◁ insert_uint32 frame.eip
      ◁ insert_text (codes "\nEFLAGS:")
      ◁ insert_uint32 frame.eflags
      ◁ insert_text (codes "\nError Code:")
      ◁ insert_uint32 frame.error_code
      ◁ insert_text (codes "\nEAX:")
      ◁ insert_uint32 frame.eax
      ◁ insert_text (codes "     ECX:")
      ◁ insert_uint32 frame.ecx
      ◁ insert_text (codes "\nEDX:")
      ◁ insert_uint32 frame.edx
      ◁ insert_text (codes " EBX:")
      ◁ insert_uint32 frame.ebx
      ◁ insert_text (codes "\nESP:")
      ◁ insert_uint32 frame.esp
      ◁ insert_text (codes " EBP:")
      ◁ insert_uint32 frame.ebp
      ◁ insert_text (codes "\nESI:")
      ◁ insert_uint32 frame.esi
      ◁ insert_text (codes "  EDI:")
      ◁ insert_uint32 frame.edi
      ◁ insert_text (codes "\nVector:")
      ◁ insert_uint32 frame.vector
      ◁ insert_char b'\n'
      ◁ panic (codes "Unhandled CPU exception");
})

unfoldable pub handle_cpu_exception : InterruptFrame → Kernel → Outcome
handle_cpu_exception frame k =
    if frame.vector == 0
    then handle_exception (codes "Divide Error") (codes "#DE") frame k
    else if frame.vector == 6
    then handle_exception (codes "Invalid Opcode") (codes "#UD") frame k
    else if frame.vector == 13
    then handle_exception (codes "General Protection Fault") (codes "#GP") frame k
    else if frame.vector == 14
    then handle_exception (codes "Page Fault") (codes "#PF") frame k
    else halted (record k {
      log =
          warning k.log
          ◁ insert_text (codes "No handler registered in vector ")
          ◁ insert_uint32 frame.vector;
    })

-- The pointer to the frame is not null: it is the one of `interrupt_dispatcher`.
unfoldable pub default_interrupt_handler : InterruptFrame → Kernel → Outcome
default_interrupt_handler frame k =
    let k' = record k {
      log =
          error k.log
          ◁ insert_text (codes "Unhandled interrupt vector: ")
          ◁ insert_uint32 frame.vector
          ◁ insert_text (codes "\nError Code: ")
          ◁ insert_uint32 frame.error_code
          ◁ insert_text (codes "\nEIP: ")
          ◁ set_hex
          ◁ insert_uint32 frame.eip
          ◁ insert_char b'\n'
          ◁ set_dec;
    } in
    if leb irq_base frame.vector && leb frame.vector irq_max then returned k' else halted k'

unfoldable pub handle_timer_interrupt : InterruptFrame → Kernel → Outcome
handle_timer_interrupt frame k =
    returned (record k { timer = Timer.handle_timer_interrupt k.timer })

unfoldable pub handle_keyboard_interrupt : InterruptFrame → Kernel → Outcome
handle_keyboard_interrupt frame k =
    returned
      (record k { keyboard = Driver.handle_keyboard_interrupt k.keyboard k.status k.scancode })

abbrev pub Handler : Type 0
Handler = InterruptFrame → Kernel → Outcome

abbrev pub interrupt_vector_count : ℕ
interrupt_vector_count = 256

-- The assignments of the constructor, over the entries that its loop fills.
unfoldable pub g_interrupt_handlers : List Handler
g_interrupt_handlers =
    let entries = replicate interrupt_vector_count default_interrupt_handler in
    let entries = set entries 0 handle_cpu_exception in
    let entries = set entries 6 handle_cpu_exception in
    let entries = set entries 13 handle_cpu_exception in
    let entries = set entries 14 handle_cpu_exception in
    let entries = set entries 32 handle_timer_interrupt in set entries 33 handle_keyboard_interrupt

-- The end of `interrupt_dispatcher`, if the handler returns.
unfoldable pub acknowledge : ℕ → Outcome → Outcome
acknowledge vector (halted k) = halted k
acknowledge vector (returned k) = returned (
    if leb irq_base vector && leb vector irq_max
    then record k { ports = send_eoi (cast 8 (vector - irq_base)) k.ports }
    else k)

unfoldable pub interrupt_dispatcher : InterruptFrame → Kernel → Outcome
interrupt_dispatcher frame k =
    acknowledge frame.vector
      (get_or g_interrupt_handlers frame.vector default_interrupt_handler frame k)
