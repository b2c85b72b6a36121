-- ===== src/Boot.antt =====
-- main.cpp: the order in which the parts are started, up to the loop of the shell. The interrupts are
-- off until that loop, so that no handler runs before it.
pub mod Booted
mod Tests
use bare_metal_programming.Prelude.{ℕ, false, Option, none, some, List, []}
use mathlib.Core.Option
use bare_metal_programming.Screen.{Screen, fresh}
use bare_metal_programming.Screen.Memory.{Cells}
use bare_metal_programming.Output
use bare_metal_programming.Output.{Output, dec}
use bare_metal_programming.Pmm.Geometry.{Pmm}
use bare_metal_programming.Pmm.Init.{E820Entry, pmm_initialize}
use bare_metal_programming.Timer.{Timer, set_timer_frequency, initialize_pit}
use bare_metal_programming.Interrupts.{Ports}
use bare_metal_programming.Interrupts.Gates.{IdtEntry, idt_entry_table, initialize_exceptions}
use bare_metal_programming.Keyboard.Driver.{KeyboardState, initial_state}
use bare_metal_programming.Keyboard.Start.{Wire, initialize_keyboard}
use bare_metal_programming.Shell.{Turn, Shell, new_shell}
use bare_metal_programming.Shell.Commands.{run}

abbrev pub timer_frequency_hz : ℕ
timer_frequency_hz = 100

-- What the code finds: the screen's memory and registers, the vector flag, the bytes behind the
-- image, the memory map, the image's bounds, the entries of the interrupts, the controllers' masks,
-- the answers of the keyboard's ports and the keys of the shell's turns.
pub record Hardware : Type 0 where
  pub screen_cells : Cells
  pub cursor_start : ℕ
  pub cursor_end : ℕ
  pub mm_flag : ℕ
  pub behind_image : List ℕ
  pub entries : List E820Entry
  pub kernel_start : ℕ
  pub kernel_end : ℕ
  pub stub : ℕ → ℕ
  pub master_mask : ℕ
  pub slave_mask : ℕ
  pub device : ℕ → ℕ → ℕ
  pub turns : List Turn

-- `shell` is `none` while the shell waits for the rest of a line.
pub record Machine : Type 0 where
  pub pit : Ports
  pub timer : Timer
  pub memory : Pmm
  pub table : List IdtEntry
  pub ports : Ports
  pub keyboard : KeyboardState
  pub wire : Wire
  pub out : Output
  pub shell : Option Shell

abbrev pub new_output : Screen → Output
new_output buffer = record { buffer = buffer; state = dec; bool_alpha_enabled = false }

abbrev pub start_output : Hardware → Output
start_output h =
    Output.initialize h.cursor_start h.cursor_end (new_output (fresh h.screen_cells h.mm_flag))

-- `g_timer_ticks` and `g_timer_frequency` at the start.
abbrev pub timer_at_start : Timer
timer_at_start = record { g_timer_ticks = 0; g_timer_frequency = 0 }

abbrev pub wire_at_start : Wire
wire_at_start = record { reads = 0; writes = [] }

-- The rest of `kernel_main`, after the bytes for the interval timer.
unfoldable pub after_pit : Hardware → Ports → Machine
after_pit h pit =
    let timer = set_timer_frequency timer_frequency_hz timer_at_start in
    let memory = pmm_initialize h.mm_flag h.behind_image h.entries h.kernel_start h.kernel_end in
    let (table, ports) =
      initialize_exceptions h.stub h.master_mask h.slave_mask (idt_entry_table, []) in
    let (keyboard, wire, out) =
      initialize_keyboard h.device initial_state wire_at_start (start_output h) in
    record {
      pit = pit;
      timer = timer;
      memory = memory;
      table = table;
      ports = ports;
      keyboard = keyboard;
      wire = wire;
      out = out;
      shell = run h.turns (new_shell (new_output out.buffer) memory);
    }

-- `none` where the interval timer refuses its frequency.
unfoldable pub kernel_main : Hardware → Option Machine
kernel_main h = Option.map (after_pit h) (initialize_pit timer_frequency_hz)
