-- ===== src/Boot/Booted.antt =====
-- What `kernel_main` of main.cpp establishes before the shell takes keys.
use bare_metal_programming.Prelude.{ℕ, ◌^◌, ◌<◌, ◌≡◌, refl, ap, arith, some, []}
use mathlib.Core.Option
use bare_metal_programming.Boot.{
  Hardware, Machine, new_output, start_output, wire_at_start, after_pit, kernel_main,
}
use bare_metal_programming.Interrupts.Installed.{Initialized, initialize_exceptions-Initialized}
use bare_metal_programming.Keyboard.Driver.{initial_state}
use bare_metal_programming.Keyboard.Started.{Started, initialize_keyboard-Started}
use bare_metal_programming.Pmm.Init.{frames_of_map}
use bare_metal_programming.Pmm.Init.Fresh.{IsBoot}
use bare_metal_programming.Pmm.Init.Entries
use bare_metal_programming.Pmm.Init.Entries.{Disjoint, pmm_initialize-Initialized}
use bare_metal_programming.Shell.{new_shell}
use bare_metal_programming.Shell.Runs.{Session, run-Session}
use bare_metal_programming.Timer.{divisor_of, set_timer_frequency}
use bare_metal_programming.Timer.Divisor.{Divides, programmed, initialize_pit-Divides}

pub record Booted (h : Hardware) (m : Machine) : Type 0 where
  pub pit : m.pit ≡ programmed (divisor_of 100)
  pub divisor : Divides 100 (divisor_of 100)
  pub frequency : m.timer.g_timer_frequency ≡ 100
  pub memory :
      Entries.Initialized (frames_of_map h.entries) h.entries h.kernel_start h.kernel_end m.memory
  pub interrupts : Initialized h.stub h.master_mask h.slave_mask [] (m.table, m.ports)
  pub keyboard :
      Started h.device initial_state wire_at_start (start_output h) (m.keyboard, m.wire, m.out)
  pub session : Session h.turns (new_shell (new_output m.out.buffer) m.memory) m.shell

-- For a usable memory map and stubs at addresses of 32 bits, `kernel_main` does not panic, and
-- then: the interval timer has the best divisor for 100 Hz and the tick counter its frequency; the free
-- frames are those of usable memory but frame 0 and those of the image and the bitmap; the gates and
-- the controllers are as after `initialize_exceptions`; the keyboard is as after
-- `initialize_keyboard`; and the shell has run, over that memory and that screen, the turns whose keys
-- hold Enter, up to "exit" or to the first turn without Enter, where it waits.
pub kernel_main-Booted :
    (h : Hardware)
    → IsBoot h.behind_image h.entries h.kernel_start h.kernel_end
    → Disjoint (frames_of_map h.entries) h.entries
    → ((v : ℕ) → h.stub v < 2 ^ 32)
    → (m : Machine) × (kernel_main h ≡ some m) × Booted h m
unfolding kernel_main after_pit set_timer_frequency
kernel_main-Booted h boot disjoint stubs =
    let (served, divides) = (initialize_pit-Divides 100).0 (omega arith) (omega arith) in
    (
      after_pit h (programmed (divisor_of 100)),
      ap (Option.map (after_pit h)) served,
      record {
        pit = refl;
        divisor = divides;
        frequency = refl;
        memory =
            pmm_initialize-Initialized h.mm_flag h.behind_image h.entries h.kernel_start
              h.kernel_end boot disjoint;
        interrupts = initialize_exceptions-Initialized h.stub stubs h.master_mask h.slave_mask [];
        keyboard = initialize_keyboard-Started h.device initial_state _ (start_output h);
        session = run-Session h.turns _ _;
      },
    )
