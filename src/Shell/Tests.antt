-- ===== src/Shell/Tests.antt =====
-- The shell of apps/shell/shell.cpp at concrete keys.
use bare_metal_programming.Prelude.{ℕ, ◌≡◌, refl, arith, false, some, List, [], ◌∷◌, codes}
use bare_metal_programming.Keyboard.Key
use bare_metal_programming.Keyboard.Events.{KeyboardEvent, pressed}
use bare_metal_programming.Screen.{fresh}
use bare_metal_programming.Output.{Output, dec}
use bare_metal_programming.Pmm.Geometry.{Pmm}
use bare_metal_programming.Shell.{Turn, command_exists, search_loop, str_compare}
use bare_metal_programming.Shell.Lookup.{IsText, Place, command_exists-Place}

-- Just before "clear" and just behind "ticks".
no_such_commands :
    (command_exists (codes "clea") ≡ some 0xFF) × (command_exists (codes "tickss") ≡ some 0xFF)
unfolding command_exists search_loop str_compare
no_such_commands = (refl, refl)

abbrev kernel_stack_text : List ℕ
kernel_stack_text = codes "kernel stack"

kernel_stack_text-IsText : IsText kernel_stack_text
kernel_stack_text-IsText = omega arith

command_exists-Place_example :
    (r : ℕ) × (command_exists kernel_stack_text ≡ some r) × Place kernel_stack_text r
command_exists-Place_example = command_exists-Place kernel_stack_text kernel_stack_text-IsText

abbrev press : ℕ → KeyboardEvent
press key = record { key = key; key_code = 0; state = pressed; extended = false; modifiers = 0 }

abbrev turn_of : List KeyboardEvent → Turn
turn_of events = record {
  events = events;
  timer_ticks = 0;
  interrupt_stack_top = 0x9000;
  interrupt_stack_bottom = 0x8000;
  kernel_stack_top = 0x9000;
  kernel_stack_bottom = 0x8000;
}

abbrev pub two_turns : List Turn
two_turns =
    turn_of (press 0x21 ∷ press Key.enter ∷ [])
    ∷ turn_of (press 0x12 ∷ press 0x2D ∷ press 0x17 ∷ press 0x14 ∷ press Key.enter ∷ [])
    ∷ []

abbrev an_output : Output
an_output = record { buffer = fresh (λ i. 0) 0; state = dec; bool_alpha_enabled = false }

abbrev a_memory : Pmm
a_memory = record {
  used_frames = 0;
  total_frames = 0;
  bitmap = record { start = 0; limit = 0; search_begin = 0; cells = [] };
  reserved_0 = record { base = 0; length = 0 };
  reserved_1 = record { base = 0; length = 0 };
  mm_flag = 0;
}
