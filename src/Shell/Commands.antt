-- ===== src/Shell/Commands.antt =====
-- apps/shell/shell.cpp, lines 47 to 82 and 107 to 172: the commands and the loop of the shell.
use bare_metal_programming.Prelude.{
  ◌+◌, ◌-◌, wrap_sub, cast, leb, ◌==◌, if◌then◌else◌, Option, none, some, List, [], ◌∷◌, codes,
  get_or, false,
}
use mathlib.Core.Option
use bare_metal_programming.Input.{Line, ScreenCall, reset_buffer, string_at}
use bare_metal_programming.Input.Handlers.{start_data_receiving}
use bare_metal_programming.Screen
use bare_metal_programming.Output.{Output, dec, on_buffer}
use bare_metal_programming.Output.Insert.{
  insert_char, insert_uint8, insert_uint32, set_hex, set_dec,
}
use bare_metal_programming.Output.Arrays.{insert_text}
use bare_metal_programming.Pmm.Geometry.{Pmm, Bitmap, load_8, store_8, get_bit_n_byte}
use bare_metal_programming.Pmm.Search.{contiguous_8_core}
use bare_metal_programming.Shell.{Shell, Turn, command_exists, on_screen_all, not_found}

-- A chain of `<<`: the operand first, then the output.
infixl 20 ◌<<◌
abbrev pub ◌<<◌ : Output → (Output → Output) → Output
o << insert = insert o

-- The two bytes that the test writes over the bitmap.
abbrev pub overwritten : Bitmap → Bitmap
overwritten b = store_8 (store_8 b b.start 0x0F) (b.start + 1) 0xF0

-- `allocate_8_frames`, with its own output object, whose flags are the default ones.
unfoldable pub allocate_8_frames : Pmm → Output → Pmm × Output
allocate_8_frames g out =
    let b = overwritten g.bitmap in
    let (run, curr) =
      contiguous_8_core b 8 (record { start_frame = 0; length = 0 }) (b.start + 2) b.start in
    let start = get_bit_n_byte run.start_frame in
    let end = get_bit_n_byte (cast 32 (run.start_frame + 7)) in
    (
      record g { bitmap = b },
      out
          << insert_text (if leb 8 run.length then codes "Found\n" else codes "Not Found\n")
          << insert_text (codes "Frames: ")
          << insert_uint32 8
          << insert_text (codes "\nLength: ")
          << insert_uint32 run.length
          << insert_text (codes "\nStart value: ")
          << set_hex
          << insert_uint8 (load_8 b b.start)
          << set_dec
          << insert_text (codes "\nByte index: ")
          << insert_uint32 start.byte_index
          << insert_text (codes "\nBit index: ")
          << insert_uint8 start.bit_index
          << insert_text (codes "\n\nEnd value: ")
          << set_hex
          << insert_uint8 (load_8 b (b.start + 1))
          << set_dec
          << insert_text (codes "\nByte end: ")
          << insert_uint32 end.byte_index
          << insert_text (codes "\nBit end: ")
          << insert_uint8 end.bit_index
          << insert_text (codes "\nCurrent Finished: ")
          << insert_uint32 (curr - b.start),
    )

unfoldable pub shell_clear : Shell → Shell
shell_clear s = record s {
  m_input = reset_buffer s.m_input;
  m_output = on_buffer Screen.clear s.m_output;
}

unfoldable pub shell_exit : Shell → Shell
shell_exit s = record s {
  m_is_running = 0;
  m_output = insert_text (codes "Program terminated\n") s.m_output;
}

unfoldable pub shell_flag : Shell → Shell
shell_flag s = record s {
  m_output =
      s.m_output
      << insert_text (codes "mm_flag: ")
      << insert_uint8 s.m_output.buffer.feature
      << insert_char b'\n';
}

unfoldable pub shell_ticks : Turn → Shell → Shell
shell_ticks t s = record s {
  m_output =
      s.m_output
      << insert_text (codes "Ticks: ")
      << insert_uint32 t.timer_ticks
      << insert_char b'\n';
}

unfoldable pub shell_interrupt_stack : Turn → Shell → Shell
shell_interrupt_stack t s = record s {
  m_output =
      s.m_output
      << insert_uint32 (wrap_sub 32 t.interrupt_stack_top t.interrupt_stack_bottom)
      << insert_text (codes " bytes\n");
}

unfoldable pub shell_kernel_stack : Turn → Shell → Shell
shell_kernel_stack t s = record s {
  m_output =
      s.m_output
      << insert_uint32 (wrap_sub 32 t.kernel_stack_top t.kernel_stack_bottom)
      << insert_text (codes " bytes\n");
}

unfoldable pub shell_test_allocation : Shell → Shell
shell_test_allocation s =
    let (g, out) =
      allocate_8_frames s.memory
        (record { buffer = s.m_output.buffer; state = dec; bool_alpha_enabled = false }) in
    record s { memory = g; m_output = record (s.m_output) { buffer = out.buffer } }

abbrev pub g_command_functions : Turn → List (Shell → Shell)
g_command_functions t =
    shell_clear
    ∷ shell_exit
    ∷ shell_flag
    ∷ shell_interrupt_stack t
    ∷ shell_kernel_stack t
    ∷ shell_test_allocation
    ∷ shell_ticks t
    ∷ []

-- After a search without end, which does not happen, nothing.
unfoldable pub execute_command : Turn → Shell → Shell
execute_command t s = elim (command_exists (string_at s.m_input 0)) [
  | none ↦ s
  | some index ↦
      if index == not_found
      then record s { m_output = insert_text (codes "Command not found\n") s.m_output }
      else get_or (g_command_functions t) index (λ s'. s') s
]

-- The body of the loop of `run`.
-- The line of a turn has been received: its command and the reset of the line.
unfoldable pub after_line : Turn → Shell → Line × List ScreenCall → Shell
after_line t s r =
    let prompted = insert_text (codes "my_OS:> ") s.m_output in
    let s' =
      execute_command t (record s { m_input = r.0; m_output = on_screen_all r.1 prompted }) in
    record s' { m_input = reset_buffer s'.m_input }

-- The body of the loop of `run`: `none` where the keys of the turn do not make its line ready.
unfoldable pub run_turn : Turn → Shell → Option Shell
run_turn t s = Option.map (after_line t s) (start_data_receiving s.m_input t.events)

-- `run` over the turns that the keys give: `none` where it waits inside a turn for keys that do not
-- come.
unfoldable pub run : List Turn → Shell → Option Shell
run [] s = some s
run (t ∷ turns) s =
    if s.m_is_running == 1
    then elim (run_turn t s) [ none ↦ none | some s' ↦ run turns s' ]
    else some s
