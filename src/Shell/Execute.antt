-- ===== src/Shell/Execute.antt =====
-- apps/shell/shell.cpp, lines 107 to 129: what the text of a line makes the shell do.
use bare_metal_programming.Prelude.{
  ℕ, zero, suc, ◌+◌, ◌<◌, ◌≡◌, ◌≢◌, arith, ◌==◌, true, false, Bool-cases, inl, inr, some, none,
  Option, List, [], get_or, codes, if◌then◌else◌,
}
use mathlib.Core.Option.{some-injective}
use bare_metal_programming.Input.{Line, ScreenCall, string_from, string_at}
use bare_metal_programming.Input.Ascii.{IsAscii, start_data_receiving-IsAscii}
use bare_metal_programming.Input.Handlers.{start_data_receiving}
use bare_metal_programming.Output.Arrays.{insert_text}
use bare_metal_programming.Shell.{
  Shell, Turn, command_exists, g_command_list, not_found, on_screen_all,
}
use bare_metal_programming.Shell.Commands.{g_command_functions, execute_command}
use bare_metal_programming.Shell.Lookup.{IsText, Place, command, unknown, command_exists-Place}

-- The text of the line.
abbrev pub line_text : Shell → List ℕ
line_text s = string_at s.m_input 0

pub data Executed (t : Turn) (s : Shell) : Shell → Type 0 where
  ran :
      (i : ℕ)
      → i < 7
      → line_text s ≡ get_or g_command_list i []
      → Executed t s (get_or (g_command_functions t) i (λ s'. s') s)
  refused :
      ((i : ℕ) → i < 7 → line_text s ≢ get_or g_command_list i [])
      → Executed t s (record s { m_output = insert_text (codes "Command not found\n") s.m_output })

place-Executed :
    (t : Turn) (s : Shell) (r : ℕ)
    → Place (line_text s) r
    → Executed t s (
        if r == not_found
        then record s { m_output = insert_text (codes "Command not found\n") s.m_output }
        else get_or (g_command_functions t) r (λ s'. s') s)
place-Executed t s r (command inside is) =
    let marked : (r == not_found) ≡ false = ground arith in rw marked (ran r inside is)
place-Executed t s r (unknown mark other) =
    let marked : (r == not_found) ≡ true = ground arith in rw marked (refused other)

-- For a line with an ASCII text, `execute_command` runs the function that stands at the place of the
-- text in the list of commands, and only writes that the command is not found for any other text.
pub execute_command-Executed :
    (t : Turn) (s : Shell) → IsText (line_text s) → Executed t s (execute_command t s)
unfolding execute_command
execute_command-Executed t s h =
    let (r, e, place) = command_exists-Place (line_text s) h in
    found (command_exists (line_text s)) r e (place-Executed t s r place)
  where
    found :
        (o : Option ℕ) (r : ℕ)
        → o ≡ some r
        → Executed t s (
            if r == not_found
            then record s { m_output = insert_text (codes "Command not found\n") s.m_output }
            else get_or (g_command_functions t) r (λ s'. s') s)
        → Executed t s (elim o as (λ x. Shell) [
          | none ↦ s
          | some index ↦
              if index == not_found
              then record s { m_output = insert_text (codes "Command not found\n") s.m_output }
              else get_or (g_command_functions t) index (λ s'. s') s
        ])
    found none r e x = cc
    found (some index) r e x = rw (some-injective index r e) x

-- In an ASCII buffer, the characters before the terminator are a text.
string_from-IsText :
    (fuel : ℕ) (buffer : List ℕ) (i : ℕ) → IsAscii buffer → IsText (string_from fuel buffer i)
unfolding string_from
string_from-IsText zero buffer i a = tt
string_from-IsText (suc fuel) buffer i a = elim (Bool-cases (get_or buffer i 0 == 0)) [
  | inl end ↦ rw end tt
  | inr more ↦ rw more (ground arith, a i, string_from-IsText fuel buffer (i + 1) a)
]

-- The state of the shell when a line has been received, with the calls of the screen that it made.
abbrev pub received : Shell → Line × List ScreenCall → Shell
received s r = record s {
  m_input = r.0;
  m_output = on_screen_all r.1 (insert_text (codes "my_OS:> ") s.m_output);
}

pub received-IsText :
    (t : Turn) (s : Shell) (r : Line × List ScreenCall)
    → IsAscii s.m_input.input_buffer
    → start_data_receiving s.m_input t.events ≡ some r
    → IsText (line_text (received s r))
unfolding string_at
received-IsText t s r a e =
    string_from-IsText 129 r.0.input_buffer 0
      (start_data_receiving-IsAscii s.m_input t.events a r e)
