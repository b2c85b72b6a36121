-- ===== src/Shell/Runs.antt =====
-- apps/shell/shell.cpp, lines 119 to 129: the loop of the shell.
use bare_metal_programming.Prelude.{
  ℕ, zero, suc, ◌<◌, ◌≡◌, ◌≢◌, refl, arith, ap, sym, ◌∙◌, ◌==◌, true, false, inl, inr, Bool-cases,
  Option, none, some, List, [], ◌∷◌, get_or, codes,
}
use mathlib.Core.Option
use bare_metal_programming.Input.{Line, ScreenCall, reset_buffer, new_line}
use bare_metal_programming.Input.Handlers.{start_data_receiving}
use bare_metal_programming.Input.Ready.{
  enters, Received, finished, waits, start_data_receiving-Received,
}
use bare_metal_programming.Input.Ascii.{
  IsAscii, set-IsAscii, replicate-IsAscii, start_data_receiving-IsAscii,
}
use bare_metal_programming.Output.{Output}
use bare_metal_programming.Pmm.Geometry.{Pmm}
use mathlib.Core.Option.{some-injective}
use mathlib.Core.Path.{subst}
use bare_metal_programming.Shell.Lookup.{commands_found}
use bare_metal_programming.Shell.{command_exists, Shell, Turn, new_shell, g_command_list}
use bare_metal_programming.Shell.Commands.{
  g_command_functions, execute_command, after_line, run_turn, run, shell_clear, shell_exit,
  shell_flag, shell_ticks, shell_interrupt_stack, shell_kernel_stack, shell_test_allocation,
}
use bare_metal_programming.Shell.Execute.{
  Executed, ran, refused, received, received-IsText, line_text, execute_command-Executed,
}

abbrev pub exit_text : List ℕ
exit_text = codes "exit"

command_keeps_input :
    (i : ℕ) (t : Turn) (s : Shell)
    → IsAscii s.m_input.input_buffer
    → IsAscii (get_or (g_command_functions t) i (λ s'. s') s).m_input.input_buffer
unfolding shell_clear shell_exit shell_flag shell_ticks shell_interrupt_stack shell_kernel_stack
    shell_test_allocation reset_buffer
command_keeps_input zero t s a = set-IsAscii s.m_input.input_buffer 0 0 (omega arith) a
command_keeps_input (suc zero) t s a = a
command_keeps_input (suc (suc zero)) t s a = a
command_keeps_input (suc (suc (suc zero))) t s a = a
command_keeps_input (suc (suc (suc (suc zero)))) t s a = a
command_keeps_input (suc (suc (suc (suc (suc zero))))) t s a = a
command_keeps_input (suc (suc (suc (suc (suc (suc zero)))))) t s a = a
command_keeps_input (suc (suc (suc (suc (suc (suc (suc i))))))) t s a = a

command_keeps_running :
    (i : ℕ) (t : Turn) (s : Shell)
    → i ≢ 1
    → (get_or (g_command_functions t) i (λ s'. s') s).m_is_running ≡ s.m_is_running
unfolding shell_clear shell_exit shell_flag shell_ticks shell_interrupt_stack shell_kernel_stack
    shell_test_allocation
command_keeps_running zero t s h = refl
command_keeps_running (suc zero) t s h = absurd (h refl)
command_keeps_running (suc (suc zero)) t s h = refl
command_keeps_running (suc (suc (suc zero))) t s h = refl
command_keeps_running (suc (suc (suc (suc zero)))) t s h = refl
command_keeps_running (suc (suc (suc (suc (suc zero))))) t s h = refl
command_keeps_running (suc (suc (suc (suc (suc (suc zero)))))) t s h = refl
command_keeps_running (suc (suc (suc (suc (suc (suc (suc i))))))) t s h = refl

Executed-IsAscii :
    {t : Turn} {s u : Shell}
    → Executed t s u
    → IsAscii s.m_input.input_buffer
    → IsAscii u.m_input.input_buffer
Executed-IsAscii {t} {s} (ran i h e) a = command_keeps_input i t s a
Executed-IsAscii (refused h) a = a

-- Only the command "exit" ends the loop.
Executed-m_is_running :
    {t : Turn} {s u : Shell}
    → Executed t s u
    → line_text s ≢ exit_text
    → u.m_is_running ≡ s.m_is_running
Executed-m_is_running {t} {s} (ran i h e) other =
    command_keeps_running i t s (λ at. other (e ∙ ap (λ k. get_or g_command_list k []) at))
Executed-m_is_running (refused h) other = refl

-- The runs of the loop. It waits for the keys of its next turn, or, where the keys of a turn hold no
-- Enter, for the rest of that turn's line, with no result. A turn whose keys hold Enter is taken: its
-- command is executed on the line that is ready. The loop ends with the turn whose line is "exit", and
-- the turns behind that one are not taken.
pub data Session : List Turn → Shell → Option Shell → Type 0 where
  waiting : (s : Shell) → s.m_is_running ≡ 1 → Session [] s (some s)
  unfinished :
      {t : Turn} {turns : List Turn} {s : Shell}
      → enters t.events ≡ false
      → Session (t ∷ turns) s none
  turned :
      {t : Turn} {turns : List Turn} {s : Shell} {u : Option Shell} (r : Line × List ScreenCall)
      → enters t.events ≡ true
      → start_data_receiving s.m_input t.events ≡ some r
      → r.0.input_ready ≡ true
      → Executed t (received s r) (execute_command t (received s r))
      → line_text (received s r) ≢ exit_text
      → Session turns (after_line t s r) u
      → Session (t ∷ turns) s u
  exited :
      {t : Turn} {turns : List Turn} {s : Shell} (r : Line × List ScreenCall)
      → enters t.events ≡ true
      → start_data_receiving s.m_input t.events ≡ some r
      → r.0.input_ready ≡ true
      → Executed t (received s r) (execute_command t (received s r))
      → line_text (received s r) ≡ exit_text
      → (after_line t s r).m_is_running ≡ 0
      → Session (t ∷ turns) s (some (after_line t s r))

-- Whether a turn's line is "exit", as the execution tells.
data Asked (t : Turn) (s u : Shell) : Type 0 where
  to_exit : line_text s ≡ exit_text → u.m_is_running ≡ 0 → Asked t s u
  other : line_text s ≢ exit_text → u.m_is_running ≡ s.m_is_running → Asked t s u

same_place : (i : ℕ) → i < 7 → get_or g_command_list i [] ≡ exit_text → i ≡ 1
same_place i h e =
    some-injective i 1
      (sym (commands_found i h) ∙ ap command_exists e ∙ commands_found 1 (omega arith))

Executed-Asked : {t : Turn} {s u : Shell} → Executed t s u → Asked t s u
unfolding shell_exit
Executed-Asked {t} {s} (ran i h e) = elim (Bool-cases (i == 1)) [
  | inl is ↦
      let at : i ≡ 1 = ground arith in
      to_exit (e ∙ ap (λ k. get_or g_command_list k []) at)
        (ap (λ k. (get_or (g_command_functions t) k (λ s'. s') s).m_is_running) at)
  | inr not ↦
      let away : i ≢ 1 = λ at. absurd (ground (arith, at, not)) in
      other (λ exit. away (same_place i h (sym e ∙ exit))) (command_keeps_running i t s away)
]
Executed-Asked (refused h) = other (λ exit. h 1 (omega arith) exit) refl

run_stopped : (turns : List Turn) (s : Shell) → s.m_is_running ≡ 0 → run turns s ≡ some s
unfolding run
run_stopped [] s h = refl
run_stopped (t ∷ turns) s h =
    let stopped : (s.m_is_running == 1) ≡ false = ground arith in rw stopped refl

-- A loop that runs goes on after a turn whose line was received, and waits in any other.
run_on :
    (t : Turn) (turns : List Turn) (s : Shell) (r : Line × List ScreenCall)
    → s.m_is_running ≡ 1
    → start_data_receiving s.m_input t.events ≡ some r
    → run (t ∷ turns) s ≡ run turns (after_line t s r)
unfolding run run_turn
run_on t turns s r h e =
    let running : (s.m_is_running == 1) ≡ true = ground arith in
    rw running (
      ap
        (λ o. elim (Option.map (after_line t s) o) as (λ _. Option Shell) [
          | none ↦ none
          | some s' ↦ run turns s'
        ])
        e)

run_waits :
    (t : Turn) (turns : List Turn) (s : Shell)
    → s.m_is_running ≡ 1
    → start_data_receiving s.m_input t.events ≡ none
    → run (t ∷ turns) s ≡ none
unfolding run run_turn
run_waits t turns s h e =
    let running : (s.m_is_running == 1) ≡ true = ground arith in
    rw running (
      ap
        (λ o. elim (Option.map (after_line t s) o) as (λ _. Option Shell) [
          | none ↦ none
          | some s' ↦ run turns s'
        ])
        e)

turn-Session :
    (t : Turn) (turns : List Turn) (s : Shell) (r : Line × List ScreenCall)
    → s.m_is_running ≡ 1
    → enters t.events ≡ true
    → start_data_receiving s.m_input t.events ≡ some r
    → r.0.input_ready ≡ true
    → Executed t (received s r) (execute_command t (received s r))
    → Asked t (received s r) (execute_command t (received s r))
    → ((after_line t s r).m_is_running ≡ 1
        → Session turns (after_line t s r) (run turns (after_line t s r)))
    → Session (t ∷ turns) s (run turns (after_line t s r))
unfolding after_line
turn-Session t turns s r h p got ready done (to_exit e stopped) rest =
    subst (Session (t ∷ turns) s) (sym (run_stopped turns (after_line t s r) stopped))
      (exited r p got ready done e stopped)
turn-Session t turns s r h p got ready done (other e kept) rest =
    turned r p got ready done e (rest (kept ∙ h))

after_line-IsAscii :
    (t : Turn) (s : Shell) (r : Line × List ScreenCall)
    → Executed t (received s r) (execute_command t (received s r))
    → IsAscii r.0.input_buffer
    → IsAscii (after_line t s r).m_input.input_buffer
unfolding after_line reset_buffer
after_line-IsAscii t s r done a =
    set-IsAscii (execute_command t (received s r)).m_input.input_buffer 0 0 (omega arith)
      (Executed-IsAscii done a)

after_line-input_ready :
    (t : Turn) (s : Shell) (r : Line × List ScreenCall)
    → (after_line t s r).m_input.input_ready ≡ false
unfolding after_line reset_buffer
after_line-input_ready t s r = refl

-- A turn, with the runs of the turns behind it.
next_turn :
    (t : Turn) (turns : List Turn) (s : Shell) (o : Option (Line × List ScreenCall))
    → s.m_is_running ≡ 1
    → IsAscii s.m_input.input_buffer
    → start_data_receiving s.m_input t.events ≡ o
    → Received s.m_input t.events o
    → ((u : Shell)
        → u.m_is_running ≡ 1
        → IsAscii u.m_input.input_buffer
        → u.m_input.input_ready ≡ false
        → Session turns u (run turns u))
    → Session (t ∷ turns) s (run (t ∷ turns) s)
next_turn t turns s none h a e (waits no_enter) rest =
    subst (Session (t ∷ turns) s) (sym (run_waits t turns s h e)) (unfinished no_enter)
next_turn t turns s (some r) h a e (finished l calls enter ready) rest =
    let a' = start_data_receiving-IsAscii s.m_input t.events a r e in
    let done = execute_command-Executed t (received s r) (received-IsText t s r a e) in
    subst (Session (t ∷ turns) s) (sym (run_on t turns s r h e)) (
      turn-Session t turns s r h enter e ready done (Executed-Asked done) (λ next.
        rest (after_line t s r) next (after_line-IsAscii t s r done a')
          (after_line-input_ready t s r)))

-- For a shell that runs, with an ASCII buffer and a line that is not ready, every list of turns gives
-- such a run.
runs :
    (turns : List Turn) (s : Shell)
    → s.m_is_running ≡ 1
    → IsAscii s.m_input.input_buffer
    → s.m_input.input_ready ≡ false
    → Session turns s (run turns s)
unfolding run
runs [] s h a n = waiting s h
runs (t ∷ turns) s h a n =
    next_turn t turns s _ h a refl (start_data_receiving-Received s.m_input t.events n)
      (λ u h' a' n'. runs turns u h' a' n')

pub run-Session :
    (turns : List Turn) (o : Output) (g : Pmm)
    → Session turns (new_shell o g) (run turns (new_shell o g))
unfolding new_shell new_line
run-Session turns o g = runs turns (new_shell o g) refl (replicate-IsAscii 129) refl
