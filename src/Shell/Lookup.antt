-- ===== src/Shell/Lookup.antt =====
-- apps/shell/shell.cpp, lines 20 to 30 and 89 to 105: the binary search finds exactly the commands.
use bare_metal_programming.Prelude.{
  ℕ, zero, suc, ◌+◌, ◌-◌, ◌/◌, ◌≤◌, ◌<◌, ◌≡◌, ◌≢◌, ◌⊎◌, inl, inr, refl, arith, ap, sym, ◌∙◌, cast,
  false, Bool-cases, ltb, leb, ◌==◌, some, List, [], ◌∷◌, get_or,
}
use mathlib.Core.Option.{some-injective}
use bare_metal_programming.Shell.{
  str_compare, search_loop, command_exists, g_command_list, not_found,
}

-- The codes of a C string: no terminator among them, and each is an ASCII code.
abbrev pub IsText : List ℕ → Type 0
IsText [] = Unit
IsText (c ∷ text) = (0 < c) × (c < 128) × IsText text

-- Texts that compare as equal are equal.
str_compare_zero : (s t : List ℕ) → IsText s → IsText t → str_compare s t ≡ 0 → s ≡ t
unfolding str_compare
str_compare_zero [] [] hs ht e = refl
str_compare_zero [] (d ∷ t) hs ht e = absurd (omega (arith, ht))
str_compare_zero (c ∷ s) [] hs ht e = absurd (omega (arith, hs))
str_compare_zero (c ∷ s) (d ∷ t) hs ht e = elim (Bool-cases (c == d)) [
  | inl same ↦
      let c_is : c ≡ d = ground arith in
      let tails : str_compare s t ≡ 0 = ground (arith, hs, e) in
      cc (c_is, str_compare_zero s t hs.2 ht.2 tails)
  | inr other ↦ absurd (ground (arith, hs, ht, e))
]

-- What the loop returns: an index of the range whose entry compares as equal, or the mark.
search_loop_sound :
    (fuel : ℕ) (text : List ℕ) (left right : ℕ)
    → right - left ≤ fuel
    → right ≤ 7
    → (r : ℕ) × (search_loop fuel text left right ≡ some r)
      × ((r ≡ not_found) ⊎ ((r < 7) × (str_compare text (get_or g_command_list r []) ≡ 0)))
unfolding search_loop
search_loop_sound zero text left right h b =
    let done : ltb left right ≡ false = ground arith in rw done (not_found, refl, inl refl)
search_loop_sound (suc fuel) text left right h b = elim (Bool-cases (ltb left right)) [
  | inr done ↦ rw done (not_found, refl, inl refl)
  | inl less_ ↦
      let less : left < right = ground arith in
      let small : cast 8 (left + (right - left) / 2) ≡ left + (right - left) / 2 = omega arith in
      let next : cast 8 (left + (right - left) / 2 + 1) ≡ left + (right - left) / 2 + 1 =
        omega arith in
      let above =
        search_loop_sound fuel text (left + (right - left) / 2 + 1) right (omega arith) b in
      let below =
        search_loop_sound fuel text left (left + (right - left) / 2) (omega arith) (omega arith) in
      rw (less_, small, next)
        (elim (Bool-cases
          (str_compare text (get_or g_command_list (left + (right - left) / 2) []) == 0)) [
            | inl hit ↦ rw hit (left + (right - left) / 2, refl, inr (omega arith, ground arith))
            | inr miss ↦
                rw miss
                  (elim (Bool-cases (
                    leb (str_compare text (get_or g_command_list (left + (right - left) / 2) []))
                      127)) [ inl up ↦ rw up above | inr down ↦ rw down below ])
          ])
]

-- Each command is found at its place.
pub commands_found : (i : ℕ) → i < 7 → command_exists (get_or g_command_list i []) ≡ some i
unfolding command_exists search_loop str_compare
commands_found zero h = refl
commands_found (suc zero) h = refl
commands_found (suc (suc zero)) h = refl
commands_found (suc (suc (suc zero))) h = refl
commands_found (suc (suc (suc (suc zero)))) h = refl
commands_found (suc (suc (suc (suc (suc zero))))) h = refl
commands_found (suc (suc (suc (suc (suc (suc zero)))))) h = refl
commands_found (suc (suc (suc (suc (suc (suc (suc i))))))) h = absurd (omega arith)

commands-IsText : (i : ℕ) → i < 7 → IsText (get_or g_command_list i [])
commands-IsText zero h = omega arith
commands-IsText (suc zero) h = omega arith
commands-IsText (suc (suc zero)) h = omega arith
commands-IsText (suc (suc (suc zero))) h = omega arith
commands-IsText (suc (suc (suc (suc zero)))) h = omega arith
commands-IsText (suc (suc (suc (suc (suc zero))))) h = omega arith
commands-IsText (suc (suc (suc (suc (suc (suc zero)))))) h = omega arith
commands-IsText (suc (suc (suc (suc (suc (suc (suc i))))))) h = absurd (omega arith)

-- The place of a text in the list, or the mark that it is no command.
pub data Place (text : List ℕ) (r : ℕ) : Type 0 where
  command : r < 7 → text ≡ get_or g_command_list r [] → Place text r
  unknown : r ≡ not_found → ((i : ℕ) → i < 7 → text ≢ get_or g_command_list i []) → Place text r

-- For every ASCII text the binary search ends within 7 turns. It returns the place of the text in
-- the list of commands if the text is one of them, and -1 otherwise.
pub command_exists-Place :
    (text : List ℕ) → IsText text → (r : ℕ) × (command_exists text ≡ some r) × Place text r
unfolding command_exists
command_exists-Place text h =
    let (r, e, what) = search_loop_sound 7 text 0 7 (omega arith) (omega arith) in
    (
      r,
      e,
      elim what [
        | inr (inside, zero_compare) ↦ command inside (
            str_compare_zero text (get_or g_command_list r []) h (commands-IsText r inside)
              zero_compare)
        | inl mark ↦ unknown mark λ i below is. absurd (
            omega (
              arith,
              some-injective r i (sym e ∙ ap command_exists is ∙ commands_found i below),
              mark,
            ))
      ],
    )
