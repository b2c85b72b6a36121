-- ===== src/Timer/Sleep.antt =====
-- kernel/timer.cpp, lines 38 to 45: the wait for ticks ends, also when the counter wraps.
use bare_metal_programming.Prelude.{
  ℕ, zero, suc, ◌+◌, ◌-◌, ◌^◌, ◌≤◌, ◌<◌, ◌≡◌, refl, arith, ap, ◌∙◌, ltb, true, false, cast,
  wrap_sub, some, List, [], ◌∷◌, ◌++◌,
}
use bare_metal_programming.Timer.{
  Timer, Interrupt, tick, other, handle, handle_all, handle_timer_interrupt, Round, interrupts_of,
  sleep_loop, sleep_ticks,
}

abbrev pub ticks_in : List Interrupt → ℕ
ticks_in [] = 0
ticks_in (tick ∷ interrupts) = suc (ticks_in interrupts)
ticks_in (other ∷ interrupts) = ticks_in interrupts

abbrev pub ticks_of : List Round → ℕ
ticks_of [] = 0
ticks_of (r ∷ rounds) = ticks_in (interrupts_of r) + ticks_of rounds

-- Rounds that are taken for `n` ticks: one more is taken only while ticks are missing, and none is
-- missing behind the last.
pub data Prompt : ℕ → List Round → Type 0 where
  no_more : Prompt 0 []
  one_more :
      (n : ℕ) (r : Round) (rounds : List Round)
      → 0 < n
      → Prompt (n - ticks_in (interrupts_of r)) rounds
      → Prompt n (r ∷ rounds)

-- The end of a wait of `ticks` ticks: the rounds `taken` have been waited for and the others are left,
-- and the counter has advanced by all ticks of those taken.
pub record Slept (ticks : ℕ) (rounds : List Round) (t t' : Timer) (left : List Round) : Type 0 where
  pub taken : List Round
  pub all : rounds ≡ taken ++ left
  pub prompt : Prompt ticks taken
  pub advanced : t'.g_timer_ticks ≡ cast 32 (t.g_timer_ticks + ticks_of taken)
  pub same_frequency : t'.g_timer_frequency ≡ t.g_timer_frequency

handle_all-ticks :
    (interrupts : List Interrupt) (t : Timer)
    → t.g_timer_ticks < 2 ^ 32
    → ((handle_all interrupts t).g_timer_ticks ≡ cast 32 (t.g_timer_ticks + ticks_in interrupts))
      × ((handle_all interrupts t).g_timer_frequency ≡ t.g_timer_frequency)
unfolding handle_all handle handle_timer_interrupt
handle_all-ticks [] t h = (omega arith, refl)
handle_all-ticks (tick ∷ interrupts) t h =
    let (ticks, same) = handle_all-ticks interrupts (handle_timer_interrupt t) (omega arith) in
    (ticks ∙ omega arith, same)
handle_all-ticks (other ∷ interrupts) t h = handle_all-ticks interrupts t h

at_end : (t : Timer) (rounds : List Round) → t.g_timer_ticks < 2 ^ 32 → Slept 0 rounds t t rounds
at_end t rounds h = record {
  taken = [];
  all = refl;
  prompt = no_more;
  advanced = omega arith;
  same_frequency = refl;
}

-- A round taken before the others.
taken-Slept :
    (n : ℕ) (r : Round) (rounds : List Round) (t t' : Timer) (left : List Round)
    → 0 < n
    → t.g_timer_ticks < 2 ^ 32
    → Slept (n - ticks_in (interrupts_of r)) rounds (handle_all (interrupts_of r) t) t' left
    → Slept n (r ∷ rounds) t t' left
taken-Slept n r rounds t t' left p h s =
    let (counted, same) = handle_all-ticks (interrupts_of r) t h in
    record {
      taken = r ∷ s.taken;
      all = ap (λ l. r ∷ l) s.all;
      prompt = one_more n r s.taken p s.prompt;
      advanced = omega (arith, s.advanced, counted);
      same_frequency = s.same_frequency ∙ same;
    }

-- The wait that started at `start`, when `gone` ticks have come and `n` are missing.
waits :
    (n gone ticks start : ℕ) (rounds : List Round) (t : Timer)
    → n ≡ ticks - gone
    → gone + ticks_of rounds < 2 ^ 32
    → start < 2 ^ 32
    → ticks < 2 ^ 32
    → t.g_timer_ticks ≡ cast 32 (start + gone)
    → n ≤ ticks_of rounds
    → (t' : Timer) × (left : List Round) × (sleep_loop start ticks rounds t ≡ some (t', left))
      × Slept n rounds t t' left
unfolding sleep_loop
waits zero gone ticks start [] t m b c d e k =
    let done : ltb (wrap_sub 32 t.g_timer_ticks start) ticks ≡ false = ground arith in
    rw done (t, [], refl, at_end t [] (omega arith))
waits (suc n) gone ticks start [] t m b c d e k = absurd (omega arith)
waits zero gone ticks start (r ∷ rounds) t m b c d e k =
    let done : ltb (wrap_sub 32 t.g_timer_ticks start) ticks ≡ false = ground arith in
    rw done (t, r ∷ rounds, refl, at_end t (r ∷ rounds) (omega arith))
waits (suc n) gone ticks start (r ∷ rounds) t m b c d e k =
    let more : ltb (wrap_sub 32 t.g_timer_ticks start) ticks ≡ true = ground arith in
    let small : t.g_timer_ticks < 2 ^ 32 = omega arith in
    let (counted, same) = handle_all-ticks (interrupts_of r) t small in
    let (t', left, ends, s) =
      waits (suc n - ticks_in (interrupts_of r)) (gone + ticks_in (interrupts_of r)) ticks start
        rounds (handle_all (interrupts_of r) t) (omega arith) (omega arith) c d
        (omega (arith, counted)) (omega arith) in
    rw more (t', left, ends, taken-Slept (suc n) r rounds t t' left (omega arith) small s)

-- `sleep_ticks` ends if that many ticks come, and fewer than 2^32, so that the counter does not come
-- round to its start. Behind the ticks that come before its first read of the counter, it takes a round
-- exactly while ticks are missing: it returns at the first read that finds all of them, whatever other
-- interrupts come, wherever in a turn of the loop an interrupt comes, and also where the counter wraps
-- around in between.
pub sleep_ticks-Slept :
    (ticks : ℕ) (early : List Interrupt) (rounds : List Round) (t : Timer)
    → t.g_timer_ticks < 2 ^ 32
    → ticks < 2 ^ 32
    → ticks ≤ ticks_in early + ticks_of rounds
    → ticks_in early + ticks_of rounds < 2 ^ 32
    → (t' : Timer) × (left : List Round) × (sleep_ticks ticks early rounds t ≡ some (t', left))
      × Slept (ticks - ticks_in early) rounds (handle_all early t) t' left
      × ((handle_all early t).g_timer_ticks ≡ cast 32 (t.g_timer_ticks + ticks_in early))
unfolding sleep_ticks
sleep_ticks-Slept ticks early rounds t b c k m =
    let (counted, same) = handle_all-ticks early t b in
    let (t', left, ends, s) =
      waits (ticks - ticks_in early) (ticks_in early) ticks t.g_timer_ticks rounds
        (handle_all early t) refl m b c counted (omega arith) in
    (t', left, ends, s, counted)
