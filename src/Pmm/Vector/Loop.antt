-- ===== src/Pmm/Vector/Loop.antt =====
-- The loop of a vector core, over lanes that show a constant stretch of frames (kernel/pmm.cpp, the
-- vector tiers of the search).
use bare_metal_programming.Prelude.{
  ℕ, zero, suc, ◌+◌, ◌-◌, ◌*◌, ◌≤◌, ◌<◌, ◌^◌, ◌≡◌, refl, arith, ltb, leb, Bool, true, false, inl,
  inr, Bool-cases, cast, wrap_sub,
}
use bare_metal_programming.Pmm.Geometry.{Bitmap, AllocationRun}
use bare_metal_programming.Pmm.View.{frame_used, AllBytes}
use bare_metal_programming.Pmm.Search.Carry.{
  FreeRun, Carry, IsRun, extend-Carry, extend-IsRun, reset-Carry,
}
use bare_metal_programming.Pmm.Search.Shows.{run_found_lem}
use bare_metal_programming.Pmm.Search.Core.{Outcome, Found, Found-widen}
use bare_metal_programming.Pmm.Vector.{
  Core, VectorVerdict, complete, onward, narrow, examine_vector, vector_loop, vector_core,
}

-- A core over units of `n` bytes scans whole units, from the byte `o` to the byte `e`.
pub record IsCore (b : Bitmap) (frames lo n : ℕ) (core : Core) : Type 0 where
  pub scans :
      (run : AllocationRun) (k e o : ℕ)
      → e ≡ o + k * n
      → 8 * e + 32 < 2 ^ 31
      → Carry (frame_used b) frames lo (8 * o) run.length
      → Outcome b frames lo e (core run (b.start + e) (b.start + o))
  pub stops :
      (run : AllocationRun) (end_ start : ℕ) → end_ ≤ start → core run end_ start ≡ (run, start)

module _ (b : Bitmap) (frames lo : ℕ) (bytes : AllBytes b) (pos : 0 < frames)
    (frames_small : frames < 2 ^ 31) where
  pub rounds : (k n : ℕ) → 0 < n → k ≤ k * n
  rounds k n h = grind arith

  module _ (n m : ℕ) (wide : (0 < m * n) × (m * n ≤ 32)) (zeros ones : ℕ → Bool)
      (zeros_sound : (o : ℕ)
        → zeros (b.start + o) ≡ true
        → FreeRun (frame_used b) (8 * o) (8 * (m * n)))
      (ones_sound : (o : ℕ)
        → ones (b.start + o) ≡ true
        → (f : ℕ) → 8 * o ≤ f
        → f < 8 * o + 8 * (m * n)
        → frame_used b f ≡ true)
      (narrower : Core) (narrower_ok : IsCore b frames lo n narrower) where
    abbrev size : ℕ
    size = m * n

    abbrev VectorProgress : ℕ → VectorVerdict → Type 0
    VectorProgress e (complete at) = IsRun (frame_used b) frames lo (8 * e) at
    VectorProgress e (onward l) = Carry (frame_used b) frames lo (8 * e) l
    VectorProgress e narrow = Unit

    hi : (o : ℕ) → 8 * (o + size) ≡ 8 * o + 8 * size
    hi o = omega arith

    vector_turn :
        (o l : ℕ) (z s : Bool)
        → 8 * o + 32 < 2 ^ 31
        → (z ≡ true → FreeRun (frame_used b) (8 * o) (8 * size))
        → (s ≡ true → (f : ℕ) → 8 * o ≤ f → f < 8 * o + 8 * size → frame_used b f ≡ true)
        → Carry (frame_used b) frames lo (8 * o) l
        → VectorProgress (o + size) (examine_vector b (8 * size) frames z s (b.start + o) l)
    unfolding examine_vector
    vector_turn o l true s small free used c = elim (Bool-cases (leb frames (l + 8 * size))) [
      | inl long ↦
          let back : wrap_sub 32 (cast 32 (l + 8 * size)) (8 * size) ≡ l =
            omega (arith, c.short, wide) in
          let test : leb frames (cast 32 (l + 8 * size)) ≡ true = ground (arith, c.short, wide) in
          rw (test, back, run_found_lem b o l (omega (arith, c.room)) (omega arith), hi o)
            (extend-IsRun (frame_used b) frames lo c (8 * size) (free refl) (ground arith))
      | inr short ↦
          let same : cast 32 (l + 8 * size) ≡ l + 8 * size = omega (arith, c.short, wide) in
          rw (same, short, hi o)
            (extend-Carry (frame_used b) frames lo c (8 * size) (free refl) (ground arith))
    ]
    vector_turn o l false true small free used c =
        rw (hi o)
          (reset-Carry (frame_used b) frames lo c (8 * size) pos (omega (arith, wide)) (used refl))
    vector_turn o l false false small free used c = tt

    abbrev loop : ℕ → ℕ → ℕ → ℕ → ℕ → AllocationRun × ℕ
    loop = vector_loop b size (8 * size) frames zeros ones narrower

    abbrev verdict : ℕ → ℕ → VectorVerdict
    verdict current l = examine_vector b (8 * size) frames (zeros current) (ones current) current l

    vector_stops :
        (fuel end_ current l at : ℕ)
        → end_ ≤ current
        → loop fuel end_ current l at ≡ (record { start_frame = at; length = l }, current)
    unfolding vector_loop
    vector_stops zero end_ current l at h = refl
    vector_stops (suc fuel) end_ current l at h = ground arith

    vector_complete :
        (fuel end_ current l at s : ℕ)
        → ltb current end_ ≡ true
        → verdict current l ≡ complete s
        → loop (suc fuel) end_ current l at ≡ (record { start_frame = s; length = frames }, current)
    unfolding vector_loop
    vector_complete fuel end_ current l at s h e = ground arith

    vector_onward :
        (fuel end_ current l at l' : ℕ)
        → ltb current end_ ≡ true
        → verdict current l ≡ onward l'
        → loop (suc fuel) end_ current l at ≡ loop fuel end_ (current + size) l' at
    unfolding vector_loop
    vector_onward fuel end_ current l at l' h e = ground arith

    abbrev lanes_of : ℕ → ℕ → ℕ → AllocationRun
    lanes_of current l at =
        (narrower (record { start_frame = at; length = l }) (current + size) current).0

    vector_narrow_found :
        (fuel end_ current l at : ℕ)
        → ltb current end_ ≡ true
        → verdict current l ≡ narrow
        → leb frames (lanes_of current l at).length ≡ true
        → loop (suc fuel) end_ current l at
          ≡ (record { start_frame = (lanes_of current l at).start_frame; length = frames }, current)
    unfolding vector_loop
    vector_narrow_found fuel end_ current l at h e k = ground arith

    vector_narrow_onward :
        (fuel end_ current l at : ℕ)
        → ltb current end_ ≡ true
        → verdict current l ≡ narrow
        → leb frames (lanes_of current l at).length ≡ false
        → loop (suc fuel) end_ current l at
          ≡ loop fuel end_
              (current + size)
              (lanes_of current l at).length
              (lanes_of current l at).start_frame
    unfolding vector_loop
    vector_narrow_onward fuel end_ current l at h e k = ground arith

    vector_after :
        (fuel e o end_ current l at : ℕ)
        → ltb current end_ ≡ true
        → o + size ≤ e
        → 8 * e + 32 < 2 ^ 31
        → current ≡ b.start + o
        → Carry (frame_used b) frames lo (8 * o) l
        → ((l' at' : ℕ)
            → Carry (frame_used b) frames lo (8 * (o + size)) l'
            → Outcome b frames lo e (loop fuel end_ (current + size) l' at'))
        → (v : VectorVerdict) → verdict current l ≡ v
        → VectorProgress (o + size) v
        → Outcome b frames lo e (loop (suc fuel) end_ current l at)
    vector_after fuel e o end_ current l at h within small q c rest (complete s) ev progress =
        rw (vector_complete fuel end_ current l at s h ev) (
          inl (
            Found-widen b frames lo {e = o + size} within
              (record { whole = refl; run = progress })))
    vector_after fuel e o end_ current l at h within small q c rest (onward l') ev progress =
        rw (vector_onward fuel end_ current l at l' h ev) (rest l' at progress)
    vector_after fuel e o end_ current l at h within small q c rest narrow ev progress =
        elim (Bool-cases (leb frames (lanes_of current l at).length)) [
          | inl long ↦
              rw (vector_narrow_found fuel end_ current l at h ev long)
                (inl (Found-widen b frames lo {e = o + size} within (found_in long scanned)))
          | inr short ↦ rw (vector_narrow_onward fuel end_ current l at h ev short) (
              rest (lanes_of current l at).length (lanes_of current l at).start_frame
                (carried_in short scanned))
        ]
      where
        scan : AllocationRun × ℕ
        scan = narrower (record { start_frame = at; length = l }) (current + size) current

        scanned : Outcome b frames lo (o + size) scan
        scanned =
            let behind : current + size ≡ b.start + (o + size) = omega arith in
            rw (behind, q)
              (narrower_ok.scans (record { start_frame = at; length = l }) m (o + size) o refl
                (omega arith) c)

        found_in :
            leb frames (lanes_of current l at).length ≡ true
            → Outcome b frames lo (o + size) scan
            → Found b frames lo (o + size) (
              record { start_frame = (lanes_of current l at).start_frame; length = frames },
              current,
            )
        found_in long (inl f) = record { whole = refl; run = f.run }
        found_in long (inr c') = absurd (ground (arith, c'.carry.short))

        carried_in :
            leb frames (lanes_of current l at).length ≡ false
            → Outcome b frames lo (o + size) scan
            → Carry (frame_used b) frames lo (8 * (o + size)) (lanes_of current l at).length
        carried_in short (inl f) = absurd (ground (arith, f.whole))
        carried_in short (inr c') = c'.carry

    vector_loop-Outcome :
        (k fuel e o end_ current l at : ℕ)
        → k ≤ fuel
        → end_ ≡ b.start + e
        → current ≡ b.start + o
        → e ≡ o + k * size
        → 8 * e + 32 < 2 ^ 31
        → Carry (frame_used b) frames lo (8 * o) l
        → Outcome b frames lo e (loop fuel end_ current l at)
    vector_loop-Outcome zero fuel e o end_ current l at h q r s small c =
        rw (vector_stops fuel end_ current l at (omega arith)) (
          inr (record {
            carry = let same : 8 * e ≡ 8 * o = omega arith in rw same c;
            at_end = omega arith;
          }))
    vector_loop-Outcome (suc k) zero e o end_ current l at h q r s small c = absurd (omega arith)
    vector_loop-Outcome (suc k) (suc fuel) e o end_ current l at h q r s small c =
        vector_after fuel e o end_ current l at (ground (arith, wide)) (omega (arith, wide)) small r
          c
          (λ l' at' c'.
            vector_loop-Outcome k fuel e (o + size) end_ (current + size) l' at' (omega arith) q
              (omega arith) (omega arith) small c')
          (verdict current l) refl
          (rw r (
            vector_turn o l (zeros (b.start + o)) (ones (b.start + o)) (omega (arith, wide))
              (zeros_sound o) (ones_sound o) c))

    pub vector_core-IsCore :
        IsCore b frames lo size (vector_core b size (8 * size) frames zeros ones narrower)
    unfolding vector_core
    vector_core-IsCore = record {
      scans = λ run k e o s small c.
          vector_loop-Outcome k (b.start + e - (b.start + o)) e o (b.start + e) (b.start + o)
            run.length run.start_frame (omega (arith, s, rounds k size wide.0)) refl refl s small c;
      stops =
          λ run end_ start h. vector_stops (end_ - start) end_ start run.length run.start_frame h;
    }
