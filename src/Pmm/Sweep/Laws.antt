-- ===== src/Pmm/Sweep/Laws.antt =====
-- A sweep finds a run of free frames in the range that it covers, or shows that there is none.
use bare_metal_programming.Prelude.{
  ℕ, ◌+◌, ◌-◌, ◌*◌, ◌/◌, ◌≤◌, ◌<◌, ◌^◌, ◌≡◌, refl, sym, ◌∙◌, arith, max, leb, true, false, ◌⊎◌, inl,
  inr, Bool-cases,
}
use mathlib.Core.Path.{subst₂}
use native.Mathlib.Nat.{le_refl}
use bare_metal_programming.Pmm.Geometry.{Bitmap, AllocationRun}
use bare_metal_programming.Pmm.View.{frame_used, AllBytes}
use bare_metal_programming.Pmm.Search.{byte, half_word, word, contiguous_core}
use bare_metal_programming.Pmm.Search.Carry.{Carry, IsRun}
use bare_metal_programming.Pmm.Search.Core.{Outcome, Found, Found-widen}
use bare_metal_programming.Pmm.Vector.{Core, contiguous_sse2_core, contiguous_avx2_core}
use bare_metal_programming.Pmm.Vector.Loop.{IsCore}
use bare_metal_programming.Pmm.Vector.Laws.{
  contiguous_core-IsCore, contiguous_sse2_core-IsCore, contiguous_avx2_core-IsCore,
}
use bare_metal_programming.Pmm.Sweep.{
  align_down, aligned_end, then_core, sweep_32, sweep_sse_2, sweep_avx_2,
}
use bare_metal_programming.Pmm.Sweep.Pointers.{
  Moves, Ready, Ready4, Ready16, Ready32, down, up_to, bytes_Moves, align_2, align_4, align_16,
  align_32, bulk_32, bulk_16, bulk_4, bulk_2,
}
use bare_metal_programming.Pmm.Sweep.Align.{up_target, down_target}

-- What a sweep from the frame `lo` to the byte `e` has done at the end of its range.
pub data Swept (b : Bitmap) (frames lo e : ℕ) (run : AllocationRun) : Type 0 where
  hit :
      run.length ≡ frames
      → IsRun (frame_used b) frames lo (8 * e) run.start_frame
      → Swept b frames lo e run
  miss : Carry (frame_used b) frames lo (8 * e) run.length → Swept b frames lo e run

module _ (b : Bitmap) (frames lo e : ℕ) (small : 8 * e + 32 < 2 ^ 31) where
  -- No run so far, and the cursor stands at the address `p`.
  pub record Standing (p : ℕ) (r : AllocationRun × ℕ) : Type 0 where
    pub above : b.start ≤ p
    pub within : p ≤ b.start + e
    pub at_p : r.1 ≡ p
    pub carry : Carry (frame_used b) frames lo (8 * (p - b.start)) r.0.length

  abbrev pub Stage : ℕ → AllocationRun × ℕ → Type 0
  Stage p r = Found b frames lo e r ⊎ Standing p r

  -- A core that is sent to `t` from `p`: it does not move, or it scans whole units.
  core-Stage :
      {n : ℕ} {core : Core} (p t : ℕ) (r : AllocationRun × ℕ)
      → IsCore b frames lo n core
      → t ≤ b.start + e
      → (t ≤ p) ⊎ (t ≡ p + (t - p) / n * n)
      → Standing p r
      → Stage (max p t) (core r.0 t r.1)
  core-Stage {n} {core} p t r c within units s = elim (Bool-cases (leb t p)) [
    | inl behind ↦
        let stays : max p t ≡ p = ground arith in
        rw (s.at_p, c.stops r.0 t p (ground arith), stays)
          (inr (record { above = s.above; within = s.within; at_p = refl; carry = s.carry }))
    | inr ahead ↦
        moved (ground arith) (elim units [ inl behind ↦ absurd (ground arith) | inr whole ↦ whole ])
  ]
    where
      moved : p < t → t ≡ p + (t - p) / n * n → Stage (max p t) (core r.0 t r.1)
      moved h q =
          let goes : max p t ≡ t = omega arith in
          let from : p ≡ b.start + (p - b.start) = omega (arith, s.above) in
          let to : t ≡ b.start + (t - b.start) = omega (arith, s.above) in
          let scanned : Outcome b frames lo (t - b.start) (core r.0 t r.1) = rw s.at_p (
            subst₂ (λ x y. Outcome b frames lo (t - b.start) (core r.0 x y)) (sym to) (sym from)
              (c.scans r.0 ((t - p) / n) (t - b.start) (p - b.start) (omega (arith, s.above))
                (omega arith) s.carry)) in
          elim scanned [
            | inl f ↦ inl (Found-widen b frames lo {e = t - b.start} (omega arith) f)
            | inr d ↦ inr (record {
              above = omega (arith, s.above);
              within = omega arith;
              at_p = d.at_end ∙ omega (arith, s.above);
              carry = let same : max p t - b.start ≡ t - b.start = omega arith in rw same d.carry;
            })
          ]

  -- A core behind `if(run->length >= frames) return;`.
  then_core-Stage :
      {n : ℕ} {core : Core} (p t : ℕ) (r : AllocationRun × ℕ) (end_ : ℕ → ℕ)
      → IsCore b frames lo n core
      → end_ p ≡ t
      → t ≤ b.start + e
      → (t ≤ p) ⊎ (t ≡ p + (t - p) / n * n)
      → Stage p r
      → Stage (max p t) (then_core frames r core end_)
  unfolding then_core
  then_core-Stage {core = core} p t r end_ c is_t within units (inl f) =
      let long : leb frames r.0.length ≡ true = ground (arith, f.whole) in rw long (inl f)
  then_core-Stage {core = core} p t r end_ c is_t within units (inr s) =
      let short : leb frames r.0.length ≡ false = ground (arith, s.carry.short) in
      let target : end_ r.1 ≡ t = rw s.at_p is_t in
      rw (short, target) (core-Stage p t r c within units s)

  Stage-Swept :
      (p : ℕ) (r : AllocationRun × ℕ) → p ≡ b.start + e → Stage p r → Swept b frames lo e r.0
  Stage-Swept p r q (inl f) = hit f.whole f.run
  Stage-Swept p r q (inr s) = miss (let same : e ≡ p - b.start = omega arith in rw same s.carry)

  module _ (bytes : AllBytes b) (pos : 0 < frames) (frames_small : frames < 2 ^ 31)
      (room : b.start + e + 32 < 2 ^ 32) where
    abbrev end_of : ℕ
    end_of = b.start + e

    bytes-IsCore : IsCore b frames lo 1 (contiguous_core b byte frames)
    bytes-IsCore = contiguous_core-IsCore b frames lo bytes pos frames_small byte

    halves-IsCore : IsCore b frames lo 2 (contiguous_core b half_word frames)
    halves-IsCore = contiguous_core-IsCore b frames lo bytes pos frames_small half_word

    words-IsCore : IsCore b frames lo 4 (contiguous_core b word frames)
    words-IsCore = contiguous_core-IsCore b frames lo bytes pos frames_small word

    sse2-IsCore : IsCore b frames lo 16 (contiguous_sse2_core b frames)
    sse2-IsCore = contiguous_sse2_core-IsCore b frames lo bytes pos frames_small

    avx2-IsCore : IsCore b frames lo 32 (contiguous_avx2_core b frames)
    avx2-IsCore = contiguous_avx2_core-IsCore b frames lo bytes pos frames_small

    -- The cursor is where `R` says, unless a run has been found.
    abbrev Cursor : (ℕ → ℕ → Type 0) → AllocationRun × ℕ → Type 0
    Cursor R r = (p : ℕ) × R p end_of × Stage p r

    -- A stage, from what it needs of the cursor to what it leaves.
    step :
        {n : ℕ} {core : Core} (R R' : ℕ → ℕ → Type 0) (end_ t : ℕ → ℕ)
        → IsCore b frames lo n core
        → ((p : ℕ) → R p end_of → p ≤ end_of)
        → ((p : ℕ) → p ≤ end_of → (end_ p ≡ t p) × (t p ≤ end_of))
        → ((p : ℕ) → R p end_of → Moves n p (t p) × R' (max p (t p)) end_of)
        → (r : AllocationRun × ℕ) → Cursor R r
        → Cursor R' (then_core frames r core end_)
    step R R' end_ t c inside target moves r (p, ready, stage) = (
      max p (t p),
      (moves p ready).1,
      then_core-Stage p (t p) r end_ c (target p (inside p ready)).0 (target p (inside p ready)).1
          (moves p ready).0 stage,
    )

    align_4_step :
        (r : AllocationRun × ℕ)
        → Cursor (Ready 2) r
        → Cursor Ready4 (
            then_core frames r
              (contiguous_core b half_word frames)
              (λ p. aligned_end p end_of 0x03))
    align_4_step =
        step (Ready 2) Ready4 _ (λ p. up_to 4 p end_of) halves-IsCore (λ p i. i.0)
          (up_target end_of room 2 (omega arith)) (λ p i. align_4 p end_of i)

    align_16_step :
        (r : AllocationRun × ℕ)
        → Cursor Ready4 r
        → Cursor Ready16
            (then_core frames r (contiguous_core b word frames) (λ p. aligned_end p end_of 0x0F))
    align_16_step =
        step Ready4 Ready16 _ (λ p. up_to 16 p end_of) words-IsCore (λ p i. i.0.0)
          (up_target end_of room 4 (omega arith)) (λ p i. align_16 p end_of i)

    align_32_step :
        (r : AllocationRun × ℕ)
        → Cursor Ready16 r
        → Cursor Ready32
            (then_core frames r (contiguous_sse2_core b frames) (λ p. aligned_end p end_of 0x1F))
    align_32_step =
        step Ready16 Ready32 _ (λ p. up_to 32 p end_of) sse2-IsCore (λ p i. i.0.0.0)
          (up_target end_of room 5 (omega arith)) (λ p i. align_32 p end_of i)

    bulk_32_step :
        (r : AllocationRun × ℕ)
        → Cursor Ready32 r
        → Cursor Ready16
            (then_core frames r (contiguous_avx2_core b frames) (λ p. align_down end_of 0x1F))
    bulk_32_step =
        step Ready32 Ready16 _ (λ p. down 32 end_of) avx2-IsCore (λ p i. i.0.0.0.0)
          (down_target end_of room 5 (omega arith)) (λ p i. bulk_32 p end_of i)

    bulk_16_step :
        (r : AllocationRun × ℕ)
        → Cursor Ready16 r
        → Cursor Ready16
            (then_core frames r (contiguous_sse2_core b frames) (λ p. align_down end_of 0x0F))
    bulk_16_step =
        step Ready16 Ready16 _ (λ p. down 16 end_of) sse2-IsCore (λ p i. i.0.0.0)
          (down_target end_of room 4 (omega arith)) (λ p i. bulk_16 p end_of i)

    bulk_4_step :
        (r : AllocationRun × ℕ)
        → Cursor Ready4 r
        → Cursor Ready4
            (then_core frames r (contiguous_core b word frames) (λ p. align_down end_of 0x03))
    bulk_4_step =
        step Ready4 Ready4 _ (λ p. down 4 end_of) words-IsCore (λ p i. i.0.0)
          (down_target end_of room 2 (omega arith)) (λ p i. bulk_4 p end_of i)

    -- The last two stages, through half words and bytes, end the sweep.
    finish :
        (r : AllocationRun × ℕ)
        → Cursor (Ready 2) r
        → Swept b frames lo e
            (then_core frames
              (then_core frames r
                (contiguous_core b half_word frames)
                (λ p. align_down end_of 0x01))
              (contiguous_core b byte frames)
              (λ p. end_of)).0
    finish r start =
        let halves =
          step (Ready 2) (Ready 2) _ (λ p. down 2 end_of) halves-IsCore (λ p i. i.0)
            (down_target end_of room 1 (omega arith)) (λ p i. bulk_2 p end_of i) r start in
        let last =
          step (Ready 2) (λ p q. p ≡ q) (λ p. end_of) (λ p. end_of) bytes-IsCore (λ p i. i.0)
            (λ p i. (refl, le_refl _)) (λ p i. (bytes_Moves p end_of end_of, omega arith)) _
            halves in
        Stage-Swept last.0 _ last.1 last.2

    wider : (r : AllocationRun × ℕ) → Cursor Ready16 r → Cursor Ready4 r
    wider r (p, ready, stage) = (p, ready.0, stage)

    to_halves : (r : AllocationRun × ℕ) → Cursor Ready4 r → Cursor (Ready 2) r
    to_halves r (p, ready, stage) = (p, ready.0, stage)

    module _ (o : ℕ) (h : o ≤ e) (run : AllocationRun)
        (c : Carry (frame_used b) frames lo (8 * o) run.length) where
      first :
          Cursor (Ready 2) (
            contiguous_core b byte frames run (aligned_end (b.start + o) end_of 0x01) (b.start + o))
      first =
          let target = up_target end_of room 1 (omega arith) (b.start + o) (omega arith) in
          (
            max (b.start + o) (up_to 2 (b.start + o) end_of),
            align_2 (b.start + o) end_of (omega arith),
            rw target.0 (
                core-Stage (b.start + o) (up_to 2 (b.start + o) end_of) (run, b.start + o)
                  bytes-IsCore target.1 (bytes_Moves (b.start + o) end_of _)
                  (record {
                    above = omega arith;
                    within = omega arith;
                    at_p = refl;
                    carry = let same : b.start + o - b.start ≡ o = omega arith in rw same c;
                  })),
          )

      pub sweep_32-Swept : Swept b frames lo e (sweep_32 b frames (b.start + o) end_of run)
      unfolding sweep_32
      sweep_32-Swept = finish _ (to_halves _ (bulk_4_step _ (align_4_step _ first)))

      pub sweep_sse_2-Swept : Swept b frames lo e (sweep_sse_2 b frames (b.start + o) end_of run)
      unfolding sweep_sse_2
      sweep_sse_2-Swept = finish _ (
          to_halves _
            (bulk_4_step _ (wider _ (bulk_16_step _ (align_16_step _ (align_4_step _ first))))))

      pub sweep_avx_2-Swept : Swept b frames lo e (sweep_avx_2 b frames (b.start + o) end_of run)
      unfolding sweep_avx_2
      sweep_avx_2-Swept = finish _ (
          to_halves _ (
            bulk_4_step _ (
              wider _ (
                bulk_16_step _
                  (bulk_32_step _ (align_32_step _ (align_16_step _ (align_4_step _ first))))))))
