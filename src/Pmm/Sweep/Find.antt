-- ===== src/Pmm/Sweep/Find.antt =====
-- The search of the whole bitmap, on each tier of the processor's features.
use bare_metal_programming.Prelude.{
  ℕ, ◌+◌, ◌-◌, ◌*◌, ◌≤◌, ◌<◌, ◌^◌, ◌≡◌, ◌↔◌, ◌⊎◌, inl, inr, refl, sym, arith, ltb, ◌==◌, true,
  false, Bool-cases, length,
}
use mathlib.Core.Path.{subst₂}
use mathlib.Core.Logic.{∥∥₁_elim}
use mathlib.Core.HLevel.{⊥_prop}
use bare_metal_programming.Pmm.Geometry.{Bitmap, AllocationRun}
use bare_metal_programming.Pmm.View.{frame_used, AllBytes}
use bare_metal_programming.Pmm.Search.Carry.{FreeRun, Blocked, Carry, start-Carry}
use bare_metal_programming.Pmm.Sweep.{
  sweep_32, sweep_sse_2, sweep_avx_2, find_with, find_contiguous_frames_32,
  find_contiguous_frames_sse2, find_contiguous_frames_avx2, simd_lut,
}
use bare_metal_programming.Pmm.Sweep.Laws.{
  Swept, hit, miss, sweep_32-Swept, sweep_sse_2-Swept, sweep_avx_2-Swept,
}

-- A bitmap that lies in the address space, with its hint inside it.
pub record IsBitmap (b : Bitmap) : Type 0 where
  pub bytes : AllBytes b
  pub spans : b.limit ≡ b.start + length b.cells
  pub hint_above : b.start ≤ b.search_begin
  pub hint_within : b.search_begin ≤ b.limit
  pub few : 8 * length b.cells + 32 < 2 ^ 31
  pub low : b.limit + 32 < 2 ^ 32

-- The first frame that the hint stands at.
abbrev pub hint_frame : Bitmap → ℕ
hint_frame b = 8 * (b.search_begin - b.start)

-- A candidate that a search looks at: it lies behind the hint, or before it.
abbrev pub InReach : Bitmap → ℕ → ℕ → Type 0
InReach b frames s =
    ((hint_frame b ≤ s) × (s + frames ≤ 8 * length b.cells)) ⊎ (s + frames ≤ hint_frame b)

-- The run that a search returns.
pub data Searched (b : Bitmap) (frames : ℕ) (run : AllocationRun) : Type 0 where
  success :
      run.length ≡ frames
      → InReach b frames run.start_frame
      → FreeRun (frame_used b) run.start_frame frames
      → Searched b frames run
  failure :
      run.length < frames
      → ((s : ℕ) → InReach b frames s → Blocked (frame_used b) s frames)
      → Searched b frames run

-- `allocation_run run{}`.
abbrev pub no_run : AllocationRun
no_run = record { start_frame = 0; length = 0 }

module _ (b : Bitmap) (v : IsBitmap b) (frames : ℕ) (pos : 0 < frames)
    (frames_small : frames < 2 ^ 31) where
  abbrev hint : ℕ
  hint = b.search_begin - b.start

  -- What a tier's sweep does.
  abbrev IsSweep : (Bitmap → ℕ → ℕ → ℕ → AllocationRun → AllocationRun) → Type 0
  IsSweep sweep =
      (lo e o : ℕ) (run : AllocationRun)
      → o ≤ e
      → 8 * e + 32 < 2 ^ 31
      → b.start + e + 32 < 2 ^ 32
      → Carry (frame_used b) frames lo (8 * o) run.length
      → Swept b frames lo e (sweep b frames (b.start + o) (b.start + e) run)

  second_Searched :
      (run : AllocationRun)
      → ((s : ℕ)
          → hint_frame b ≤ s
          → s + frames ≤ 8 * length b.cells
          → Blocked (frame_used b) s frames)
      → Swept b frames 0 hint run
      → Searched b frames run
  second_Searched run behind (hit whole r) = success whole (inr r.to_hi) r.all_free
  second_Searched run behind (miss c) = failure c.short λ s r. elim r [
    | inl (from_hint, to_end) ↦ behind s from_hint to_end
    | inr before ↦ c.none_before s (omega arith) before
  ]

  module _ (sweep : Bitmap → ℕ → ℕ → ℕ → AllocationRun → AllocationRun) (s : IsSweep sweep) where
    sweep_at :
        (x y lo e o : ℕ) (run : AllocationRun)
        → x ≡ b.start + o
        → y ≡ b.start + e
        → o ≤ e
        → e ≤ length b.cells
        → Carry (frame_used b) frames lo (8 * o) run.length
        → Swept b frames lo e (sweep b frames x y run)
    sweep_at x y lo e o run p q h k c =
        subst₂ (λ x' y'. Swept b frames lo e (sweep b frames x' y' run)) (sym p) (sym q)
          (s lo e o run h (omega (arith, v.few)) (omega (arith, v.low, v.spans)) c)

    abbrev first : AllocationRun
    first = sweep b frames b.search_begin b.limit no_run

    first-Swept : Swept b frames (8 * hint) (length b.cells) first
    first-Swept =
        sweep_at b.search_begin b.limit (8 * hint) (length b.cells) hint no_run
          (omega (arith, v.hint_above)) v.spans
          (omega (arith, v.hint_within, v.spans, v.hint_above)) (omega arith)
          (start-Carry (frame_used b) frames (8 * hint) pos)

    second-Swept :
        (run : AllocationRun)
        → run.length ≡ 0
        → Swept b frames 0 hint (sweep b frames b.start b.search_begin run)
    second-Swept run none =
        sweep_at b.start b.search_begin 0 hint 0 run (omega arith) (omega (arith, v.hint_above))
          (omega arith) (omega (arith, v.hint_within, v.spans, v.hint_above))
          (rw none (start-Carry (frame_used b) frames 0 pos))

    after_first :
        Swept b frames (8 * hint) (length b.cells) first
        → Searched b frames (find_with sweep b no_run frames)
    unfolding find_with
    after_first (hit whole r) =
        let enough : ltb first.length frames ≡ false = ground (arith, whole) in
        rw enough (success whole (inl (r.from_lo, r.to_hi)) r.all_free)
    after_first (miss c) =
        let short : ltb first.length frames ≡ true = ground (arith, c.short) in
        rw short (
          second_Searched (sweep b frames b.start b.search_begin (record first { length = 0 }))
            (λ s' p q. c.none_before s' p q) (second-Swept (record first { length = 0 }) refl))

    find_with-Searched : Searched b frames (find_with sweep b no_run frames)
    find_with-Searched = after_first first-Swept

  -- On a bitmap inside the address space whose hint lies within it, a search for 1 to 2^31 - 1
  -- frames, on each tier, returns a run of that length that is free and lies behind the hint or
  -- before it, or returns a shorter length, and then each stretch of that many frames behind the
  -- hint, and each before it, holds a used frame.
  pub simd_lut-Searched : (index : ℕ) → Searched b frames (simd_lut index b no_run frames)
  unfolding simd_lut find_contiguous_frames_32 find_contiguous_frames_sse2
      find_contiguous_frames_avx2
  simd_lut-Searched index = elim (Bool-cases (index == 0)) [
    | inl gpr ↦ rw gpr (find_with-Searched sweep_32 gpr_sweep)
    | inr wide ↦ elim (Bool-cases (index == 1)) [
      | inl sse ↦ rw (wide, sse) (find_with-Searched sweep_sse_2 sse_sweep)
      | inr avx ↦ rw (wide, avx) (find_with-Searched sweep_avx_2 avx_sweep)
    ]
  ]
    where
      gpr_sweep : IsSweep sweep_32
      gpr_sweep lo e o run h small room c =
          sweep_32-Swept b frames lo e small v.bytes pos frames_small room o h run c

      sse_sweep : IsSweep sweep_sse_2
      sse_sweep lo e o run h small room c =
          sweep_sse_2-Swept b frames lo e small v.bytes pos frames_small room o h run c

      avx_sweep : IsSweep sweep_avx_2
      avx_sweep lo e o run h small room c =
          sweep_avx_2-Swept b frames lo e small v.bytes pos frames_small room o h run c

  Searched-length : {run : AllocationRun} → Searched b frames run → run.length ≤ frames
  Searched-length (success whole r free) = omega arith
  Searched-length (failure short blocked) = omega arith

  -- The search succeeds exactly when some candidate within its reach is free.
  Searched-iff :
      {run : AllocationRun}
      → Searched b frames run
      → (run.length ≡ frames)
        ↔ ∥ ((s : ℕ) × InReach b frames s × FreeRun (frame_used b) s frames) ∥₁
  Searched-iff {run} (success whole r free) = (λ e. ∣ (run.start_frame, r, free) ∣₁, λ t. whole)
  Searched-iff {run} (failure short blocked) =
      (λ e. absurd (omega arith), λ t. absurd (∥∥₁_elim t ⊥_prop (λ (s, r, free). clash s r free)))
    where
      clash : (s : ℕ) → InReach b frames s → FreeRun (frame_used b) s frames → ⊥
      clash s r free = let (f, from, to, used) = blocked s r in ground (arith, free f from to)

  -- On a bitmap inside the address space whose hint lies within it, any two tiers find a run for
  -- the same requests of 1 to 2^31 - 1 frames.
  pub tiers_agree :
      (i j : ℕ)
      → ((simd_lut i b no_run frames).length ≡ frames)
        ↔ ((simd_lut j b no_run frames).length ≡ frames)
  tiers_agree i j = (
    λ e. (Searched-iff (simd_lut-Searched j)).1 ((Searched-iff (simd_lut-Searched i)).0 e),
    λ e. (Searched-iff (simd_lut-Searched i)).1 ((Searched-iff (simd_lut-Searched j)).0 e),
  )
