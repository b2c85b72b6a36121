-- ===== src/Pmm/Search/Core.antt =====
-- The loop of the word cores: it finds a run, or carries the invariant on to the end pointer.
use bare_metal_programming.Prelude.{
  ℕ, zero, suc, ◌+◌, ◌-◌, ◌*◌, ◌≤◌, ◌<◌, ◌^◌, ◌≡◌, refl, arith, ltb, true, ◌⊎◌, inl, inr,
}
use bare_metal_programming.Pmm.Geometry.{Bitmap, AllocationRun, load}
use bare_metal_programming.Pmm.View.{frame_used, AllBytes, load-frame_used, load-lt}
use bare_metal_programming.Pmm.Search.{
  Verdict, found, onward, Width, byte, half_word, word, bits_of, bytes_of, examine, contiguous_loop,
  contiguous_core,
}
use bare_metal_programming.Pmm.Search.Carry.{Carry, IsRun}
use bare_metal_programming.Pmm.Search.Shows.{Progress, Shows}
use bare_metal_programming.Pmm.Search.Examine.{examine-Progress}

pub bits_of-bytes_of : (w : Width) → bits_of w ≡ 8 * bytes_of w
bits_of-bytes_of byte = refl
bits_of-bytes_of half_word = refl
bits_of-bytes_of word = refl

pub bytes_of_pos : (w : Width) → (0 < bytes_of w) × (bytes_of w ≤ 4)
bytes_of_pos byte = omega arith
bytes_of_pos half_word = omega arith
bytes_of_pos word = omega arith

module _ (b : Bitmap) (frames lo : ℕ) where
  -- A run between `lo` and the byte `e`.
  pub record Found (e : ℕ) (r : AllocationRun × ℕ) : Type 0 where
    pub whole : r.0.length ≡ frames
    pub run : IsRun (frame_used b) frames lo (8 * e) r.0.start_frame

  -- No run up to the byte `e`, and the pointer stands there.
  pub record Carried (e : ℕ) (r : AllocationRun × ℕ) : Type 0 where
    pub carry : Carry (frame_used b) frames lo (8 * e) r.0.length
    pub at_end : r.1 ≡ b.start + e

  abbrev pub Outcome : ℕ → AllocationRun × ℕ → Type 0
  Outcome e r = Found e r ⊎ Carried e r

  pub Found-widen : {e e' : ℕ} {r : AllocationRun × ℕ} → e ≤ e' → Found e r → Found e' r
  Found-widen h f = record {
    whole = f.whole;
    run = record {
      from_lo = f.run.from_lo;
      to_hi = omega (arith, f.run.to_hi);
      all_free = f.run.all_free;
    };
  }

  loop_stops :
      (w : Width) (fuel end_ current l at : ℕ)
      → end_ ≤ current
      → contiguous_loop b w frames fuel end_ current l at
        ≡ (record { start_frame = at; length = l }, current)
  unfolding contiguous_loop
  loop_stops w zero end_ current l at h = refl
  loop_stops w (suc fuel) end_ current l at h = ground arith

  loop_found :
      (w : Width) (fuel end_ current l at : ℕ) {s : ℕ}
      → ltb current end_ ≡ true
      → examine b w frames current l (load b current (bytes_of w)) ≡ found s
      → contiguous_loop b w frames (suc fuel) end_ current l at
        ≡ (record { start_frame = s; length = frames }, current)
  unfolding contiguous_loop
  loop_found w fuel end_ current l at h e = ground arith

  loop_onward :
      (w : Width) (fuel end_ current l at : ℕ) {l' : ℕ}
      → ltb current end_ ≡ true
      → examine b w frames current l (load b current (bytes_of w)) ≡ onward l'
      → contiguous_loop b w frames (suc fuel) end_ current l at
        ≡ contiguous_loop b w frames fuel end_ (current + bytes_of w) l' at
  unfolding contiguous_loop
  loop_onward w fuel end_ current l at h e = ground arith

  module _ (bytes : AllBytes b) (pos : 0 < frames) (frames_small : frames < 2 ^ 31) where
    word_Shows :
        (w : Width) (o : ℕ)
        → Shows (frame_used b) frames lo pos (bits_of w) (8 * o) (load b (b.start + o) (bytes_of w))
    word_Shows w o = rw (bits_of-bytes_of w) (record {
      fits = load-lt b (b.start + o) (bytes_of w) bytes;
      bit = λ i h. load-frame_used b (bytes_of w) o i bytes h;
    })

    turn :
        (w : Width) (o l : ℕ)
        → 8 * o + 32 < 2 ^ 31
        → Carry (frame_used b) frames lo (8 * o) l
        → Progress
            (frame_used b)
            frames
            lo
            pos
            (8 * (o + bytes_of w))
            (examine b w frames (b.start + o) l (load b (b.start + o) (bytes_of w)))
    turn w o l small c =
        let hi : 8 * (o + bytes_of w) ≡ 8 * o + bits_of w = omega (arith, bits_of-bytes_of w) in
        rw hi (
          examine-Progress (frame_used b) frames lo pos b w o l (load b (b.start + o) (bytes_of w))
            small frames_small (word_Shows w o) c)

    -- What follows a turn, given what the rest of the loop does.
    after :
        (w : Width) (fuel e o end_ current l at : ℕ)
        → ltb current end_ ≡ true
        → o + bytes_of w ≤ e
        → ((l' : ℕ)
            → Carry (frame_used b) frames lo (8 * (o + bytes_of w)) l'
            → Outcome e (contiguous_loop b w frames fuel end_ (current + bytes_of w) l' at))
        → (v : Verdict) → examine b w frames current l (load b current (bytes_of w)) ≡ v
        → Progress (frame_used b) frames lo pos (8 * (o + bytes_of w)) v
        → Outcome e (contiguous_loop b w frames (suc fuel) end_ current l at)
    after w fuel e o end_ current l at h within rest (found s) verdict progress =
        rw (loop_found w fuel end_ current l at h verdict)
          (inl (Found-widen {e = o + bytes_of w} within (record { whole = refl; run = progress })))
    after w fuel e o end_ current l at h within rest (onward l') verdict progress =
        rw (loop_onward w fuel end_ current l at h verdict) (rest l' progress)

    pub contiguous_loop-Outcome :
        (w : Width) (k fuel e o end_ current l at : ℕ)
        → k ≤ fuel
        → end_ ≡ b.start + e
        → current ≡ b.start + o
        → e ≡ o + k * bytes_of w
        → 8 * e + 32 < 2 ^ 31
        → Carry (frame_used b) frames lo (8 * o) l
        → Outcome e (contiguous_loop b w frames fuel end_ current l at)
    contiguous_loop-Outcome w zero fuel e o end_ current l at h q r s small c =
        rw (loop_stops w fuel end_ current l at (omega arith)) (
          inr (record {
            carry = let same : 8 * e ≡ 8 * o = omega arith in rw same c;
            at_end = omega arith;
          }))
    contiguous_loop-Outcome w (suc k) zero e o end_ current l at h q r s small c =
        absurd (omega arith)
    contiguous_loop-Outcome w (suc k) (suc fuel) e o end_ current l at h q r s small c =
        after w fuel e o end_ current l at (ground (arith, bytes_of_pos w))
          (omega (arith, bytes_of_pos w))
          (λ l' c'.
            contiguous_loop-Outcome w k fuel e (o + bytes_of w) end_ (current + bytes_of w) l' at
              (omega arith) q (omega arith) (omega arith) small c')
          (examine b w frames current l (load b current (bytes_of w))) refl
          (rw r (turn w o l (omega (arith, bytes_of_pos w)) c))

  -- Where the end pointer is not ahead, a core does nothing.
  pub contiguous_core_stops :
      (w : Width) (run : AllocationRun) (end_ start : ℕ)
      → end_ ≤ start
      → contiguous_core b w frames run end_ start ≡ (run, start)
  unfolding contiguous_core
  contiguous_core_stops w run end_ start h =
      loop_stops w (end_ - start) end_ start run.length run.start_frame h
