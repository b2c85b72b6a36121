-- ===== src/Pmm/Search/Carry.antt =====
-- The invariant of the search for `frames` free frames in a row: what `length` means at a frame
-- position, and how one word moves it on. `used` is the bitmap read frame by frame, and `lo` is
-- the frame at which the sweep began.
use bare_metal_programming.Prelude.{
  ℕ, ◌+◌, ◌-◌, ◌≤◌, ◌<◌, ◌≡◌, arith, ltb, leb, Bool, true, false, ◌⊎◌, inl, inr, Bool-cases,
}

module _ (used : ℕ → Bool) where
  -- The `n` frames from `s` on are free.
  abbrev pub FreeRun : ℕ → ℕ → Type 0
  FreeRun s n = (f : ℕ) → s ≤ f → f < s + n → used f ≡ false

  -- One of the `n` frames from `s` on is used.
  abbrev pub Blocked : ℕ → ℕ → Type 0
  Blocked s n = (f : ℕ) × (s ≤ f) × (f < s + n) × (used f ≡ true)

module _ (used : ℕ → Bool) (frames lo : ℕ) where
  -- Before the frame `pos`, with no run found: the last `length` frames are free and no more.
  pub record Carry (pos length : ℕ) : Type 0 where
    pub short : length < frames
    pub room : lo + length ≤ pos
    pub free : (f : ℕ) → pos ≤ f + length → f < pos → used f ≡ false
    pub edge : (lo + length ≡ pos) ⊎ (used (pos - length - 1) ≡ true)
    pub none_before : (s : ℕ) → lo ≤ s → s + frames ≤ pos → Blocked used s frames

  -- A run that lies between `lo` and `hi`.
  pub record IsRun (hi start : ℕ) : Type 0 where
    pub from_lo : lo ≤ start
    pub to_hi : start + frames ≤ hi
    pub all_free : FreeRun used start frames

  pub start-Carry : 0 < frames → Carry lo 0
  start-Carry p = record {
    short = p;
    room = omega arith;
    free = λ f q r. absurd (omega arith);
    edge = inl (omega arith);
    none_before = λ s q r. absurd (omega arith);
  }

  -- A candidate that begins before the free frames at the end and reaches over them is blocked.
  before_edge :
      {pos length : ℕ} (s : ℕ)
      → Carry pos length
      → lo ≤ s
      → s + length < pos
      → pos ≤ s + frames
      → Blocked used s frames
  before_edge {pos} {length} s c p q r = elim c.edge [
    | inl e ↦ absurd (omega arith)
    | inr e ↦ (pos - length - 1, omega arith, omega arith, e)
  ]

  module _ {pos length : ℕ} (c : Carry pos length) (w : ℕ) where
    -- A word of free frames, short of a run.
    pub extend-Carry : FreeRun used pos w → length + w < frames → Carry (pos + w) (length + w)
    extend-Carry free_word short_run = record {
      short = short_run;
      room = omega (arith, c.room);
      free = λ f p q. elim (Bool-cases (ltb f pos)) [
        | inl old ↦ c.free f (omega arith) (ground arith)
        | inr new ↦ free_word f (ground arith) q
      ];
      edge = elim c.edge [
        | inl e ↦ inl (omega arith)
        | inr e ↦
            let index : pos + w - (length + w) - 1 ≡ pos - length - 1 = omega arith in
            inr (rw index e)
      ];
      none_before = λ s p q. elim (Bool-cases (leb (s + frames) pos)) [
        | inl old ↦ c.none_before s p (ground arith)
        | inr new ↦ before_edge s c p (omega arith) (ground arith)
      ];
    }

    -- A word of free frames that completes a run.
    pub extend-IsRun : FreeRun used pos w → frames ≤ length + w → IsRun (pos + w) (pos - length)
    extend-IsRun free_word long = record {
      from_lo = omega (arith, c.room);
      to_hi = omega (arith, c.room, c.short);
      all_free = λ f p q. elim (Bool-cases (ltb f pos)) [
        | inl old ↦ c.free f (omega (arith, c.room)) (ground arith)
        | inr new ↦ free_word f (ground arith) (omega (arith, c.room, c.short))
      ];
    }

    -- A word of used frames.
    pub reset-Carry :
        0 < frames → 0 < w → ((f : ℕ) → pos ≤ f → f < pos + w → used f ≡ true) → Carry (pos + w) 0
    reset-Carry p wide used_word = record {
      short = p;
      room = omega (arith, c.room);
      free = λ f q r. absurd (omega arith);
      edge = inr (used_word (pos + w - 0 - 1) (omega arith) (omega arith));
      none_before = λ s q r. elim (Bool-cases (leb (s + frames) pos)) [
        | inl old ↦ c.none_before s q (ground arith)
        | inr new ↦ (
          s + frames - 1,
          omega arith,
          omega arith,
          used_word (s + frames - 1) (ground arith) (omega arith),
        )
      ];
    }

    -- A mixed word: `t` free frames up to a used one, `z` free frames behind the last used one,
    -- and no run inside.
    pub mixed-Carry :
        (t z : ℕ)
        → t < w
        → z < w
        → used (pos + t) ≡ true
        → used (pos + w - z - 1) ≡ true
        → ((f : ℕ) → pos + w ≤ f + z → f < pos + w → used f ≡ false)
        → z < frames
        → length + t < frames
        → ((s : ℕ) → pos ≤ s → s + frames ≤ pos + w → Blocked used s frames)
        → Carry (pos + w) z
    mixed-Carry t z ht hz low high free_end z_short t_short inside = record {
      short = z_short;
      room = omega (arith, c.room);
      free = free_end;
      edge = inr high;
      none_before = λ s q r. elim (Bool-cases (leb (s + frames) pos)) [
        | inl old ↦ c.none_before s q (ground arith)
        | inr new ↦ elim (Bool-cases (leb pos s)) [
          | inl in_word ↦ inside s (ground arith) r
          | inr before ↦ elim (Bool-cases (leb (s + frames) (pos + t))) [
            | inl reaches_not ↦ before_edge s c q (ground arith) (ground arith)
            | inr reaches ↦ (pos + t, ground arith, ground arith, low)
          ]
        ]
      ];
    }

    -- A mixed word whose first free frames complete a run.
    pub joined-IsRun :
        (t : ℕ) → t < w → FreeRun used pos t → frames ≤ length + t → IsRun (pos + w) (pos - length)
    joined-IsRun t ht free_start long = record {
      from_lo = omega (arith, c.room);
      to_hi = omega (arith, c.room, c.short);
      all_free = λ f p q. elim (Bool-cases (ltb f pos)) [
        | inl old ↦ c.free f (omega (arith, c.room)) (ground arith)
        | inr new ↦ free_start f (ground arith) (omega (arith, c.room, c.short))
      ];
    }
