-- ===== src/Pmm/Sweep/Pointers.antt =====
-- The cursor of a sweep, stage by stage: at each stage it is aligned to the unit of the core, or
-- it has reached the end. A stage from `p` to `t` moves by whole units of `n` bytes.
use bare_metal_programming.Prelude.{ℕ, ◌+◌, ◌-◌, ◌*◌, ◌/◌, ◌%◌, ◌≤◌, ◌≡◌, arith, min, max, ◌⊎◌}

abbrev pub Moves : ℕ → ℕ → ℕ → Type 0
Moves n p t = (t ≤ p) ⊎ (t ≡ p + (t - p) / n * n)

-- `end & ~(n - 1)`, and the end of a stage that aligns to `n`.
abbrev pub down : ℕ → ℕ → ℕ
down n end_ = end_ / n * n

abbrev pub up_to : ℕ → ℕ → ℕ → ℕ
up_to n p end_ = min ((p + (n - 1)) / n * n) (down n end_)

-- A cursor that is aligned to `n`, or has no whole unit of `n` bytes before the end.
abbrev pub Ready : ℕ → ℕ → ℕ → Type 0
Ready n p end_ = (p ≤ end_) × ((p % n ≡ 0) ⊎ (down n end_ ≤ p))

abbrev pub Ready4 : ℕ → ℕ → Type 0
Ready4 p end_ = Ready 2 p end_ × Ready 4 p end_

abbrev pub Ready16 : ℕ → ℕ → Type 0
Ready16 p end_ = Ready4 p end_ × Ready 16 p end_

abbrev pub Ready32 : ℕ → ℕ → Type 0
Ready32 p end_ = Ready16 p end_ × Ready 32 p end_

module _ (p end_ : ℕ) where
  pub bytes_Moves : (t : ℕ) → Moves 1 p t
  bytes_Moves t = omega arith

  pub align_2 : p ≤ end_ → Ready 2 (max p (up_to 2 p end_)) end_
  align_2 h = omega arith

  pub align_4 : Ready 2 p end_ → Moves 2 p (up_to 4 p end_) × Ready4 (max p (up_to 4 p end_)) end_
  align_4 r = (omega arith, omega arith)

  pub align_16 :
      Ready4 p end_ → Moves 4 p (up_to 16 p end_) × Ready16 (max p (up_to 16 p end_)) end_
  align_16 r = (omega arith, omega arith)

  pub align_32 :
      Ready16 p end_ → Moves 16 p (up_to 32 p end_) × Ready32 (max p (up_to 32 p end_)) end_
  align_32 r = (omega arith, omega arith)

  pub bulk_32 : Ready32 p end_ → Moves 32 p (down 32 end_) × Ready16 (max p (down 32 end_)) end_
  bulk_32 r = (omega arith, omega arith)

  pub bulk_16 : Ready16 p end_ → Moves 16 p (down 16 end_) × Ready16 (max p (down 16 end_)) end_
  bulk_16 r = (omega arith, omega arith)

  pub bulk_4 : Ready4 p end_ → Moves 4 p (down 4 end_) × Ready4 (max p (down 4 end_)) end_
  bulk_4 r = (omega arith, omega arith)

  pub bulk_2 : Ready 2 p end_ → Moves 2 p (down 2 end_) × Ready 2 (max p (down 2 end_)) end_
  bulk_2 r = (omega arith, omega arith)
