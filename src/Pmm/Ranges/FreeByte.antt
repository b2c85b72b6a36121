-- ===== src/Pmm/Ranges/FreeByte.antt =====
-- What `find_free_byte` finds (kernel/pmm.cpp, lines 947 to 955).
use bare_metal_programming.Prelude.{
  ℕ, zero, suc, ◌+◌, ◌-◌, ◌≤◌, ◌<◌, ◌≡◌, ◌≢◌, inl, inr, refl, arith, ltb, ◌==◌, Bool-cases, Option,
  none, some,
}
use bare_metal_programming.Pmm.Geometry.{Bitmap, load_8}
use bare_metal_programming.Pmm.Ranges.{find_loop, find_free_byte}

-- The first byte that is not full, or none.
pub data FreeByte (b : Bitmap) (begin end_ : ℕ) : Option ℕ → Type 0 where
  at_byte :
      (p : ℕ)
      → begin ≤ p
      → p < end_
      → load_8 b p ≢ 0xFF
      → ((q : ℕ) → begin ≤ q → q < p → load_8 b q ≡ 0xFF)
      → FreeByte b begin end_ (some p)
  nowhere : ((q : ℕ) → begin ≤ q → q < end_ → load_8 b q ≡ 0xFF) → FreeByte b begin end_ none

module _ (b : Bitmap) where
  loop_turn :
      (fuel begin end_ : ℕ)
      → begin < end_
      → load_8 b begin ≡ 0xFF
      → find_loop b (suc fuel) begin end_ ≡ find_loop b fuel (begin + 1) end_
  unfolding find_loop
  loop_turn fuel begin end_ h e = ground arith

  loop_found :
      (fuel begin end_ : ℕ)
      → begin < end_
      → load_8 b begin ≢ 0xFF
      → find_loop b (suc fuel) begin end_ ≡ some begin
  unfolding find_loop
  loop_found fuel begin end_ h e = ground arith

  loop_stops : (fuel begin end_ : ℕ) → end_ ≤ begin → find_loop b fuel begin end_ ≡ none
  unfolding find_loop
  loop_stops zero begin end_ h = refl
  loop_stops (suc fuel) begin end_ h = ground arith

  FreeByte-suc :
      (begin end_ : ℕ) (o : Option ℕ)
      → load_8 b begin ≡ 0xFF
      → FreeByte b (begin + 1) end_ o
      → FreeByte b begin end_ o
  FreeByte-suc begin end_ _ full (at_byte p from to free first) =
      at_byte p (omega arith) to free λ q h k. here_or_later q h (first q) k
    where
      here_or_later :
          (q : ℕ)
          → begin ≤ q
          → (begin + 1 ≤ q → q < p → load_8 b q ≡ 0xFF)
          → q < p
          → load_8 b q ≡ 0xFF
      here_or_later q h later k = elim (Bool-cases (begin == q)) [
        | inl here ↦ let same : q ≡ begin = ground arith in rw same full
        | inr past ↦ later (ground arith) k
      ]
  FreeByte-suc begin end_ _ full (nowhere all) = nowhere λ q h k. elim (Bool-cases (begin == q)) [
    | inl here ↦ let same : q ≡ begin = ground arith in rw same full
    | inr past ↦ all q (ground arith) k
  ]

  find_loop-FreeByte :
      (fuel begin end_ : ℕ)
      → end_ ≤ begin + fuel
      → FreeByte b begin end_ (find_loop b fuel begin end_)
  find_loop-FreeByte zero begin end_ h =
      rw (loop_stops zero begin end_ (omega arith)) (nowhere λ q p r. absurd (omega arith))
  find_loop-FreeByte (suc fuel) begin end_ h = elim (Bool-cases (ltb begin end_)) [
    | inl more ↦ elim (Bool-cases (load_8 b begin == 0xFF)) [
      | inl full ↦ rw (loop_turn fuel begin end_ (ground arith) (ground arith)) (
          FreeByte-suc begin end_ _ (ground arith)
            (find_loop-FreeByte fuel (begin + 1) end_ (omega arith)))
      | inr free ↦
          rw (loop_found fuel begin end_ (ground arith) (ground arith)) (
            at_byte begin (omega arith) (ground arith) (ground arith) λ q p r. absurd (omega arith))
    ]
    | inr done ↦
        rw (loop_stops (suc fuel) begin end_ (ground arith))
          (nowhere λ q p r. absurd (ground arith))
  ]

  -- For any two pointers, `find_free_byte` returns the first byte from `begin` up to `end` that is
  -- not 0xFF, and no byte exactly where all of them are 0xFF.
  pub find_free_byte-FreeByte :
      (begin end_ : ℕ) → FreeByte b begin end_ (find_free_byte b begin end_)
  unfolding find_free_byte
  find_free_byte-FreeByte begin end_ = find_loop-FreeByte (end_ - begin) begin end_ (omega arith)
