-- ===== src/Pmm/Frames/Allocate.antt =====
-- What `pmm_allocate_frame` does (kernel/pmm.cpp, lines 1088 to 1107).
use bare_metal_programming.Prelude.{
  ℕ, ◌+◌, ◌-◌, ◌*◌, ◌/◌, ◌%◌, ◌^◌, ◌≤◌, ◌<◌, ◌≡◌, ◌≢◌, inl, inr, refl, ◌∙◌, ap, arith, ltb, ◌==◌,
  if◌then◌else◌, Bool, true, false, Bool-cases, length, Option, none, some, cast, complement, ◌||◌,
  bit_or, ◌<<<◌, test_bit, test_bit-ones,
}
use mathlib.Core.Path.{subst}
use bare_metal_programming.Tools.Builtin.{trailing_zeros}
use bare_metal_programming.Pmm.Geometry.{
  Bitmap, Pmm, load_8, store_8, frame_address, set_frame_used,
}
use bare_metal_programming.Pmm.View.{frame_used}
use bare_metal_programming.Pmm.Sweep.Find.{IsBitmap}
use bare_metal_programming.Pmm.Update.{Changed, store_8-Changed, Changed-hint, count_used-le}
use bare_metal_programming.Pmm.Invariant.{IsPmm, SameMachine, HintInside, mark-IsPmm}
use bare_metal_programming.Pmm.Ranges.{find_free_byte}
use bare_metal_programming.Pmm.Ranges.FreeByte.{FreeByte, at_byte, nowhere, find_free_byte-FreeByte}
use bare_metal_programming.Pmm.Frames.{nullptr, free_byte, allocate_in, pmm_allocate_frame}
use bare_metal_programming.Pmm.Frames.Byte.{IsFree, trailing_zeros-IsFree, one_set}

-- The outcome of an allocation: the null pointer and no change where every frame is used, and
-- otherwise the address of a frame that was free, which is marked and counted.
pub data Allocation (g : Pmm) : Pmm × ℕ → Type 0 where
  exhausted :
      ((f : ℕ) → f < g.total_frames → frame_used g.bitmap f ≡ true) → Allocation g (g, nullptr)
  granted :
      (f : ℕ) (g' : Pmm) (address : ℕ)
      → 0 < f
      → f < g.total_frames
      → frame_used g.bitmap f ≡ false
      → address ≡ f * 4096
      → Changed true f (f + 1) g.bitmap g'.bitmap
      → g'.used_frames ≡ g.used_frames + 1
      → SameMachine g g'
      → IsPmm g'
      → Allocation g (g', address)

full_byte : (b : Bitmap) (f : ℕ) → load_8 b (b.start + f / 8) ≡ 0xFF → frame_used b f ≡ true
full_byte b f e = ap (λ x. test_bit x (f % 8)) e ∙ test_bit-ones 8 (f % 8) ∙ ground arith

-- Where the byte with a free frame is, if there is one.
pub data FreePlace (b : Bitmap) : Option ℕ → Type 0 where
  place :
      (i : ℕ)
      → i < length b.cells
      → load_8 b (b.start + i) ≢ 0xFF
      → FreePlace b (some (b.start + i))
  no_place : ((f : ℕ) → f < 8 * length b.cells → frame_used b f ≡ true) → FreePlace b none

module _ (b : Bitmap) (v : IsBitmap b) where
  placed : (p : ℕ) → b.start ≤ p → p < b.limit → load_8 b p ≢ 0xFF → FreePlace b (some p)
  placed p above below free =
      let at : b.start + (p - b.start) ≡ p = omega arith in
      subst (λ q. FreePlace b (some q)) at
        (place (p - b.start) (omega (arith, v.spans)) (rw at free))

  before_hint :
      {o : Option ℕ}
      → ((q : ℕ) → b.search_begin ≤ q → q < b.limit → load_8 b q ≡ 0xFF)
      → FreeByte b b.start b.search_begin o
      → FreePlace b o
  before_hint behind (at_byte p from to free first) =
      placed p from (omega (arith, v.hint_within)) free
  before_hint behind (nowhere before) = no_place λ f h.
      elim (Bool-cases (ltb (b.start + f / 8) b.search_begin)) [
        | inl low ↦ full_byte b f (before (b.start + f / 8) (omega arith) (ground arith))
        | inr high ↦
            full_byte b f (behind (b.start + f / 8) (ground arith) (omega (arith, v.spans)))
      ]

  free_byte-FreePlace : FreePlace b (free_byte b)
  unfolding free_byte
  free_byte-FreePlace = from_hint (find_free_byte-FreeByte b b.search_begin b.limit)
    where
      from_hint :
          {o : Option ℕ}
          → FreeByte b b.search_begin b.limit o
          → FreePlace b (elim o [
            | some byte_ptr ↦ some byte_ptr
            | none ↦ find_free_byte b b.start b.search_begin
          ])
      from_hint (at_byte p from to free first) = placed p (omega (arith, v.hint_above)) to free
      from_hint (nowhere behind) =
          before_hint behind (find_free_byte-FreeByte b b.start b.search_begin)

module _ (g : Pmm) (v : IsPmm g) where
  -- The byte at `i` has a free frame.
  module _ (i : ℕ) (within : i < length g.bitmap.cells)
      (room : load_8 g.bitmap (g.bitmap.start + i) ≢ 0xFF) where
    abbrev value : ℕ
    value = load_8 g.bitmap (g.bitmap.start + i)

    abbrev t : ℕ
    t = trailing_zeros 8 (complement 8 value)

    abbrev frame : ℕ
    frame = 8 * i + t

    abbrev marked : ℕ
    marked = cast 8 (bit_or value (1 <<< t))

    lowest : IsFree value t
    lowest = trailing_zeros-IsFree value (v.bitmap_ok.bytes _) room

    frame_free : frame_used g.bitmap frame ≡ false
    frame_free =
        let byte : g.bitmap.start + frame / 8 ≡ g.bitmap.start + i = omega (arith, lowest.inside) in
        let bit : frame % 8 ≡ t = omega (arith, lowest.inside) in rw (byte, bit) lowest.clear

    in_range : frame < g.total_frames
    in_range = elim (Bool-cases (ltb frame g.total_frames)) [
      | inl low ↦ ground arith
      | inr high ↦
          ground (arith, frame_free, v.spare frame (ground arith) (omega (arith, lowest.inside)))
    ]

    not_null : 0 < frame
    not_null = elim (Bool-cases (frame == 0)) [
      | inl null ↦ ground (
        arith,
        frame_free,
        v.used_0 frame in_range (ground (arith, v.null_frame), ground (arith, v.null_frame)),
      )
      | inr pos ↦ ground arith
    ]

    byte_Changed :
        Changed true frame (frame + 1) g.bitmap (store_8 g.bitmap (g.bitmap.start + i) marked)
    byte_Changed =
        store_8-Changed true frame (frame + 1) g.bitmap i marked v.bitmap_ok.bytes within
          (omega arith) (omega arith) (omega (arith, lowest.inside))
          (λ j h p q.
            let same : j ≡ t = omega arith in one_set value t j h ∙ rw same (ground arith))
          (λ j h o. one_set value t j h ∙ other j (omega arith))
      where
        other : (j : ℕ) → j ≢ t → (test_bit value j || (j == t)) ≡ test_bit value j
        other j ne = ground arith

    no_wrap : g.used_frames + 1 < 2 ^ 32
    no_wrap = omega (arith, v.counted, count_used-le (frame_used g.bitmap) g.total_frames, v.few)

    allocate_in-Allocation : Allocation g (allocate_in g (g.bitmap.start + i))
    unfolding allocate_in set_frame_used frame_address
    allocate_in-Allocation =
        granted frame _ _ not_null in_range frame_free
          (omega (arith, lowest.inside, in_range, v.few)) c count same
          (mark-IsPmm g _ v frame (frame + 1) (omega arith) (omega (arith, in_range)) same hint c
            (λ f p q. let e : f ≡ frame = omega arith in rw e frame_free) (omega (arith, count)))
      where
        g' : Pmm
        g' = (allocate_in g (g.bitmap.start + i)).0

        c : Changed true frame (frame + 1) g.bitmap g'.bitmap
        c = Changed-hint true frame (frame + 1) g.bitmap _ _ byte_Changed

        count : g'.used_frames ≡ g.used_frames + 1
        count = omega (arith, no_wrap)

        same : SameMachine g g'
        same = record { same_total = refl; same_0 = refl; same_1 = refl; same_flag = refl }

        step-le : (w : Bool) → (if w then 1 else 0) ≤ 1
        step-le true = omega arith
        step-le false = omega arith

        hint : HintInside g'.bitmap
        hint = record {
          above = omega arith;
          within = omega (arith, step-le (marked == 0xFF), v.bitmap_ok.spans);
        }

  -- In a state that keeps the invariant, `pmm_allocate_frame` returns the null pointer and changes
  -- nothing if every frame is used, and otherwise returns the address of a frame that was free
  -- and is not frame 0, marks this frame alone, adds one to the counter and keeps the invariant.
  pub pmm_allocate_frame-Allocation : Allocation g (pmm_allocate_frame g)
  unfolding pmm_allocate_frame
  pmm_allocate_frame-Allocation = from_place (free_byte-FreePlace g.bitmap v.bitmap_ok)
    where
      from_place :
          {o : Option ℕ}
          → FreePlace g.bitmap o
          → Allocation g (elim o [ none ↦ (g, nullptr) | some byte_ptr ↦ allocate_in g byte_ptr ])
      from_place (place i within room) = allocate_in-Allocation i within room
      from_place (no_place all) = exhausted λ f h. all f (omega (arith, v.fits))
