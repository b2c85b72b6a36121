-- ===== src/Pmm/Update.antt =====
-- Changes of the bitmap, seen frame by frame, and the number of used frames.
use bare_metal_programming.Prelude.{
  ℕ, zero, suc, ◌+◌, ◌-◌, ◌*◌, ◌/◌, ◌%◌, ◌^◌, ◌≤◌, ◌<◌, ◌≡◌, ◌⊎◌, inl, inr, refl, ◌∙◌, ap, arith,
  min, ltb, leb, ◌==◌, if◌then◌else◌, Bool, true, false, Bool-cases, length, get_or-set_self,
  get_or-set_ne, set-beyond, length-set, test_bit, test_bit-ones, zero-test_bit,
}
use bare_metal_programming.Pmm.Geometry.{Bitmap, load_8, store_8}
use bare_metal_programming.Pmm.View.{frame_used, AllBytes}
use bare_metal_programming.Pmm.Fill.{SetBits, all_zeros, all_ones}
use bare_metal_programming.Pmm.Fill.Laws.{Filled, byte_of}

-- The frames from `lo` up to `hi` are in the state `used`; no other frame has changed.
pub record Changed (used : Bool) (lo hi : ℕ) (b b' : Bitmap) : Type 0 where
  pub same_start : b'.start ≡ b.start
  pub same_limit : b'.limit ≡ b.limit
  pub same_length : length b'.cells ≡ length b.cells
  pub bytes : AllBytes b'
  pub inside : (f : ℕ) → lo ≤ f → f < hi → frame_used b' f ≡ used
  pub outside : (f : ℕ) → (f < lo) ⊎ (hi ≤ f) → frame_used b' f ≡ frame_used b f

-- One byte written.
pub load_8-store_8 :
    (b : Bitmap) (i p v : ℕ)
    → i < length b.cells
    → b.start ≤ p
    → load_8 (store_8 b (b.start + i) v) p ≡ (if p == b.start + i then v else load_8 b p)
load_8-store_8 b i p v h above = elim (Bool-cases (p == b.start + i)) [
  | inl here ↦
      let same : p - b.start ≡ b.start + i - b.start = ground arith in
      rw (here, same) (get_or-set_self b.cells (b.start + i - b.start) v 0 (omega arith))
  | inr away ↦
      rw away (get_or-set_ne b.cells (b.start + i - b.start) (p - b.start) v 0 (ground arith))
]

pub AllBytes-store_8 : (b : Bitmap) (p v : ℕ) → AllBytes b → v < 2 ^ 8 → AllBytes (store_8 b p v)
AllBytes-store_8 b p v bytes h q = elim (Bool-cases (q - b.start == p - b.start)) [
  | inl here ↦ elim (Bool-cases (ltb (p - b.start) (length b.cells))) [
    | inl within ↦
        let same : q - b.start ≡ p - b.start = ground arith in
        rw (same, get_or-set_self b.cells (p - b.start) v 0 (ground arith)) h
    | inr beyond ↦ rw (set-beyond b.cells (p - b.start) v (ground arith)) (bytes q)
  ]
  | inr away ↦ rw (get_or-set_ne b.cells (p - b.start) (q - b.start) v 0 (ground arith)) (bytes q)
]

pub store_8-frame_used :
    (b : Bitmap) (i v f : ℕ)
    → i < length b.cells
    → frame_used (store_8 b (b.start + i) v) f
      ≡ (if f / 8 == i then test_bit v (f % 8) else frame_used b f)
store_8-frame_used b i v f h =
    rw (load_8-store_8 b i (b.start + f / 8) v h (omega arith)) (elim (Bool-cases (f / 8 == i)) [
      | inl here ↦
          let at : (b.start + f / 8 == b.start + i) ≡ true = ground arith in rw (here, at) refl
      | inr away ↦
          let at : (b.start + f / 8 == b.start + i) ≡ false = ground arith in rw (away, at) refl
    ])

-- A byte that holds the frames from `lo` up to `hi` of one change, written.
pub store_8-Changed :
    (used : Bool) (lo hi : ℕ) (b : Bitmap) (i v : ℕ)
    → AllBytes b
    → i < length b.cells
    → v < 2 ^ 8
    → 8 * i ≤ lo
    → hi ≤ 8 * i + 8
    → ((j : ℕ) → j < 8 → lo ≤ 8 * i + j → 8 * i + j < hi → test_bit v j ≡ used)
    → ((j : ℕ)
        → j < 8
        → (8 * i + j < lo) ⊎ (hi ≤ 8 * i + j)
        → test_bit v j ≡ test_bit (load_8 b (b.start + i)) j)
    → Changed used lo hi b (store_8 b (b.start + i) v)
store_8-Changed used lo hi b i v bytes within small from to inside outside = record {
  same_start = refl;
  same_limit = refl;
  same_length = length-set b.cells (b.start + i - b.start) v;
  bytes = AllBytes-store_8 b (b.start + i) v bytes small;
  inside = λ f p q.
      let here : (f / 8 == i) ≡ true = ground arith in
      let index : 8 * i + f % 8 ≡ f = ground arith in
      store_8-frame_used b i v f within
      ∙ rw here (inside (f % 8) (omega arith) (omega arith) (omega arith));
  outside = λ f o. store_8-frame_used b i v f within ∙ elim (Bool-cases (f / 8 == i)) [
    | inl here ↦
        let same : f / 8 ≡ i = ground arith in
        rw (here, same) (outside (f % 8) (omega arith) (omega arith))
    | inr away ↦ rw away refl
  ];
}

pub Changed-trans :
    (used : Bool) (lo mid hi : ℕ) (b b' b'' : Bitmap)
    → lo ≤ mid
    → mid ≤ hi
    → Changed used lo mid b b'
    → Changed used mid hi b' b''
    → Changed used lo hi b b''
Changed-trans used lo mid hi b b' b'' h k x y = record {
  same_start = y.same_start ∙ x.same_start;
  same_limit = y.same_limit ∙ x.same_limit;
  same_length = y.same_length ∙ x.same_length;
  bytes = y.bytes;
  inside = λ f p q. elim (Bool-cases (ltb f mid)) [
    | inl low ↦ y.outside f (inl (ground arith)) ∙ x.inside f p (ground arith)
    | inr high ↦ y.inside f (ground arith) q
  ];
  outside = λ f o. y.outside f (omega arith) ∙ x.outside f (omega arith);
}

-- The hint is no part of what a change is about.
pub Changed-hint :
    (used : Bool) (lo hi : ℕ) (b b' : Bitmap) (hint : ℕ)
    → Changed used lo hi b b'
    → Changed used lo hi b (record b' { search_begin = hint })
Changed-hint used lo hi b b' hint x = record {
  same_start = x.same_start;
  same_limit = x.same_limit;
  same_length = x.same_length;
  bytes = x.bytes;
  inside = x.inside;
  outside = x.outside;
}

abbrev pub state_of : SetBits → Bool
state_of all_zeros = false
state_of all_ones = true

byte_of-frames : (s : SetBits) (j : ℕ) → j < 8 → test_bit (byte_of s) j ≡ state_of s
byte_of-frames all_zeros j h = zero-test_bit j
byte_of-frames all_ones j h = test_bit-ones 8 j ∙ ground arith

byte_of-lt : (s : SetBits) → byte_of s < 2 ^ 8
byte_of-lt all_zeros = omega arith
byte_of-lt all_ones = omega arith

-- Whole bytes filled are whole stretches of frames changed.
pub Filled-Changed :
    (s : SetBits) (i j : ℕ) (b b' : Bitmap)
    → i ≤ j
    → AllBytes b
    → Filled s (b.start + i) (b.start + j) b b'
    → Changed (state_of s) (8 * i) (8 * j) b b'
Filled-Changed s i j b b' h bytes x = record {
  same_start = x.same_start;
  same_limit = x.same_limit;
  same_length = x.same_length;
  bytes = AllBytes_filled;
  inside = λ f p q.
      ap (λ p'. test_bit (load_8 b' (p' + f / 8)) (f % 8)) x.same_start
      ∙ ap (λ v. test_bit v (f % 8)) (x.inside (b.start + f / 8) (omega arith) (omega arith))
      ∙ byte_of-frames s (f % 8) (omega arith);
  outside = λ f o.
      ap (λ p'. test_bit (load_8 b' (p' + f / 8)) (f % 8)) x.same_start
      ∙ ap (λ v. test_bit v (f % 8)) (x.outside (b.start + f / 8) (omega arith) (omega arith));
}
  where
    at : (p : ℕ) → b.start ≤ p → load_8 b' p < 2 ^ 8
    at p above = elim (Bool-cases (leb (b.start + i) p)) [
      | inl from ↦ elim (Bool-cases (ltb p (b.start + j))) [
        | inl to ↦ rw (x.inside p (ground arith) (ground arith)) (byte_of-lt s)
        | inr past ↦ rw (x.outside p above (inr (ground arith))) (bytes p)
      ]
      | inr before ↦ rw (x.outside p above (inl (ground arith))) (bytes p)
    ]

    AllBytes_filled : AllBytes b'
    AllBytes_filled p =
        let same : p - b'.start ≡ b.start + (p - b'.start) - b'.start =
          omega (arith, x.same_start) in
        rw same (at (b.start + (p - b'.start)) (omega arith))

unfoldable pub count_used : (ℕ → Bool) → ℕ → ℕ
count_used used zero = 0
count_used used (suc n) = count_used used n + (if used n then 1 else 0)

pub count_used-le : (used : ℕ → Bool) (n : ℕ) → count_used used n ≤ n
unfolding count_used
count_used-le used zero = omega arith
count_used-le used (suc n) = ground (arith, count_used-le used n)

-- Marking free frames adds their number, and freeing used ones takes it away again.
pub count_used-mark :
    (used used' : ℕ → Bool) (lo hi n : ℕ)
    → lo ≤ hi
    → ((f : ℕ) → lo ≤ f → f < hi → (used f ≡ false) × (used' f ≡ true))
    → ((f : ℕ) → (f < lo) ⊎ (hi ≤ f) → used' f ≡ used f)
    → count_used used' n ≡ count_used used n + (min n hi - min n lo)
unfolding count_used
count_used-mark used used' lo hi zero h inside outside = omega arith
count_used-mark used used' lo hi (suc n) h inside outside =
    ground (arith, inside n, outside n, count_used-mark used used' lo hi n h inside outside)
