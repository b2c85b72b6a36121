-- ===== src/Pmm/Init/Entries.antt =====
-- `pmm_initialize` as a whole (kernel/pmm.cpp, lines 1022 to 1086).
use bare_metal_programming.Prelude.{
  ℕ, ◌+◌, ◌-◌, ◌≤◌, ◌<◌, ◌≡◌, ◌⊎◌, ◌↔◌, inl, inr, refl, ◌∙◌, sym, arith, cast, ◌>>>◌, ltb, leb,
  true, false, Bool-cases, List, [], ◌∷◌,
}
use mathlib.Core.Path.{subst}
use bare_metal_programming.Pmm.Geometry.{Pmm, frame_size, frame_shift}
use bare_metal_programming.Pmm.View.{frame_used}
use bare_metal_programming.Pmm.Invariant.{IsPmm, SameMachine, InRegion}
use bare_metal_programming.Pmm.Frames.Release.{Reserved}
use bare_metal_programming.Pmm.Init.{
  E820Entry, is_usable, entry_end, cmp_min, frames_of_map, free_entry, free_entries, all_used,
  pmm_initialize,
}
use bare_metal_programming.Pmm.Init.Fresh.{IsBoot, all_used-IsPmm, all_used-frames}
use bare_metal_programming.Pmm.Init.Image.{Kept, reserved_lem}
use bare_metal_programming.Pmm.Init.Piece.{EntryFreed, free_usable-EntryFreed}

-- The frames that lie wholly in an entry, cut off at the number of managed frames.
abbrev pub first_frame : ℕ → E820Entry → ℕ
first_frame total e = cmp_min (cast 64 (e.base + (frame_size - 1)) >>> frame_shift) total

abbrev pub end_frame : ℕ → E820Entry → ℕ
end_frame total e = cmp_min (entry_end e >>> frame_shift) total

-- The frame lies in a usable entry of the map.
abbrev pub InEntry : ℕ → E820Entry → ℕ → Type 0
InEntry total e f = (is_usable e.kind ≡ true) × (first_frame total e ≤ f) × (f < end_frame total e)

pub data Covered (total f : ℕ) : List E820Entry → Type 0 where
  here :
      (e : E820Entry) (entries : List E820Entry) → InEntry total e f → Covered total f (e ∷ entries)
  there :
      (e : E820Entry) (entries : List E820Entry)
      → Covered total f entries
      → Covered total f (e ∷ entries)

-- No frame lies in two usable entries.
pub data Disjoint (total : ℕ) : List E820Entry → Type 0 where
  no_entry : Disjoint total []
  one_more :
      (e : E820Entry) (entries : List E820Entry)
      → ((f : ℕ) → InEntry total e f → ¬ Covered total f entries)
      → Disjoint total entries
      → Disjoint total (e ∷ entries)

-- The unreserved frames of the map are free, and the others are as before.
pub record MapFreed (total : ℕ) (g : Pmm) (entries : List E820Entry) (g' : Pmm) : Type 0 where
  pub valid : IsPmm g'
  pub same : SameMachine g g'
  pub freed : (f : ℕ) → Covered total f entries → ¬ Reserved g f → frame_used g'.bitmap f ≡ false
  pub kept :
      (f : ℕ)
      → (¬ Covered total f entries) ⊎ Reserved g f
      → frame_used g'.bitmap f ≡ frame_used g.bitmap f

cmp_min-le : (a b : ℕ) → cmp_min a b ≤ b
unfolding cmp_min
cmp_min-le a b = ground arith

-- The outcome of one entry: its unreserved frames are freed.
record OneFreed (total : ℕ) (g : Pmm) (e : E820Entry) (g' : Pmm) : Type 0 where
  valid : IsPmm g'
  same : SameMachine g g'
  freed : (f : ℕ) → InEntry total e f → ¬ Reserved g f → frame_used g'.bitmap f ≡ false
  kept :
      (f : ℕ)
      → (¬ InEntry total e f) ⊎ Reserved g f
      → frame_used g'.bitmap f ≡ frame_used g.bitmap f

unchanged :
    (g : Pmm) (e : E820Entry)
    → IsPmm g
    → ((f : ℕ) → ¬ InEntry g.total_frames e f)
    → OneFreed g.total_frames g e g
unchanged g e v none = record {
  valid = v;
  same = record { same_total = refl; same_0 = refl; same_1 = refl; same_flag = refl };
  freed = λ f i r. absurd (none f i);
  kept = λ f o. refl;
}

free_entry-OneFreed :
    (g : Pmm) (e : E820Entry)
    → IsPmm g
    → ((f : ℕ) → InEntry g.total_frames e f → ¬ Reserved g f → frame_used g.bitmap f ≡ true)
    → OneFreed g.total_frames g e (free_entry g e)
unfolding free_entry
free_entry-OneFreed g e v held = elim (Bool-cases (is_usable e.kind)) [
  | inl use_it ↦
      elim (Bool-cases (ltb (first_frame g.total_frames e) (end_frame g.total_frames e))) [
        | inl some_frame ↦
            rw (use_it, some_frame)
              (taken use_it (
                free_usable-EntryFreed g (first_frame g.total_frames e) (end_frame g.total_frames e)
                  v (cmp_min-le (entry_end e >>> frame_shift) g.total_frames)
                  λ f p q r. held f (use_it, p, q) r))
        | inr no_frame ↦ rw (use_it, no_frame) (unchanged g e v λ f i. ground (arith, i.1, i.2))
      ]
  | inr skip ↦ rw skip (unchanged g e v λ f i. ground (arith, i.0))
]
  where
    taken :
        {g' : Pmm}
        → is_usable e.kind ≡ true
        → EntryFreed g (first_frame g.total_frames e) (end_frame g.total_frames e) g'
        → OneFreed g.total_frames g e g'
    taken use_it r = record {
      valid = r.valid;
      same = r.same;
      freed = λ f i apart. r.freed f i.1 i.2 apart;
      kept = λ f o. elim o [
        | inl out ↦ r.kept f (
            outside f out (Bool-cases (leb (first_frame g.total_frames e) f))
              (Bool-cases (ltb f (end_frame g.total_frames e))))
        | inr region ↦ r.kept f (inr region)
      ];
    }
      where
        outside :
            (f : ℕ)
            → ¬ InEntry g.total_frames e f
            → (leb (first_frame g.total_frames e) f ≡ true)
              ⊎ (leb (first_frame g.total_frames e) f ≡ false)
            → (ltb f (end_frame g.total_frames e) ≡ true)
              ⊎ (ltb f (end_frame g.total_frames e) ≡ false)
            → ((f < first_frame g.total_frames e) ⊎ (end_frame g.total_frames e ≤ f)) ⊎ Reserved g f
        outside f out (inr low) h = inl (inl (ground arith))
        outside f out (inl from) (inr high) = inl (inr (ground arith))
        outside f out (inl from) (inl to) = absurd (out (use_it, ground arith, ground arith))

Covered-cases :
    (total f : ℕ) (e : E820Entry) (entries : List E820Entry)
    → Covered total f (e ∷ entries)
    → InEntry total e f ⊎ Covered total f entries
Covered-cases total f _ _ (here e entries i) = inl i
Covered-cases total f _ _ (there e entries c) = inr c

-- The regions of a state that has the same machine.
Reserved-back : (g g' : Pmm) → SameMachine g g' → (f : ℕ) → Reserved g' f → Reserved g f
Reserved-back g g' same f (inl q) = inl (subst (InRegion f) same.same_0 q)
Reserved-back g g' same f (inr q) = inr (subst (InRegion f) same.same_1 q)

Reserved-on : (g g' : Pmm) → SameMachine g g' → (f : ℕ) → Reserved g f → Reserved g' f
Reserved-on g g' same f (inl q) = inl (subst (InRegion f) (sym same.same_0) q)
Reserved-on g g' same f (inr q) = inr (subst (InRegion f) (sym same.same_1) q)

-- An entry freed, and then the others.
one-others :
    (total : ℕ) (e : E820Entry) (entries : List E820Entry) (g g1 g' : Pmm)
    → ((f : ℕ) → InEntry total e f → ¬ Covered total f entries)
    → OneFreed total g e g1
    → MapFreed total g1 entries g'
    → MapFreed total g (e ∷ entries) g'
one-others total e entries g g1 g' apart one others = record {
  valid = others.valid;
  same = record {
    same_total = others.same.same_total ∙ one.same.same_total;
    same_0 = others.same.same_0 ∙ one.same.same_0;
    same_1 = others.same.same_1 ∙ one.same.same_1;
    same_flag = others.same.same_flag ∙ one.same.same_flag;
  };
  freed = λ f c r. elim (Covered-cases total f e entries c) [
    | inl i ↦ others.kept f (inl (apart f i)) ∙ one.freed f i r
    | inr later ↦ others.freed f later (λ q. r (Reserved-back g g1 one.same f q))
  ];
  kept = λ f o. elim o [
    | inl out ↦
        others.kept f (inl λ c. out (there e entries c))
        ∙ one.kept f (inl λ i. out (here e entries i))
    | inr region ↦
        others.kept f (inr (Reserved-on g g1 one.same f region)) ∙ one.kept f (inr region)
  ];
}

-- The frames of the map that are used before the entries are freed.
abbrev Held : ℕ → Pmm → List E820Entry → Type 0
Held total g entries =
    (f : ℕ) → Covered total f entries → ¬ Reserved g f → frame_used g.bitmap f ≡ true

free_entries-MapFreed :
    (total : ℕ) (g : Pmm) (entries : List E820Entry)
    → g.total_frames ≡ total
    → IsPmm g
    → Disjoint total entries
    → Held total g entries
    → MapFreed total g entries (free_entries g entries)
unfolding free_entries
free_entries-MapFreed total g _ at v no_entry held = record {
  valid = v;
  same = record { same_total = refl; same_0 = refl; same_1 = refl; same_flag = refl };
  freed = λ f c r. elim c [ ];
  kept = λ f o. refl;
}
free_entries-MapFreed total g _ at v (one_more e entries apart rest) held =
    one-others total e entries g g1 _ apart one
      (free_entries-MapFreed total g1 entries (one.same.same_total ∙ at) one.valid rest held_later)
  where
    g1 : Pmm
    g1 = free_entry g e

    held_here : (f : ℕ) → InEntry g.total_frames e f → ¬ Reserved g f → frame_used g.bitmap f ≡ true
    held_here f i r = held f (here e entries (subst (λ t. InEntry t e f) at i)) r

    one : OneFreed total g e g1
    one = subst (λ t. OneFreed t g e g1) at (free_entry-OneFreed g e v held_here)

    held_later : Held total g1 entries
    held_later f c r =
        one.kept f (inl λ i. apart f i c)
        ∙ held f (there e entries c) (λ q. r (Reserved-on g g1 one.same f q))

Covered-lt : (total f : ℕ) (entries : List E820Entry) → Covered total f entries → f < total
Covered-lt total f _ (here e entries i) =
    omega (arith, i.2, cmp_min-le (entry_end e >>> frame_shift) total)
Covered-lt total f _ (there e entries c) = Covered-lt total f entries c

-- What the initialisation leaves.
pub record Initialized (total : ℕ) (entries : List E820Entry) (kernel_start kernel_end : ℕ)
    (g : Pmm) : Type 0 where
  pub valid : IsPmm g
  pub managed : g.total_frames ≡ total
  pub regions : (f : ℕ) → Reserved g f ↔ Kept total kernel_start kernel_end f
  pub free :
      (f : ℕ)
      → Covered total f entries
      → ¬ Kept total kernel_start kernel_end f
      → frame_used g.bitmap f ≡ false
  pub used :
      (f : ℕ)
      → f < total
      → (¬ Covered total f entries) ⊎ Kept total kernel_start kernel_end f
      → frame_used g.bitmap f ≡ true

-- For a memory map in which no frame lies in two usable entries, and a bitmap of as many bytes as the
-- map needs behind the kernel's image in the address space, `pmm_initialize` establishes the
-- invariant for the frames of the map. Its reserved regions hold exactly frame 0 and the frames with
-- a byte of the image or of the bitmap, and the free frames are exactly those of a usable entry that
-- are not among these.
pub pmm_initialize-Initialized :
    (mm_flag : ℕ) (cells : List ℕ) (entries : List E820Entry) (kernel_start kernel_end : ℕ)
    → IsBoot cells entries kernel_start kernel_end
    → Disjoint (frames_of_map entries) entries
    → Initialized
        (frames_of_map entries)
        entries
        kernel_start
        kernel_end
        (pmm_initialize mm_flag cells entries kernel_start kernel_end)
unfolding pmm_initialize
pmm_initialize-Initialized mm_flag cells entries kernel_start kernel_end boot disjoint = record {
  valid = r.valid;
  managed = r.same.same_total ∙ fresh.1;
  regions = λ f. (λ q. (region f).0 (Reserved-back g _ r.same f q), λ k. kept_on f k);
  free = λ f c o. r.freed f c (λ q. o ((region f).0 q));
  used = λ f h o.
      r.kept f (map_out f o)
      ∙ all_used-frames mm_flag cells entries kernel_start kernel_end boot f h;
}
  where
    g : Pmm
    g = all_used mm_flag cells entries kernel_start kernel_end

    fresh : IsPmm g × (g.total_frames ≡ frames_of_map entries)
    fresh = all_used-IsPmm mm_flag cells entries kernel_start kernel_end boot

    region : (f : ℕ) → Reserved g f ↔ Kept (frames_of_map entries) kernel_start kernel_end f
    region = reserved_lem mm_flag cells entries kernel_start kernel_end boot

    r : MapFreed (frames_of_map entries) g entries (free_entries g entries)
    r = free_entries-MapFreed (frames_of_map entries) g entries fresh.1 fresh.0 disjoint λ f c o.
        all_used-frames mm_flag cells entries kernel_start kernel_end boot f
          (Covered-lt (frames_of_map entries) f entries c)

    kept_on :
        (f : ℕ)
        → Kept (frames_of_map entries) kernel_start kernel_end f
        → Reserved (free_entries g entries) f
    kept_on f k = Reserved-on g _ r.same f ((region f).1 k)

    map_out :
        (f : ℕ)
        → (¬ Covered (frames_of_map entries) f entries)
          ⊎ Kept (frames_of_map entries) kernel_start kernel_end f
        → (¬ Covered (frames_of_map entries) f entries) ⊎ Reserved g f
    map_out f (inl out) = inl out
    map_out f (inr k) = inr ((region f).1 k)
