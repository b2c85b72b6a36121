-- ===== src/Pmm/Init/Fresh.antt =====
-- The state of `pmm_initialize` before any frame is freed (kernel/pmm.cpp, lines 1025 to 1056).
use bare_metal_programming.Prelude.{
  ℕ, zero, suc, ◌+◌, ◌*◌, ◌/◌, ◌^◌, ◌≤◌, ◌<◌, ◌≡◌, inl, inr, refl, sym, arith, ltb, Bool, true,
  Bool-cases, List, length, get_or,
}
use mathlib.Core.Path.{subst}
use bare_metal_programming.Pmm.Geometry.{Bitmap, Pmm, bitmap_index, frame_index}
use bare_metal_programming.Pmm.View.{frame_used}
use bare_metal_programming.Pmm.Fill.{all_ones, set_range}
use bare_metal_programming.Pmm.Fill.Laws.{Filled}
use bare_metal_programming.Pmm.Fill.Dispatch.{set_range-Filled}
use bare_metal_programming.Pmm.Update.{Changed, Filled-Changed, count_used}
use bare_metal_programming.Pmm.Invariant.{IsPmm}
use bare_metal_programming.Pmm.Init.{E820Entry, frames_of_map, highest_from, cmp_min, all_used}

-- What the boot code gives: the bitmap's bytes behind the kernel's image, in the address space.
pub record IsBoot (cells : List ℕ) (entries : List E820Entry) (kernel_start kernel_end : ℕ)
    : Type 0 where
  pub cell_bytes : (i : ℕ) → get_or cells i 0 < 2 ^ 8
  pub size : length cells ≡ (frames_of_map entries + 7) / 8
  pub ordered : kernel_start ≤ kernel_end
  pub room : kernel_end + length cells + 4128 < 2 ^ 32

pub frames_of_map-le : (entries : List E820Entry) → frames_of_map entries ≤ 2 ^ 20
unfolding frames_of_map cmp_min
frames_of_map-le entries = elim (Bool-cases (ltb (highest_from 0 entries / 4096) (2 ^ 20))) [
  | inl low ↦ rw low (ground arith)
  | inr high ↦ rw high (omega arith)
]

count_used-all :
    (used : ℕ → Bool) (n : ℕ) → ((f : ℕ) → f < n → used f ≡ true) → count_used used n ≡ n
unfolding count_used
count_used-all used zero h = refl
count_used-all used (suc n) h =
    rw (h n (omega arith), count_used-all used n (λ f k. h f (omega arith))) (omega arith)

module _ (mm_flag : ℕ) (cells : List ℕ) (entries : List E820Entry) (kernel_start kernel_end : ℕ)
    (v : IsBoot cells entries kernel_start kernel_end) where
  abbrev total : ℕ
  total = frames_of_map entries

  abbrev g : Pmm
  g = all_used mm_flag cells entries kernel_start kernel_end

  abbrev raw : Bitmap
  raw = record {
    start = kernel_end;
    limit = kernel_end + (total + 7) / 8;
    search_begin = kernel_end;
    cells = cells;
  }

  bitmap_Filled :
      Filled all_ones kernel_end
        (kernel_end + (total + 7) / 8)
        raw
        (set_range all_ones mm_flag raw kernel_end (kernel_end + (total + 7) / 8))
  bitmap_Filled =
      set_range-Filled all_ones kernel_end (kernel_end + (total + 7) / 8) raw (omega arith)
        (omega arith) (omega (arith, v.size)) (omega (arith, v.room, v.size)) mm_flag

  bitmap_Changed :
      Changed true 0
        (8 * ((total + 7) / 8))
        raw
        (set_range all_ones mm_flag raw kernel_end (kernel_end + (total + 7) / 8))
  bitmap_Changed =
      Filled-Changed all_ones 0 ((total + 7) / 8) raw _ (omega arith) (λ p. v.cell_bytes _)
        (subst
          (λ p.
            Filled all_ones p (kernel_end + (total + 7) / 8) raw
              (set_range all_ones mm_flag raw kernel_end (kernel_end + (total + 7) / 8)))
          first bitmap_Filled)
    where
      first : kernel_end ≡ kernel_end + 0
      first = omega arith

  every_used : (f : ℕ) → f < 8 * ((total + 7) / 8) → frame_used g.bitmap f ≡ true
  unfolding all_used bitmap_index
  every_used f h = bitmap_Changed.inside f (omega arith) h

  -- Before the entries are freed, every frame is used, and the invariant holds.
  pub all_used-IsPmm : IsPmm g × (g.total_frames ≡ total)
  unfolding all_used bitmap_index frame_index
  all_used-IsPmm = (
    record {
      bitmap_ok = record {
        bytes = bitmap_Changed.bytes;
        spans = omega (
          arith, bitmap_Filled.same_limit, bitmap_Filled.same_start, bitmap_Filled.same_length,
          v.size,
        );
        hint_above = omega (arith, bitmap_Filled.same_start, bitmap_Filled.same_hint);
        hint_within = omega (arith, bitmap_Filled.same_limit, bitmap_Filled.same_hint);
        few = omega (arith, bitmap_Filled.same_length, v.size, frames_of_map-le entries);
        low = omega (arith, bitmap_Filled.same_limit, v.room, v.size);
      };
      fits = omega (arith, bitmap_Filled.same_length, v.size);
      few = frames_of_map-le entries;
      counted =
          sym (count_used-all (frame_used g.bitmap) total (λ f h. every_used f (omega arith)));
      spare = λ f p q. every_used f (omega (arith, bitmap_Filled.same_length, v.size));
      null_frame = (refl, refl);
      kernel_fits = omega (arith, v.ordered, v.room, v.size);
      used_0 = λ f p q. every_used f (omega arith);
      used_1 = λ f p q. every_used f (omega arith);
    },
    refl,
  )

  pub all_used-frames : (f : ℕ) → f < total → frame_used g.bitmap f ≡ true
  all_used-frames f h = every_used f (omega arith)
