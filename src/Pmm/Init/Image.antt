-- ===== src/Pmm/Init/Image.antt =====
-- The frames that `pmm_initialize` keeps back (kernel/pmm.cpp, lines 1050 to 1056).
use bare_metal_programming.Prelude.{
  ℕ, ◌+◌, ◌-◌, ◌*◌, ◌/◌, ◌<◌, ◌≡◌, ◌⊎◌, inl, inr, ◌↔◌, arith, List, cast, wrap_sub,
}
use bare_metal_programming.Pmm.Geometry.{bitmap_index, frame_index}
use bare_metal_programming.Pmm.Frames.Release.{Reserved}
use bare_metal_programming.Pmm.Init.{E820Entry, frames_of_map, all_used}
use bare_metal_programming.Pmm.Init.Fresh.{IsBoot}

-- Frame 0, and every frame with a byte of the kernel's image or of the bitmap of `total` bits behind
-- it.
abbrev pub Kept : ℕ → ℕ → ℕ → ℕ → Type 0
Kept total kernel_start kernel_end f =
    (f ≡ 0) ⊎ ((kernel_start < (f + 1) * 4096) × (f * 4096 < kernel_end + (total + 7) / 8))

module _ (mm_flag : ℕ) (cells : List ℕ) (entries : List E820Entry) (kernel_start kernel_end : ℕ)
    (v : IsBoot cells entries kernel_start kernel_end) where
  abbrev total : ℕ
  total = frames_of_map entries

  abbrev limit : ℕ
  limit = kernel_end + (total + 7) / 8

  image_length :
      wrap_sub 32 (cast 32 (limit + 4095) / 4096) (kernel_start / 4096)
      ≡ (limit + 4095) / 4096 - kernel_start / 4096
  image_length = omega (arith, v.ordered, v.room, v.size)

  pub reserved_lem :
      (f : ℕ)
      → Reserved (all_used mm_flag cells entries kernel_start kernel_end) f
        ↔ Kept total kernel_start kernel_end f
  unfolding all_used bitmap_index frame_index
  reserved_lem f = (to, from)
    where
      to :
          Reserved (all_used mm_flag cells entries kernel_start kernel_end) f
          → Kept total kernel_start kernel_end f
      to (inl q) = inl (omega (arith, q))
      to (inr q) = inr (omega (arith, q, image_length), omega (arith, q, image_length))

      from :
          Kept total kernel_start kernel_end f
          → Reserved (all_used mm_flag cells entries kernel_start kernel_end) f
      from (inl q) = inl (omega arith, omega arith)
      from (inr q) = inr (omega (arith, q), omega (arith, q, image_length, v.ordered))
