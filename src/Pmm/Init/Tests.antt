-- ===== src/Pmm/Init/Tests.antt =====
-- A machine with 32 frames, whose kernel lies in frame 8.
use bare_metal_programming.Prelude.{ℕ, zero, suc, ◌^◌, ◌<◌, ◌≡◌, refl, arith, List, [], ◌∷◌, get_or}
use bare_metal_programming.Pmm.Init.{
  E820Entry, usable, reserved, frames_of_map, highest_from, cmp_min, cmp_max, is_usable, entry_end,
  pmm_initialize,
}
use bare_metal_programming.Pmm.Init.Fresh.{IsBoot}
use bare_metal_programming.Pmm.Init.Entries.{
  Disjoint, no_entry, one_more, Covered, here, there, Initialized, pmm_initialize-Initialized,
}

abbrev low_memory : E820Entry
low_memory = record { base = 0; length = 0x20000; kind = usable }

abbrev bios : E820Entry
bios = record { base = 0xF0000; length = 0x10000; kind = reserved }

abbrev pub memory_map : List E820Entry
memory_map = low_memory ∷ bios ∷ []

abbrev pub behind_image : List ℕ
behind_image = 0x12 ∷ 0x00 ∷ 0xFF ∷ 0x80 ∷ []

image_bytes : (i : ℕ) → get_or behind_image i 0 < 2 ^ 8
image_bytes zero = omega arith
image_bytes (suc zero) = omega arith
image_bytes (suc (suc zero)) = omega arith
image_bytes (suc (suc (suc zero))) = omega arith
image_bytes (suc (suc (suc (suc i)))) = omega arith

frames_of_memory_map : frames_of_map memory_map ≡ 32
unfolding frames_of_map highest_from cmp_min cmp_max is_usable entry_end
frames_of_memory_map = refl

pub boot : IsBoot behind_image memory_map 0x8000 0x9000
boot = record {
  cell_bytes = image_bytes;
  size = omega (arith, frames_of_memory_map);
  ordered = omega arith;
  room = omega arith;
}

bios_unusable : (f : ℕ) → ¬ Covered (frames_of_map memory_map) f (bios ∷ [])
unfolding is_usable
bios_unusable f (here _ _ i) = ground (arith, i.0)
bios_unusable f (there _ _ c) = elim c [ ]

pub map-Disjoint : Disjoint (frames_of_map memory_map) memory_map
map-Disjoint =
    one_more low_memory (bios ∷ []) (λ f i c. bios_unusable f c)
      (one_more bios [] (λ f i c. elim c [ ]) no_entry)

pmm_initialize-Initialized_example :
    Initialized
      (frames_of_map memory_map)
      memory_map
      0x8000
      0x9000
      (pmm_initialize 0 behind_image memory_map 0x8000 0x9000)
pmm_initialize-Initialized_example =
    pmm_initialize-Initialized 0 behind_image memory_map 0x8000 0x9000 boot map-Disjoint
