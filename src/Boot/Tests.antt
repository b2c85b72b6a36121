-- ===== src/Boot/Tests.antt =====
-- The start of a machine with 32 frames, whose kernel lies in frame 8.
use bare_metal_programming.Prelude.{ℕ, ◌+◌, ◌*◌, ◌%◌, ◌^◌, ◌<◌, ◌≡◌, arith, some}
use bare_metal_programming.Boot.{Hardware, Machine, kernel_main}
use bare_metal_programming.Boot.Booted.{Booted, kernel_main-Booted}
use bare_metal_programming.Shell.Tests.{two_turns}
use bare_metal_programming.Pmm.Init.Tests.{memory_map, behind_image, boot, map-Disjoint}

abbrev a_board : Hardware
a_board = record {
  screen_cells = λ i. 0;
  cursor_start = 0x0D;
  cursor_end = 0x0E;
  mm_flag = 0;
  behind_image = behind_image;
  entries = memory_map;
  kernel_start = 0x8000;
  kernel_end = 0x9000;
  stub = λ v. 0x10000 + v % 256 * 8;
  master_mask = 0xB8;
  slave_mask = 0x8E;
  device = λ turn port. 0;
  turns = two_turns;
}

stub-lt : (v : ℕ) → a_board.stub v < 2 ^ 32
stub-lt v = omega arith

kernel_main-Booted_example : (m : Machine) × (kernel_main a_board ≡ some m) × Booted a_board m
kernel_main-Booted_example = kernel_main-Booted a_board boot map-Disjoint stub-lt
