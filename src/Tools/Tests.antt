-- ===== src/Tools/Tests.antt =====
-- Concrete runs of tools/builtin.h.
use bare_metal_programming.Prelude.{arith}
use bare_metal_programming.Tools.Builtin.{trailing_zeros, leading_zeros}
use bare_metal_programming.Tools.Builtin.Laws.{IsLowest, IsHighest, zeros_lem}

zeros_lem_example :
    IsLowest 8 0x28 (trailing_zeros 8 0x28) × IsHighest 8 0x28 (leading_zeros 8 0x28)
zeros_lem_example = zeros_lem 8 0x28 (omega arith) (omega arith) (omega arith)
