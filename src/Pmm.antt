-- ===== src/Pmm.antt =====
-- kernel/pmm.cpp, kernel/pmm.h and kernel/internal/pmm_templates.h: the physical memory manager.
-- A pointer into the bitmap is its 32-bit address, a number; `cells` are the bytes that lie from
-- the address `start` on.
pub mod Geometry
pub mod View
pub mod Search
pub mod Vector
pub mod Sweep
pub mod Fill
pub mod Update
pub mod Invariant
pub mod Ranges
pub mod Frames
pub mod Contiguous
pub mod Init
mod Tests
