-- ===== src/Tools.antt =====
-- The header-only helpers of tools/.
pub mod Builtin
mod Tests
