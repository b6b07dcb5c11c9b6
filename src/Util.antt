-- ===== src/Util.antt =====
-- The utilities of src/util.
pub mod Guarantees
pub mod Channel
