-- ===== src/Engine.antt =====
-- The engine of src/engine.
pub mod PeerManager
