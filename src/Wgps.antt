-- ===== src/Wgps.antt =====
-- The parts of the sync protocol's wire format, of src/proto/wgps.
pub mod Channels
