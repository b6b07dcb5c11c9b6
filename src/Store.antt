-- ===== src/Store.antt =====
-- The stores of src/store: the event queue and the entry store of store/memory.rs.
pub mod Events
pub mod StoreEvent
pub mod Memory
pub mod Ranges
pub mod Fingerprint
pub mod Split
