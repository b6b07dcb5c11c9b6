-- ===== src/Caps.antt =====
-- Capabilities: how they are selected, stored, imported, created and delegated.
pub mod Meadowcap
pub mod Interest
pub mod CapsStore
pub mod Auth
pub mod Resolve
pub mod Selection
pub mod Best
pub mod Import
mod Tests
