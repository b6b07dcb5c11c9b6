-- ===== src/Session.antt =====
-- The parts of a session, of src/session.
pub mod Error
pub mod Resource
pub mod Challenge
pub mod Storage
pub mod Payload
pub mod StaticTokens
pub mod Target
pub mod Reconciler
pub mod Intents
pub mod Capabilities
pub mod AoiFinder
pub mod Pai
pub mod PaiFinder
pub mod InStore
pub mod Data
mod Toy
