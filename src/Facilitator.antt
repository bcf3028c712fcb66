-- ===== src/Facilitator.antt =====
-- crates/x402-nockchain-facilitator, a module for each of its parts.
pub mod Error
pub mod Clock
pub mod Chain
pub mod Scheme
pub mod Replay
pub mod Catalog
pub mod State
pub mod Envelope
pub mod Bazaar
pub mod Handlers
pub mod Siwn
pub mod Router
pub mod Server
pub mod Observability
pub mod Startup
