-- ===== src/Tests.antt =====
-- Runs of the modelled code on concrete inputs, and the theorems applied to them.
pub mod Samples
pub mod WalletSamples
pub mod Crypto
pub mod Facilitator
pub mod Endpoints
pub mod Clients
pub mod Wallet
pub mod Payment
pub mod Catalog
pub mod Http
pub mod Server
pub mod Deployed
pub mod Process
pub mod Validator
pub mod Accepting
pub mod Advertised
