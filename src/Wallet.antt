-- ===== src/Wallet.antt =====
-- crates/x402-nockchain-wallet-client: the surrogate of a transaction, and the wallet that signs.
pub mod Engine
pub mod Kernel
pub mod Surrogate
pub mod Client
pub mod Payment
