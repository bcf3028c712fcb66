-- ===== src/Crypto.antt =====
-- crates/x402-nockchain-crypto/src: the digest that a payer signs, the signer and the verifier.
pub mod Interface
pub mod SignMessage
pub mod WireCompat
pub mod Signer
pub mod Verifier
