-- ===== src/Types.antt =====
-- The wire types of crates/x402-types/src, one module for each of its files. `Value` stands for
-- `serde_json::Value`, which is not of this repository: the types take it as a parameter.
pub mod Payment
pub mod Nockchain
pub mod Bazaar
pub mod Facilitator
pub mod Json
pub mod Written
