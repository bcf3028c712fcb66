-- ===== src/Mcp.antt =====
-- crates/x402-mcp/src: the tool registry, the payment verifiers and the endpoints.
pub mod Registry
pub mod Verifier
pub mod Router
pub mod Laws
pub mod Deployed
