-- ===== src/Facilitator/Catalog.antt =====
-- crates/x402-nockchain-facilitator/src/storage/contract.rs: the trait `CatalogStore`, with the
-- state of the store as an argument. An `anyhow::Error` is its text.
pub mod Memory
pub mod Sqlite
use x402_nockchain.Prelude.{ℕ, String, List, Result}
use x402_nockchain.Types.Bazaar.{DiscoveryResource, ListDiscoveryResourcesParams}

pub record CatalogStore (Value Rows : Type 0) : Type 0 where
  pub upsert : DiscoveryResource Value → Rows → Result String (Unit {0}) × Rows
  pub list :
      ListDiscoveryResourcesParams → Rows → Result String (List (DiscoveryResource Value) × ℕ)
