-- ===== src/Facilitator/Chain.antt =====
-- crates/x402-nockchain-facilitator/src/chain/mod.rs and stub.rs. `Chain` is the state of the node
-- that a chain client talks to.
pub mod Grpc
use x402_nockchain.Prelude.{ℕ, String, ◌<>◌, Option, none, some, Result, ok}
use x402_nockchain.Types.Json.{Json}
use x402_nockchain.Types.Facilitator.{SettleRequest}

pub data ChainStatus : Type 0 where
  broadcast processing accepted : ChainStatus

unfoldable pub as_wire_str : ChainStatus → String
as_wire_str broadcast = "broadcast"
as_wire_str processing = "processing"
as_wire_str accepted = "accepted"

pub record ChainSettle : Type 0 where
  pub tx_id : String
  pub block_height : Option ℕ
  pub status : ChainStatus

pub data ChainError : Type 0 where
  transport rejected tx_construction_unavailable : String → ChainError

-- The trait `ChainClient`.
pub record ChainClient (Value Chain : Type 0) : Type 0 where
  pub settle : SettleRequest Value → Chain → Result ChainError ChainSettle × Chain

infixl 5 ◌>>=◌
abbrev ◌>>=◌ : {A B : Type 0} → Option A → (A → Option B) → Option B
none >>= f = none
some a >>= f = f a

abbrev tx_id_of : Option String → String
tx_id_of (some nonce) = "stub-tx-" <> nonce
tx_id_of none = "stub-tx-unknown-nonce"

module _ (J : Json) where
  open J use {Value, get, as_str}

  unfoldable pub stub_tx_id : SettleRequest Value → String
  stub_tx_id req =
      tx_id_of (do a ← get "authorization" req.payload.payload; n ← get "nonce" a; as_str n)

  -- `StubChainClient` leaves the chain alone.
  unfoldable pub stub_chain_client : {Chain : Type 0} → ChainClient Value Chain
  stub_chain_client = record {
    settle = λ req chain.
        (ok (record { tx_id = stub_tx_id req; block_height = none; status = broadcast }), chain);
  }
