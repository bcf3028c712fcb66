-- ===== src/Types/Facilitator.antt =====
-- crates/x402-types/src/facilitator.rs
use x402_nockchain.Prelude.{ℕ, String, Bool, Option}
use x402_nockchain.Types.Payment.{PaymentPayload, PaymentRequirements}

pub record VerifyRequest (Value : Type 0) : Type 0 where
  pub payload : PaymentPayload Value Value
  pub requirements : PaymentRequirements Value

abbrev pub SettleRequest : Type 0 → Type 0
SettleRequest Value = VerifyRequest Value

pub record FacilitatorError : Type 0 where
  pub code : String
  pub message : String

pub record VerifyResponse : Type 0 where
  pub valid : Bool
  pub error : Option FacilitatorError

pub record TransactionStatus : Type 0 where
  pub tx_id : String
  pub block_height : Option ℕ
  pub status : String

pub record SettleResponse : Type 0 where
  pub success : Bool
  pub transaction : Option TransactionStatus
  pub error : Option FacilitatorError
