-- ===== src/Types/Payment.antt =====
-- crates/x402-types/src/payment.rs. A `[String; 8]` is a list of texts, a `BTreeMap` is a `Dict`.
use x402_nockchain.Prelude.{
  ℕ, String, Bool, true, false, ◌&&◌, Option, List, [], ◌∷◌, Dict, ◌==◌, string_eq,
}

pub record PaymentRequirements (Value : Type 0) : Type 0 where
  pub scheme : String
  pub network : String
  pub max_amount_required : String
  pub resource : String
  pub asset : String
  pub pay_to : String
  pub max_timeout_seconds : ℕ
  pub description : Option String
  pub mime_type : Option String
  pub output_schema : Option Value
  pub extra : Option Value
  pub extensions : Option (Dict Value)

pub record PaymentResource : Type 0 where
  pub url : String
  pub description : Option String
  pub mime_type : Option String

pub record PaymentRequired (Value : Type 0) : Type 0 where
  pub x402_version : ℕ
  pub error : String
  pub resource : PaymentResource
  pub accepts : List (PaymentRequirements Value)
  pub extensions : Option (Dict Value)

pub record PaymentPayload (Value : Type 0) (P : Type 0) : Type 0 where
  pub x402_version : ℕ
  pub scheme : String
  pub network : String
  pub payload : P
  pub extensions : Option (Dict Value)

pub data NoteLock : Type 0 where
  simple_pkh : NoteLock
  coinbase_pkh : (timelock_min : ℕ) → NoteLock

-- The predicate that keeps the field off the wire.
unfoldable pub is_simple_pkh : NoteLock → Bool
is_simple_pkh simple_pkh = true
is_simple_pkh (coinbase_pkh timelock_min) = false

pub record NoteName : Type 0 where
  pub first : String
  pub last : String

pub record NoteRef : Type 0 where
  pub name : NoteName
  pub assets : String
  pub lock : NoteLock

pub record Authorization : Type 0 where
  pub from : String
  pub to : String
  pub value : String
  pub fee : String
  pub nonce : String
  pub valid_after : ℕ
  pub valid_before : ℕ
  pub notes : List NoteRef
  pub change_address : String

pub record SchnorrPair : Type 0 where
  pub chal : List String
  pub sig : List String

pub record SchnorrSignatureJson : Type 0 where
  pub pubkey : String
  pub schnorr : SchnorrPair

-- `std::array::from_fn(|_| "0".to_string())`
abbrev pub zero_8 : List String
zero_8 = "0" ∷ "0" ∷ "0" ∷ "0" ∷ "0" ∷ "0" ∷ "0" ∷ "0" ∷ []

unfoldable pub all_zero : String → SchnorrSignatureJson
all_zero pubkey = record { pubkey = pubkey; schnorr = record { chal = zero_8; sig = zero_8 } }

-- `iter().all(|s| s == "0")`
unfoldable pub all_zeros : List String → Bool
all_zeros [] = true
all_zeros (s ∷ rest) = s == "0" && all_zeros rest

unfoldable pub is_all_zero : SchnorrSignatureJson → Bool
unfolding all_zeros
is_all_zero s = all_zeros s.schnorr.chal && all_zeros s.schnorr.sig

pub data BazaarExtensionStatus : Type 0 where
  success processing rejected : BazaarExtensionStatus

pub record BazaarExtensionResponse : Type 0 where
  pub status : BazaarExtensionStatus
  pub rejected_reason : Option String

pub record ExtensionResponsesHeader (Value : Type 0) : Type 0 where
  pub bazaar : Option BazaarExtensionResponse
  pub other : Dict Value

-- crates/x402-types/src/siwn.rs
pub record SiwnExtra : Type 0 where
  pub domain : String
  pub nonce : String
  pub issued_at : String
  pub expiration_time : String
  pub uri : Option String
  pub chain_id : Option String
