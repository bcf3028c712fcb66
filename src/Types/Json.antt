-- ===== src/Types/Json.antt =====
-- What the program uses of serde_json and of the codecs that serde derives: a type of JSON
-- values, two accessors, and reading and writing of the types that go through `Value`.
use x402_nockchain.Prelude.{String, Bool, List, Dict, ◌≡◌, Option, Result, ok}
use x402_nockchain.Types.Nockchain.{ExactNockchainPayload, SignedRawTx}
use x402_nockchain.Types.Bazaar.{BazaarExtension, DiscoveryInfo}

pub record Json : Type 1 where
  pub Value : Type 0
  pub JsonError : Type 0
  pub error_text : JsonError → String
  -- `Value::get` by a key, and `Value::as_str`
  pub get : String → Value → Option Value
  pub as_str : Value → Option String
  -- `Value::String`, `Value::Bool`, `Value::Array` and `Value::Object`, as `json!` makes them
  pub string : String → Value
  pub boolean : Bool → Value
  pub array : List Value → Value
  pub object : Dict Value → Value
  pub read_exact : Value → Result JsonError ExactNockchainPayload
  pub write_exact : ExactNockchainPayload → Result JsonError Value
  pub read_signed_raw_tx : Value → Result JsonError SignedRawTx
  pub read_bazaar : Value → Result JsonError (BazaarExtension Value)
  pub write_bazaar : BazaarExtension Value → Result JsonError Value
  pub write_info : DiscoveryInfo Value → Result JsonError Value

-- The derived codecs of the payload are inverse to one another.
pub record IsLawfulJson (J : Json) : Type 0 where
  pub read-write_exact :
      (payload : ExactNockchainPayload) (v : J.Value)
      → J.write_exact payload ≡ ok v
      → J.read_exact v ≡ ok payload
