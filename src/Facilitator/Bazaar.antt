-- ===== src/Facilitator/Bazaar.antt =====
-- crates/x402-nockchain-facilitator/src/handlers/bazaar.rs: the processing of the bazaar extension.
-- The parameters of `Web` are JSON Schema validation, JSON writing, base64 and the test of a header
-- value; `stamp` is the text of the current time.
use x402_nockchain.Prelude.{
  String, ◌<>◌, Option, none, some, List, [], ◌∷◌, Result, ok, err, map_err, ◌>>=◌, Dict, lookup,
}
use x402_nockchain.Types.Json.{Json}
use x402_nockchain.Types.Payment.{
  BazaarExtensionResponse, ExtensionResponsesHeader, success, rejected as rejected_status,
}
use x402_nockchain.Types.Bazaar.{BazaarExtension, DiscoveryInput, http, mcp, DiscoveryResource}
use x402_nockchain.Types.Facilitator.{VerifyRequest}
use x402_nockchain.Facilitator.State.{AppState}

pub record Web (Value : Type 0) : Type 1 where
  pub Compiled : Type 0
  pub HeaderValue : Type 0
  pub compile : Value → Result String Compiled
  pub validate : Compiled → Value → Result (List String) (Unit {0})
  pub header_text : ExtensionResponsesHeader Value → Option String
  pub base64 : String → String
  pub header_value : String → Option HeaderValue

-- `join("; ")`
unfoldable pub join : List String → String
join [] = ""
join (s ∷ []) = s
join (s ∷ t ∷ rest) = s <> "; " <> join (t ∷ rest)

unfoldable pub discriminate_kind : {Value : Type 0} → DiscoveryInput Value → String
discriminate_kind (http input) = "http"
discriminate_kind (mcp input) = "mcp"

-- `rejected` of handlers/bazaar.rs
unfoldable pub reject : String → BazaarExtensionResponse
reject reason = record { status = rejected_status; rejected_reason = some reason }

module _ (J : Json) (W : Web J.Value) where
  open J use {Value, JsonError, error_text, read_bazaar, write_info}
  open W use {compile, validate, header_text, base64, header_value, HeaderValue}

  abbrev pub validate_with : Result (List String) (Unit {0}) → Result String (Unit {0})
  validate_with r = map_err (λ msgs. "info failed schema validation: " <> join msgs) r

  unfoldable pub validate_info_against_schema : BazaarExtension Value → Result String (Unit {0})
  validate_info_against_schema ext = do
    info_val ← map_err (λ e. "info re-serialize failed: " <> error_text e) (write_info ext.info)
    compiled ← map_err (λ e. "bazaar schema compile failed: " <> e) (compile ext.schema)
    validate_with (validate compiled info_val)

  -- `serde_json::to_value(..).ok()`
  abbrev pub ok_value : Result JsonError Value → Option Value
  ok_value (ok v) = some v
  ok_value (err e) = none

  unfoldable pub encode_header_value : BazaarExtensionResponse → Option HeaderValue
  encode_header_value response =
      elim (header_text (record { bazaar = some response; other = [] })) [
        | none ↦ none
        | some json ↦ header_value (base64 json)
      ]

  -- The row that a request puts in the catalog.
  unfoldable pub entry_of :
      VerifyRequest Value → BazaarExtension Value → String → DiscoveryResource Value
  entry_of req ext stamp = record {
    resource = req.requirements.resource;
    kind = discriminate_kind ext.info.input;
    x402_version = req.payload.x402_version;
    accepts = req.requirements ∷ [];
    last_updated = stamp;
    metadata = ok_value (write_info ext.info);
  }

  module _ {Chain Rows : Type 0} (state : AppState Value Chain Rows) where
    -- The match on the result of `upsert`.
    abbrev pub upserted : Result String (Unit {0}) → BazaarExtensionResponse
    upserted (ok _) = record { status = success; rejected_reason = none }
    upserted (err e) = reject ("catalog upsert failed: " <> e)

    abbrev pub process_valid :
        DiscoveryResource Value
        → Rows
        → Result String (Unit {0})
        → Option BazaarExtensionResponse × Rows
    process_valid entry rows (err reason) = (some (reject reason), rows)
    process_valid entry rows (ok _) =
        let (result, rows') = state.catalog.upsert entry rows in (some (upserted result), rows')

    abbrev pub process_read :
        VerifyRequest Value
        → String
        → Rows
        → Result JsonError (BazaarExtension Value)
        → Option BazaarExtensionResponse × Rows
    process_read req stamp rows (err e) =
        (some (reject ("bazaar extension parse failed: " <> error_text e)), rows)
    process_read req stamp rows (ok ext) =
        process_valid (entry_of req ext stamp) rows (validate_info_against_schema ext)

    abbrev pub process_value :
        VerifyRequest Value → String → Rows → Option Value → Option BazaarExtensionResponse × Rows
    process_value req stamp rows none = (none, rows)
    process_value req stamp rows (some v) = process_read req stamp rows (read_bazaar v)

    abbrev pub bazaar_value : Option (Dict Value) → Option Value
    bazaar_value none = none
    bazaar_value (some ext_map) = lookup "bazaar" ext_map

    unfoldable pub process :
        VerifyRequest Value → String → Rows → Option BazaarExtensionResponse × Rows
    process req stamp rows = process_value req stamp rows (bazaar_value req.payload.extensions)

    -- The header of an outcome, when there is one.
    abbrev pub header_of : Option BazaarExtensionResponse → Option HeaderValue
    header_of none = none
    header_of (some outcome) = encode_header_value outcome
