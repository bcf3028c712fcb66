-- ===== src/Facilitator/Error.antt =====
-- crates/x402-nockchain-facilitator/src/error.rs: the typed rejections and their wire form.
use x402_nockchain.Prelude.{ℕ, String, ◌<>◌, ◌≡◌, refl}
use x402_nockchain.Decimal.{to_text}
use x402_nockchain.Types.Facilitator.{FacilitatorError}

pub data VerifyError : Type 0 where
  outside_time_window : (now valid_after valid_before : ℕ) → VerifyError
  nonce_replayed : (nonce : String) → VerifyError
  over_max_amount : (value max_amount_required : String) → VerifyError
  asset_mismatch : (expected actual : String) → VerifyError
  unknown_scheme : (scheme network : String) → VerifyError
  spec_coded : (code message : String) → VerifyError

-- The `Display` of a rejection, as `thiserror` writes it.
unfoldable pub display : VerifyError → String
display (outside_time_window now after before) =
    "authorization outside time window: now="
    <> to_text now
    <> " valid_after="
    <> to_text after
    <> " valid_before="
    <> to_text before
display (nonce_replayed nonce) = "authorization nonce already seen: " <> nonce
display (over_max_amount value max) =
    "authorization value " <> value <> " exceeds max_amount_required " <> max
display (asset_mismatch expected actual) =
    "asset mismatch: requirements.asset=" <> expected <> ", payload asset=" <> actual
display (unknown_scheme scheme network) =
    "unknown scheme/network pair: scheme=" <> scheme <> " network=" <> network
display (spec_coded code message) = code <> ": " <> message

unfoldable pub rejection_label : VerifyError → String
rejection_label (outside_time_window now after before) = "outside_time_window"
rejection_label (nonce_replayed nonce) = "nonce_replayed"
rejection_label (over_max_amount value max) = "over_max_amount"
rejection_label (asset_mismatch expected actual) = "asset_mismatch"
rejection_label (unknown_scheme scheme network) = "unknown_scheme"
rejection_label (spec_coded code message) = code

-- `From<VerifyError> for FacilitatorError`
unfoldable pub to_facilitator_error : VerifyError → FacilitatorError
to_facilitator_error (outside_time_window now after before) = record {
  code = "outside_time_window";
  message =
      "authorization outside time window: now="
      <> to_text now
      <> " valid_after="
      <> to_text after
      <> " valid_before="
      <> to_text before;
}
to_facilitator_error (nonce_replayed nonce) = record {
  code = "nonce_replayed";
  message = "authorization nonce already seen: " <> nonce;
}
to_facilitator_error (over_max_amount value max) = record {
  code = "over_max_amount";
  message = "authorization value " <> value <> " exceeds max_amount_required " <> max;
}
to_facilitator_error (asset_mismatch expected actual) = record {
  code = "asset_mismatch";
  message = "asset mismatch: requirements.asset=" <> expected <> ", payload asset=" <> actual;
}
to_facilitator_error (unknown_scheme scheme network) = record {
  code = "unknown_scheme";
  message = "unknown scheme/network pair: scheme=" <> scheme <> " network=" <> network;
}
to_facilitator_error (spec_coded code message) = record { code = code; message = message }

-- The part of the display that goes on the wire as the message.
abbrev pub wire_message : VerifyError → String
wire_message (spec_coded code message) = message
wire_message e = display e

-- Every rejection goes on the wire under the code that labels it in the metrics, with the text
-- that is logged as its message; a spec-coded one goes without the code in front of its text.
pub to_facilitator_error-labels :
    (e : VerifyError)
    → to_facilitator_error e ≡ record { code = rejection_label e; message = wire_message e }
unfolding to_facilitator_error rejection_label display
to_facilitator_error-labels (spec_coded code message) = refl
to_facilitator_error-labels _ = refl

pub data AppError : Type 0 where
  internal_error : (message : String) → AppError

-- `AppError::internal`, and `From` of an error of anyhow or of sqlx, by its text.
unfoldable pub internal : String → AppError
internal message = internal_error message

-- A response with a JSON body: the status and the object under `error`.
pub record ErrorResponse : Type 0 where
  pub status : ℕ
  pub error : FacilitatorError

-- `into_response`: 500 with the text under the code `facilitator_internal_error`.
unfoldable pub into_response : AppError → ErrorResponse
into_response (internal_error message) = record {
  status = 500;
  error = record { code = "facilitator_internal_error"; message = message };
}
