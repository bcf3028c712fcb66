-- ===== src/Facilitator/Scheme.antt =====
-- crates/x402-nockchain-facilitator/src/scheme: the handlers of each `(scheme, network)` pair and
-- the registry that finds them.
pub mod Laws
pub mod Registry
use x402_nockchain.Prelude.{
  ℕ, String, ◌<>◌, Bool, ◌&&◌, not, List, [], ◌∷◌, ◌++◌, Option, Result, ok, err, ok_or, map_err,
  guard, find, length, starts_with, leb, ◌==◌, string_eq, nat_eq, ◌>>=◌, ◌>>◌,
}
use x402_nockchain.Decimal.{parse, u128_mod}
use x402_nockchain.Types.Json.{Json}
use x402_nockchain.Types.Payment.{PaymentPayload, PaymentRequirements, Authorization}
use x402_nockchain.Types.Facilitator.{SettleRequest}
use x402_nockchain.Crypto.Interface.{Encoding, Schnorr}
use x402_nockchain.Crypto.Verifier
use x402_nockchain.Crypto.Verifier.{verify_payment}
use x402_nockchain.Facilitator.Error.{VerifyError, spec_coded, over_max_amount, asset_mismatch}
use x402_nockchain.Facilitator.Chain.{ChainClient, ChainError, ChainSettle}

-- The trait `SchemeHandler`.
pub record SchemeHandler (Value Chain : Type 0) : Type 0 where
  pub scheme : String
  pub network_prefix : String
  pub extract_authorization : PaymentPayload Value Value → Result VerifyError Authorization
  pub verify :
      PaymentPayload Value Value → PaymentRequirements Value → Result VerifyError (Unit {0})
  pub settle :
      ChainClient Value Chain → SettleRequest Value → Chain → Result ChainError ChainSettle × Chain

abbrev pub SchemeHandlerRegistry : Type 0 → Type 0 → Type 0
SchemeHandlerRegistry Value Chain = List (SchemeHandler Value Chain)

module _ {Value Chain : Type 0} where
  -- The test of `find` in `handler_for`.
  abbrev pub claims : String → String → SchemeHandler Value Chain → Bool
  claims scheme network h = h.scheme == scheme && starts_with network h.network_prefix

  unfoldable pub register :
      SchemeHandler Value Chain
      → SchemeHandlerRegistry Value Chain
      → SchemeHandlerRegistry Value Chain
  register handler handlers = handlers ++ (handler ∷ [])

  unfoldable pub handler_for :
      SchemeHandlerRegistry Value Chain → String → String → Option (SchemeHandler Value Chain)
  handler_for handlers scheme network = find (claims scheme network) handlers

  unfoldable pub len : SchemeHandlerRegistry Value Chain → ℕ
  len handlers = length handlers

  unfoldable pub is_empty : SchemeHandlerRegistry Value Chain → Bool
  is_empty handlers = length handlers == 0

abbrev pub nockchain_native_asset : String
nockchain_native_asset = "NOCK"

module _ {Value : Type 0} where
  unfoldable pub check_max_amount :
      Authorization → PaymentRequirements Value → Result VerifyError (Unit {0})
  check_max_amount auth req = do
    value ←
        ok_or (parse u128_mod auth.value) (
          spec_coded "invalid_payload" ("authorization.value `" <> auth.value <> "` is not a u128"))
    cap ← ok_or (parse u128_mod req.max_amount_required) (
        spec_coded "invalid_payload"
          ("requirements.max_amount_required `" <> req.max_amount_required <> "` is not a u128"))
    guard (leb value cap) (over_max_amount auth.value req.max_amount_required)

  unfoldable pub check_asset : PaymentRequirements Value → Result VerifyError (Unit {0})
  check_asset req =
      guard (req.asset == nockchain_native_asset) (asset_mismatch nockchain_native_asset req.asset)

-- `verifier_text` is the `Display` of the errors of `NockchainVerifier`.
module _ (J : Json) (E : Encoding) (S : Schnorr)
    (verifier_text : Verifier.VerifyError J.JsonError S.SchnorrError E.DecodeError → String) where
  open J use {Value, error_text, read_exact}

  -- The body of `extract_authorization`, the same in both handlers.
  unfoldable pub extract_nockchain : PaymentPayload Value Value → Result VerifyError Authorization
  extract_nockchain payload = do
    nock ←
        map_err (λ e. spec_coded "invalid_payload" ("payload decode failed: " <> error_text e))
          (read_exact payload.payload)
    ok nock.authorization

  -- The body of `verify`, the same in both handlers.
  unfoldable pub verify_nockchain :
      PaymentPayload Value Value → PaymentRequirements Value → Result VerifyError (Unit {0})
  verify_nockchain payload requirements = do
    nock ←
        map_err (λ e. spec_coded "invalid_payload" ("payload decode failed: " <> error_text e))
          (read_exact payload.payload)
    guard (nock.authorization.to == requirements.pay_to)
        (spec_coded "invalid_recipient" "authorization.to does not match requirements.payTo")
    map_err (λ e. spec_coded "invalid_signature" (verifier_text e))
        (verify_payment E S read_exact payload requirements)
    check_max_amount nock.authorization requirements
    check_asset requirements

  module _ {Chain : Type 0} where
    unfoldable pub exact_nockchain_handler : SchemeHandler Value Chain
    exact_nockchain_handler = record {
      scheme = "exact";
      network_prefix = "nockchain:";
      extract_authorization = extract_nockchain;
      verify = verify_nockchain;
      settle = λ chain request. chain.settle request;
    }

    unfoldable pub upto_nockchain_handler : SchemeHandler Value Chain
    upto_nockchain_handler = record {
      scheme = "upto";
      network_prefix = "nockchain:";
      extract_authorization = extract_nockchain;
      verify = verify_nockchain;
      settle = λ chain request. chain.settle request;
    }

    unfoldable pub with_default_handlers : SchemeHandlerRegistry Value Chain
    with_default_handlers = register upto_nockchain_handler (register exact_nockchain_handler [])
