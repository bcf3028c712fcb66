-- ===== src/Facilitator/Envelope.antt =====
-- crates/x402-nockchain-facilitator/src/handlers/verify.rs: the checks of a request. A check that
-- uses the replay cache returns the cache after it beside its result.
pub mod Laws
pub mod NoReplay
use x402_nockchain.Prelude.{
  ℕ, ◌-◌, String, Result, ok, err, guard, ok_or, ◌>>=◌, ◌>>◌, ◌==◌, string_eq, nat_eq, leb,
  if◌then◌else◌,
}
use x402_nockchain.Types.Payment.{PaymentPayload, Authorization}
use x402_nockchain.Types.Facilitator.{VerifyRequest}
use x402_nockchain.Facilitator.Error.{
  VerifyError, outside_time_window, nonce_replayed, unknown_scheme, spec_coded,
}
use x402_nockchain.Facilitator.Scheme.{SchemeHandler, handler_for}
use x402_nockchain.Facilitator.Replay.{ReplayCache}
use x402_nockchain.Facilitator.State.{AppState, Moment, saturating_add}

pub data ReplayMode : Type 0 where
  consume skip : ReplayMode

module _ {Value Chain Rows : Type 0} where
  unfoldable pub check_time_window :
      AppState Value Chain Rows → Moment → Authorization → Result VerifyError (Unit {0})
  check_time_window state at auth = do
    let upper_edge = saturating_add at.now state.clock_skew_tolerance
    let lower_edge = at.now - state.clock_skew_tolerance
    guard (leb auth.valid_after upper_edge)
        (outside_time_window at.now auth.valid_after auth.valid_before)
    guard (leb lower_edge auth.valid_before)
        (outside_time_window at.now auth.valid_after auth.valid_before)

  -- What runs before the replay check: the handler that was found and the authorization.
  unfoldable pub before_replay :
      AppState Value Chain Rows
      → Moment
      → VerifyRequest Value
      → Result VerifyError (SchemeHandler Value Chain × Authorization)
  before_replay state at req = do
    guard (req.payload.x402_version == 2) (spec_coded "invalid_version" "x402Version MUST be 2")
    guard (req.payload.scheme == req.requirements.scheme)
        (spec_coded "invalid_scheme" "payload.scheme does not match requirements.scheme")
    guard (req.payload.network == req.requirements.network)
        (spec_coded "invalid_network" "payload.network does not match requirements.network")
    handler ←
        ok_or (handler_for state.scheme_registry req.requirements.scheme req.requirements.network)
          (unknown_scheme req.requirements.scheme req.requirements.network)
    authorization ← handler.extract_authorization req.payload
    check_time_window state at authorization
    ok (handler, authorization)

  module _ (R : ReplayCache) where
    open R use {Cache, prefixed_replay_key, authorization_domain, seen}

    unfoldable pub check_replay :
        AppState Value Chain Rows
        → Moment
        → Authorization
        → Cache
        → Result VerifyError (Unit {0}) × Cache
    check_replay state at auth cache =
        let key = prefixed_replay_key authorization_domain auth.nonce in
        let (hit, cache') = seen key state.replay_ttl at.instant cache in
        (if hit then err (nonce_replayed auth.nonce) else ok tt, cache')

    -- `if matches!(replay_mode, ReplayMode::Consume)`
    abbrev pub replay_step :
        ReplayMode
        → AppState Value Chain Rows
        → Moment
        → Authorization
        → Cache
        → Result VerifyError (Unit {0}) × Cache
    replay_step consume state at auth cache = check_replay state at auth cache
    replay_step skip state at auth cache = (ok tt, cache)

    abbrev after_replay :
        VerifyRequest Value
        → ReplayMode
        → AppState Value Chain Rows
        → Moment
        → Cache
        → Result VerifyError (SchemeHandler Value Chain × Authorization)
        → Result VerifyError (Unit {0}) × Cache
    after_replay req mode state at cache (err e) = (err e, cache)
    after_replay req mode state at cache (ok (handler, auth)) =
        let (replay, cache') = replay_step mode state at auth cache in
        (replay >> handler.verify req.payload req.requirements, cache')

    unfoldable pub verify_envelope_inner :
        AppState Value Chain Rows
        → Moment
        → VerifyRequest Value
        → ReplayMode
        → Cache
        → Result VerifyError (Unit {0}) × Cache
    verify_envelope_inner state at req mode cache =
        after_replay req mode state at cache (before_replay state at req)

    unfoldable pub verify_envelope :
        AppState Value Chain Rows
        → Moment
        → VerifyRequest Value
        → Cache
        → Result VerifyError (Unit {0}) × Cache
    verify_envelope state at req cache = verify_envelope_inner state at req consume cache

    unfoldable pub verify_envelope_for_settle :
        AppState Value Chain Rows
        → Moment
        → VerifyRequest Value
        → Cache
        → Result VerifyError (Unit {0}) × Cache
    verify_envelope_for_settle state at req cache = verify_envelope_inner state at req skip cache
