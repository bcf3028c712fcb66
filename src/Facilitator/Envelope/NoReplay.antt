-- ===== src/Facilitator/Envelope/NoReplay.antt =====
-- A nonce is taken once over any sequence of requests to the two endpoints.
use x402_nockchain.Prelude.{
  ℕ, ◌+◌, ◌≤◌, ◌<◌, ◌≡◌, ◌≢◌, true, List, [], ◌∷◌, ok, err, All, Bool-cases, inl, inr, Result-cases,
}
use x402_nockchain.Types.Payment.{Authorization}
use x402_nockchain.Types.Facilitator.{VerifyRequest}
use x402_nockchain.Facilitator.Error.{nonce_replayed}
use x402_nockchain.Facilitator.Scheme.{SchemeHandler}
use x402_nockchain.Facilitator.Replay.{ReplayCache, IsLawfulReplayCache}
use x402_nockchain.Facilitator.State.{AppState, Moment}
use x402_nockchain.Facilitator.Envelope.{
  before_replay, check_replay, verify_envelope_inner, verify_envelope, verify_envelope_for_settle,
}

-- A request to `/verify` or to `/settle`, with the time at which it is handled.
pub data Event (Value : Type 0) : Type 0 where
  verify settle : Moment → VerifyRequest Value → Event Value

abbrev pub instant_of : {Value : Type 0} → Event Value → ℕ
instant_of (verify at req) = at.instant
instant_of (settle at req) = at.instant

module _ {Value Chain Rows : Type 0} (R : ReplayCache) (state : AppState Value Chain Rows) where
  open R use {Cache, Key, prefixed_replay_key, authorization_domain, seen}

  -- The cache after a sequence of requests.
  unfoldable pub run : List (Event Value) → Cache → Cache
  run [] cache = cache
  run (verify at req ∷ events) cache = run events (verify_envelope R state at req cache).1
  run (settle at req ∷ events) cache =
      run events (verify_envelope_for_settle R state at req cache).1

  abbrev pub nonce_key : Authorization → Key
  nonce_key auth = prefixed_replay_key authorization_domain auth.nonce

  module _ (L : IsLawfulReplayCache R) where
    open L use {is_live, seen-is_live, is_live-seen, is_live-seen_keep}

    pub verify_envelope-keep :
        (k : Key) (u : ℕ) (at : Moment) (req : VerifyRequest Value) (cache : Cache)
        → at.instant ≤ u
        → is_live k u cache ≡ true
        → is_live k u (verify_envelope R state at req cache).1 ≡ true
    unfolding verify_envelope verify_envelope_inner check_replay
    verify_envelope-keep k u at req cache le live =
        elim (Result-cases (before_replay state at req)) [
          | inl ((h, auth), e) ↦
              rw e
                (is_live-seen_keep k (nonce_key auth) state.replay_ttl at.instant u cache live le)
          | inr (v, e) ↦ rw e live
        ]

    run-keep :
        (k : Key) (u : ℕ) (events : List (Event Value)) (cache : Cache)
        → All (λ e. instant_of e ≤ u) events
        → is_live k u cache ≡ true
        → is_live k u (run events cache) ≡ true
    unfolding run verify_envelope_for_settle verify_envelope_inner
    run-keep k u [] cache early live = live
    run-keep k u (verify at req ∷ events) cache (le, early) live =
        run-keep k u events _ early (verify_envelope-keep k u at req cache le live)
    run-keep k u (settle at req ∷ events) cache (le, early) live =
        elim (Result-cases (before_replay state at req)) [
          | inl (pair, e) ↦ rw e (run-keep k u events cache early live)
          | inr (v, e) ↦ rw e (run-keep k u events cache early live)
        ]

    -- A request that was not refused as a replay has put its nonce in the cache.
    pub verify_envelope-live :
        (at : Moment) (req : VerifyRequest Value) (cache : Cache) (u : ℕ)
        (h : SchemeHandler Value Chain) (auth : Authorization)
        → before_replay state at req ≡ ok (h, auth)
        → (verify_envelope R state at req cache).0 ≢ err (nonce_replayed auth.nonce)
        → at.instant ≤ u
        → u < at.instant + state.replay_ttl
        → is_live (nonce_key auth) u (verify_envelope R state at req cache).1 ≡ true
    unfolding verify_envelope verify_envelope_inner check_replay
    verify_envelope-live at req cache u h auth e fresh le lt =
        elim (Bool-cases (is_live (nonce_key auth) at.instant cache)) [
          | inl b ↦
              absurd
                (fresh (rw (e, seen-is_live (nonce_key auth) state.replay_ttl at.instant cache, b)))
          | inr b ↦ rw e (is_live-seen (nonce_key auth) state.replay_ttl at.instant u cache b le lt)
        ]

    pub verify_envelope-replayed :
        (at : Moment) (req : VerifyRequest Value) (cache : Cache) (h : SchemeHandler Value Chain)
        (auth : Authorization)
        → before_replay state at req ≡ ok (h, auth)
        → is_live (nonce_key auth) at.instant cache ≡ true
        → (verify_envelope R state at req cache).0 ≡ err (nonce_replayed auth.nonce)
    unfolding verify_envelope verify_envelope_inner check_replay
    verify_envelope-replayed at req cache h auth e live =
        rw (e, seen-is_live (nonce_key auth) state.replay_ttl at.instant cache, live)

    -- Let `/verify` handle a request that passes the checks before the replay check, and not
    -- refuse it as a replay: it may accept the request or reject it later, for its signature, say.
    -- Then, with a replay cache that obeys its laws, after any sequence of requests to both
    -- endpoints that are handled no later than it, a request that passes the checks before the
    -- replay check, has the same nonce and is handled before the time to live is over is refused
    -- by `/verify` as a replay.
    pub verify_envelope-once :
        (first second : VerifyRequest Value) (at later : Moment) (events : List (Event Value))
        (cache : Cache) (h h' : SchemeHandler Value Chain) (auth auth' : Authorization)
        → before_replay state at first ≡ ok (h, auth)
        → (verify_envelope R state at first cache).0 ≢ err (nonce_replayed auth.nonce)
        → before_replay state later second ≡ ok (h', auth')
        → auth'.nonce ≡ auth.nonce
        → at.instant ≤ later.instant
        → later.instant < at.instant + state.replay_ttl
        → All (λ e. instant_of e ≤ later.instant) events
        → (verify_envelope R state later second
            (run events (verify_envelope R state at first cache).1)).0
          ≡ err (nonce_replayed auth'.nonce)
    verify_envelope-once first second at later events cache h h' auth auth' e fresh e' same le lt
          early =
        verify_envelope-replayed later second _ h' auth' e' (
          rw same (
            run-keep (nonce_key auth) later.instant events _ early
              (verify_envelope-live at first cache later.instant h auth e fresh le lt)))
