-- ===== src/Facilitator/Envelope/Laws.antt =====
-- Which requests pass the checks, for `/verify` and for `/settle`, and what becomes of the cache.
use x402_nockchain.Prelude.{
  ◌+◌, ◌-◌, ◌<◌, ◌≤◌, min, ◌≡◌, ◌↔◌, ap, false, Bool, some, arith, ok, guard-bind-eq-ok,
  guard-eq-ok, ok_or-bind-eq-ok, >>=-eq-ok, >>-eq-ok, ok-injective, some-injective, sym, ◌∙◌,
  Result-cases, inl, inr, ◌==◌, nat_eq, string_eq, nat_beq_iff, eq_iff, leb, leb→le, le→leb,
  Bool-cases,
}
use x402_nockchain.Decimal.{u64_mod}
use x402_nockchain.Types.Payment.{Authorization}
use x402_nockchain.Types.Facilitator.{VerifyRequest}
use x402_nockchain.Facilitator.Scheme.{SchemeHandler, handler_for}
use x402_nockchain.Facilitator.Replay.{ReplayCache}
use x402_nockchain.Facilitator.State.{AppState, Moment, saturating_add}
use x402_nockchain.Facilitator.Envelope.{
  check_time_window, before_replay, check_replay, verify_envelope_inner, verify_envelope,
  verify_envelope_for_settle,
}

module _ {Value Chain Rows : Type 0} (state : AppState Value Chain Rows) (at : Moment) where
  -- The window of an authorization, without saturation.
  abbrev pub InWindow : Authorization → Type 0
  InWindow auth =
      (auth.valid_after ≤ at.now + state.clock_skew_tolerance)
      × (at.now ≤ auth.valid_before + state.clock_skew_tolerance)

  -- For a start time that fits 64 bits, the saturating test of the time window accepts exactly
  -- the authorizations that started at most the tolerance after now and ended at most the
  -- tolerance before now, in exact arithmetic.
  pub check_time_window_iff :
      (auth : Authorization)
      → auth.valid_after < u64_mod
      → (check_time_window state at auth ≡ ok tt) ↔ InWindow auth
  unfolding check_time_window saturating_add
  check_time_window_iff auth fits = (
    λ h.
        let (started, h1) = guard-bind-eq-ok (leb auth.valid_after _) _ _ h in
        let after = leb→le _ _ started in
        let before = leb→le _ _ (guard-eq-ok _ _ h1) in (omega arith, omega arith),
    λ w.
        let (after, before) = w in
        rw (
          le→leb auth.valid_after (min (at.now + state.clock_skew_tolerance) (u64_mod - 1))
              (omega arith),
          le→leb (at.now - state.clock_skew_tolerance) auth.valid_before (omega arith),
        ),
  )

  -- A request that passes every check but that of the replay cache.
  pub record Passes (req : VerifyRequest Value) : Type 0 where
    pub handler : SchemeHandler Value Chain
    pub auth : Authorization
    pub version : req.payload.x402_version ≡ 2
    pub scheme : req.payload.scheme ≡ req.requirements.scheme
    pub network : req.payload.network ≡ req.requirements.network
    pub found :
        handler_for state.scheme_registry req.requirements.scheme req.requirements.network
        ≡ some handler
    pub extracted : handler.extract_authorization req.payload ≡ ok auth
    pub window : check_time_window state at auth ≡ ok tt
    pub verified : handler.verify req.payload req.requirements ≡ ok tt

  pub before_replay-ok_of_Passes :
      (req : VerifyRequest Value) (p : Passes req)
      → before_replay state at req ≡ ok (p.handler, p.auth)
  unfolding before_replay
  before_replay-ok_of_Passes req p = rw (
    (nat_beq_iff _ _).1 p.version,
    (eq_iff _ _).1 p.scheme,
    (eq_iff _ _).1 p.network,
    p.found,
    p.extracted,
    p.window,
  )

  Passes_of_before_replay :
      (req : VerifyRequest Value) (h : SchemeHandler Value Chain) (auth : Authorization)
      → before_replay state at req ≡ ok (h, auth)
      → h.verify req.payload req.requirements ≡ ok tt
      → (p : Passes req) × (p.auth ≡ auth)
  unfolding before_replay
  Passes_of_before_replay req h auth e v =
      let (version, e1) = guard-bind-eq-ok (req.payload.x402_version == 2) _ _ e in
      let (scheme, e2) = guard-bind-eq-ok (req.payload.scheme == req.requirements.scheme) _ _ e1 in
      let (network, e3) =
        guard-bind-eq-ok (req.payload.network == req.requirements.network) _ _ e2 in
      let (handler, found, e4) =
        ok_or-bind-eq-ok
          (handler_for state.scheme_registry req.requirements.scheme req.requirements.network) _ _
          e3 in
      let (authorization, extracted, e5) =
        >>=-eq-ok (handler.extract_authorization req.payload) _ e4 in
      let (window, e6) = >>-eq-ok (check_time_window state at authorization) _ e5 in
      let pair = ok-injective e6 in
      (
        record {
          handler = handler;
          auth = authorization;
          version = (nat_beq_iff _ _).0 version;
          scheme = (eq_iff _ _).0 scheme;
          network = (eq_iff _ _).0 network;
          found = found;
          extracted = extracted;
          window = window;
          verified = rw (ap (λ q. q.0) pair) v;
        },
        ap (λ q. q.1) pair,
      )

  module _ (R : ReplayCache) where
    open R use {Cache, prefixed_replay_key, authorization_domain, seen}

    -- Whether the nonce of an authorization is in the cache.
    abbrev pub hit : Authorization → Cache → Bool
    hit auth cache =
        (seen (prefixed_replay_key authorization_domain auth.nonce) state.replay_ttl at.instant
          cache).0

    -- `/settle` accepts exactly the requests that pass every check but that of the replay cache,
    -- whatever the cache holds, and leaves the cache as it was.
    pub verify_envelope_for_settle_iff :
        (req : VerifyRequest Value) (cache : Cache)
        → (((verify_envelope_for_settle R state at req cache).0 ≡ ok tt) ↔ Passes req)
          × ((verify_envelope_for_settle R state at req cache).1 ≡ cache)
    unfolding verify_envelope_for_settle verify_envelope_inner
    verify_envelope_for_settle_iff req cache = elim (Result-cases (before_replay state at req)) [
      | inl ((h, auth), e) ↦ (
        (
          λ k. let k' = rw e at k in (Passes_of_before_replay req h auth e k').0,
          λ p. rw (before_replay-ok_of_Passes req p) p.verified,
        ),
        rw e,
      )
      | inr (v, e) ↦ (
        (λ k. let k' = rw e at k in cc, λ p. let b = before_replay-ok_of_Passes req p in cc),
        rw e,
      )
    ]

    -- `/verify` accepts exactly the requests that pass every check and whose nonce the replay
    -- cache has not seen.
    pub verify_envelope_iff :
        (req : VerifyRequest Value) (cache : Cache)
        → ((verify_envelope R state at req cache).0 ≡ ok tt)
          ↔ ((p : Passes req) × (hit p.auth cache ≡ false))
    unfolding verify_envelope verify_envelope_inner check_replay
    verify_envelope_iff req cache = (
      λ k. elim (Result-cases (before_replay state at req)) [
        | inl ((h, auth), e) ↦
            let k' = rw e at k in
            elim (Bool-cases (hit auth cache)) [
              | inl b ↦ let k'' = rw b at k' in cc
              | inr b ↦
                  let k'' = rw b at k' in
                  let (p, same) = Passes_of_before_replay req h auth e k'' in (p, rw (same) b)
            ]
        | inr (v, e) ↦ let k' = rw e at k in cc
      ],
      λ q. let (p, fresh) = q in rw (before_replay-ok_of_Passes req p, fresh) p.verified,
    )

-- The checks of a request find the same authorization at any time.
pub Passes-auth :
    {Value Chain Rows : Type 0} (state : AppState Value Chain Rows) (at at' : Moment)
    (req : VerifyRequest Value) (p : Passes state at req) (q : Passes state at' req)
    → p.auth ≡ q.auth
Passes-auth state at at' req p q =
    let same : p.handler ≡ q.handler = some-injective (sym p.found ∙ q.found) in
    ok-injective (sym p.extracted ∙ rw same q.extracted)
