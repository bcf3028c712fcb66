-- ===== src/Facilitator/Server/Taken.antt =====
-- What one step of one task does to the nonces in the cache.
use x402_nockchain.Prelude.{
  ℕ, ◌+◌, sym, ◌∙◌, OnSome, ◌≤◌, ◌<◌, ◌≡◌, ◌⊎◌, refl, true, false, arith, ok, inl, inr,
  Result-cases, nat_eq,
}
use native.Mathlib.Decide.{dec_lt}
use x402_nockchain.Types.Json.{Json}
use x402_nockchain.Types.Facilitator.{VerifyRequest}
use x402_nockchain.Facilitator.Replay.{ReplayCache, IsLawfulReplayCache}
use x402_nockchain.Facilitator.State.{AppState, Moment}
use x402_nockchain.Facilitator.Bazaar.{Web}
use x402_nockchain.Facilitator.Scheme.{handler_for}
use x402_nockchain.Facilitator.Envelope.{verify_envelope, verify_envelope_for_settle}
use x402_nockchain.Facilitator.Envelope.Laws.{
  Passes-auth, Passes, before_replay-ok_of_Passes, verify_envelope_iff,
  verify_envelope_for_settle_iff,
}
use x402_nockchain.Facilitator.Envelope.NoReplay.{
  nonce_key, verify_envelope-live, verify_envelope-keep,
}
use x402_nockchain.Facilitator.Server.Checks.{dispatch-cache, verified_of}
use x402_nockchain.Facilitator.Server.{
  idle, arrived, accepted, listed, Action, receive, check, list, settle, verify_endpoint,
  settle_endpoint, Stages, Worlds, act,
}

module _ (J : Json) (W : Web J.Value) {Chain Rows : Type 0} (state : AppState J.Value Chain Rows)
    (R : ReplayCache) (L : IsLawfulReplayCache R) where
  open R use {Cache, Key}
  open L use {is_live, seen-is_live, is_live-seen, is_live-seen_keep}

  abbrev Tasks : Type 0
  Tasks = Stages J W state R

  pub act-keep :
      (k : Key) (u instant : ℕ) (action : Action J.Value) (stage : Tasks)
      (world : Worlds J W state R)
      → instant ≤ u
      → is_live k u world.cache ≡ true
      → is_live k u (act J W state R instant action stage world).1.cache ≡ true
  unfolding act
  act-keep k u instant (receive endpoint req) idle world le live = live
  act-keep k u instant (check now) (arrived verify_endpoint req) world le live =
      verify_envelope-keep R state L k u (record { now = now; instant = instant }) req world.cache
        le live
  act-keep k u instant (check now) (arrived settle_endpoint req) world le live =
      rw
        ((verify_envelope_for_settle_iff state (record { now = now; instant = instant }) R req
          world.cache).1)
        live
  act-keep k u instant (list stamp) (accepted endpoint req at) world le live = live
  act-keep k u instant settle (listed settle_endpoint req at stamp headers) world le live =
      rw
        (dispatch-cache J W state R req headers world
          (handler_for state.scheme_registry req.requirements.scheme req.requirements.network))
        live
  act-keep k u instant action stage world le live = live

  -- The nonce of a request stays in the cache until its time to live is over.
  abbrev pub IsHeld : Cache → ℕ → VerifyRequest J.Value × Moment → Type 0
  IsHeld cache clock (req, at) =
      (at.instant ≤ clock)
      × ((p : Passes state at req) (u : ℕ)
          → clock ≤ u
          → u < at.instant + state.replay_ttl
          → is_live (nonce_key R state p.auth) u cache ≡ true)

  -- Two requests do not have the same nonce within a time to live.
  abbrev pub IsApart : VerifyRequest J.Value × Moment → VerifyRequest J.Value × Moment → Type 0
  IsApart (req, at) (req', at') =
      (p : Passes state at req) (p' : Passes state at' req')
      → p.auth.nonce ≡ p'.auth.nonce
      → (at.instant + state.replay_ttl ≤ at'.instant)
        ⊎ (at'.instant + state.replay_ttl ≤ at.instant)

  -- What a check that accepts a request found in the cache, and left there.
  pub record IsTaken (before after : Cache) (clock : ℕ) (req : VerifyRequest J.Value) (at : Moment)
      : Type 0 where
    pub now : at.instant ≡ clock
    pub absent : (p : Passes state at req) → is_live (nonce_key R state p.auth) clock before ≡ false
    pub present :
        (p : Passes state at req) (u : ℕ)
        → clock ≤ u
        → u < clock + state.replay_ttl
        → is_live (nonce_key R state p.auth) u after ≡ true

  pub check-IsTaken :
      (now clock : ℕ) (req : VerifyRequest J.Value) (cache : Cache)
      → let at : Moment = record { now = now; instant = clock } in
        (verify_envelope R state at req cache).0 ≡ ok tt
        → IsTaken cache (verify_envelope R state at req cache).1 clock req at
  check-IsTaken now clock req cache h =
      let at : Moment = record { now = now; instant = clock } in
      let (p, fresh) = (verify_envelope_iff state at R req cache).0 h in
      record {
        now = refl;
        absent = λ q.
            rw (Passes-auth state at at req q p)
              (sym (seen-is_live (nonce_key R state p.auth) state.replay_ttl clock cache) ∙ fresh);
        present = λ q u le lt.
            verify_envelope-live R state L at req cache u q.handler q.auth
              (before_replay-ok_of_Passes state at req q) (rw h (λ e. cc)) le lt;
      }

  -- A task whose access is over was accepted by `/verify` before it, or took its nonce in it.
  pub act-verified :
      (P : VerifyRequest J.Value × Moment → Type 0) (clock : ℕ) (action : Action J.Value)
      (stage : Tasks) (world : Worlds J W state R)
      → OnSome P (verified_of J W state R stage)
      → ((req : VerifyRequest J.Value) (at : Moment)
          → IsTaken world.cache (act J W state R clock action stage world).1.cache clock req at
          → P (req, at))
      → OnSome P (verified_of J W state R (act J W state R clock action stage world).0)
  unfolding act
  act-verified P clock (receive endpoint req) idle world old new = tt
  act-verified P clock (check now) (arrived verify_endpoint req) world old new =
      let at : Moment = record { now = now; instant = clock } in
      elim (Result-cases (verify_envelope R state at req world.cache).0) [
        | inl (tt, e) ↦ rw e (new req at (check-IsTaken now clock req world.cache e))
        | inr (v, e) ↦ rw e tt
      ]
  act-verified P clock (check now) (arrived settle_endpoint req) world old new =
      let at : Moment = record { now = now; instant = clock } in
      elim (Result-cases (verify_envelope_for_settle R state at req world.cache).0) [
        | inl (tt, e) ↦ rw e tt
        | inr (v, e) ↦ rw e tt
      ]
  act-verified P clock (list stamp) (accepted verify_endpoint req at) world old new = old
  act-verified P clock (list stamp) (accepted settle_endpoint req at) world old new = tt
  act-verified P clock settle (listed settle_endpoint req at stamp headers) world old new = tt
  act-verified P clock action stage world old new = old

  pub taken-IsApart :
      (before after : Cache) (clock : ℕ) (req : VerifyRequest J.Value) (at : Moment)
      (other : VerifyRequest J.Value × Moment)
      → IsTaken before after clock req at
      → IsHeld before clock other
      → IsApart (req, at) other
  taken-IsApart before after clock req at (req', at') taken (early, held) p p' same =
      elim (dec_lt clock (at'.instant + state.replay_ttl)) [
        | yes live ↦
            let found = held p' clock (omega arith) live in
            let absent = taken.absent p in let absent' = rw same at absent in cc
        | no over ↦ inr (omega (arith, taken.now))
      ]
