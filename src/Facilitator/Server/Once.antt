-- ===== src/Facilitator/Server/Once.antt =====
-- The time to live of the replay cache against the window of an authorization.
use x402_nockchain.Prelude.{ℕ, ◌+◌, ◌<◌, ◌≡◌, ◌≢◌, ap, some, inl, inr, arith}
use x402_nockchain.Decimal.{u64_mod}
use x402_nockchain.Types.Json.{Json}
use x402_nockchain.Types.Facilitator.{VerifyRequest}
use x402_nockchain.Facilitator.Replay.{ReplayCache, IsLawfulReplayCache}
use x402_nockchain.Facilitator.State.{AppState, Moment}
use x402_nockchain.Facilitator.Bazaar.{Web}
use x402_nockchain.Facilitator.Envelope.Laws.{Passes, check_time_window_iff}
use x402_nockchain.Facilitator.Server.{Worlds, System, Reach}
use x402_nockchain.Facilitator.Server.Checks.{verified_of}
use x402_nockchain.Facilitator.Server.Nonces.{verified-IsApart}

module _ (J : Json) (W : Web J.Value) {Chain Rows : Type 0} (state : AppState J.Value Chain Rows)
    (R : ReplayCache) (L : IsLawfulReplayCache R) where
  -- Let the window of an authorization, with the tolerance added on both sides, be shorter than
  -- the time to live of the replay cache, which obeys its laws. When `/verify` has accepted a
  -- request with that authorization in one task, then, whatever way the tasks of the server
  -- interleave, it has not accepted a request with it in any other task, at any moment between
  -- which and that of the first one the clock and the instants of the cache moved by the same
  -- time.
  pub verified-once :
      {world : Worlds J W state R} {clock : ℕ} {s : System J W state R} (i j : ℕ)
      (first second : VerifyRequest J.Value) (at at' : Moment) (p : Passes state at first)
      (p' : Passes state at' second)
      → Reach J W state R world clock s
      → i ≢ j
      → verified_of J W state R (s.tasks i) ≡ some (first, at)
      → p.auth ≡ p'.auth
      → p.auth.valid_after < u64_mod
      → p.auth.valid_before + state.clock_skew_tolerance + state.clock_skew_tolerance
        < p.auth.valid_after + state.replay_ttl
      → at.now + at'.instant ≡ at'.now + at.instant
      → verified_of J W state R (s.tasks j) ≢ some (second, at')
  verified-once i j first second at at' p p' reach other e same fits short steady e' =
      let window = (check_time_window_iff state at p.auth fits).0 p.window in
      let window' =
        (check_time_window_iff state at' p'.auth (rw (ap (λ a. a.valid_after) same) at fits)).0
          p'.window in
      let after = ap (λ a. a.valid_after) same in
      let before = ap (λ a. a.valid_before) same in
      elim (verified-IsApart J W state R L i j first second at at' p p' reach other e e'
        (ap (λ a. a.nonce) same)) [ inl apart ↦ omega arith | inr apart ↦ omega arith ]
