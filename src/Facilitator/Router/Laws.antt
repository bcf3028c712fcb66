-- ===== src/Facilitator/Router/Laws.antt =====
-- What the gate changes of the open router.
use x402_nockchain.Prelude.{
  ℕ, String, ◌<>◌, ◌≡◌, ◌⊎◌, inl, inr, refl, Option, none, some, Result, ok, Result-cases,
}
use x402_nockchain.Types.Json.{Json}
use x402_nockchain.Types.Bazaar.{ListDiscoveryResourcesParams}
use x402_nockchain.Facilitator.Replay.{ReplayCache}
use x402_nockchain.Facilitator.State.{AppState, Moment}
use x402_nockchain.Facilitator.Bazaar.{Web}
use x402_nockchain.Facilitator.Handlers.{World}
use x402_nockchain.Facilitator.Siwn.{SiwnGate, SiwnHeader, visible, opaque, require_siwn}
use x402_nockchain.Facilitator.Router.{
  Call, verify_call, settle_call, discovery_call, unauthorized, router, router_with_siwn,
}

-- A call of the discovery route.
abbrev pub IsDiscovery : {Value : Type 0} → Call Value → Type 0
IsDiscovery {Value} call = (params : ListDiscoveryResourcesParams) × (call ≡ discovery_call params)

abbrev pub IsPayment : {Value : Type 0} → Call Value → Type 0
IsPayment (verify_call req) = Unit
IsPayment (settle_call req) = Unit
IsPayment (discovery_call params) = ⊥

module _ (J : Json) (W : Web J.Value) {Chain Rows : Type 0} (state : AppState J.Value Chain Rows)
    (R : ReplayCache) (at : Moment) (stamp : String) {SiwnCache Identity SiwnError : Type 0}
    (verify : String → String → ℕ → SiwnCache → Result SiwnError Identity × SiwnCache)
    (error_text : SiwnError → String) (gate : SiwnGate) where
  -- The header is visible text that the verification accepts for the domain of the gate.
  abbrev pub SignedIn : Option SiwnHeader → SiwnCache → Type 0
  SignedIn header cache =
      (text : String) × (identity : Identity) × (header ≡ some (visible text))
      × ((verify text gate.expected_domain at.now cache).0 ≡ ok identity)

  -- What the open router does with the call, of `/verify` or `/settle`, beside the gate's cache.
  abbrev pub PassesBy :
      Option SiwnHeader → Call J.Value → SiwnCache → World R.Cache Rows Chain → Type 0
  PassesBy header call cache world =
      let (answer, world') = router J W state R at stamp call world in
      IsPayment call
      × (router_with_siwn J W state R at stamp verify error_text gate header call cache world
          ≡ (answer, cache, world'))

  -- The discovery route, with a header that signs in: the answer is that of the open router.
  abbrev pub IsLetIn :
      Option SiwnHeader → Call J.Value → SiwnCache → World R.Cache Rows Chain → Type 0
  IsLetIn header call cache world =
      let (answer, _, world') =
        router_with_siwn J W state R at stamp verify error_text gate header call cache world in
      IsDiscovery call
      × SignedIn header cache
      × (answer ≡ (router J W state R at stamp call world).0)
      × (world' ≡ world)

  -- The discovery route, with no header or with one that does not sign in.
  abbrev pub IsTurnedAway :
      Option SiwnHeader → Call J.Value → SiwnCache → World R.Cache Rows Chain → Type 0
  IsTurnedAway header call cache world =
      let (answer, _, world') =
        router_with_siwn J W state R at stamp verify error_text gate header call cache world in
      IsDiscovery call
      × (¬ SignedIn header cache)
      × ((text : String) × (answer ≡ unauthorized text))
      × (world' ≡ world)

  -- A call of the gated router has one of three ends. `/verify` and `/settle` do what they do in
  -- the open router, whatever the header, and the gate's cache is left alone. The discovery route
  -- answers as in the open router when the header is visible text that the verification accepts
  -- for the domain of the gate, and with `unauthorized` when it is not; either way it changes
  -- nothing behind the gate.
  pub router_with_siwn-cases :
      (header : Option SiwnHeader) (call : Call J.Value) (cache : SiwnCache)
      (world : World R.Cache Rows Chain)
      → PassesBy header call cache world
        ⊎ (IsLetIn header call cache world ⊎ IsTurnedAway header call cache world)
  unfolding router_with_siwn require_siwn router
  router_with_siwn-cases header (verify_call req) cache world = inl (tt, refl)
  router_with_siwn-cases header (settle_call req) cache world = inl (tt, refl)
  router_with_siwn-cases none (discovery_call params) cache world =
      inr (inr ((params, refl), (λ q. let (_, _, same, _) = q in cc), (_, refl), refl))
  router_with_siwn-cases (some opaque) (discovery_call params) cache world =
      inr (inr ((params, refl), (λ q. let (_, _, same, _) = q in cc), (_, refl), refl))
  router_with_siwn-cases (some (visible text)) (discovery_call params) cache world =
      elim (Result-cases (verify text gate.expected_domain at.now cache).0) [
        | inl (identity, e) ↦
            inr (inl ((params, refl), (text, identity, refl, e), rw e refl, rw e refl))
        | inr (x, e) ↦ inr (
            inr (
              (params, refl),
              (λ q. let (_, _, same, accepted) = q in cc),
              ("SIWN rejected: " <> error_text x, rw e refl),
              rw e refl,
            ))
      ]
