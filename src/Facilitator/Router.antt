-- ===== src/Facilitator/Router.antt =====
-- crates/x402-nockchain-facilitator/src/lib.rs: the two routers. What axum does before a handler
-- runs, the match of method and path and the reading of the body or the query, is given as a
-- `Call`; what it writes is an `Answer`.
pub mod Laws
use x402_nockchain.Prelude.{ℕ, String, Bool, true, false, Option, Result, ok, err}
use x402_nockchain.Types.Json.{Json}
use x402_nockchain.Types.Bazaar.{ListDiscoveryResourcesParams, DiscoveryResourcesResponse}
use x402_nockchain.Types.Facilitator.{VerifyRequest, VerifyResponse, SettleRequest, SettleResponse}
use x402_nockchain.Facilitator.Error.{AppError, ErrorResponse, into_response}
use x402_nockchain.Facilitator.Replay.{ReplayCache}
use x402_nockchain.Facilitator.State.{AppState, Moment}
use x402_nockchain.Facilitator.Bazaar.{Web}
use x402_nockchain.Facilitator.Handlers.{World, verify_handler, settle_handler, list_resources}
use x402_nockchain.Facilitator.Siwn.{
  SiwnGate, SiwnHeader, Reply, passed, unauthorized as unauthorized_reply, require_siwn,
}

-- A request to one of the three routes.
pub data Call (Value : Type 0) : Type 0 where
  verify_call : VerifyRequest Value → Call Value
  settle_call : SettleRequest Value → Call Value
  discovery_call : ListDiscoveryResourcesParams → Call Value

pub data Answer (Value HeaderValue : Type 0) : Type 0 where
  verified : Option HeaderValue × VerifyResponse → Answer Value HeaderValue
  settled : Option HeaderValue × SettleResponse → Answer Value HeaderValue
  listed : DiscoveryResourcesResponse Value → Answer Value HeaderValue
  failed : ErrorResponse → Answer Value HeaderValue
  unauthorized : String → Answer Value HeaderValue

module _ (J : Json) (W : Web J.Value) where
  open J use {Value}
  open W use {HeaderValue}

  abbrev pub written : Result AppError (DiscoveryResourcesResponse Value) → Answer Value HeaderValue
  written (ok response) = listed response
  written (err e) = failed (into_response e)

  -- The answer of the gate, or what the endpoint behind it wrote.
  abbrev pub opened : Reply (Answer Value HeaderValue) → Answer Value HeaderValue
  opened (passed answer) = answer
  opened (unauthorized_reply text) = unauthorized text

  module _ {Chain Rows : Type 0} (state : AppState Value Chain Rows) (R : ReplayCache) (at : Moment)
      (stamp : String) where
    abbrev Worlds : Type 0
    Worlds = World R.Cache Rows Chain

    unfoldable pub router : Call Value → Worlds → Answer Value HeaderValue × Worlds
    router (verify_call req) world =
        let (answer, world') = verify_handler J W state R at stamp req world in
        (verified answer, world')
    router (settle_call req) world =
        let (answer, world') = settle_handler J W state R at stamp req world in
        (settled answer, world')
    router (discovery_call params) world =
        (written (list_resources J W state params world.rows), world)

    module _ {SiwnCache Identity SiwnError : Type 0}
        (verify : String → String → ℕ → SiwnCache → Result SiwnError Identity × SiwnCache)
        (error_text : SiwnError → String) where
      -- The routes `/verify` and `/settle` are merged as they are; the gate is a layer of the
      -- discovery route alone.
      unfoldable pub router_with_siwn :
          SiwnGate
          → Option SiwnHeader
          → Call Value
          → SiwnCache
          → Worlds
          → Answer Value HeaderValue × SiwnCache × Worlds
      unfolding router
      router_with_siwn gate header (discovery_call params) cache world =
          let (reply, cache', world') =
            require_siwn verify error_text (λ _ w. router (discovery_call params) w) gate header
              at.now cache world in
          (opened reply, cache', world')
      router_with_siwn gate header (verify_call req) cache world =
          let (answer, world') = router (verify_call req) world in (answer, cache, world')
      router_with_siwn gate header (settle_call req) cache world =
          let (answer, world') = router (settle_call req) world in (answer, cache, world')
