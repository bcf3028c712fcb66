-- ===== src/Mcp/Deployed.antt =====
-- crates/x402-mcp together with crates/x402-nockchain-facilitator: a tool server that verifies its
-- payments at a facilitator. What the two change is a pair, the world of the facilitator and that
-- of the tools; the connection between them is a parameter.
pub mod Once
pub mod Built
use x402_nockchain.Prelude.{
  ◌+◌, ◌≤◌, ◌<◌, String, ◌<>◌, ◌≡◌, refl, ap, ◌∙◌, true, false, some, List, ◌∷◌, Result, ok, err,
  lookup, string_eq,
}
use x402_nockchain.Types.Json.{Json}
use x402_nockchain.Types.Payment.{PaymentPayload, PaymentRequirements}
use x402_nockchain.Types.Facilitator.{VerifyRequest, VerifyResponse}
use x402_nockchain.Facilitator.Replay.{ReplayCache, IsLawfulReplayCache}
use x402_nockchain.Facilitator.State.{AppState, Moment}
use x402_nockchain.Facilitator.Error.{nonce_replayed, to_facilitator_error}
use x402_nockchain.Facilitator.Envelope.{verify_envelope}
use x402_nockchain.Facilitator.Envelope.Laws.{
  Passes, Passes-auth, hit, verify_envelope_iff, before_replay-ok_of_Passes,
}
use x402_nockchain.Facilitator.Envelope.NoReplay.{
  nonce_key, verify_envelope-live, verify_envelope-replayed,
}
use x402_nockchain.Facilitator.Bazaar.{Web}
use x402_nockchain.Facilitator.Handlers.{World, verify_handler}
use x402_nockchain.Facilitator.Handlers.Laws.{
  verify_handler_iff, verify_handler-rejected, verify_handler-cache,
}
use x402_nockchain.Mcp.Registry.{McpToolRegistry, RegisteredTool, invoke, get}
use x402_nockchain.Mcp.Verifier.{
  PaymentVerifier, VerifyFailure, rejected, rejection, remote_facilitator_verifier, trim_slashes,
}
use x402_nockchain.Mcp.Router.{Response, call_tool, answer, payment_required_response}
use x402_nockchain.Mcp.Laws.{IsWellNamed, call_tool-paid}

module _ (J : Json) (W : Web J.Value) {Chain Rows : Type 0} (Tools : Type 0)
    (state : AppState J.Value Chain Rows) (R : ReplayCache) where
  open J use {Value}

  -- The world of the facilitator, and that of the tools.
  abbrev pub Both : Type 0
  Both = World R.Cache Rows Chain × Tools

  -- How a request reaches the facilitator: the moment at which it is handled there, its time
  -- stamp, the URL and the request.
  abbrev pub Post : Type 0
  Post = Moment → String → String → VerifyRequest Value → Both → Result String VerifyResponse × Both

  -- The connection reaches the facilitator: what is posted to its `/verify` is answered by the
  -- endpoint, changes the world of the facilitator as the endpoint does and leaves that of the
  -- tools alone.
  abbrev pub IsConnected : String → Post → Type 0
  IsConnected base_url post =
      (at : Moment) (stamp : String) (req : VerifyRequest Value) (world : World R.Cache Rows Chain)
      (tools : Tools)
      → post at stamp (trim_slashes base_url <> "/verify") req (world, tools) ≡ (
        ok (verify_handler J W state R at stamp req world).0.1,
        ((verify_handler J W state R at stamp req world).1, tools),
      )

  -- The verifier of a server whose facilitator is at `base_url`.
  abbrev pub verifier_at : Post → String → Moment → String → PaymentVerifier Value Both
  verifier_at post base_url at stamp = remote_facilitator_verifier (post at stamp) base_url

  module _ (base_url : String) (post : Post) (connected : IsConnected base_url post) where
    -- The verifier accepts a request that passes the checks with a new nonce, and leaves the world
    -- of the facilitator as `/verify` left it.
    verifier_at-Passes :
        (at : Moment) (stamp : String) (payload : PaymentPayload Value Value)
        (requirements : PaymentRequirements Value) (world : World R.Cache Rows Chain)
        (tools : Tools)
        (p : Passes state at (record { payload = payload; requirements = requirements }))
        → hit state at R p.auth world.cache ≡ false
        → let req : VerifyRequest Value = record {
          payload = payload;
          requirements = requirements;
        } in
          verifier_at post base_url at stamp payload requirements (world, tools)
          ≡ (ok tt, ((verify_handler J W state R at stamp req world).1, tools))
    unfolding remote_facilitator_verifier
    verifier_at-Passes at stamp payload requirements world tools p new =
        let req : VerifyRequest Value = record { payload = payload; requirements = requirements } in
        let valid = (verify_handler_iff J W state R at stamp req world).0.1 (p, new) in
        rw (connected at stamp req world tools, valid) refl

    -- A replayed nonce is refused, and the tools are left alone.
    verifier_at-replayed :
        (at : Moment) (stamp : String) (payload : PaymentPayload Value Value)
        (requirements : PaymentRequirements Value) (world : World R.Cache Rows Chain)
        (tools : Tools) (nonce : String)
        → let req : VerifyRequest Value = record {
          payload = payload;
          requirements = requirements;
        } in
          (verify_envelope R state at req world.cache).0 ≡ err (nonce_replayed nonce)
          → let left = verifier_at post base_url at stamp payload requirements (world, tools) in
            (failure : VerifyFailure) × (left.0 ≡ err failure) × (left.1.1 ≡ tools)
    unfolding remote_facilitator_verifier
    verifier_at-replayed at stamp payload requirements world tools nonce refused =
        let req : VerifyRequest Value = record { payload = payload; requirements = requirements } in
        let answered =
          verify_handler-rejected J W state R at stamp req world (nonce_replayed nonce) refused in
        (
          rejected (rejection (some (to_facilitator_error (nonce_replayed nonce)))),
          rw (connected at stamp req world tools, answered) refl,
          rw (connected at stamp req world tools) refl,
        )

    module _ (decode_payment_header : String → Result String (PaymentPayload Value Value))
        (registry : McpToolRegistry Value Both) where
      -- A call of a tool with a header, at the time at which the facilitator handles its payment.
      abbrev pub call_at : Moment → String → String → String → Value → Both → Response Value × Both
      call_at at stamp tool text args env =
          call_tool J decode_payment_header registry (verifier_at post base_url at stamp) tool
            (some text) args env

      -- A paid call with a new nonce is answered by the tool, run in the world that `/verify` left.
      pub call_at-paid :
          (at : Moment) (stamp tool text : String) (args : Value) (world : World R.Cache Rows Chain)
          (tools : Tools) (payload : PaymentPayload Value Value)
          (requirements : PaymentRequirements Value) (rest : List (PaymentRequirements Value))
          (registered : RegisteredTool Value Both)
          → IsWellNamed registry
          → registry.accepts ≡ requirements ∷ rest
          → decode_payment_header text ≡ ok payload
          → lookup tool registry.tools ≡ some registered
          → let req : VerifyRequest Value = record {
            payload = payload;
            requirements = requirements;
          } in
            (p : Passes state at req)
            → hit state at R p.auth world.cache ≡ false
            → let verified = (verify_handler J W state R at stamp req world).1 in
              call_at at stamp tool text args (world, tools) ≡ (
                answer (invoke registry tool args (verified, tools)).0,
                (invoke registry tool args (verified, tools)).1,
              )
      call_at-paid at stamp tool text args world tools payload requirements rest registered named
            accepts_eq decoded found p new =
          let accepted = verifier_at-Passes at stamp payload requirements world tools p new in
          let run =
            call_tool-paid J decode_payment_header registry (verifier_at post base_url at stamp)
              tool (some text) args (world, tools)
              (record {
                text = text;
                payload = payload;
                requirements = requirements;
                rest = rest;
                registered = registered;
                header_eq = refl;
                decoded = decoded;
                accepts_eq = accepts_eq;
                found = found;
                verified = ap (λ a. a.0) accepted;
              })
              named in
          rw accepted at run

      -- A payment whose nonce is in the cache: 402, and the tools are left alone.
      pub call_at-replayed :
          (at : Moment) (stamp tool text : String) (args : Value) (env : Both)
          (payload : PaymentPayload Value Value) (requirements : PaymentRequirements Value)
          (rest : List (PaymentRequirements Value)) (registered : RegisteredTool Value Both)
          (nonce : String)
          → registry.accepts ≡ requirements ∷ rest
          → decode_payment_header text ≡ ok payload
          → lookup tool registry.tools ≡ some registered
          → let req : VerifyRequest Value = record {
            payload = payload;
            requirements = requirements;
          } in
            (verify_envelope R state at req env.0.cache).0 ≡ err (nonce_replayed nonce)
            → ((call_at at stamp tool text args env).0 ≡ payment_required_response J registry tool)
              × ((call_at at stamp tool text args env).1.1 ≡ env.1)
      unfolding call_tool get
      call_at-replayed at stamp tool text args env payload requirements rest registered nonce
            accepts_eq decoded found replayed =
          let (failure, refused, alone) =
            verifier_at-replayed at stamp payload requirements env.0 env.1 nonce replayed in
          (
            rw (found, accepts_eq, decoded, refused) refl,
            rw (found, accepts_eq, decoded, refused) alone,
          )
