-- ===== src/Mcp/Deployed/Once.antt =====
-- A payment pays for one call of a tool.
use x402_nockchain.Prelude.{
  ◌+◌, ◌≤◌, ◌<◌, String, ◌≡◌, ap, ◌∙◌, true, false, some, List, ◌∷◌, Result, ok, lookup, string_eq,
}
use x402_nockchain.Types.Json.{Json}
use x402_nockchain.Types.Payment.{PaymentPayload, PaymentRequirements}
use x402_nockchain.Types.Facilitator.{VerifyRequest}
use x402_nockchain.Facilitator.Replay.{ReplayCache, IsLawfulReplayCache}
use x402_nockchain.Facilitator.State.{AppState, Moment}
use x402_nockchain.Facilitator.Envelope.Laws.{
  Passes, Passes-auth, hit, verify_envelope_iff, before_replay-ok_of_Passes,
}
use x402_nockchain.Facilitator.Envelope.NoReplay.{
  nonce_key, verify_envelope-live, verify_envelope-replayed,
}
use x402_nockchain.Facilitator.Bazaar.{Web}
use x402_nockchain.Facilitator.Handlers.{World, verify_handler}
use x402_nockchain.Facilitator.Handlers.Laws.{verify_handler-cache}
use x402_nockchain.Mcp.Registry.{McpToolRegistry, RegisteredTool, invoke}
use x402_nockchain.Mcp.Router.{Response, answer, payment_required_response}
use x402_nockchain.Mcp.Laws.{IsWellNamed}
use x402_nockchain.Mcp.Deployed.{Both, Post, IsConnected, call_at, call_at-paid, call_at-replayed}

module _ (J : Json) (W : Web J.Value) {Chain Rows : Type 0} (Tools : Type 0)
    (state : AppState J.Value Chain Rows) (R : ReplayCache) (base_url : String)
    (post : Post J W Tools state R) (connected : IsConnected J W Tools state R base_url post)
    (L : IsLawfulReplayCache R)
    (decode_payment_header : String → Result String (PaymentPayload J.Value J.Value))
    (registry : McpToolRegistry J.Value (Both J W Tools state R)) where
  -- A call of a tool of this server.
  abbrev call :
      Moment
      → String
      → String
      → String
      → J.Value
      → Both J W Tools state R
      → Response J.Value × Both J W Tools state R
  call = call_at J W Tools state R base_url post connected decode_payment_header registry

  -- What a tool that keeps the world of the facilitator leaves of it.
  invoke-world :
      (tool : String) (args : J.Value) (env : Both J W Tools state R)
      (registered : RegisteredTool J.Value (Both J W Tools state R))
      → lookup tool registry.tools ≡ some registered
      → ((args : J.Value) (env : Both J W Tools state R)
          → (registered.handler args env).1.0 ≡ env.0)
      → (invoke registry tool args env).1.0 ≡ env.0
  unfolding invoke
  invoke-world tool args env registered found keeps = rw found (keeps args env)

  -- Within the time to live a payment pays for one call. Let every tool be registered under its
  -- own name, the connection take what is posted to the `/verify` of the facilitator's address to
  -- that endpoint and its answer back, and the tool of the first call leave the world of the
  -- facilitator alone. Let a header decode to a payload that, with the first requirements, passes
  -- the checks of the facilitator at two moments, the second one less than the time to live after
  -- the first, with a nonce that the cache, which obeys its laws, has not seen at the first. Then a
  -- call of that tool with the header at the first moment is answered by the tool, run on the
  -- arguments of the call, whether or not they obey its schema, in the world that `/verify` left,
  -- as the value of the tool or its error with the status 500. A call of any registered tool with
  -- the same header at the second moment, on what the first call left, is answered by 402 (or by
  -- 404, when the body of the 402 cannot be built), and what belongs to the tools stays as the
  -- first call left it.
  pub call_tool-once :
      (at later : Moment) (stamp stamp' tool other text : String) (args args' : J.Value)
      (world : World R.Cache Rows Chain) (tools : Tools) (payload : PaymentPayload J.Value J.Value)
      (requirements : PaymentRequirements J.Value) (rest : List (PaymentRequirements J.Value))
      (registered registered' : RegisteredTool J.Value (Both J W Tools state R))
      → IsWellNamed registry
      → registry.accepts ≡ requirements ∷ rest
      → decode_payment_header text ≡ ok payload
      → lookup tool registry.tools ≡ some registered
      → lookup other registry.tools ≡ some registered'
      → ((args : J.Value) (env : Both J W Tools state R)
          → (registered.handler args env).1.0 ≡ env.0)
      → let req : VerifyRequest J.Value = record {
        payload = payload;
        requirements = requirements;
      } in
        (p : Passes state at req)
        → Passes state later req
        → hit state at R p.auth world.cache ≡ false
        → at.instant ≤ later.instant
        → later.instant < at.instant + state.replay_ttl
        → let first = call at stamp tool text args (world, tools) in
          let verified = (verify_handler J W state R at stamp req world).1 in
          let again = call later stamp' other text args' first.1 in
          (first ≡ (
            answer (invoke registry tool args (verified, tools)).0,
            (invoke registry tool args (verified, tools)).1,
          ))
          × (again.0 ≡ payment_required_response J registry other)
          × (again.1.1 ≡ first.1.1)
  call_tool-once at later stamp stamp' tool other text args args' world tools payload requirements
        rest registered registered' named accepts_eq decoded found found' keeps p q new le lt =
      let req : VerifyRequest J.Value = record { payload = payload; requirements = requirements } in
      let verified = (verify_handler J W state R at stamp req world).1 in
      let paid =
        call_at-paid J W Tools state R base_url post connected decode_payment_header registry at
          stamp tool text args world tools payload requirements rest registered named accepts_eq
          decoded found p new in
      let kept : (call at stamp tool text args (world, tools)).1.0 ≡ verified =
        ap (λ a. a.1.0) paid ∙ invoke-world tool args (verified, tools) registered found keeps in
      let checked = (verify_envelope_iff state at R req world.cache).1 (p, new) in
      let live =
        verify_envelope-live R state L at req world.cache later.instant p.handler p.auth
          (before_replay-ok_of_Passes state at req p) (λ replayed. cc) le lt in
      let cache = verify_handler-cache J W state R at stamp req world in
      let live' : L.is_live (nonce_key R state q.auth) later.instant
            (call at stamp tool text args (world, tools)).1.0.cache
          ≡ true =
        rw (kept, cache, Passes-auth state later at req q p) live in
      let replayed =
        verify_envelope-replayed R state L later req
          (call at stamp tool text args (world, tools)).1.0.cache q.handler q.auth
          (before_replay-ok_of_Passes state later req q) live' in
      let (refused, alone) =
        call_at-replayed J W Tools state R base_url post connected decode_payment_header registry
          later stamp' other text args' (call at stamp tool text args (world, tools)).1 payload
          requirements rest registered' q.auth.nonce accepts_eq decoded found' replayed in
      (paid, refused, alone)
