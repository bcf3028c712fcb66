-- ===== src/Facilitator/Handlers/Laws.antt =====
-- What the endpoints change and answer.
use x402_nockchain.Prelude.{
  String, true, false, ◌≡◌, ◌↔◌, refl, sym, ap, ◌∙◌, none, some, Result, ok, err, Result-cases,
  Option-cases, inl, inr, ◌⊎◌,
}
use x402_nockchain.Types.Json.{Json}
use x402_nockchain.Types.Bazaar.{BazaarExtension}
use x402_nockchain.Types.Facilitator.{VerifyRequest, SettleRequest}
use x402_nockchain.Facilitator.Error.{VerifyError, to_facilitator_error}
use x402_nockchain.Facilitator.Chain.{ChainError, ChainSettle}
use x402_nockchain.Facilitator.Replay.{ReplayCache}
use x402_nockchain.Facilitator.State.{AppState, Moment}
use x402_nockchain.Facilitator.Envelope.{verify_envelope, verify_envelope_for_settle}
use x402_nockchain.Facilitator.Envelope.Laws.{
  Passes, hit, verify_envelope_iff, verify_envelope_for_settle_iff,
}
use x402_nockchain.Facilitator.Bazaar.{
  Web, bazaar_value, validate_info_against_schema, entry_of, process,
}
use x402_nockchain.Facilitator.Handlers.{World, settle_body, verify_handler, settle_handler}

module _ (J : Json) (W : Web J.Value) {Chain Rows : Type 0}
    (state : AppState J.Value Chain Rows) where
  -- The bazaar extension of a request: it is there, it reads, and its info passes its own schema.
  pub record Declares (req : VerifyRequest J.Value) (ext : BazaarExtension J.Value) : Type 0 where
    pub value : J.Value
    pub value_eq : bazaar_value J W state req.payload.extensions ≡ some value
    pub read : J.read_bazaar value ≡ ok ext
    pub valid : validate_info_against_schema J W ext ≡ ok tt

  -- Processing the bazaar extension leaves the catalog alone, unless the request has one that
  -- reads and whose info passes its own schema, and then the one change is the upsert of the row
  -- that names the resource of the requirements and the kind of the input.
  pub process-rows :
      (req : VerifyRequest J.Value) (stamp : String) (rows : Rows)
      → ((process J W state req stamp rows).1 ≡ rows)
        ⊎ ((ext : BazaarExtension J.Value) × Declares req ext
            × ((process J W state req stamp rows).1
                ≡ (state.catalog.upsert (entry_of J W req ext stamp) rows).1))
  unfolding process
  process-rows req stamp rows =
      elim (Option-cases (bazaar_value J W state req.payload.extensions)) [
        | inl e ↦ inl (rw e)
        | inr (v, e) ↦ elim (Result-cases (J.read_bazaar v)) [
          | inr (x, f) ↦ inl (rw (e, f))
          | inl (ext, f) ↦ elim (Result-cases (validate_info_against_schema J W ext)) [
            | inl (_, g) ↦
                inr (ext, record { value = v; value_eq = e; read = f; valid = g }, rw (e, f, g))
            | inr (x, g) ↦ inl (rw (e, f, g))
          ]
        ]
      ]

  module _ (R : ReplayCache) (at : Moment) where
    -- `/verify` answers `valid` exactly when the request passes every check and its nonce is new,
    -- and it never touches the chain.
    pub verify_handler_iff :
        (stamp : String) (req : VerifyRequest J.Value) (world : World R.Cache Rows Chain)
        → (((verify_handler J W state R at stamp req world).0.1.valid ≡ true)
            ↔ ((p : Passes state at req) × (hit state at R p.auth world.cache ≡ false)))
          × ((verify_handler J W state R at stamp req world).1.chain ≡ world.chain)
    unfolding verify_handler
    verify_handler_iff stamp req world =
        elim (Result-cases (verify_envelope R state at req world.cache).0) [
          | inl (_, e) ↦
              rw e ((λ _. (verify_envelope_iff state at R req world.cache).0 e, λ _. refl), refl)
          | inr (v, e) ↦ rw e (
            (λ h. cc, λ p. let k = (verify_envelope_iff state at R req world.cache).1 p in cc),
            refl,
          )
        ]

    -- When the checks of a request to `/verify` end with an error, the answer carries that error
    -- in its wire form and no extension header, and of the world only the cache may have changed,
    -- to what the checks left.
    pub verify_handler-rejected :
        (stamp : String) (req : VerifyRequest J.Value) (world : World R.Cache Rows Chain)
        (v : VerifyError)
        → (verify_envelope R state at req world.cache).0 ≡ err v
        → verify_handler J W state R at stamp req world ≡ (
          (none, record { valid = false; error = some (to_facilitator_error v) }),
          record world { cache = (verify_envelope R state at req world.cache).1 },
        )
    unfolding verify_handler
    verify_handler-rejected stamp req world v e = rw e

    -- The cache after `/verify` is the one that its checks left.
    pub verify_handler-cache :
        (stamp : String) (req : VerifyRequest J.Value) (world : World R.Cache Rows Chain)
        → (verify_handler J W state R at stamp req world).1.cache
          ≡ (verify_envelope R state at req world.cache).1
    unfolding verify_handler
    verify_handler-cache stamp req world =
        elim (Result-cases (verify_envelope R state at req world.cache).0) [
          | inl (_, e) ↦ rw e
          | inr (v, e) ↦ rw e
        ]

    settle_handler-success :
        (stamp : String) (req : SettleRequest J.Value) (world : World R.Cache Rows Chain)
        (p : Passes state at req)
        → (settle_handler J W state R at stamp req world).0.1
          ≡ settle_body J W state R (p.handler.settle state.chain req world.chain).0
    unfolding settle_handler
    settle_handler-success stamp req world p =
        rw ((verify_envelope_for_settle_iff state at R req world.cache).0.1 p, p.found)

    -- A request that passes the checks settles on the chain as the handler that was found does,
    -- and the replay cache is left alone.
    pub settle_handler-chain :
        (stamp : String) (req : SettleRequest J.Value) (world : World R.Cache Rows Chain)
        (p : Passes state at req)
        → ((settle_handler J W state R at stamp req world).1.chain
            ≡ (p.handler.settle state.chain req world.chain).1)
          × ((settle_handler J W state R at stamp req world).1.cache ≡ world.cache)
    unfolding settle_handler
    settle_handler-chain stamp req world p =
        let passed = (verify_envelope_for_settle_iff state at R req world.cache).0.1 p in
        let same = (verify_envelope_for_settle_iff state at R req world.cache).1 in
        (rw (passed, p.found), rw (passed, p.found) same)

    -- A request that fails the checks changes nothing: chain, catalog and cache are as before, and
    -- the answer carries the error in its wire form.
    pub settle_handler-rejected :
        (stamp : String) (req : SettleRequest J.Value) (world : World R.Cache Rows Chain)
        (v : VerifyError)
        → (verify_envelope_for_settle R state at req world.cache).0 ≡ err v
        → settle_handler J W state R at stamp req world ≡ (
          (
            none,
            record { success = false; transaction = none; error = some (to_facilitator_error v) },
          ),
          world,
        )
    unfolding settle_handler
    settle_handler-rejected stamp req world v e =
        let same = (verify_envelope_for_settle_iff state at R req world.cache).1 in rw (e, same)

    settle_body-ok :
        (r : Result ChainError ChainSettle)
        → ((settle_body J W state R r).success ≡ true) ↔ ((result : ChainSettle) × (r ≡ ok result))
    settle_body-ok (ok result) = (λ _. (result, refl), λ _. refl)
    settle_body-ok (err e) = (λ h. cc, λ h. cc)

    -- `/settle` answers `success` exactly when the request passes every check but that of the
    -- replay cache and the handler that was found gets a result from the chain.
    pub settle_handler_iff :
        (stamp : String) (req : SettleRequest J.Value) (world : World R.Cache Rows Chain)
        → ((settle_handler J W state R at stamp req world).0.1.success ≡ true) ↔ (
            (p : Passes state at req) × (result : ChainSettle) × ((p.handler.settle state.chain req
                world.chain).0
              ≡ ok result))
    settle_handler_iff stamp req world = (
      λ h. elim (Result-cases (verify_envelope_for_settle R state at req world.cache).0) [
        | inl (_, e) ↦
            let p = (verify_envelope_for_settle_iff state at R req world.cache).0.0 e in
            let (result, f) =
              (settle_body-ok (p.handler.settle state.chain req world.chain).0).0
                (sym (ap (λ b. b.success) (settle_handler-success stamp req world p)) ∙ h) in
            (p, result, f)
        | inr (v, e) ↦
            let r = ap (λ a. a.0.1.success) (settle_handler-rejected stamp req world v e) in cc
      ],
      λ q.
          let (p, result, e) = q in
          ap (λ b. b.success) (settle_handler-success stamp req world p)
          ∙ (settle_body-ok (p.handler.settle state.chain req world.chain).0).1 (result, e),
    )
