-- ===== src/Facilitator/Handlers/Listed.antt =====
-- A resource that is declared and paid for is found by its seekers.
use x402_nockchain.Prelude.{
  ℕ, ◌*◌, ◌≤◌, ◌≡◌, refl, Bool, true, false, String, Option, none, some, OnSome, OnSome-map, List,
  [], ◌∷◌, Among, Among-filter, ok, Bool-cases, inl, inr, ◌==◌, string_eq, eq_iff, arith, length,
}
use x402_nockchain.Types.Json.{Json}
use x402_nockchain.Types.Payment.{success}
use x402_nockchain.Types.Bazaar.{BazaarExtension, DiscoveryResource, ListDiscoveryResourcesParams}
use x402_nockchain.Types.Facilitator.{VerifyRequest}
use x402_nockchain.Facilitator.Replay.{ReplayCache}
use x402_nockchain.Facilitator.State.{AppState, Moment}
use x402_nockchain.Facilitator.Catalog.Memory.{
  Rows, put, same_key, filtered, retain_by, accepts_has_network, accepts_has_scheme,
  in_memory_catalog_store,
}
use x402_nockchain.Facilitator.Envelope.Laws.{Passes, hit, verify_envelope_iff}
use x402_nockchain.Facilitator.Bazaar.{Web, process, entry_of, header_of, discriminate_kind}
use x402_nockchain.Facilitator.Handlers.{World, verify_handler}
use x402_nockchain.Facilitator.Handlers.Laws.{Declares}
use x402_nockchain.Facilitator.Handlers.Discovery.{in_memory, pages, pages-drop}

module _ {Value : Type 0} where
  Among-put : (s : DiscoveryResource Value) (rows : Rows Value) → Among s (put s rows)
  unfolding put
  Among-put s [] = inl refl
  Among-put s (r ∷ rows) = elim (Bool-cases (same_key r s)) [
    | inl b ↦ rw b (inl refl)
    | inr b ↦ rw b (inr (Among-put s rows))
  ]

  Among-retain_by :
      (o : Option String) (test : String → DiscoveryResource Value → Bool)
      (row : DiscoveryResource Value) (rows : Rows Value)
      → OnSome (λ s. test s row ≡ true) o
      → Among row rows
      → Among row (retain_by o test rows)
  Among-retain_by none test row rows e m = m
  Among-retain_by (some s) test row rows e m = Among-filter (test s) row rows e m

module _ (J : Json) (W : Web J.Value) {Chain : Type 0}
    (other : AppState J.Value Chain (Rows J.Value)) where
  abbrev pub state : AppState J.Value Chain (Rows J.Value)
  state = in_memory J W other

  -- A search by what a request declares: each filter that is there names its kind, its network or
  -- its scheme.
  pub record Seeks (params : ListDiscoveryResourcesParams) (req : VerifyRequest J.Value)
      (ext : BazaarExtension J.Value) : Type 0 where
    pub kind : OnSome (λ k. discriminate_kind ext.info.input ≡ k) params.kind
    pub network : OnSome (λ n. req.requirements.network ≡ n) params.network
    pub scheme : OnSome (λ s. req.requirements.scheme ≡ s) params.scheme

  entry_of-filtered :
      (params : ListDiscoveryResourcesParams) (req : VerifyRequest J.Value)
      (ext : BazaarExtension J.Value) (stamp : String) (rows : Rows J.Value)
      → Seeks params req ext
      → Among (entry_of J W req ext stamp) rows
      → Among (entry_of J W req ext stamp) (filtered params rows)
  unfolding filtered accepts_has_network accepts_has_scheme entry_of
  entry_of-filtered params req ext stamp rows seeks m =
      let entry = entry_of J W req ext stamp in
      let of_kind =
        Among-retain_by params.kind (λ k r. r.kind == k) entry rows
          (OnSome-map params.kind (λ k same. (eq_iff _ _).1 same) seeks.kind) m in
      let of_network =
        Among-retain_by params.network (λ n r. accepts_has_network r.accepts n) entry _
          (OnSome-map params.network (λ n same. let e = (eq_iff _ _).1 same in rw e refl)
            seeks.network)
          of_kind in
      Among-retain_by params.scheme (λ s r. accepts_has_scheme r.accepts s) entry _
        (OnSome-map params.scheme (λ s same. let e = (eq_iff _ _).1 same in rw e refl) seeks.scheme)
        of_network

  -- A declared extension is put in the catalog.
  pub process-Declares :
      (req : VerifyRequest J.Value) (ext : BazaarExtension J.Value) (stamp : String)
      (rows : Rows J.Value)
      → Declares J W state req ext
      → process J W state req stamp rows ≡ (
        some (record { status = success; rejected_reason = none }),
        put (entry_of J W req ext stamp) rows,
      )
  unfolding process in_memory_catalog_store
  process-Declares req ext stamp rows d = rw (d.value_eq, d.read, d.valid) refl

  abbrev pub header : Option W.HeaderValue
  header = header_of J W state (some (record { status = success; rejected_reason = none }))

  pub verify_handler-put :
      (R : ReplayCache) (at : Moment) (stamp : String) (req : VerifyRequest J.Value)
      (world : World R.Cache (Rows J.Value) Chain) (ext : BazaarExtension J.Value)
      (p : Passes state at req)
      → hit state at R p.auth world.cache ≡ false
      → Declares J W state req ext
      → ((verify_handler J W state R at stamp req world).0
          ≡ (header, record { valid = true; error = none }))
        × ((verify_handler J W state R at stamp req world).1.rows
            ≡ put (entry_of J W req ext stamp) world.rows)
  unfolding verify_handler
  verify_handler-put R at stamp req world ext p new declares =
      let passed = (verify_envelope_iff state at R req world.cache).1 (p, new) in
      let done = process-Declares req ext stamp world.rows declares in
      rw (passed, done) (refl, refl)

  -- With the catalog in memory: when `/verify` handles a request that passes every check, whose
  -- nonce is new and which declares a bazaar extension that passes its own schema, it answers
  -- `valid` with the header of a success; and from then on a search by what the request declares
  -- that asks for enough pages is refused none and finds the resource, with the kind of the
  -- extension and the requirements that were paid.
  pub verify_handler-listed :
      (R : ReplayCache) (at : Moment) (stamp : String) (req : VerifyRequest J.Value)
      (world : World R.Cache (Rows J.Value) Chain) (ext : BazaarExtension J.Value)
      (params : ListDiscoveryResourcesParams) (l n : ℕ) (p : Passes state at req)
      → hit state at R p.auth world.cache ≡ false
      → Declares J W state req ext
      → Seeks params req ext
      → length (filtered params (verify_handler J W state R at stamp req world).1.rows) ≤ n * l
      → let (answer, after) = verify_handler J W state R at stamp req world in
        (answer ≡ (header, record { valid = true; error = none }))
        × ((items : List (DiscoveryResource J.Value)) × (pages J W other params l n 0 after.rows
              ≡ ok items)
            × Among (entry_of J W req ext stamp) items)
  verify_handler-listed R at stamp req world ext params l n p new declares seeks enough =
      let (answer, after) = verify_handler J W state R at stamp req world in
      let (answer_eq, rows_eq) = verify_handler-put R at stamp req world ext p new declares in
      let there : Among (entry_of J W req ext stamp) after.rows =
        rw rows_eq (Among-put (entry_of J W req ext stamp) world.rows) in
      (
        answer_eq,
        (
          filtered params after.rows,
          pages-drop J W other params l n 0 after.rows (omega (arith, enough)),
          entry_of-filtered params req ext stamp after.rows seeks there,
        ),
      )
