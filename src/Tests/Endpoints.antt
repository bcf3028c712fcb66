-- ===== src/Tests/Endpoints.antt =====
-- The handlers of the endpoints, the catalog, the registry and the clock on concrete inputs.
use x402_nockchain.Prelude.{
  if◌then◌else◌, ◌==◌, ◌&&◌, string_eq, ℕ, ◌-◌, ◌^◌, String, ◌≡◌, ◌⊎◌, refl, true, none, some,
  Option, List, [], ◌∷◌, ok, err, arith, Result, ◌+◌,
}
use x402_nockchain.Types.Bazaar.{DiscoveryResource, ListDiscoveryResourcesParams}
use x402_nockchain.Types.Facilitator.{VerifyRequest}
use x402_nockchain.Facilitator.Clock.{now, advance, frozen_at, set, now-advance_back}
use x402_nockchain.Facilitator.Chain.{stub_chain_client, stub_tx_id, broadcast}
use x402_nockchain.Facilitator.Scheme.{
  SchemeHandler, register, handler_for, with_default_handlers, exact_nockchain_handler,
  upto_nockchain_handler,
}
use x402_nockchain.Facilitator.State.{new}
use x402_nockchain.Facilitator.Catalog.Memory.{Rows, filtered, list_rows, in_memory_catalog_store}
use x402_nockchain.Facilitator.Bazaar.{Web}
use x402_nockchain.Facilitator.Handlers.{World, list_resources, verify_handler, settle_handler}
use x402_nockchain.Facilitator.Handlers.Discovery.{pages, pages-drop}
use x402_nockchain.Facilitator.Handlers.Laws.{verify_handler_iff, settle_handler_iff}
use x402_nockchain.Facilitator.Siwn.{SiwnGate, SiwnHeader, visible, unauthorized, require_siwn}
use x402_nockchain.Facilitator.Router.{
  Call, discovery_call, listed as listed_answer, router, router_with_siwn,
}
use x402_nockchain.Facilitator.Router.Laws.{PassesBy, IsLetIn, IsTurnedAway, router_with_siwn-cases}
use x402_nockchain.Tests.Samples.{encoding, schnorr, json, Node, null, replay_cache}
use x402_nockchain.Tests.Facilitator.{app_state, at, request, passes, verifier_text}

abbrev pub web : Web Node
web = record {
  Compiled = Unit {0};
  HeaderValue = String;
  compile = λ v. ok tt;
  validate = λ c v. ok tt;
  header_text = λ r. some "{}";
  base64 = λ s. s;
  header_value = λ s. some s;
}

abbrev pub world : World (List (String × ℕ)) (Rows Node) ℕ
world = record { cache = []; rows = []; chain = 0 }

-- The request with the bazaar extension of a tool.
abbrev pub listed : VerifyRequest Node
listed = record request {
  payload = record request.payload { extensions = some (("bazaar", null) ∷ []) };
}

-- The request with another version.
abbrev old : VerifyRequest Node
old = record request { payload = record request.payload { x402_version = 1 } }

verify_handler_iff_example :
    (verify_handler json web app_state replay_cache at "now" request world).0.1.valid ≡ true
verify_handler_iff_example =
    (verify_handler_iff json web app_state replay_cache at "now" request world).0.1 (passes, refl)

settle_handler_iff_example :
    (settle_handler json web app_state replay_cache at "now" request world).0.1.success ≡ true
unfolding passes new stub_chain_client exact_nockchain_handler stub_tx_id
settle_handler_iff_example =
    (settle_handler_iff json web app_state replay_cache at "now" request world).1 (
      passes,
      record { tx_id = "stub-tx-unknown-nonce"; block_height = none; status = broadcast },
      refl,
    )

now-advance_back_example : now (advance (set (frozen_at 0) 100) (2 ^ 64 - 30)) ≡ 70
now-advance_back_example = now-advance_back (frozen_at 0) 100 30 (omega arith) (omega arith)

abbrev upto_handler : SchemeHandler Node ℕ
upto_handler = upto_nockchain_handler json encoding schnorr verifier_text

found_upto :
    handler_for (with_default_handlers json encoding schnorr verifier_text) "upto" "nockchain:main"
    ≡ some upto_handler
unfolding handler_for with_default_handlers register upto_nockchain_handler exact_nockchain_handler
found_upto = refl

abbrev row : String → String → DiscoveryResource Node
row resource updated = record {
  resource = resource;
  kind = "mcp";
  x402_version = 2;
  accepts = [];
  last_updated = updated;
  metadata = none;
}

abbrev all_kinds : ListDiscoveryResourcesParams
all_kinds = record { kind = some "mcp"; limit = none; offset = none; network = none; scheme = none }

abbrev three_rows : Rows Node
three_rows = row "/a" "1" ∷ row "/b" "1" ∷ row "/c" "1" ∷ []

pages-drop_example : pages json web app_state all_kinds 2 2 0 three_rows ≡ ok three_rows
unfolding filtered
pages-drop_example = pages-drop json web app_state all_kinds 2 2 0 three_rows (omega arith)

-- A verification that accepts one header for one domain and counts its calls.
abbrev check_header : String → String → ℕ → ℕ → Result String String × ℕ
check_header text domain now cache =
    (if text == "me" && domain == "example.org" then ok "payer" else err "no", cache + 1)

abbrev listing : String → ℕ → String × ℕ
listing identity count = (identity, count + 1)

abbrev gate : SiwnGate
gate = record { expected_domain = "example.org" }

abbrev discovery : Call Node
discovery = discovery_call all_kinds

abbrev me : Option SiwnHeader
me = some (visible "me")

router_with_siwn-cases_example :
    PassesBy json web app_state replay_cache at "now" check_header
      (λ e. e)
      gate
      me
      discovery
      0
      world
    ⊎ (IsLetIn json web app_state replay_cache at "now" check_header
          (λ e. e)
          gate
          me
          discovery
          0
          world
        ⊎ IsTurnedAway json web app_state replay_cache at "now" check_header
            (λ e. e)
            gate
            me
            discovery
            0
            world)
router_with_siwn-cases_example =
    router_with_siwn-cases json web app_state replay_cache at "now" check_header (λ e. e) gate me
      discovery 0 world

let_in :
    (router_with_siwn json web app_state replay_cache at "now" check_header
      (λ e. e)
      gate
      me
      discovery
      0
      world).0
    ≡ listed_answer (record {
      x402_version = 2;
      items = [];
      pagination = record { limit = 50; offset = 0; total = 0 };
    })
unfolding router_with_siwn router require_siwn list_resources in_memory_catalog_store list_rows
    filtered new
let_in = refl

turned_away :
    (require_siwn check_header (λ e. e) listing gate (some (visible "you")) 5 0 7).0
    ≡ unauthorized "SIWN rejected: no"
unfolding require_siwn
turned_away = refl
