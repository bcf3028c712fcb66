-- ===== src/Tests/Advertised.antt =====
-- What the advertiser declares, from its schema to the catalog.
use x402_nockchain.Prelude.{
  ◌≡◌, refl, true, false, Result, Option, none, some, List, [], ◌∷◌, Among, ok, err, arith, lookup,
  length, ◌≤◌, String, Bool, ◌*◌,
}
use x402_nockchain.Types.Payment.{success}
use x402_nockchain.Types.Bazaar.{
  DiscoveryResource, get, DiscoveryInput, DiscoveryOutput, http, mcp, query, body, BazaarExtension,
  ListDiscoveryResourcesParams,
}
use x402_nockchain.Types.Written.{
  query_method_text, optional, info_value, input_value, output_value, WritesInfo,
}
use x402_nockchain.Facilitator.State.{new, saturating_add}
use x402_nockchain.Facilitator.Catalog.Memory.{filtered, put, accepts_has_scheme}
use x402_nockchain.Facilitator.Envelope.Laws.{Passes}
use x402_nockchain.Facilitator.Bazaar.{
  validate_info_against_schema, entry_of, header_of, discriminate_kind,
}
use x402_nockchain.Facilitator.Handlers.{verify_handler}
use x402_nockchain.Facilitator.Handlers.Laws.{Declares}
use x402_nockchain.Facilitator.Handlers.Listed.{verify_handler-put}
use x402_nockchain.Facilitator.Handlers.Discovery.{in_memory, pages}
use x402_nockchain.Facilitator.Scheme.{
  register, handler_for, with_default_handlers, exact_nockchain_handler, upto_nockchain_handler,
  extract_nockchain, verify_nockchain,
}
use x402_nockchain.Crypto.Verifier.{verify_payment}
use x402_nockchain.Facilitator.Envelope.{check_time_window}
use x402_nockchain.Advertiser.{
  build_query_schema, build_mcp_schema, declare_http_query, declare_mcp,
}
use x402_nockchain.Advertiser.Accepted.{
  IsDeclared, by_query, by_mcp, validate_info_against_schema-IsDeclared, pages-IsDeclared,
}
use x402_nockchain.Tests.Samples.{
  json, plain, Node, null, flag, text, table, last, tool_extension, replay_cache,
}
use x402_nockchain.Tests.Validator.{is_schema, conforms, validating_web}
use x402_nockchain.Tests.Accepting.{validating_web-AcceptsConforming}
use x402_nockchain.Tests.Facilitator.{app_state, at, passes}
use x402_nockchain.Tests.Endpoints.{world, listed}

same_input : (input : DiscoveryInput Node) → input_value plain input ≡ input_value json input
unfolding input_value
same_input (http (query q)) = refl
same_input (http (body b)) = refl
same_input (mcp m) = refl

same_output :
    (output : Option (DiscoveryOutput Node))
    → optional plain "output" (output_value plain) output
      ≡ optional json "output" (output_value json) output
unfolding output_value
same_output none = refl
same_output (some o) = refl

json-WritesInfo : WritesInfo json
unfolding info_value
json-WritesInfo info = rw (same_input info.input, same_output info.output) refl

abbrev weather : BazaarExtension Node
weather = declare_http_query json get (some (("city", text "Oslo") ∷ [])) none none

validate_info_against_schema-IsDeclared_example :
    validate_info_against_schema json validating_web weather ≡ ok tt
validate_info_against_schema-IsDeclared_example =
    validate_info_against_schema-IsDeclared json validating_web json-WritesInfo
      validating_web-AcceptsConforming weather
      (by_query get (some (("city", text "Oslo") ∷ [])) none (("Oslo", refl), tt) refl)

abbrev is_refused : Result String (Unit {0}) → Bool
is_refused (ok _) = false
is_refused (err e) = true

-- The validator refuses an example parameter that is not a text, and headers.
refused_flag :
    is_refused (
      validate_info_against_schema json validating_web
        (declare_http_query json get (some (("city", flag true) ∷ [])) none none))
    ≡ true
unfolding validate_info_against_schema declare_http_query build_query_schema is_schema conforms
    info_value input_value query_method_text
refused_flag = refl

refused_headers :
    is_refused (
      validate_info_against_schema json validating_web
        (declare_http_query json get none (some (("accept", "text/html") ∷ [])) none))
    ≡ true
unfolding validate_info_against_schema declare_http_query build_query_schema is_schema conforms
    info_value input_value query_method_text
refused_headers = refl

listed_passes : Passes (in_memory json validating_web app_state) at listed
unfolding new handler_for with_default_handlers register exact_nockchain_handler
    upto_nockchain_handler extract_nockchain check_time_window saturating_add passes
    verify_nockchain verify_payment
listed_passes = record {
  handler = passes.handler;
  auth = passes.auth;
  version = refl;
  scheme = refl;
  network = refl;
  found = passes.found;
  extracted = passes.extracted;
  window = refl;
  verified = passes.verified;
}

tool_extension-IsDeclared : IsDeclared json tool_extension
unfolding declare_mcp build_mcp_schema
tool_extension-IsDeclared = by_mcp "echo" none (table last) none none none ([], refl) tt

abbrev tools : ListDiscoveryResourcesParams
tools = record {
  kind = some "mcp";
  limit = none;
  offset = none;
  network = none;
  scheme = some "exact";
}

carried :
    Declares json validating_web (in_memory json validating_web app_state) listed tool_extension
unfolding lookup
carried = record {
  value = null;
  value_eq = refl;
  read = refl;
  valid =
      validate_info_against_schema-IsDeclared json validating_web json-WritesInfo
        validating_web-AcceptsConforming tool_extension tool_extension-IsDeclared;
}

one_page :
    length (
      filtered tools
        (verify_handler json validating_web
          (in_memory json validating_web app_state)
          replay_cache
          at
          "now"
          listed
          world).1.rows)
    ≤ 1 * 10
unfolding put filtered accepts_has_scheme entry_of discriminate_kind listed_passes passes
    declare_mcp
one_page =
    let (_, rows) =
      verify_handler-put json validating_web app_state replay_cache at "now" listed world
        tool_extension listed_passes refl carried in
    rw rows (omega arith)

pages-IsDeclared_example :
    let (answer, after) =
      verify_handler json validating_web
        (in_memory json validating_web app_state)
        replay_cache
        at
        "now"
        listed
        world in
    (answer ≡ (
      header_of json validating_web
          (in_memory json validating_web app_state)
          (some (record { status = success; rejected_reason = none })),
      record { valid = true; error = none },
    ))
    × ((items : List (DiscoveryResource Node)) × (pages json validating_web app_state tools 10 1 0
            after.rows
          ≡ ok items)
        × Among (entry_of json validating_web listed tool_extension "now") items)
unfolding lookup discriminate_kind listed_passes passes declare_mcp
pages-IsDeclared_example =
    pages-IsDeclared json validating_web json-WritesInfo validating_web-AcceptsConforming app_state
      replay_cache at "now" listed world tool_extension null tools 10 1 listed_passes
      tool_extension-IsDeclared refl refl refl (record { kind = refl; network = tt; scheme = refl })
      one_page
