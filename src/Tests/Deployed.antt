-- ===== src/Tests/Deployed.antt =====
-- A tool server that verifies its payments at the facilitator, on concrete inputs.
use x402_nockchain.Prelude.{
  ℕ, ◌+◌, String, ◌≡◌, refl, inl, none, lookup, insert, [], ◌∷◌, Result, ok, err, arith, ◌==◌,
  string_eq, if◌then◌else◌,
}
use x402_nockchain.Types.Payment.{PaymentPayload}
use x402_nockchain.Facilitator.State.{Moment, new, saturating_add}
use x402_nockchain.Facilitator.Handlers.{verify_handler}
use x402_nockchain.Facilitator.Envelope.{check_time_window}
use x402_nockchain.Mcp.Registry.{McpToolRegistry, ToolError, register, invoke, registered_tool}
use x402_nockchain.Mcp.Verifier.{trim_slashes}
use x402_nockchain.Mcp.Router.{answer, payment_required_response}
use x402_nockchain.Mcp.Laws.{IsWellNamed, register-IsWellNamed}
use x402_nockchain.Mcp.Deployed
use x402_nockchain.Mcp.Deployed.{Post, IsConnected, call_at}
use x402_nockchain.Mcp.Deployed.Once.{call_tool-once}
use x402_nockchain.Mcp.Deployed.Built.{call_tool-Built}
use x402_nockchain.Tests.Samples.{
  encoding, schnorr, json-IsLawfulJson, schnorr-IsLawfulSchnorr, decode_text, signer, json, Node,
  null, requirements, replay_cache, replay_cache-IsLawfulReplayCache,
}
use x402_nockchain.Tests.Crypto.{new-signer, payload}
use x402_nockchain.Tests.Facilitator.{verifier_text, app_state, at, request, passes}
use x402_nockchain.Tests.Clients.{built, random, parse_5}
use x402_nockchain.Tests.Endpoints.{web, world}
use x402_nockchain.Tests.Server.{passes_at}

abbrev Both : Type 0
Both = Deployed.Both json web ℕ app_state replay_cache

abbrev post : Post json web ℕ app_state replay_cache
post moment stamp url req (left, tools) =
    let ((headers, response), left') =
      verify_handler json web app_state replay_cache moment stamp req left in
    if url == "http://facilitator/verify"
    then (ok response, (left', tools))
    else (err "connection refused", (left, tools))

post-IsConnected : IsConnected json web ℕ app_state replay_cache "http://facilitator//" post
unfolding trim_slashes
post-IsConnected moment stamp req left tools = refl

-- A tool that counts its calls.
abbrev counter : Node → Both → Result ToolError Node × Both
counter args (left, count) = (ok args, (left, count + 1))

abbrev empty : McpToolRegistry Node Both
empty = record {
  resource = record { url = "/mcp"; description = none; mime_type = none };
  accepts = requirements ∷ [];
  tools = [];
}

abbrev registry : McpToolRegistry Node Both
registry = (register json empty "echo" none null none counter).1

empty-IsWellNamed : IsWellNamed empty
unfolding lookup
empty-IsWellNamed name t found = cc

registry-IsWellNamed : IsWellNamed registry
registry-IsWellNamed =
    register-IsWellNamed json empty "echo" none null none counter empty-IsWellNamed

abbrev read_header : String → Result String (PaymentPayload Node Node)
read_header s = if s == "paid" then ok payload else err "base64 decode"

abbrev moment_soon : Moment
moment_soon = record { now = 230; instant = 1899 }

call_tool-once_example :
    let first =
      call_at json web ℕ app_state replay_cache "http://facilitator//" post post-IsConnected
        read_header registry at "now" "echo" "paid" null
        (world, 0) in
    let verified = (verify_handler json web app_state replay_cache at "now" request world).1 in
    let again =
      call_at json web ℕ app_state replay_cache "http://facilitator//" post post-IsConnected
        read_header registry moment_soon "later" "echo" "paid" null first.1 in
    (first ≡ (
      answer (invoke registry "echo" null (verified, 0)).0,
      (invoke registry "echo" null (verified, 0)).1,
    ))
    × (again.0 ≡ payment_required_response json registry "echo")
    × (again.1.1 ≡ first.1.1)
unfolding passes_at passes new check_time_window saturating_add register lookup insert
call_tool-once_example =
    call_tool-once json web ℕ app_state replay_cache "http://facilitator//" post post-IsConnected
      replay_cache-IsLawfulReplayCache read_header registry at moment_soon "now" "later" "echo"
      "echo" "paid" null null world 0 payload requirements []
      (registered_tool json "echo" none null none counter)
      (registered_tool json "echo" none null none counter) registry-IsWellNamed refl refl refl refl
      (λ args env. refl) passes (passes_at moment_soon refl) refl (omega arith) (omega arith)

call_tool-Built_example :
    let verified = (verify_handler json web app_state replay_cache at "now" request world).1 in
    call_at json web ℕ app_state replay_cache "http://facilitator//" post post-IsConnected
      read_header registry at "now" "echo" "paid" null
      (world, 0)
    ≡ (
      answer (invoke registry "echo" null (verified, 0)).0,
      (invoke registry "echo" null (verified, 0)).1,
    )
unfolding new register lookup insert
call_tool-Built_example =
    call_tool-Built json encoding schnorr json-IsLawfulJson schnorr-IsLawfulSchnorr decode_text
      verifier_text web ℕ app_state replay_cache "http://facilitator//" post post-IsConnected
      read_header registry 2 signer requirements [] none 100 random payload at 5 "now" "echo" "paid"
      null world 0 (registered_tool json "echo" none null none counter) new-signer built refl
      (inl refl) refl refl parse_5 (omega arith) (omega arith) (omega arith) registry-IsWellNamed
      refl refl refl (λ p. refl)
