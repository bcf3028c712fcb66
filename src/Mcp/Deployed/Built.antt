-- ===== src/Mcp/Deployed/Built.antt =====
-- From the payload that a client of crates/x402-client builds to the answer of a tool.
use x402_nockchain.Prelude.{
  ℕ, ◌+◌, ◌≤◌, ◌<◌, String, ◌≡◌, ◌⊎◌, false, true, some, Option, List, ◌∷◌, Result, ok, Dict,
  lookup, starts_with,
}
use x402_nockchain.Decimal.{parse, u64_mod, u128_mod}
use x402_nockchain.Types.Json.{Json, IsLawfulJson}
use x402_nockchain.Types.Payment.{PaymentPayload, PaymentRequirements}
use x402_nockchain.Types.Facilitator.{VerifyRequest}
use x402_nockchain.Crypto.Interface.{Encoding, Schnorr, IsLawfulSchnorr}
use x402_nockchain.Crypto.Signer.{NockchainSigner, new}
use x402_nockchain.Crypto.Verifier
use x402_nockchain.Facilitator.Scheme.{nockchain_native_asset, with_default_handlers}
use x402_nockchain.Facilitator.Replay.{ReplayCache}
use x402_nockchain.Facilitator.State.{AppState, Moment}
use x402_nockchain.Facilitator.Envelope.Laws.{Passes, hit}
use x402_nockchain.Facilitator.Bazaar.{Web}
use x402_nockchain.Facilitator.Handlers.{World, verify_handler}
use x402_nockchain.Client.{Random, signer_of, build_exact_nockchain_payload}
use x402_nockchain.Client.Laws.{build_exact_nockchain_payload-Passes}
use x402_nockchain.Mcp.Registry.{McpToolRegistry, RegisteredTool, invoke}
use x402_nockchain.Mcp.Router.{answer}
use x402_nockchain.Mcp.Laws.{IsWellNamed}
use x402_nockchain.Mcp.Deployed.{Both, Post, IsConnected, call_at, call_at-paid}

module _ (J : Json) (E : Encoding) (S : Schnorr) (LJ : IsLawfulJson J) (LS : IsLawfulSchnorr S)
    (decode_text : E.DecodeError → String)
    (verifier_text : Verifier.VerifyError J.JsonError S.SchnorrError E.DecodeError → String)
    (W : Web J.Value) {Chain Rows : Type 0} (Tools : Type 0) (state : AppState J.Value Chain Rows)
    (R : ReplayCache) (base_url : String) (post : Post J W Tools state R)
    (connected : IsConnected J W Tools state R base_url post)
    (decode_payment_header : String → Result String (PaymentPayload J.Value J.Value))
    (registry : McpToolRegistry J.Value (Both J W Tools state R)) where
  -- A client that pays is served. Let a client build a payload with a `NockchainSigner` for the
  -- first requirements of the registry, which have the scheme `exact` or `upto`, a `nockchain:`
  -- network, the native asset and a decimal 128-bit amount, at a time that plus the timeout fits
  -- 64 bits; JSON and Schnorr obey their laws, every tool is registered under its own name, the
  -- connection takes what is posted to the `/verify` of the facilitator's address to that endpoint
  -- and its answer back, and the header of the call decodes to the payload. When the facilitator
  -- has the default handlers, the call reaches it from five seconds and the tolerance before the
  -- client's time up to the timeout and the tolerance after it, and its cache has not seen the
  -- nonce, the call is answered by the tool, run on the arguments of the call, whether or not they
  -- obey its schema, in the world that `/verify` left.
  pub call_tool-Built :
      (sk : S.SecretKey) (signer : NockchainSigner E S decode_text)
      (requirements : PaymentRequirements J.Value) (rest : List (PaymentRequirements J.Value))
      (echo : Option (Dict J.Value)) (now : ℕ) (random : Random)
      (payload : PaymentPayload J.Value J.Value) (at : Moment) (amount : ℕ)
      (stamp tool text : String) (args : J.Value) (world : World R.Cache Rows Chain) (tools : Tools)
      (registered : RegisteredTool J.Value (Both J W Tools state R))
      → new E S decode_text sk ≡ ok signer
      → build_exact_nockchain_payload J requirements
          (signer_of E S decode_text signer)
          echo
          now
          random
        ≡ ok payload
      → state.scheme_registry ≡ with_default_handlers J E S verifier_text
      → (requirements.scheme ≡ "exact") ⊎ (requirements.scheme ≡ "upto")
      → starts_with requirements.network "nockchain:" ≡ true
      → requirements.asset ≡ nockchain_native_asset
      → parse u128_mod requirements.max_amount_required ≡ some amount
      → now + requirements.max_timeout_seconds < u64_mod
      → now ≤ at.now + state.clock_skew_tolerance + 5
      → at.now ≤ now + requirements.max_timeout_seconds + state.clock_skew_tolerance
      → IsWellNamed registry
      → registry.accepts ≡ requirements ∷ rest
      → decode_payment_header text ≡ ok payload
      → lookup tool registry.tools ≡ some registered
      → let req : VerifyRequest J.Value = record {
        payload = payload;
        requirements = requirements;
      } in
        ((p : Passes state at req) → hit state at R p.auth world.cache ≡ false)
        → let verified = (verify_handler J W state R at stamp req world).1 in
          call_at J W Tools state R base_url post connected decode_payment_header registry at stamp
            tool text args
            (world, tools)
          ≡ (
            answer (invoke registry tool args (verified, tools)).0,
            (invoke registry tool args (verified, tools)).1,
          )
  call_tool-Built sk signer requirements rest echo now random payload at amount stamp tool text args
        world tools registered made built handlers scheme network asset parsed fits early late named
        accepts_eq decoded found new_nonce =
      let p =
        build_exact_nockchain_payload-Passes J E S LJ LS decode_text verifier_text sk signer
          requirements echo now random payload state at amount made built handlers scheme network
          asset parsed fits early late in
      call_at-paid J W Tools state R base_url post connected decode_payment_header registry at stamp
        tool text args world tools payload requirements rest registered named accepts_eq decoded
        found p (new_nonce p)
