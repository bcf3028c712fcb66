-- ===== src/Tests/Clients.antt =====
-- The client and the tool server on concrete inputs.
use x402_nockchain.Prelude.{
  ℕ, ◌+◌, String, ◌≡◌, ◌⊎◌, inl, refl, false, none, some, lookup, insert, [], ◌∷◌, Result, ok, err,
  arith, ◌==◌, string_eq, if◌then◌else◌,
}
use x402_nockchain.Decimal.{
  parse, parse_codes, parse_digits, scan, to_text, to_text_from, digit, u128_mod,
}
use x402_nockchain.Types.Payment.{PaymentPayload, PaymentRequirements}
use x402_nockchain.Crypto.SignMessage.{
  bytes_to_belts, chunks, fill_buf, from_le_bytes, reduce, decimal_to_belt, u64_to_belt, note_belts,
  sort_notes, insert_note, base58_to_belts, compute_notes_hash, x402_sign_message_belts,
  x402_sign_message_digest,
}
use x402_nockchain.Crypto.Signer.{sign_authorization, from_identifier}
use x402_nockchain.Crypto.WireCompat.{vesl_to_x402}
use x402_nockchain.Facilitator.State
use x402_nockchain.Facilitator.State.{saturating_add}
use x402_nockchain.Facilitator.Envelope.Laws.{Passes}
use x402_nockchain.Client.{
  Random, signer_of, min_fee, authorization_for, build_exact_nockchain_payload,
}
use x402_nockchain.Client.Laws.{build_exact_nockchain_payload-Passes}
use x402_nockchain.Client.Policy.{PolicyDenied}
use x402_nockchain.Mcp.Registry.{McpToolRegistry, ToolError, register, registered_tool}
use x402_nockchain.Mcp.Verifier.{always_accept_verifier}
use x402_nockchain.Mcp.Router.{call_tool}
use x402_nockchain.Mcp.Laws.{
  IsWellNamed, IsPaidCall, is_value, register-IsWellNamed, call_tool-cases,
}
use x402_nockchain.Tests.Samples.{
  encoding, schnorr, schnorr-IsLawfulSchnorr, json, json-IsLawfulJson, Node, null, dec, enc, sum,
  ones, decode_text, signer, requirements,
}
use x402_nockchain.Tests.Crypto.{new-signer, payload}
use x402_nockchain.Tests.Facilitator.{app_state, at, verifier_text}

abbrev pub random : Random
random = record { nonce = "112"; first = "12"; last = "1112" }

pub built :
    build_exact_nockchain_payload json requirements
      (signer_of encoding schnorr decode_text signer)
      none
      100
      random
    ≡ ok payload
unfolding build_exact_nockchain_payload authorization_for min_fee saturating_add from_identifier
    sign_authorization enc x402_sign_message_digest x402_sign_message_belts base58_to_belts reduce
    decimal_to_belt u64_to_belt compute_notes_hash note_belts sort_notes insert_note bytes_to_belts
    chunks fill_buf from_le_bytes vesl_to_x402 parse parse_codes parse_digits scan to_text
    to_text_from digit dec sum ones
built = refl

pub parse_5 : parse u128_mod "5" ≡ some 5
unfolding parse parse_codes parse_digits scan
parse_5 = refl

build_exact_nockchain_payload-Passes_example :
    Passes app_state at (record { payload = payload; requirements = requirements })
unfolding State.new
build_exact_nockchain_payload-Passes_example =
    build_exact_nockchain_payload-Passes json encoding schnorr json-IsLawfulJson
      schnorr-IsLawfulSchnorr decode_text verifier_text 2 signer requirements none 100 random
      payload app_state at 5 new-signer built refl (inl refl) refl refl parse_5 (omega arith)
      (omega arith) (omega arith)

abbrev allow : PaymentRequirements Node → Result PolicyDenied (Unit {0})
allow req = ok tt

abbrev only_nock : PaymentRequirements Node → Result PolicyDenied (Unit {0})
only_nock req = if req.asset == "NOCK" then ok tt else err (record { reason = "asset" })

abbrev empty : McpToolRegistry Node ℕ
empty = record {
  resource = record { url = "/mcp"; description = none; mime_type = none };
  accepts = requirements ∷ [];
  tools = [];
}

-- A tool that counts its calls.
abbrev echo : Node → ℕ → Result ToolError Node × ℕ
echo args env = (ok args, env + 1)

abbrev registry : McpToolRegistry Node ℕ
registry = (register json empty "echo" none null none echo).1

empty-IsWellNamed : IsWellNamed empty
unfolding lookup
empty-IsWellNamed name t found = cc

register-IsWellNamed_example : IsWellNamed registry
register-IsWellNamed_example =
    register-IsWellNamed json empty "echo" none null none echo empty-IsWellNamed

registry-IsWellNamed : IsWellNamed registry
registry-IsWellNamed = register-IsWellNamed json empty "echo" none null none echo empty-IsWellNamed

abbrev read_header : String → Result String (PaymentPayload Node Node)
read_header s = if s == "paid" then ok payload else err "base64 decode"

unfoldable is_paid_call :
    IsPaidCall json read_header registry always_accept_verifier "echo" (some "paid") 0
unfolding register always_accept_verifier lookup insert
is_paid_call = record {
  text = "paid";
  payload = payload;
  requirements = requirements;
  rest = [];
  registered = registered_tool json "echo" none null none echo;
  header_eq = refl;
  decoded = refl;
  accepts_eq = refl;
  found = refl;
  verified = refl;
}

call_tool-cases_example :
    IsPaidCall json read_header registry always_accept_verifier "echo" none 0
    ⊎ ((is_value (call_tool json read_header registry always_accept_verifier "echo" none null 0).0
          ≡ false)
        × (((call_tool json read_header registry always_accept_verifier "echo" none null 0).1 ≡ 0)
            ⊎ ((payload : PaymentPayload Node Node) × (requirements : PaymentRequirements Node)
                × ((call_tool json read_header registry always_accept_verifier "echo" none null 0).1
                    ≡ (always_accept_verifier payload requirements 0).1))))
call_tool-cases_example =
    call_tool-cases json read_header registry always_accept_verifier "echo" none null 0
