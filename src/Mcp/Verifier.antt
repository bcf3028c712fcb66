-- ===== src/Mcp/Verifier.antt =====
-- crates/x402-mcp/src/verifier.rs. `Env` is what a verifier reads and changes outside the program;
-- the HTTP request is a parameter.
use Prim.Native.Char.{code}
use x402_nockchain.Prelude.{
  ◌&&◌, ◌==◌, string_eq, nat_eq, String, ◌<>◌, Option, none, some, Result, ok, err, if◌then◌else◌,
}
use x402_nockchain.Types.Payment.{PaymentRequirements, PaymentPayload}
use x402_nockchain.Types.Facilitator.{VerifyRequest, VerifyResponse, FacilitatorError}

pub data VerifyFailure : Type 0 where
  rejected transport : String → VerifyFailure

-- The trait `PaymentVerifier`.
abbrev pub PaymentVerifier : Type 0 → Type 0 → Type 0
PaymentVerifier Value Env =
    PaymentPayload Value Value
    → PaymentRequirements Value
    → Env
    → Result VerifyFailure (Unit {0}) × Env

unfoldable pub always_accept_verifier : {Value Env : Type 0} → PaymentVerifier Value Env
always_accept_verifier payload requirements env = (ok tt, env)

-- The reading of the response in `RemoteFacilitatorVerifier`.
abbrev pub rejection : Option FacilitatorError → String
rejection none = "verifier returned valid=false with no error"
rejection (some e) = e.code <> ": " <> e.message

abbrev verdict : Result String VerifyResponse → Result VerifyFailure (Unit {0})
verdict (err e) = err (transport e)
verdict (ok resp) = if resp.valid then ok tt else err (rejected (rejection resp.error))

-- `trim_end_matches('/')`
unfoldable pub trim_slashes : String → String
trim_slashes String.[] = ""
trim_slashes (String.◌∷◌ c s) =
    let rest = trim_slashes s in if rest == "" && code c == b'/' then "" else (String.◌∷◌ c rest)

module _ {Value Env : Type 0} where
  -- `post` sends the request to a URL and reads the response.
  unfoldable pub remote_facilitator_verifier :
      (String → VerifyRequest Value → Env → Result String VerifyResponse × Env)
      → String
      → PaymentVerifier Value Env
  remote_facilitator_verifier post base_url payload requirements env =
      let url = trim_slashes base_url <> "/verify" in
      let (resp, env') = post url (record { payload = payload; requirements = requirements }) env in
      (verdict resp, env')
