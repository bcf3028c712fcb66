-- ===== src/Client/Http.antt =====
-- crates/x402-client/src/lib.rs: BazaarClient, X402Client and the header codecs. The network is a
-- state that each request may change; a response body is read by the codecs of serde_json.
pub mod Url
pub mod Requests
use Prim.Native.Char.{code}
use x402_nockchain.Prelude.{
  ℕ, zero, suc, ◌/◌, ◌%◌, String, ◌<>◌, Bool, true, false, ◌&&◌, ◌||◌, not, Option, none, some,
  List, [], ◌∷◌, ◌++◌, Result, ok, err, guard, ok_or, map_err, Dict, lookup, leb, ltb, ◌==◌, nat_eq,
  if◌then◌else◌,
}
use x402_nockchain.Prelude.Actions.{Act, ◌>>=◌, ◌>>◌, lift}
use x402_nockchain.Decimal.{to_text}
use x402_nockchain.Types.Json.{Json}
use x402_nockchain.Types.Payment.{
  PaymentRequired, PaymentRequirements, PaymentPayload, ExtensionResponsesHeader,
}
use x402_nockchain.Types.Facilitator.{VerifyRequest, VerifyResponse, FacilitatorError}
use x402_nockchain.Types.Bazaar.{ListDiscoveryResourcesParams, DiscoveryResourcesResponse}
use x402_nockchain.Mcp.Verifier.{trim_slashes}
use x402_nockchain.Client.{Signer, Random, build_exact_nockchain_payload}
use x402_nockchain.Client.Http.Url.{list_resources_url}

pub data Method : Type 0 where
  get post : Method

pub record Request (Value : Type 0) : Type 0 where
  pub method : Method
  pub url : String
  pub headers : List (String × String)
  pub body : Option (VerifyRequest Value)

pub record Reply (Body : Type 0) : Type 0 where
  pub status : ℕ
  pub headers : Dict String
  pub body : Body

-- What reqwest, serde_json and base64 do for the client. `header_text` is `HeaderValue::from_str`.
pub record Http (Value : Type 0) : Type 1 where
  pub Net : Type 0
  pub Body : Type 0
  pub send : Request Value → Net → Result String (Reply Body) × Net
  pub status_text : ℕ → String
  pub error_debug : Option FacilitatorError → String
  pub body_text : Body → Option String
  pub read_required : Body → Result String (PaymentRequired Value)
  pub read_verify : Body → Result String VerifyResponse
  pub read_resources : Body → Result String (DiscoveryResourcesResponse Value)
  pub write_payload : PaymentPayload Value Value → Result String String
  pub read_extensions : String → Option (ExtensionResponsesHeader Value)
  pub b64_encode : String → String
  pub b64_decode : String → Option String
  pub header_text : String → Bool

abbrev or_empty : Option String → String
or_empty none = ""
or_empty (some s) = s

-- `is_success`
abbrev is_success : ℕ → Bool
is_success status = leb 200 status && ltb status 300

abbrev pub first {ℓ} : {A : Type ℓ} → List A → Option A
first [] = none
first (x ∷ xs) = some x

abbrev then_read : {A B : Type 0} → Option A → (A → Option B) → Option B
then_read none f = none
then_read (some a) f = f a

-- `context`: the text of an error becomes this one.
abbrev pub context : {A : Type 0} → String → Result String A → Result String A
context what = map_err (λ _. what)

abbrev pub map_ok : {A B : Type 0} → (A → B) → Result String A → Result String B
map_ok f (ok a) = ok (f a)
map_ok f (err e) = err e

module _ (J : Json) (H : Http J.Value) where
  open J use {Value}
  open H use {Net, Body, send}

  -- A request, whose error is told as `what`.
  abbrev pub sent : String → Request Value → Act String Net (Reply Body)
  sent what request net = let (reply, net') = send request net in (context what reply, net')

  unfoldable pub list_resources :
      String → ListDiscoveryResourcesParams → Act String Net (DiscoveryResourcesResponse Value)
  list_resources base_url params = do
    resp ← send (record {
      method = get;
      url = list_resources_url base_url params;
      headers = [];
      body = none;
    })
    lift (
        guard (is_success resp.status) (
          "BazaarClient::list_resources failed ("
          <> H.status_text resp.status
          <> "): "
          <> or_empty (H.body_text resp.body)))
    lift (H.read_resources resp.body)

  abbrev pub plain_get : String → Request Value
  plain_get url = record { method = get; url = url; headers = []; body = none }

  unfoldable pub get_payment_required : String → Act String Net (PaymentRequired Value)
  get_payment_required url = do
    resp ← sent "GET resource" (plain_get url)
    lift (
        guard (resp.status == 402)
          ("expected 402 Payment Required, got " <> H.status_text resp.status <> " from " <> url))
    lift (context "decode PaymentRequired JSON body" (H.read_required resp.body))

  unfoldable pub encode_payment_signature_header : PaymentPayload Value Value → Result String String
  encode_payment_signature_header payload =
      map_ok H.b64_encode (context "serialize PaymentPayload" (H.write_payload payload))

  unfoldable pub decode_extension_header : String → Option (ExtensionResponsesHeader Value)
  decode_extension_header value = then_read (H.b64_decode value) H.read_extensions

  abbrev pub verify_post :
      String → PaymentPayload Value Value → PaymentRequirements Value → Request Value
  verify_post facilitator_url payload requirements = record {
    method = post;
    url = trim_slashes facilitator_url <> "/verify";
    headers = [];
    body = some (record { payload = payload; requirements = requirements });
  }

  unfoldable pub verify :
      String
      → PaymentPayload Value Value
      → PaymentRequirements Value
      → Act String Net (VerifyResponse × Option (ExtensionResponsesHeader Value))
  verify facilitator_url payload requirements = do
    resp ← sent "POST /verify" (verify_post facilitator_url payload requirements)
    answer ← lift (
        context ("decode VerifyResponse JSON (status " <> to_text resp.status <> ")")
          (H.read_verify resp.body))
    lift
        (ok (answer, then_read (lookup "extension-responses" resp.headers) decode_extension_header))

  abbrev pub paid_get : String → String → Request Value
  paid_get url payload_header = record {
    method = get;
    url = url;
    headers = ("payment-signature", payload_header) ∷ [];
    body = none;
  }

  -- `fetch_with_payment` from the call of the facilitator on.
  unfoldable pub pay_for :
      String
      → String
      → PaymentRequirements Value
      → PaymentPayload Value Value
      → Act String Net (Reply Body)
  pay_for resource_url facilitator_url requirements payload = do
    answer ← verify facilitator_url payload requirements
    lift (
        guard answer.0.valid
          ("facilitator rejected stub payload: " <> H.error_debug answer.0.error))
    payload_header ← lift (encode_payment_signature_header payload)
    lift (guard (H.header_text payload_header) "render PAYMENT-SIGNATURE header")
    sent "retry GET with PAYMENT-SIGNATURE" (paid_get resource_url payload_header)

  unfoldable pub fetch_with_payment :
      Signer Value → ℕ → Random → String → String → Act String Net (Reply Body)
  fetch_with_payment signer now random resource_url facilitator_url = do
    envelope ← get_payment_required resource_url
    requirements ← lift (ok_or (first envelope.accepts) "PaymentRequired.accepts is empty")
    payload ←
        lift (build_exact_nockchain_payload J requirements signer envelope.extensions now random)
    pay_for resource_url facilitator_url requirements payload
