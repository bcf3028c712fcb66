-- ===== src/Client/Http/Requests.antt =====
-- The requests that `fetch_with_payment` makes, in their order.
use mathlib.Core.List.{append_assoc}
use x402_nockchain.Prelude.{
  ℕ, String, ◌≡◌, ap, ◌∙◌, true, Option, List, [], ◌∷◌, ◌++◌, ok, Result-cases, Option-cases,
  Bool-cases, inl, inr, ◌==◌, nat_eq,
}
use x402_nockchain.Types.Json.{Json}
use x402_nockchain.Types.Payment.{PaymentRequirements, PaymentPayload, ExtensionResponsesHeader}
use x402_nockchain.Types.Facilitator.{VerifyResponse}
use x402_nockchain.Client.{Signer, Random, build_exact_nockchain_payload}
use x402_nockchain.Client.Http.{
  Request, Http, first, get_payment_required, encode_payment_signature_header, verify, pay_for,
  plain_get, verify_post, paid_get, fetch_with_payment,
}

-- A network that remembers the requests that were sent, oldest first.
pub record IsLogged {Value : Type 0} (H : Http Value) : Type 0 where
  pub log : H.Net → List (Request Value)
  pub log-send :
      (request : Request Value) (net : H.Net) → log (H.send request net).1 ≡ log net ++ request ∷ []

module _ (J : Json) (H : Http J.Value) where
  module _ (logged : IsLogged H) where
    open logged use {log, log-send}

    -- The requests of one attempt to fetch a paid resource, from a state of the network on.
    pub data Exchange (url facilitator : String) (start : H.Net)
        : List (Request J.Value) → Type 0 where
      asked : Exchange url facilitator start (plain_get J H url ∷ [])
      checked :
          (payload : PaymentPayload J.Value J.Value) (requirements : PaymentRequirements J.Value)
          → Exchange url facilitator start
              (plain_get J H url ∷ verify_post J H facilitator payload requirements ∷ [])
      -- The paid request, with the payload for which the facilitator, asked after the plain GET,
      -- answered that it is valid.
      paid :
          (payload : PaymentPayload J.Value J.Value) (requirements : PaymentRequirements J.Value)
          (header : String) (net : H.Net)
          (answer : VerifyResponse × Option (ExtensionResponsesHeader J.Value))
          → encode_payment_signature_header J H payload ≡ ok header
          → log net ≡ log start ++ plain_get J H url ∷ []
          → (verify J H facilitator payload requirements net).0 ≡ ok answer
          → answer.0.valid ≡ true
          → Exchange url facilitator start (
              plain_get J H url
              ∷ verify_post J H facilitator payload requirements
              ∷ paid_get J H url header
              ∷ [])

    log-get_payment_required :
        (url : String) (net : H.Net)
        → log (get_payment_required J H url net).1 ≡ log net ++ plain_get J H url ∷ []
    unfolding get_payment_required
    log-get_payment_required url net = elim (Result-cases (H.send (plain_get J H url) net).0) [
      | inr (e, failed) ↦ rw failed (log-send (plain_get J H url) net)
      | inl (resp, came) ↦ elim (Bool-cases (resp.status == 402)) [
        | inl b ↦ rw (came, b) (log-send (plain_get J H url) net)
        | inr b ↦ rw (came, b) (log-send (plain_get J H url) net)
      ]
    ]

    log-verify :
        (facilitator : String) (payload : PaymentPayload J.Value J.Value)
        (requirements : PaymentRequirements J.Value) (net : H.Net)
        → log (verify J H facilitator payload requirements net).1
          ≡ log net ++ verify_post J H facilitator payload requirements ∷ []
    unfolding verify
    log-verify facilitator payload requirements net =
        let request = verify_post J H facilitator payload requirements in
        elim (Result-cases (H.send request net).0) [
          | inr (e, failed) ↦ rw failed (log-send request net)
          | inl (resp, came) ↦ elim (Result-cases (H.read_verify resp.body)) [
            | inl (answer, read) ↦ rw (came, read) (log-send request net)
            | inr (e, bad) ↦ rw (came, bad) (log-send request net)
          ]
        ]

    -- From a state of the network to another, the requests of one attempt were sent.
    abbrev pub Exchanged : String → String → H.Net → H.Net → Type 0
    Exchanged url facilitator net end =
        (requests : List (Request J.Value)) × (log end ≡ log net ++ requests)
        × Exchange url facilitator net requests

    -- The last request, after an answer that the payload is valid.
    log-paid_get :
        (url facilitator header : String) (payload : PaymentPayload J.Value J.Value)
        (requirements : PaymentRequirements J.Value) (net asked_net : H.Net)
        (answer : VerifyResponse × Option (ExtensionResponsesHeader J.Value))
        → log asked_net ≡ log net ++ plain_get J H url ∷ []
        → encode_payment_signature_header J H payload ≡ ok header
        → (verify J H facilitator payload requirements asked_net).0 ≡ ok answer
        → answer.0.valid ≡ true
        → Exchanged url facilitator net
            (H.send
              (paid_get J H url header)
              (verify J H facilitator payload requirements asked_net).1).1
    log-paid_get url facilitator header payload requirements net asked_net answer first_log encoded
          verified valid =
        (
          _,
          log-send (paid_get J H url header) _
              ∙ ap (λ l. l ++ paid_get J H url header ∷ [])
                  (log-verify facilitator payload requirements asked_net
                    ∙ ap (λ l. l ++ verify_post J H facilitator payload requirements ∷ [])
                        first_log)
              ∙ simp append_assoc,
          paid payload requirements header asked_net answer encoded first_log verified valid,
        )

    log-checked :
        (url facilitator : String) (payload : PaymentPayload J.Value J.Value)
        (requirements : PaymentRequirements J.Value) (net asked_net : H.Net)
        → log asked_net ≡ log net ++ plain_get J H url ∷ []
        → Exchanged url facilitator net (verify J H facilitator payload requirements asked_net).1
    log-checked url facilitator payload requirements net asked_net first_log = (
      _,
      log-verify facilitator payload requirements asked_net
          ∙ ap (λ l. l ++ verify_post J H facilitator payload requirements ∷ []) first_log
          ∙ simp append_assoc,
      checked payload requirements,
    )

    pay_for-Exchanged :
        (url facilitator : String) (payload : PaymentPayload J.Value J.Value)
        (requirements : PaymentRequirements J.Value) (net asked_net : H.Net)
        → log asked_net ≡ log net ++ plain_get J H url ∷ []
        → Exchanged url facilitator net
            (pay_for J H url facilitator requirements payload asked_net).1
    unfolding pay_for
    pay_for-Exchanged url facilitator payload requirements net asked_net got =
        let seen = log-checked url facilitator payload requirements net asked_net got in
        elim (Result-cases (verify J H facilitator payload requirements asked_net).0) [
          | inr (e, failed) ↦ rw failed seen
          | inl (answer, verified) ↦ elim (Bool-cases answer.0.valid) [
            | inr invalid ↦ rw (verified, invalid) seen
            | inl valid ↦ elim (Result-cases (encode_payment_signature_header J H payload)) [
              | inr (e, failed) ↦ rw (verified, valid, failed) seen
              | inl (header, encoded) ↦ elim (Bool-cases (H.header_text header)) [
                | inr bad ↦ rw (verified, valid, encoded, bad) seen
                | inl good ↦
                    rw (verified, valid, encoded, good)
                      (log-paid_get url facilitator header payload requirements net asked_net answer
                        got encoded verified valid)
              ]
            ]
          ]
        ]

    -- Whatever comes back, an attempt to fetch a paid resource sends first a plain GET, then at most
    -- one POST to the facilitator and then at most one GET with the payment header; that last one
    -- only after the facilitator answered that the payload in that header is valid.
    pub fetch_with_payment-Exchanged :
        (signer : Signer J.Value) (now : ℕ) (random : Random) (url facilitator : String)
        (net : H.Net)
        → Exchanged url facilitator net
            (fetch_with_payment J H signer now random url facilitator net).1
    unfolding fetch_with_payment
    fetch_with_payment-Exchanged signer now random url facilitator net =
        let got = log-get_payment_required url net in
        elim (Result-cases (get_payment_required J H url net).0) [
          | inr (e, failed) ↦ rw failed (_, got, asked)
          | inl (envelope, came) ↦ elim (Option-cases (first envelope.accepts)) [
            | inl empty ↦ rw (came, empty) (_, got, asked)
            | inr (requirements, chosen) ↦
                elim (Result-cases (
                  build_exact_nockchain_payload J requirements signer envelope.extensions now
                    random)) [
                      | inr (e, failed) ↦ rw (came, chosen, failed) (_, got, asked)
                      | inl (payload, built) ↦
                          rw (came, chosen, built)
                            (pay_for-Exchanged url facilitator payload requirements net _ got)
                    ]
          ]
        ]
