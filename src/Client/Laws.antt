-- ===== src/Client/Laws.antt =====
-- From the builder of a payload to the checks of the facilitator.
use x402_nockchain.Prelude.{
  ℕ, ◌+◌, ◌-◌, ◌<◌, ◌≤◌, ◌≡◌, refl, sym, ap, ◌∙◌, true, String, ◌⊎◌, Option, none, List, [], ◌∷◌,
  some, ok, >>=-eq-ok, map_err-bind-eq-ok, ok-injective, starts_with, arith, Dict, string_eq,
}
use x402_nockchain.Decimal.{parse, u64_mod, u128_mod}
use x402_nockchain.Types.Json.{Json, IsLawfulJson}
use x402_nockchain.Types.Payment.{NoteRef, PaymentPayload, PaymentRequirements}
use x402_nockchain.Types.Nockchain.{ExactNockchainPayload}
use x402_nockchain.Crypto.Interface.{Encoding, Schnorr, IsLawfulSchnorr}
use x402_nockchain.Crypto.Verifier
use x402_nockchain.Crypto.Verifier.Laws.{IsSigned, sign_authorization-IsSigned}
use x402_nockchain.Crypto.Signer.{NockchainSigner, new}
use x402_nockchain.Facilitator.Scheme.{
  with_default_handlers, nockchain_native_asset, extract_nockchain,
}
use x402_nockchain.Facilitator.Scheme.Laws.{verify_nockchain_iff}
use x402_nockchain.Facilitator.Scheme.Registry.{handler_for-default_found}
use x402_nockchain.Facilitator.State.{AppState, Moment, saturating_add}
use x402_nockchain.Facilitator.Envelope.Laws.{Passes, check_time_window_iff}
use x402_nockchain.Client.{
  Random, random_note, authorization_for, envelope_for, build_exact_nockchain_payload, signer_of,
}

module _ (J : Json) (E : Encoding) (S : Schnorr) where
  -- A payload that was built for requirements at a time: it reads back as a signed authorization
  -- that pays the required amount to the required recipient in the window that starts then.
  pub record IsBuilt (req : PaymentRequirements J.Value) (now : ℕ)
      (payload : PaymentPayload J.Value J.Value) : Type 0 where
    pub nock : ExactNockchainPayload
    pub read : J.read_exact payload.payload ≡ ok nock
    pub signed : IsSigned E S nock
    pub version : payload.x402_version ≡ 2
    pub same_scheme : payload.scheme ≡ req.scheme
    pub same_network : payload.network ≡ req.network
    pub to : nock.authorization.to ≡ req.pay_to
    pub value : nock.authorization.value ≡ req.max_amount_required
    pub after : nock.authorization.valid_after ≡ now - 5
    pub before : nock.authorization.valid_before ≡ saturating_add now req.max_timeout_seconds

  -- The envelope around the payload that was written for an authorization.
  pub enveloped-IsBuilt :
      (req : PaymentRequirements J.Value) (now : ℕ) (echo : Option (Dict J.Value))
      (from nonce : String) (notes : List NoteRef) (nock : ExactNockchainPayload)
      (written : J.Value) (payload : PaymentPayload J.Value J.Value)
      → IsLawfulJson J
      → nock.authorization ≡ authorization_for J req from nonce now notes
      → IsSigned E S nock
      → J.write_exact nock ≡ ok written
      → envelope_for J req echo written ≡ payload
      → IsBuilt req now payload
  unfolding authorization_for
  enveloped-IsBuilt req now echo from nonce notes nock written payload LJ same signed wrote e =
      record {
        nock = nock;
        read =
            ap J.read_exact (sym (ap (λ p. p.payload) e)) ∙ LJ.read-write_exact nock written wrote;
        signed = signed;
        version = sym (ap (λ p. p.x402_version) e);
        same_scheme = sym (ap (λ p. p.scheme) e);
        same_network = sym (ap (λ p. p.network) e);
        to = ap (λ a. a.to) same;
        value = ap (λ a. a.value) same;
        after = ap (λ a. a.valid_after) same;
        before = ap (λ a. a.valid_before) same;
      }

  module _ (verifier_text : Verifier.VerifyError J.JsonError S.SchnorrError E.DecodeError → String)
      {Chain Rows : Type 0} where
    -- What a facilitator with the default handlers finds in a payload that was built.
    pub IsBuilt-Passes :
        (req : PaymentRequirements J.Value) (now : ℕ) (payload : PaymentPayload J.Value J.Value)
        (state : AppState J.Value Chain Rows) (at : Moment) (amount : ℕ)
        → IsBuilt req now payload
        → state.scheme_registry ≡ with_default_handlers J E S verifier_text
        → (req.scheme ≡ "exact") ⊎ (req.scheme ≡ "upto")
        → starts_with req.network "nockchain:" ≡ true
        → req.asset ≡ nockchain_native_asset
        → parse u128_mod req.max_amount_required ≡ some amount
        → now + req.max_timeout_seconds < u64_mod
        → now ≤ at.now + state.clock_skew_tolerance + 5
        → at.now ≤ now + req.max_timeout_seconds + state.clock_skew_tolerance
        → Passes state at (record { payload = payload; requirements = req })
    unfolding saturating_add extract_nockchain
    IsBuilt-Passes req now payload state at amount b registry scheme network asset parsed fits early
          late =
        let (handler, found, verify, extract) =
          handler_for-default_found J E S verifier_text {Chain = Chain} req.scheme req.network
            scheme network in
        record {
          handler = handler;
          auth = b.nock.authorization;
          version = b.version;
          scheme = b.same_scheme;
          network = b.same_network;
          found = rw registry found;
          extracted = rw (extract, b.read);
          window =
              (check_time_window_iff state at b.nock.authorization (rw (b.after) (omega arith))).1
                (rw (b.after) (omega arith), rw (b.before) (omega arith));
          verified = rw verify (
              (verify_nockchain_iff J E S verifier_text payload req).1 (record {
                nock = b.nock;
                read = b.read;
                recipient = b.to;
                signed = b.signed;
                within = record {
                  value = amount;
                  most = amount;
                  value_eq = rw (b.value) parsed;
                  most_eq = parsed;
                  value_le = omega arith;
                };
                asset = asset;
              }));
        }

module _ (J : Json) (E : Encoding) (S : Schnorr) (LJ : IsLawfulJson J) (LS : IsLawfulSchnorr S)
    (decode_text : E.DecodeError → String) where
  build-IsBuilt :
      (sk : S.SecretKey) (signer : NockchainSigner E S decode_text)
      (req : PaymentRequirements J.Value) (echo : Option (Dict J.Value)) (now : ℕ) (random : Random)
      (payload : PaymentPayload J.Value J.Value)
      → new E S decode_text sk ≡ ok signer
      → build_exact_nockchain_payload J req (signer_of E S decode_text signer) echo now random
        ≡ ok payload
      → IsBuilt J E S req now payload
  unfolding build_exact_nockchain_payload authorization_for
  build-IsBuilt sk signer req echo now random payload made built =
      let (signature, signed, b1) =
        >>=-eq-ok ((signer_of E S decode_text signer).sign _ req) _ built in
      let (value, written, b2) = map_err-bind-eq-ok _ (J.write_exact _) _ b1 in
      let from = (signer_of E S decode_text {Value = J.Value} signer).identifier in
      let nock : ExactNockchainPayload = record {
        signature = signature;
        authorization =
            authorization_for J req from random.nonce now (random_note J req random ∷ []);
        signed_raw_tx = none;
      } in
      enveloped-IsBuilt J E S req now echo from random.nonce _ nock value payload LJ refl
        (sign_authorization-IsSigned E S LS decode_text sk signer nock req made refl signed) written
        (ok-injective b2)

  module _ (verifier_text : Verifier.VerifyError J.JsonError S.SchnorrError E.DecodeError → String)
      {Chain Rows : Type 0} where
    -- Let a client build a payload with a `NockchainSigner` for requirements of scheme `exact` or
    -- `upto` on a `nockchain:` network, in the native asset, with a decimal 128-bit amount, at a
    -- time that plus the timeout fits 64 bits; JSON and Schnorr obey their laws. A
    -- facilitator with the default handlers finds nothing wrong with the request apart from the
    -- replay check, from five seconds and the tolerance before the client's time up to the
    -- timeout of the requirements and the tolerance after it.
    pub build_exact_nockchain_payload-Passes :
        (sk : S.SecretKey) (signer : NockchainSigner E S decode_text)
        (req : PaymentRequirements J.Value) (echo : Option (Dict J.Value)) (now : ℕ)
        (random : Random) (payload : PaymentPayload J.Value J.Value)
        (state : AppState J.Value Chain Rows) (at : Moment) (amount : ℕ)
        → new E S decode_text sk ≡ ok signer
        → build_exact_nockchain_payload J req (signer_of E S decode_text signer) echo now random
          ≡ ok payload
        → state.scheme_registry ≡ with_default_handlers J E S verifier_text
        → (req.scheme ≡ "exact") ⊎ (req.scheme ≡ "upto")
        → starts_with req.network "nockchain:" ≡ true
        → req.asset ≡ nockchain_native_asset
        → parse u128_mod req.max_amount_required ≡ some amount
        → now + req.max_timeout_seconds < u64_mod
        → now ≤ at.now + state.clock_skew_tolerance + 5
        → at.now ≤ now + req.max_timeout_seconds + state.clock_skew_tolerance
        → Passes state at (record { payload = payload; requirements = req })
    build_exact_nockchain_payload-Passes sk signer req echo now random payload state at amount made
          built registry scheme network asset parsed fits early late =
        IsBuilt-Passes J E S verifier_text req now payload state at amount
          (build-IsBuilt sk signer req echo now random payload made built) registry scheme network
          asset parsed fits early late
