-- ===== src/Wallet/Payment.antt =====
-- From `build_exact_nockchain_payload_with_wallet` of crates/x402-client/src/lib.rs, with the wallet
-- of crates/x402-nockchain-wallet-client, to the checks of the facilitator and to what it submits.
use x402_nockchain.Prelude.{
  ℕ, ◌+◌, ◌≤◌, ◌<◌, String, ◌≡◌, refl, sym, ap, ◌∙◌, ◌⊎◌, true, Option, some, List, ok,
  map_err-bind-eq-ok, ok-injective, starts_with, Dict,
}
use x402_nockchain.Decimal.{parse, u64_mod, u128_mod}
use x402_nockchain.Types.Json.{Json, IsLawfulJson}
use x402_nockchain.Types.Payment.{NoteRef, PaymentPayload, PaymentRequirements}
use x402_nockchain.Types.Nockchain.{ExactNockchainPayload, SignedRawTx}
use x402_nockchain.Crypto.Interface.{Encoding, Schnorr, IsLawfulSchnorr}
use x402_nockchain.Crypto.Verifier
use x402_nockchain.Facilitator.Scheme.{with_default_handlers, nockchain_native_asset}
use x402_nockchain.Facilitator.State.{AppState, Moment}
use x402_nockchain.Facilitator.Envelope.Laws.{Passes}
use x402_nockchain.Client.{Random, authorization_for, build_exact_nockchain_payload_with_wallet}
use x402_nockchain.Client.Laws.{IsBuilt, enveloped-IsBuilt, IsBuilt-Passes}
use x402_nockchain.Wallet.Engine.{TxEngine, IsLawfulTxEngine, RawTx}
use x402_nockchain.Wallet.Kernel.{WalletEngine, IsLawfulWalletEngine}
use x402_nockchain.Wallet.Surrogate.{raw_tx_from_surrogate}
use x402_nockchain.Wallet.Client.{NockchainWalletClient, from_signing_key}
use x402_nockchain.Wallet.Client.Envelope.Laws.{SameKey, sign_envelope-IsSigned}
use x402_nockchain.Wallet.Client.Signing.{authorize_and_sign, wallet_backend}
use x402_nockchain.Wallet.Client.Signing.Laws.{
  Settles, authorize_and_sign-Settles, authorize_and_sign-envelope,
}

module _ (J : Json) {N : Encoding} {S : Schnorr} {E : TxEngine} (C : WalletEngine N S E) where
  -- The transaction that a payload carries, and the authorization that it settles.
  pub record Carries (w : NockchainWalletClient C) (payload : PaymentPayload J.Value J.Value)
      : Type 0 where
    pub nock : ExactNockchainPayload
    pub surrogate : SignedRawTx
    pub raw : RawTx E
    pub read : J.read_exact payload.payload ≡ ok nock
    pub carried : nock.signed_raw_tx ≡ some surrogate
    pub decoded : raw_tx_from_surrogate E surrogate ≡ ok raw
    pub settles : Settles C w nock.authorization raw

module _ (J : Json) {N : Encoding} {S : Schnorr} {E : TxEngine} (C : WalletEngine N S E)
    (LJ : IsLawfulJson J) (LS : IsLawfulSchnorr S) (LE : IsLawfulTxEngine E)
    (LC : IsLawfulWalletEngine C) where
  build_with_wallet-IsBuilt :
      (sk_t8 : List ℕ) (w : NockchainWalletClient C) (kernel : C.Kernel)
      (req : PaymentRequirements J.Value) (notes : List NoteRef) (echo : Option (Dict J.Value))
      (now : ℕ) (random : Random) (payload : PaymentPayload J.Value J.Value)
      → SameKey C sk_t8
      → from_signing_key C sk_t8 ≡ ok w
      → build_exact_nockchain_payload_with_wallet J req
          (wallet_backend C w kernel)
          notes
          echo
          now
          random
        ≡ ok payload
      → IsBuilt J N S req now payload × Carries J C w payload
  unfolding build_exact_nockchain_payload_with_wallet wallet_backend authorization_for
  build_with_wallet-IsBuilt sk_t8 w kernel req notes echo now random payload same made built =
      let auth = authorization_for J req w.payer_pkh_envelope_b58 random.nonce now notes in
      let (payment, signed, b1) =
        map_err-bind-eq-ok _ (authorize_and_sign C w auth kernel).0 _ built in
      let (value, written, b2) = map_err-bind-eq-ok _ (J.write_exact _) _ b1 in
      let nock : ExactNockchainPayload = record {
        signature = payment.envelope_signature;
        authorization = auth;
        signed_raw_tx = some payment.signed_raw_tx;
      } in
      let end = (authorize_and_sign C w auth kernel).1 in
      let authorized : authorize_and_sign C w auth kernel ≡ (ok payment, end) =
        λ i. (signed i, end) in
      let (raw, decoded, settles) =
        authorize_and_sign-Settles C LE LC w auth payment kernel end authorized in
      let enveloped = authorize_and_sign-envelope C w auth payment kernel end authorized in
      let built =
        enveloped-IsBuilt J N S req now echo w.payer_pkh_envelope_b58 random.nonce notes nock value
          payload LJ refl (sign_envelope-IsSigned C sk_t8 w nock LS same made refl enveloped)
          written (ok-injective b2) in
      (
        built,
        record {
          nock = nock;
          surrogate = payment.signed_raw_tx;
          raw = raw;
          read =
              ap J.read_exact (sym (ap (λ p. p.payload) (ok-injective b2)))
              ∙ LJ.read-write_exact nock value written;
          carried = refl;
          decoded = decoded;
          settles = settles;
        },
      )

  module _ (verifier_text : Verifier.VerifyError J.JsonError S.SchnorrError N.DecodeError → String)
      {Chain Rows : Type 0} where
    -- Let a client build a payload with the wallet of a key for requirements of scheme `exact` or
    -- `upto` on a `nockchain:` network, in the native asset, with a decimal 128-bit amount, at a
    -- time that plus the timeout fits 64 bits; the libraries obey their laws and agree on the key.
    -- Then a facilitator with the default handlers finds nothing wrong with the request apart from
    -- the replay check, from five seconds and the tolerance before the client's time up to the
    -- timeout and the tolerance after it; and the transaction that the payload carries spends the
    -- one note of its authorization, for its value, its fee and the change.
    pub build_with_wallet-Passes :
        (sk_t8 : List ℕ) (w : NockchainWalletClient C) (kernel : C.Kernel)
        (req : PaymentRequirements J.Value) (notes : List NoteRef) (echo : Option (Dict J.Value))
        (now : ℕ) (random : Random) (payload : PaymentPayload J.Value J.Value)
        (state : AppState J.Value Chain Rows) (at : Moment) (amount : ℕ)
        → SameKey C sk_t8
        → from_signing_key C sk_t8 ≡ ok w
        → build_exact_nockchain_payload_with_wallet J req
            (wallet_backend C w kernel)
            notes
            echo
            now
            random
          ≡ ok payload
        → state.scheme_registry ≡ with_default_handlers J N S verifier_text
        → (req.scheme ≡ "exact") ⊎ (req.scheme ≡ "upto")
        → starts_with req.network "nockchain:" ≡ true
        → req.asset ≡ nockchain_native_asset
        → parse u128_mod req.max_amount_required ≡ some amount
        → now + req.max_timeout_seconds < u64_mod
        → now ≤ at.now + state.clock_skew_tolerance + 5
        → at.now ≤ now + req.max_timeout_seconds + state.clock_skew_tolerance
        → Passes state at (record { payload = payload; requirements = req }) × Carries J C w payload
    build_with_wallet-Passes sk_t8 w kernel req notes echo now random payload state at amount same
          made built registry scheme network asset parsed fits early late =
        let (b, carries) =
          build_with_wallet-IsBuilt sk_t8 w kernel req notes echo now random payload same made
            built in
        (
          IsBuilt-Passes J N S verifier_text req now payload state at amount b registry scheme
              network asset parsed fits early late,
          carries,
        )
