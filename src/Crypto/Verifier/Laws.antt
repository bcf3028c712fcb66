-- ===== src/Crypto/Verifier/Laws.antt =====
-- What the verifier accepts, and that it accepts what the signer makes.
use x402_nockchain.Prelude.{
  ℕ, String, ◌≡◌, ◌↔◌, sym, ap, ◌∙◌, ok-injective, List, Result, ok, map_err-eq-ok,
  guard-bind-eq-ok, map_err-bind-eq-ok, ◌==◌, string_eq, eq_iff, eq_refl,
}
use x402_nockchain.Types.Payment.{PaymentPayload, PaymentRequirements}
use x402_nockchain.Types.Nockchain.{ExactNockchainPayload}
use x402_nockchain.Crypto.Interface.{Encoding, Schnorr, IsLawfulSchnorr}
use x402_nockchain.Crypto.SignMessage.{pkh_from_pubkey_bytes, x402_sign_message_digest}
use x402_nockchain.Crypto.WireCompat.{x402_to_vesl, x402_to_vesl-vesl_to_x402}
use x402_nockchain.Crypto.Signer.{NockchainSigner, new, sign_authorization, from_identifier}
use x402_nockchain.Crypto.Verifier.{
  signature_decode, signature_invalid, sign_message, pubkey_binding, verify_payment,
}

module _ (E : Encoding) (S : Schnorr) where
  -- A payload whose public key hashes to the sender and signs the digest of the authorization.
  pub record IsSigned (nock : ExactNockchainPayload) : Type 0 where
    pub pk : S.PublicKey
    pub chal : S.Scalar
    pub sig : S.Scalar
    pub pk_bytes : List ℕ
    pub digest : List ℕ
    pub decoded : S.decode_signature (x402_to_vesl nock.signature) ≡ ok (pk, chal, sig)
    pub bytes : S.to_bytes pk ≡ ok pk_bytes
    pub binding : pkh_from_pubkey_bytes E pk_bytes ≡ nock.authorization.from
    pub hashed : x402_sign_message_digest E nock.authorization ≡ ok digest
    pub verified : S.schnorr_verify pk digest chal sig ≡ ok tt

  module _ {Value P JsonError : Type 0} (reread : P → Result JsonError ExactNockchainPayload) where
    verify_payment-ok_of_IsSigned :
        (payload : PaymentPayload Value P) (requirements : PaymentRequirements Value)
        (nock : ExactNockchainPayload)
        → reread payload.payload ≡ ok nock
        → IsSigned nock
        → verify_payment E S reread payload requirements ≡ ok tt
    unfolding verify_payment
    verify_payment-ok_of_IsSigned payload requirements nock read s =
        rw (
          read,
          s.decoded,
          s.bytes,
          s.binding,
          eq_refl nock.authorization.from,
          s.hashed,
          s.verified,
        )

    verify_payment-IsSigned :
        (payload : PaymentPayload Value P) (requirements : PaymentRequirements Value)
        (nock : ExactNockchainPayload)
        → reread payload.payload ≡ ok nock
        → verify_payment E S reread payload requirements ≡ ok tt
        → IsSigned nock
    unfolding verify_payment
    verify_payment-IsSigned payload requirements nock read h =
        let h0 = rw read at h in
        let (parts, decoded, h1) =
          map_err-bind-eq-ok signature_decode (S.decode_signature (x402_to_vesl nock.signature)) _
            h0 in
        let (pk_bytes, bytes, h2) =
          map_err-bind-eq-ok (λ e. signature_decode (S.curve e)) (S.to_bytes parts.0) _ h1 in
        let (bound, h3) =
          guard-bind-eq-ok (pkh_from_pubkey_bytes E pk_bytes == nock.authorization.from)
            pubkey_binding _ h2 in
        let (digest, hashed, h4) =
          map_err-bind-eq-ok sign_message (x402_sign_message_digest E nock.authorization) _ h3 in
        record {
          pk = parts.0;
          chal = parts.1;
          sig = parts.2;
          pk_bytes = pk_bytes;
          digest = digest;
          decoded = decoded;
          bytes = bytes;
          binding = (eq_iff _ _).0 bound;
          hashed = hashed;
          verified = map_err-eq-ok signature_invalid _ h4;
        }

    -- On a payload that reads as `nock`, the verifier accepts exactly when the signature of
    -- `nock` decodes, its public key hashes to the sender named in the authorization, the digest
    -- of the authorization can be computed, and the Schnorr check passes on that digest.
    pub verify_payment_iff :
        (payload : PaymentPayload Value P) (requirements : PaymentRequirements Value)
        (nock : ExactNockchainPayload)
        → reread payload.payload ≡ ok nock
        → (verify_payment E S reread payload requirements ≡ ok tt) ↔ IsSigned nock
    verify_payment_iff payload requirements nock read = (
      verify_payment-IsSigned payload requirements nock read,
      verify_payment-ok_of_IsSigned payload requirements nock read,
    )

  module _ (L : IsLawfulSchnorr S) (decode_text : E.DecodeError → String) {Value : Type 0} where
    pub sign_authorization-IsSigned :
        (sk : S.SecretKey) (signer : NockchainSigner E S decode_text) (nock : ExactNockchainPayload)
        (requirements : PaymentRequirements Value)
        → new E S decode_text sk ≡ ok signer
        → nock.authorization.from ≡ from_identifier E S decode_text signer
        → sign_authorization E S decode_text signer nock.authorization requirements
          ≡ ok nock.signature
        → IsSigned nock
    unfolding new sign_authorization from_identifier
    sign_authorization-IsSigned sk signer nock requirements made own signed =
        let (pk_b58, _, h1) = map_err-bind-eq-ok _ (S.into_base58 (S.public_key sk)) _ made in
        let (pk_bytes, bytes, h2) = map_err-bind-eq-ok _ (S.to_bytes (S.public_key sk)) _ h1 in
        let (digest, hashed, s1) =
          map_err-bind-eq-ok _ (x402_sign_message_digest E nock.authorization) _ signed in
        let (pair, scalars, s2) = map_err-bind-eq-ok _ (S.schnorr_sign signer.sk digest) _ s1 in
        let (vesl, encoded, s3) =
          map_err-bind-eq-ok _ (S.encode_signature signer.pk pair.0 pair.1) _ s2 in
        let built = ok-injective h2 in
        let pk_eq : S.public_key sk ≡ signer.pk = ap (λ r. r.pk) built in
        let sk_eq : sk ≡ signer.sk = ap (λ r. r.sk) built in
        let own_pk : S.public_key signer.sk ≡ signer.pk = ap S.public_key (sym sk_eq) ∙ pk_eq in
        record {
          pk = signer.pk;
          chal = pair.0;
          sig = pair.1;
          pk_bytes = pk_bytes;
          digest = digest;
          decoded =
              rw (← ok-injective s3, x402_to_vesl-vesl_to_x402 vesl)
                (L.decode-encode signer.pk pair.0 pair.1 vesl encoded);
          bytes = rw (← pk_eq) bytes;
          binding = ap (λ r. r.pkh_b58) built ∙ sym own;
          hashed = hashed;
          verified = rw own_pk at (L.verify-sign signer.sk digest pair.0 pair.1 scalars);
        }
