-- ===== src/Wallet/Client/Envelope/Laws.antt =====
-- The envelope signature of the wallet is one that the verifier of a payment accepts.
use x402_nockchain.Prelude.{
  ℕ, String, ◌≡◌, sym, ap, ◌∙◌, List, ok, ok-injective, >>=-eq-ok, map_err-eq-ok,
  map_err-bind-eq-ok,
}
use x402_nockchain.Types.Nockchain.{ExactNockchainPayload}
use x402_nockchain.Crypto.Interface.{Encoding, Schnorr, IsLawfulSchnorr}
use x402_nockchain.Crypto.SignMessage.{x402_sign_message_digest, pkh_from_pubkey_bytes}
use x402_nockchain.Crypto.WireCompat.{x402_to_vesl, x402_to_vesl-vesl_to_x402}
use x402_nockchain.Crypto.Verifier.Laws.{IsSigned}
use x402_nockchain.Wallet.Engine.{TxEngine}
use x402_nockchain.Wallet.Kernel.{WalletEngine}
use x402_nockchain.Wallet.Client.{NockchainWalletClient, from_signing_key}
use x402_nockchain.Wallet.Client.Envelope.{scalar_from, crypto_secret_key, sign_envelope}

module _ {N : Encoding} {S : Schnorr} {E : TxEngine} (C : WalletEngine N S E) where
  -- The two libraries that derive the wallet's key agree: the chain's text of the public key
  -- stands for the bytes of the public key that checks the envelope signature.
  abbrev pub SameKey : List ℕ → Type 0
  SameKey sk_t8 =
      (sk : S.SecretKey) (text : String) (bytes : List ℕ)
      → C.private_key (scalar_from 0 0 sk_t8) ≡ ok sk
      → E.pubkey_to_base58 (C.derive_pubkey sk_t8) ≡ ok text
      → N.bs58_decode text ≡ ok bytes
      → S.to_bytes (S.public_key sk) ≡ ok bytes

  -- What a wallet's fields are made of.
  record IsDerived (sk_t8 : List ℕ) (w : NockchainWalletClient C) : Type 0 where
    text : String
    bytes : List ℕ
    text_eq : E.pubkey_to_base58 (C.derive_pubkey sk_t8) ≡ ok text
    bytes_eq : N.bs58_decode text ≡ ok bytes
    pkh : pkh_from_pubkey_bytes N bytes ≡ w.payer_pkh_envelope_b58
    key : sk_t8 ≡ w.sk_t8

  from_signing_key-IsDerived :
      (sk_t8 : List ℕ) (w : NockchainWalletClient C)
      → from_signing_key C sk_t8 ≡ ok w
      → IsDerived sk_t8 w
  unfolding from_signing_key
  from_signing_key-IsDerived sk_t8 w h =
      let (text, e1, h1) = map_err-bind-eq-ok _ (E.pubkey_to_base58 (C.derive_pubkey sk_t8)) _ h in
      let (bytes, e2, h2) = map_err-bind-eq-ok _ (N.bs58_decode text) _ h1 in
      let built = ok-injective h2 in
      record {
        text = text;
        bytes = bytes;
        text_eq = e1;
        bytes_eq = e2;
        pkh = ap (λ v. v.payer_pkh_envelope_b58) built;
        key = ap (λ v. v.sk_t8) built;
      }

  -- With a lawful Schnorr scheme and one key in both libraries, what a wallet made from that key
  -- signs under its own identifier is signed in the sense of the verifier.
  pub sign_envelope-IsSigned :
      (sk_t8 : List ℕ) (w : NockchainWalletClient C) (nock : ExactNockchainPayload)
      → IsLawfulSchnorr S
      → SameKey sk_t8
      → from_signing_key C sk_t8 ≡ ok w
      → nock.authorization.from ≡ w.payer_pkh_envelope_b58
      → sign_envelope C w nock.authorization ≡ ok nock.signature
      → IsSigned N S nock
  unfolding sign_envelope crypto_secret_key
  sign_envelope-IsSigned sk_t8 w nock L same made own signed =
      let d = from_signing_key-IsDerived sk_t8 w made in
      let (digest, hashed, s1) =
        map_err-bind-eq-ok _ (x402_sign_message_digest N nock.authorization) _ signed in
      let (sk, key, s2) = >>=-eq-ok (crypto_secret_key C w) _ s1 in
      let (pair, scalars, s3) = map_err-bind-eq-ok _ (S.schnorr_sign sk digest) _ s2 in
      let (vesl, encoded, s4) =
        map_err-bind-eq-ok _ (S.encode_signature (S.public_key sk) pair.0 pair.1) _ s3 in
      let rebuilt : C.private_key (scalar_from 0 0 sk_t8) ≡ ok sk =
        ap (λ l. C.private_key (scalar_from 0 0 l)) d.key ∙ map_err-eq-ok _ (C.private_key _) key in
      record {
        pk = S.public_key sk;
        chal = pair.0;
        sig = pair.1;
        pk_bytes = d.bytes;
        digest = digest;
        decoded =
            ap (λ v. S.decode_signature (x402_to_vesl v)) (sym (ok-injective s4))
            ∙ ap S.decode_signature (x402_to_vesl-vesl_to_x402 vesl)
            ∙ L.decode-encode (S.public_key sk) pair.0 pair.1 vesl encoded;
        bytes = same sk d.text d.bytes rebuilt d.text_eq d.bytes_eq;
        binding = d.pkh ∙ sym own;
        hashed = hashed;
        verified = L.verify-sign sk digest pair.0 pair.1 scalars;
      }
