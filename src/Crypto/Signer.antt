-- ===== src/Crypto/Signer.antt =====
-- crates/x402-nockchain-crypto/src/signer.rs. An `anyhow::Error` is its text.
use x402_nockchain.Prelude.{String, ◌<>◌, Result, ok, map_err, ◌>>=◌}
use x402_nockchain.Types.Payment.{Authorization, PaymentRequirements, SchnorrSignatureJson}
use x402_nockchain.Crypto.Interface.{Encoding, Schnorr}
use x402_nockchain.Crypto.SignMessage.{
  SignMessageError, base58, decimal, overflow, pkh_from_pubkey_bytes, x402_sign_message_digest,
}
use x402_nockchain.Crypto.WireCompat.{vesl_to_x402}

-- The `Display` of `SignMessageError`, over that of the base58 error.
unfoldable pub sign_message_text : {D : Type 0} → (D → String) → SignMessageError D → String
sign_message_text show (base58 field source) =
    "base58 decode failed for field `" <> field <> "`: " <> show source
sign_message_text show (decimal field value) =
    "decimal parse failed for field `" <> field <> "`: " <> value
sign_message_text show (overflow field) = "value for `" <> field <> "` is too large to fit 5 Belts"

module _ (E : Encoding) (S : Schnorr) (decode_text : E.DecodeError → String) where
  pub record NockchainSigner : Type 0 where
    pub sk : S.SecretKey
    pub pk : S.PublicKey
    pub pk_b58 : String
    pub pkh_b58 : String

  -- `NockchainSigner::new`
  unfoldable pub new : S.SecretKey → Result String NockchainSigner
  new sk = do
    let pk = S.public_key sk
    pk_b58 ← map_err (λ e. "encode Cheetah pubkey: " <> S.curve_text e) (S.into_base58 pk)
    pk_bytes ← map_err (λ e. "serialize Cheetah pubkey: " <> S.curve_text e) (S.to_bytes pk)
    ok (record { sk = sk; pk = pk; pk_b58 = pk_b58; pkh_b58 = pkh_from_pubkey_bytes E pk_bytes })

  unfoldable pub sign_authorization :
      {Value : Type 0}
      → NockchainSigner
      → Authorization
      → PaymentRequirements Value
      → Result String SchnorrSignatureJson
  sign_authorization s auth requirements = do
    digest ←
        map_err (λ e. "compute sign_message digest: " <> sign_message_text decode_text e)
          (x402_sign_message_digest E auth)
    pair ← map_err (λ e. "schnorr sign: " <> S.schnorr_text e) (S.schnorr_sign s.sk digest)
    let (chal, sig) = pair
    vesl_sig ←
        map_err (λ e. "encode signature: " <> S.schnorr_text e) (S.encode_signature s.pk chal sig)
    ok (vesl_to_x402 vesl_sig)

  unfoldable pub from_identifier : NockchainSigner → String
  from_identifier s = s.pkh_b58
