-- ===== src/Crypto/Verifier.antt =====
-- crates/x402-nockchain-crypto/src/verifier.rs. The parameter `reread` stands for writing the
-- payload as JSON and reading it as an `ExactNockchainPayload`, which serde generates.
pub mod Laws
use x402_nockchain.Prelude.{String, Result, ok, map_err, guard, ◌==◌, string_eq, ◌>>=◌, ◌>>◌}
use x402_nockchain.Types.Payment.{PaymentPayload, PaymentRequirements}
use x402_nockchain.Types.Nockchain.{ExactNockchainPayload}
use x402_nockchain.Crypto.Interface.{Encoding, Schnorr}
use x402_nockchain.Crypto.SignMessage.{
  SignMessageError, pkh_from_pubkey_bytes, x402_sign_message_digest,
}
use x402_nockchain.Crypto.WireCompat.{x402_to_vesl}

pub data VerifyError (JsonError SchnorrError DecodeError : Type 0) : Type 0 where
  decode : JsonError → VerifyError JsonError SchnorrError DecodeError
  signature_decode : SchnorrError → VerifyError JsonError SchnorrError DecodeError
  signature_invalid : SchnorrError → VerifyError JsonError SchnorrError DecodeError
  sign_message : SignMessageError DecodeError → VerifyError JsonError SchnorrError DecodeError
  pubkey_binding : VerifyError JsonError SchnorrError DecodeError

module _ (E : Encoding) (S : Schnorr) {Value P JsonError : Type 0}
    (reread : P → Result JsonError ExactNockchainPayload) where
  unfoldable pub verify_payment :
      PaymentPayload Value P
      → PaymentRequirements Value
      → Result (VerifyError JsonError S.SchnorrError E.DecodeError) (Unit {0})
  verify_payment payload requirements = do
    nock ← map_err decode (reread payload.payload)
    parts ← map_err signature_decode (S.decode_signature (x402_to_vesl nock.signature))
    let (pk, chal, sig) = parts
    pk_bytes ← map_err (λ e. signature_decode (S.curve e)) (S.to_bytes pk)
    guard (pkh_from_pubkey_bytes E pk_bytes == nock.authorization.from) pubkey_binding
    digest ← map_err sign_message (x402_sign_message_digest E nock.authorization)
    map_err signature_invalid (S.schnorr_verify pk digest chal sig)
