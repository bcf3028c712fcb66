-- ===== src/Wallet/Client/Envelope.antt =====
-- The envelope signature of crates/x402-nockchain-wallet-client/src/lib.rs: the step 11 of
-- `authorize_and_sign`, and the secret key that it is made with.
pub mod Laws
use x402_nockchain.Prelude.{
  ℕ, suc, ◌+◌, ◌*◌, ◌^◌, String, ◌<>◌, List, [], ◌∷◌, Result, ok, map_err, ◌>>=◌,
}
use x402_nockchain.Types.Payment.{Authorization, SchnorrSignatureJson}
use x402_nockchain.Client.{WalletBackendError, other}
use x402_nockchain.Crypto.Interface.{Encoding, Schnorr}
use x402_nockchain.Crypto.SignMessage.{x402_sign_message_digest}
use x402_nockchain.Crypto.Signer.{sign_message_text}
use x402_nockchain.Crypto.WireCompat.{vesl_to_x402}
use x402_nockchain.Wallet.Engine.{TxEngine}
use x402_nockchain.Wallet.Kernel.{WalletEngine}
use x402_nockchain.Wallet.Client.{NockchainWalletClient}

-- The loop of `crypto_secret_key`, from chunk `i` on: the chunks are 32 bits each, lowest first.
unfoldable pub scalar_from : ℕ → ℕ → List ℕ → ℕ
scalar_from i scalar [] = scalar
scalar_from i scalar (b ∷ rest) = scalar_from (suc i) (scalar + b * 2 ^ (32 * i)) rest

module _ {N : Encoding} {S : Schnorr} {E : TxEngine} (C : WalletEngine N S E) where
  unfoldable pub crypto_secret_key : NockchainWalletClient C → Result WalletBackendError S.SecretKey
  crypto_secret_key w =
      map_err (λ e. other ("rebuild secret scalar: " <> e))
        (C.private_key (scalar_from 0 0 w.sk_t8))

  unfoldable pub sign_envelope :
      NockchainWalletClient C → Authorization → Result WalletBackendError SchnorrSignatureJson
  sign_envelope w auth = do
    envelope_msg ←
        map_err (λ e. other ("x402 sign_message: " <> sign_message_text C.decode_text e))
          (x402_sign_message_digest N auth)
    sk_priv ← crypto_secret_key w
    pair ←
        map_err (λ e. other ("schnorr_sign envelope: " <> S.schnorr_text e))
          (S.schnorr_sign sk_priv envelope_msg)
    let (chal, sig) = pair
    envelope_signature ←
        map_err (λ e. other ("encode envelope sig: " <> S.schnorr_text e))
          (S.encode_signature (S.public_key sk_priv) chal sig)
    ok (vesl_to_x402 envelope_signature)
