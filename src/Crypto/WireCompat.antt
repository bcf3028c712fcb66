-- ===== src/Crypto/WireCompat.antt =====
-- crates/x402-nockchain-crypto/src/wire_compat.rs
use x402_nockchain.Prelude.{◌≡◌, refl}
use x402_nockchain.Types.Payment.{SchnorrSignatureJson}
use x402_nockchain.Crypto.Interface.{VeslSig}

unfoldable pub vesl_to_x402 : VeslSig → SchnorrSignatureJson
vesl_to_x402 s = record {
  pubkey = s.pubkey;
  schnorr = record { chal = s.schnorr.chal; sig = s.schnorr.sig };
}

unfoldable pub x402_to_vesl : SchnorrSignatureJson → VeslSig
x402_to_vesl s = record {
  pubkey = s.pubkey;
  schnorr = record { chal = s.schnorr.chal; sig = s.schnorr.sig };
}

pub x402_to_vesl-vesl_to_x402 : (s : VeslSig) → x402_to_vesl (vesl_to_x402 s) ≡ s
unfolding x402_to_vesl vesl_to_x402
x402_to_vesl-vesl_to_x402 s = refl
