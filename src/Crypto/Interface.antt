-- ===== src/Crypto/Interface.antt =====
-- What crates/x402-nockchain-crypto uses of other repositories: the Tip5 hash and its field
-- (vesl-signing), base58 (bs58), byte strings of unbounded integers (ibig) and Schnorr over the
-- Cheetah curve (vesl-signing). Each is a record of functions, with the documented laws that
-- some theorems need in a record of their own.
use x402_nockchain.Prelude.{ℕ, ◌≤◌, ◌<◌, String, ◌≡◌, List, Result, ok, length}
use x402_nockchain.Decimal.{u64_mod}

-- `Belt` is a number, an element of the field with `PRIME` elements.
pub record Encoding : Type 1 where
  pub prime : ℕ
  pub hash_varlen : List ℕ → List ℕ
  pub DecodeError : Type 0
  pub bs58_decode : String → Result DecodeError (List ℕ)
  pub bs58_encode : List ℕ → String
  pub from_be_bytes : List ℕ → ℕ
  pub to_be_bytes : ℕ → List ℕ

pub record IsLawfulEncoding (E : Encoding) : Type 0 where
  pub prime_pos : 0 < E.prime
  pub prime_le : E.prime ≤ u64_mod
  pub length-hash_varlen : (belts : List ℕ) → length (E.hash_varlen belts) ≡ 5
  pub bs58_decode-bs58_encode : (bytes : List ℕ) → E.bs58_decode (E.bs58_encode bytes) ≡ ok bytes
  pub from_be_bytes-to_be_bytes : (n : ℕ) → E.from_be_bytes (E.to_be_bytes n) ≡ n

-- The wire signature of vesl-signing, which crates/x402-nockchain-crypto/src/wire_compat.rs copies.
pub record VeslPair : Type 0 where
  pub chal : List String
  pub sig : List String

pub record VeslSig : Type 0 where
  pub pubkey : String
  pub schnorr : VeslPair

pub record Schnorr : Type 1 where
  pub SecretKey : Type 0
  pub PublicKey : Type 0
  pub Scalar : Type 0
  pub CurveError : Type 0
  pub SchnorrError : Type 0
  pub curve : CurveError → SchnorrError
  pub curve_text : CurveError → String
  pub schnorr_text : SchnorrError → String
  pub public_key : SecretKey → PublicKey
  pub into_base58 : PublicKey → Result CurveError String
  pub to_bytes : PublicKey → Result CurveError (List ℕ)
  pub schnorr_sign : SecretKey → List ℕ → Result SchnorrError (Scalar × Scalar)
  pub schnorr_verify : PublicKey → List ℕ → Scalar → Scalar → Result SchnorrError (Unit {0})
  pub encode_signature : PublicKey → Scalar → Scalar → Result SchnorrError VeslSig
  pub decode_signature : VeslSig → Result SchnorrError (PublicKey × Scalar × Scalar)

-- A signature that was made verifies under the public key, and its wire form reads back.
pub record IsLawfulSchnorr (S : Schnorr) : Type 0 where
  pub verify-sign :
      (sk : S.SecretKey) (digest : List ℕ) (chal sig : S.Scalar)
      → S.schnorr_sign sk digest ≡ ok (chal, sig)
      → S.schnorr_verify (S.public_key sk) digest chal sig ≡ ok tt
  pub decode-encode :
      (pk : S.PublicKey) (chal sig : S.Scalar) (v : VeslSig)
      → S.encode_signature pk chal sig ≡ ok v
      → S.decode_signature v ≡ ok (pk, chal, sig)
