-- ===== src/Client.antt =====
-- crates/x402-client/src/lib.rs: the signer and wallet traits with their stubs, and the builders of
-- a payment payload. The Unix time and the random texts are arguments.
pub mod Policy
pub mod Laws
pub mod Http
use x402_nockchain.Prelude.{
  ℕ, ◌-◌, String, ◌<>◌, Option, none, some, List, [], ◌∷◌, map, Result, ok, map_err, ◌>>=◌, Dict,
}
use x402_nockchain.Types.Json.{Json}
use x402_nockchain.Types.Payment.{
  Authorization, NoteRef, simple_pkh, PaymentPayload, PaymentRequirements, SchnorrSignatureJson,
  all_zero, zero_8,
}
use x402_nockchain.Types.Nockchain.{ExactNockchainPayload, SignedRawTx, SignedSpendEntry}
use x402_nockchain.Crypto.Interface.{Encoding, Schnorr}
use x402_nockchain.Crypto.Signer.{NockchainSigner, sign_authorization, from_identifier}
use x402_nockchain.Facilitator.State.{saturating_add}

-- The trait `Signer`.
pub record Signer (Value : Type 0) : Type 0 where
  pub sign : Authorization → PaymentRequirements Value → Result String SchnorrSignatureJson
  pub identifier : String

unfoldable pub stub_signer : {Value : Type 0} → Signer Value
stub_signer = record { sign = λ _ _. ok (all_zero "stub-pubkey"); identifier = "stub-from" }

-- `impl Signer for NockchainSigner`
module _ (E : Encoding) (S : Schnorr) (decode_text : E.DecodeError → String) where
  abbrev pub signer_of : {Value : Type 0} → NockchainSigner E S decode_text → Signer Value
  signer_of s = record {
    sign = λ auth req. sign_authorization E S decode_text s auth req;
    identifier = from_identifier E S decode_text s;
  }

pub record AuthorizedPayment : Type 0 where
  pub envelope_signature : SchnorrSignatureJson
  pub signed_raw_tx : SignedRawTx

pub data WalletBackendError : Type 0 where
  transport insufficient_funds rejected unsupported other : String → WalletBackendError

-- The `Display` of an error.
unfoldable pub wallet_error_text : WalletBackendError → String
wallet_error_text (transport s) = "wallet transport error: " <> s
wallet_error_text (insufficient_funds s) = "insufficient funds: " <> s
wallet_error_text (rejected s) = "user rejected signing: " <> s
wallet_error_text (unsupported s) = "wallet does not support this transaction shape: " <> s
wallet_error_text (other s) = s

-- The trait `WalletBackend`.
pub record WalletBackend (Value : Type 0) : Type 0 where
  pub payer_pkh : String
  pub payer_pubkey_base58 : String
  pub authorize_and_sign :
      Authorization → PaymentRequirements Value → Result WalletBackendError AuthorizedPayment

-- The spend that the stub wallet makes of one note.
unfoldable pub stub_spend : String → String → Authorization → NoteRef → SignedSpendEntry
stub_spend pkh pubkey auth n = record {
  name = record { first = n.name.first; last = n.name.last };
  spend = record {
    witness = record {
      lock_merkle_proof_noun = "stub";
      pkh_signature =
          (record {
            hash = pkh;
            pubkey = pubkey;
            signature = record { chal = zero_8; sig = zero_8 };
          })
          ∷ [];
      hax = [];
      tim = 0;
    };
    seeds =
        (record {
          output_source_noun = none;
          lock_root = auth.to;
          note_data_noun = none;
          gift = auth.value;
          parent_hash = n.name.first;
        })
        ∷ [];
    fee = auth.fee;
  };
}

unfoldable pub stub_wallet_backend : {Value : Type 0} → String → String → WalletBackend Value
stub_wallet_backend pkh pubkey_base58 = record {
  payer_pkh = pkh;
  payer_pubkey_base58 = pubkey_base58;
  authorize_and_sign = λ auth _. ok (record {
    envelope_signature = all_zero pubkey_base58;
    signed_raw_tx = record {
      version = "v1";
      tx_id = "stub-txid-" <> auth.nonce;
      spends = map (stub_spend pkh pubkey_base58 auth) auth.notes;
    };
  });
}

-- The random texts of a builder: a nonce, and a name for its one note.
pub record Random : Type 0 where
  pub nonce : String
  pub first : String
  pub last : String

infixl 5 ◌>>?◌
abbrev ◌>>?◌ : {A B : Type 0} → Option A → (A → Option B) → Option B
none >>? f = none
some a >>? f = f a

abbrev unwrap_or : Option String → String → String
unwrap_or none d = d
unwrap_or (some s) d = s

module _ (J : Json) where
  open J use {Value, get, as_str, write_exact}

  -- `requirements.extra.minFee`, or "0"
  unfoldable pub min_fee : PaymentRequirements Value → String
  min_fee requirements = unwrap_or ((requirements.extra >>? get "minFee") >>? as_str) "0"

  -- The authorization that both builders make.
  unfoldable pub authorization_for :
      PaymentRequirements Value → String → String → ℕ → List NoteRef → Authorization
  authorization_for requirements from nonce now notes = record {
    from = from;
    to = requirements.pay_to;
    value = requirements.max_amount_required;
    fee = min_fee requirements;
    nonce = nonce;
    valid_after = now - 5;
    valid_before = saturating_add now requirements.max_timeout_seconds;
    notes = notes;
    change_address = from;
  }

  -- The envelope that both builders make.
  abbrev pub envelope_for :
      PaymentRequirements Value → Option (Dict Value) → Value → PaymentPayload Value Value
  envelope_for requirements echo_extensions value = record {
    x402_version = 2;
    scheme = requirements.scheme;
    network = requirements.network;
    payload = value;
    extensions = echo_extensions;
  }

  abbrev pub random_note : PaymentRequirements Value → Random → NoteRef
  random_note requirements random = record {
    name = record { first = random.first; last = random.last };
    assets = requirements.max_amount_required;
    lock = simple_pkh;
  }

  unfoldable pub build_exact_nockchain_payload :
      PaymentRequirements Value
      → Signer Value
      → Option (Dict Value)
      → ℕ
      → Random
      → Result String (PaymentPayload Value Value)
  build_exact_nockchain_payload requirements signer echo_extensions now random = do
    let authorization =
        authorization_for requirements signer.identifier random.nonce now
          (random_note requirements random ∷ [])
    signature ← signer.sign authorization requirements
    payload_value ←
        map_err (λ _. "serialize ExactNockchainPayload")
          (write_exact
            (record { signature = signature; authorization = authorization; signed_raw_tx = none }))
    ok (envelope_for requirements echo_extensions payload_value)

  unfoldable pub build_exact_nockchain_payload_with_wallet :
      PaymentRequirements Value
      → WalletBackend Value
      → List NoteRef
      → Option (Dict Value)
      → ℕ
      → Random
      → Result String (PaymentPayload Value Value)
  build_exact_nockchain_payload_with_wallet requirements wallet notes echo_extensions now random =
      do
        let authorization = authorization_for requirements wallet.payer_pkh random.nonce now notes
        signed ←
            map_err (λ e. "wallet authorize_and_sign failed: " <> wallet_error_text e)
              (wallet.authorize_and_sign authorization requirements)
        payload_value ←
            map_err (λ _. "serialize ExactNockchainPayload")
              (write_exact (record {
                signature = signed.envelope_signature;
                authorization = authorization;
                signed_raw_tx = some signed.signed_raw_tx;
              }))
        ok (envelope_for requirements echo_extensions payload_value)
