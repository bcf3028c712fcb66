-- ===== src/Tests/WalletSamples.antt =====
-- Concrete instances of the interfaces of the wallet: a hash and a key are numbers, a noun is its
-- bytes, base64 is the unary text of `Samples`, and the kernel counts its pokes.
use x402_nockchain.Prelude.{
  ℕ, ◌+◌, String, ◌≡◌, refl, ap, List, [], ◌∷◌, Option, none, some, Result, ok, err, ok_or, map_err,
  nat_eq, arith, ok-injective, subst, sym, ◌∙◌,
}
use x402_nockchain.Decimal.{codes}
use x402_nockchain.Types.Json.{Json}
use x402_nockchain.Types.Nockchain.{SignedRawTx}
use x402_nockchain.Types.Payment.{zero_8, Authorization, NoteRef}
use x402_nockchain.Client.{AuthorizedPayment}
use x402_nockchain.Wallet.Engine.{
  TxEngine, IsLawfulTxEngine, ChainSignature, SignatureFits, RawTx, Spend,
}
use x402_nockchain.Wallet.Kernel.{WalletEngine, IsLawfulWalletEngine}
use x402_nockchain.Tests.Samples.{
  encoding, schnorr, dec, enc, dec-enc, note, auth, decode_text, json, Node, exact,
}

abbrev bytes_of : String → Result String (List ℕ)
bytes_of s = map_err (λ _. "text") (dec (codes s) 0)

abbrev single : Result String (List ℕ) → Result String ℕ
single (ok (n ∷ [])) = ok n
single (ok _) = err "length"
single (err e) = err e

bytes_of-enc : (bytes : List ℕ) → bytes_of (enc bytes) ≡ ok bytes
bytes_of-enc bytes = ap (map_err (λ _. "text")) (dec-enc bytes)

abbrev pub tx_engine : TxEngine
tx_engine = record {
  Hash = ℕ;
  hash_to_base58 = λ h. enc (h ∷ []);
  hash_from_base58 = λ s. single (bytes_of s);
  SchnorrPubkey = ℕ;
  pubkey_to_base58 = λ k. ok (enc (k ∷ []));
  pubkey_from_base58 = λ s. single (bytes_of s);
  Version = ℕ;
  v1 = 1;
  version_eq = nat_eq;
  Spend0 = Unit {0};
  LockMerkleProof = ℕ;
  Source = ℕ;
  NoteDataEntry = ℕ;
  Noun = List ℕ;
  proof_codec = record { to_noun = λ p. p ∷ []; from_noun = λ n. single (ok n) };
  source_codec = record { to_noun = λ p. p ∷ []; from_noun = λ n. single (ok n) };
  note_data_codec = record { to_noun = λ d. d; from_noun = λ n. ok n };
  jam = λ n. n;
  cue = λ bytes. ok bytes;
  b64_encode = enc;
  b64_decode = bytes_of;
}

pub tx_engine-IsLawfulTxEngine : IsLawfulTxEngine tx_engine
tx_engine-IsLawfulTxEngine = record {
  hash_from-to_base58 = λ h. ap single (bytes_of-enc (h ∷ []));
  pubkey_from-to_base58 = λ k s h.
      ap (λ t. single (bytes_of t)) (sym (ok-injective h)) ∙ ap single (bytes_of-enc (k ∷ []));
  proof_lawful = record { from-to_noun = λ p. refl };
  source_lawful = record { from-to_noun = λ p. refl };
  note_data_lawful = record { from-to_noun = λ d. refl };
  cue-jam = λ n. refl;
  b64_decode-encode = bytes_of-enc;
}

abbrev first_chunk : List ℕ → ℕ
first_chunk [] = 0
first_chunk (b ∷ rest) = b

abbrev pub wallet_engine : WalletEngine encoding schnorr tx_engine
wallet_engine = record {
  decode_text = decode_text;
  decode_debug = decode_text;
  SpendCondition = ℕ;
  simple_pkh = λ h. h;
  coinbase_pkh = λ h n. h + n + 1000;
  lock_hash = λ c. ok (c + 1);
  full = λ p. p.root;
  new_witness = λ p entries hax. record {
    lock_merkle_proof = p;
    pkh_signature = entries;
    hax = hax;
    tim = 0;
  };
  tas = λ s. 7;
  tag = λ s. 1 ∷ [];
  atom = λ bytes. bytes;
  direct = λ n. n ∷ [];
  tuple = λ nouns. [];
  seeds_to_noun = λ seeds. [];
  to_array = λ h. h ∷ [];
  derive_pubkey = first_chunk;
  pubkey_hash = λ k. k;
  sign = λ sk msg. ok (record { chal = 1 ∷ []; sig = 2 ∷ [] });
  private_key = λ n. ok n;
  Kernel = ℕ;
  Effects = ℕ;
  poke = λ n kernel. (ok kernel, kernel + 1);
  extract_hash_from_effect = λ effects what. ok (effects + 4);
  kernel_tx_id = λ spends kernel. (ok (kernel + 5), kernel + 1);
}

one_and_two : (s : ChainSignature) → record { chal = 1 ∷ []; sig = 2 ∷ [] } ≡ s → SignatureFits s
one_and_two s e =
    subst SignatureFits e (record { chal = (omega arith, tt); sig = (omega arith, tt) })

pub wallet_engine-IsLawfulWalletEngine : IsLawfulWalletEngine wallet_engine
wallet_engine-IsLawfulWalletEngine = record {
  new_witness-pkh_signature = λ proof entries hax. refl;
  sign-SignatureFits = λ sk msg s h. one_and_two s (ok-injective h);
}

-- A note that holds more than the payment.
abbrev pub rich_note : NoteRef
rich_note = record note { assets = "9" }

abbrev pub wallet_auth : Authorization
wallet_auth = record auth { fee = "1"; notes = rich_note ∷ [] }

abbrev pub sk_t8 : List ℕ
sk_t8 = 2 ∷ []

abbrev stored : Node → Option SignedRawTx
stored (exact p) = p.signed_raw_tx
stored _ = none

-- JSON values as in `Samples`, where a payload holds its surrogate.
abbrev pub wallet_json : Json
wallet_json = record json { get = λ key v. some v; read_signed_raw_tx = λ v. ok_or (stored v) tt }

-- The payment that the wallet makes for `wallet_auth`.
abbrev pub payment : AuthorizedPayment
payment = record {
  envelope_signature = record {
    pubkey = "11212111111112";
    schnorr = record { chal = zero_8; sig = zero_8 };
  };
  signed_raw_tx = record {
    version = "v1";
    tx_id = "1111112";
    spends =
        (record {
          name = record { first = "12"; last = "1112" };
          spend = record {
            witness = record {
              lock_merkle_proof_noun = "1112";
              pkh_signature =
                  (record {
                    hash = "112";
                    pubkey = "112";
                    signature = record { chal = "1" ∷ []; sig = "2" ∷ [] };
                  })
                  ∷ [];
              hax = [];
              tim = 0;
            };
            seeds =
                (record {
                  output_source_noun = none;
                  lock_root = "112";
                  note_data_noun = none;
                  gift = "5";
                  parent_hash = "1112";
                })
                ∷ (record {
                  output_source_noun = none;
                  lock_root = enc (195 ∷ []);
                  note_data_noun = none;
                  gift = "3";
                  parent_hash = "1112";
                })
                ∷ [];
            fee = "1";
          };
        })
        ∷ [];
  };
}

-- A transaction with a preimage, a source and note data.
abbrev pub full_tx : RawTx tx_engine
full_tx = record {
  version = 1;
  id = 7;
  spends =
      (
        record { first = 1; last = 2 },
        Spend.witness (record {
          witness = record {
            lock_merkle_proof = 4;
            pkh_signature =
                (record {
                  hash = 2;
                  pubkey = 3;
                  signature = record { chal = 1 ∷ 12 ∷ []; sig = 30 ∷ [] };
                })
                ∷ [];
            hax = (record { hash = 5; value = 1 ∷ 0 ∷ 2 ∷ [] }) ∷ [];
            tim = 6;
          };
          seeds =
              (record {
                output_source = some 3;
                lock_root = 1;
                note_data = 4 ∷ 1 ∷ [];
                gift = 50;
                parent_hash = 2;
              })
              ∷ [];
          fee = 10;
        }),
      )
      ∷ [];
}
