-- ===== src/Wallet/Engine.antt =====
-- What crates/x402-nockchain-wallet-client uses of other repositories to build a transaction: the
-- types of nockchain-types, nouns with their codecs (nockapp, noun-serde) and base64. An error of
-- that code is the text that the program prints for it.
use x402_nockchain.Prelude.{ℕ, ◌<◌, String, ◌≡◌, Option, List, Result, ok, Eq, All}
use x402_nockchain.Decimal.{u64_mod}

-- The traits `NounEncode` and `NounDecode` of a type.
pub record NounCodec (Noun T : Type 0) : Type 0 where
  pub to_noun : T → Noun
  pub from_noun : Noun → Result String T

pub record TxEngine : Type 1 where
  pub Hash : Type 0
  pub hash_to_base58 : Hash → String
  pub hash_from_base58 : String → Result String Hash
  pub SchnorrPubkey : Type 0
  pub pubkey_to_base58 : SchnorrPubkey → Result String String
  pub pubkey_from_base58 : String → Result String SchnorrPubkey
  pub Version : Type 0
  pub v1 : Version
  pub version_eq : Eq Version
  -- A spend of the old transaction format.
  pub Spend0 : Type 0
  pub LockMerkleProof : Type 0
  pub Source : Type 0
  pub NoteDataEntry : Type 0
  pub Noun : Type 0
  pub proof_codec : NounCodec Noun LockMerkleProof
  pub source_codec : NounCodec Noun Source
  pub note_data_codec : NounCodec Noun (List NoteDataEntry)
  pub jam : Noun → List ℕ
  pub cue : List ℕ → Result String Noun
  pub b64_encode : List ℕ → String
  pub b64_decode : String → Result String (List ℕ)

-- Each decoder reads what its encoder wrote.
pub record IsLawfulCodec {Noun T : Type 0} (C : NounCodec Noun T) : Type 0 where
  pub from-to_noun : (t : T) → C.from_noun (C.to_noun t) ≡ ok t

pub record IsLawfulTxEngine (E : TxEngine) : Type 0 where
  pub hash_from-to_base58 : (h : E.Hash) → E.hash_from_base58 (E.hash_to_base58 h) ≡ ok h
  pub pubkey_from-to_base58 :
      (k : E.SchnorrPubkey) (s : String)
      → E.pubkey_to_base58 k ≡ ok s
      → E.pubkey_from_base58 s ≡ ok k
  pub proof_lawful : IsLawfulCodec E.proof_codec
  pub source_lawful : IsLawfulCodec E.source_codec
  pub note_data_lawful : IsLawfulCodec E.note_data_codec
  pub cue-jam : (n : E.Noun) → E.cue (E.jam n) ≡ ok n
  pub b64_decode-encode : (bytes : List ℕ) → E.b64_decode (E.b64_encode bytes) ≡ ok bytes

-- The transaction types of nockchain-types, with the fields that the program reads and fills. A
-- `Belt` and a `Nicks` are the number in them; a `[Belt; 8]` is a list.
pub record ChainSignature : Type 0 where
  pub chal : List ℕ
  pub sig : List ℕ

module _ (E : TxEngine) where
  pub record PkhSignatureEntry : Type 0 where
    pub hash : E.Hash
    pub pubkey : E.SchnorrPubkey
    pub signature : ChainSignature

  pub record HaxPreimage : Type 0 where
    pub hash : E.Hash
    pub value : List ℕ

  pub record Witness : Type 0 where
    pub lock_merkle_proof : E.LockMerkleProof
    pub pkh_signature : List PkhSignatureEntry
    pub hax : List HaxPreimage
    pub tim : ℕ

  pub record Seed : Type 0 where
    pub output_source : Option E.Source
    pub lock_root : E.Hash
    pub note_data : List E.NoteDataEntry
    pub gift : ℕ
    pub parent_hash : E.Hash

  pub record Spend1 : Type 0 where
    pub witness : Witness
    pub seeds : List Seed
    pub fee : ℕ

  pub data Spend : Type 0 where
    witness : Spend1 → Spend
    legacy : E.Spend0 → Spend

  pub record Name : Type 0 where
    pub first : E.Hash
    pub last : E.Hash

  pub record RawTx : Type 0 where
    pub version : E.Version
    pub id : E.Hash
    pub spends : List (Name × Spend)

-- The ranges of the Rust types: every number of a transaction is a `u64`.
abbrev pub FitsU64 : ℕ → Type 0
FitsU64 n = n < u64_mod

pub record SignatureFits (s : ChainSignature) : Type 0 where
  pub chal : All FitsU64 s.chal
  pub sig : All FitsU64 s.sig

module _ (E : TxEngine) where
  pub record Spend1Fits (s : Spend1 E) : Type 0 where
    pub signatures :
        All (λ (e : PkhSignatureEntry E). SignatureFits e.signature) s.witness.pkh_signature
    pub gifts : All (λ (seed : Seed E). FitsU64 seed.gift) s.seeds
    pub fee : FitsU64 s.fee

  abbrev pub SpendFits : Name E × Spend E → Type 0
  SpendFits (name, witness s) = Spend1Fits s
  SpendFits (name, legacy s) = Unit
