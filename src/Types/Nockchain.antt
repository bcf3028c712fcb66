-- ===== src/Types/Nockchain.antt =====
-- crates/x402-types/src/nockchain.rs
use x402_nockchain.Prelude.{ℕ, String, Option, List}
use x402_nockchain.Types.Payment.{SchnorrSignatureJson, Authorization}

pub record SignedSchnorrAtoms : Type 0 where
  pub chal : List String
  pub sig : List String

pub record SignedPkhSignatureEntry : Type 0 where
  pub hash : String
  pub pubkey : String
  pub signature : SignedSchnorrAtoms

pub record SignedHaxPreimage : Type 0 where
  pub hash : String
  pub value_noun : String

pub record SignedSeed : Type 0 where
  pub output_source_noun : Option String
  pub lock_root : String
  pub note_data_noun : Option String
  pub gift : String
  pub parent_hash : String

pub record SignedWitness : Type 0 where
  pub lock_merkle_proof_noun : String
  pub pkh_signature : List SignedPkhSignatureEntry
  pub hax : List SignedHaxPreimage
  pub tim : ℕ

pub record SignedSpend : Type 0 where
  pub witness : SignedWitness
  pub seeds : List SignedSeed
  pub fee : String

pub record SignedNoteName : Type 0 where
  pub first : String
  pub last : String

pub record SignedSpendEntry : Type 0 where
  pub name : SignedNoteName
  pub spend : SignedSpend

pub record SignedRawTx : Type 0 where
  pub version : String
  pub tx_id : String
  pub spends : List SignedSpendEntry

pub record ExactNockchainPayload : Type 0 where
  pub signature : SchnorrSignatureJson
  pub authorization : Authorization
  pub signed_raw_tx : Option SignedRawTx

abbrev pub UptoNockchainPayload : Type 0
UptoNockchainPayload = ExactNockchainPayload
