-- ===== src/Wallet/Kernel.antt =====
-- What the wallet of crates/x402-nockchain-wallet-client/src/lib.rs uses of other repositories on
-- top of `Engine`: locks and proofs, the key and the signature of the chain, and the wallet kernel,
-- whose state each poke may change.
use x402_nockchain.Prelude.{ℕ, String, ◌≡◌, List, Result, ok}
use x402_nockchain.Crypto.Interface.{Encoding, Schnorr}
use x402_nockchain.Wallet.Engine.{
  TxEngine, ChainSignature, PkhSignatureEntry, HaxPreimage, Witness, Seed, Spend, Name,
  SignatureFits,
}

-- `LockMerkleProofFull`, with its `MerkleProof` as the last two fields.
pub record LockMerkleProofFull (Hash SpendCondition : Type 0) : Type 0 where
  pub version : ℕ
  pub spend_condition : SpendCondition
  pub axis : ℕ
  pub root : Hash
  pub path : List Hash

pub record WalletEngine (N : Encoding) (S : Schnorr) (E : TxEngine) : Type 1 where
  -- The `Display` and the `Debug` of a base58 error.
  pub decode_text : N.DecodeError → String
  pub decode_debug : N.DecodeError → String
  pub SpendCondition : Type 0
  pub simple_pkh : E.Hash → SpendCondition
  pub coinbase_pkh : E.Hash → ℕ → SpendCondition
  -- `Lock::SpendCondition(c).hash()`
  pub lock_hash : SpendCondition → Result String E.Hash
  pub full : LockMerkleProofFull E.Hash SpendCondition → E.LockMerkleProof
  pub new_witness :
      E.LockMerkleProof → List (PkhSignatureEntry E) → List (HaxPreimage E) → Witness E
  -- `tas!`, `make_tas`, `bytes_to_atom`, `D` and `T`
  pub tas : String → ℕ
  pub tag : String → E.Noun
  pub atom : List ℕ → E.Noun
  pub direct : ℕ → E.Noun
  pub tuple : List E.Noun → E.Noun
  pub seeds_to_noun : List (Seed E) → E.Noun
  pub to_array : E.Hash → List ℕ
  pub derive_pubkey : List ℕ → E.SchnorrPubkey
  pub pubkey_hash : E.SchnorrPubkey → E.Hash
  pub sign : List ℕ → List ℕ → Result String ChainSignature
  -- `SchnorrPrivateKey::new`
  pub private_key : ℕ → Result String S.SecretKey
  pub Kernel : Type 0
  pub Effects : Type 0
  pub poke : E.Noun → Kernel → Result String Effects × Kernel
  pub extract_hash_from_effect : Effects → String → Result String E.Hash
  pub kernel_tx_id : List (Name E × Spend E) → Kernel → Result String E.Hash × Kernel

-- A witness keeps the signatures that it is made of, and the atoms of a signature are `u64`s.
pub record IsLawfulWalletEngine {N : Encoding} {S : Schnorr} {E : TxEngine} (C : WalletEngine N S E)
    : Type 0 where
  pub new_witness-pkh_signature :
      (proof : E.LockMerkleProof) (entries : List (PkhSignatureEntry E))
      (hax : List (HaxPreimage E))
      → (C.new_witness proof entries hax).pkh_signature ≡ entries
  pub sign-SignatureFits :
      (sk msg : List ℕ) (s : ChainSignature) → C.sign sk msg ≡ ok s → SignatureFits s
