-- ===== src/Wallet/Client.antt =====
-- crates/x402-nockchain-wallet-client/src/lib.rs: the wallet client, and the plan of a payment:
-- `authorize_and_sign` up to its first poke, where nothing outside is touched.
pub mod Envelope
pub mod Signing
pub mod Solvency
pub mod Outputs
use x402_nockchain.Prelude.{
  ℕ, ◌+◌, ◌-◌, String, ◌<>◌, Option, none, some, List, [], ◌∷◌, ◌++◌, Result, ok, err, guard, ok_or,
  map_err, ◌>>=◌, ◌>>◌, ltb, leb, ◌==◌, string_eq, if◌then◌else◌, length,
}
use x402_nockchain.Decimal.{u64_mod, to_text, parse}
use x402_nockchain.Types.Payment.{Authorization, NoteRef, NoteLock}
use x402_nockchain.Client.{WalletBackendError, insufficient_funds, unsupported, other}
use x402_nockchain.Crypto.Interface.{Encoding, Schnorr}
use x402_nockchain.Crypto.SignMessage.{pkh_from_pubkey_bytes}
use x402_nockchain.Wallet.Engine.{TxEngine, Seed}
use x402_nockchain.Wallet.Kernel.{WalletEngine}

unfoldable pub parse_decimal : String → String → Result WalletBackendError ℕ
parse_decimal s field =
    ok_or (parse u64_mod s) (other ("decode " <> field <> " `" <> s <> "` as u64"))

-- `auth.notes` when there is exactly one.
unfoldable pub only_note : List NoteRef → Result WalletBackendError NoteRef
only_note (note ∷ []) = ok note
only_note notes = err (
    unsupported (
      "NockchainWalletClient currently supports exactly one input note (auth.notes had "
      <> to_text (length notes)
      <> "). Multi-input spend support is deferred — it depends on lifting the single-spend constraint in `vesl_core::tx_builder::jam_spends_manual`."))

-- The amounts of a payment, each a `u64`.
pub record Amounts : Type 0 where
  pub value : ℕ
  pub fee : ℕ
  pub change : ℕ

-- The solvency check.
unfoldable pub amounts_of : Authorization → NoteRef → Result WalletBackendError Amounts
amounts_of auth note = do
  value ← parse_decimal auth.value "auth.value"
  fee ← parse_decimal auth.fee "auth.fee"
  assets ← parse_decimal note.assets "auth.notes[0].assets"
  let needed = value + fee
  guard (ltb needed u64_mod) (other "value + fee overflows u64")
  guard (leb needed assets) (
      insufficient_funds (
        "input note carries "
        <> to_text assets
        <> " nicks but auth.value + auth.fee = "
        <> to_text needed))
  ok (record { value = value; fee = fee; change = assets - needed })

module _ {N : Encoding} {S : Schnorr} {E : TxEngine} (C : WalletEngine N S E) where
  open C use {simple_pkh, coinbase_pkh, lock_hash, derive_pubkey, pubkey_hash}

  -- The handles of the chain and of the kernel are not fields here: the kernel's state is passed.
  pub record NockchainWalletClient : Type 0 where
    pub payer_pkh_envelope_b58 : String
    pub payer_pkh_chain : E.Hash
    pub payer_pkh_chain_b58 : String
    pub payer_pubkey_b58 : String
    pub payer_pubkey : E.SchnorrPubkey
    pub sk_t8 : List ℕ

  unfoldable pub from_signing_key : List ℕ → Result WalletBackendError NockchainWalletClient
  from_signing_key sk_t8 = do
    let payer_pubkey = derive_pubkey sk_t8
    let payer_pkh_chain = pubkey_hash payer_pubkey
    payer_pubkey_b58 ←
        map_err (λ e. other ("encode pubkey base58: " <> e)) (E.pubkey_to_base58 payer_pubkey)
    pk_bytes ←
        map_err (λ e. other ("decode pubkey b58: " <> C.decode_debug e))
          (N.bs58_decode payer_pubkey_b58)
    ok (record {
      payer_pkh_envelope_b58 = pkh_from_pubkey_bytes N pk_bytes;
      payer_pkh_chain = payer_pkh_chain;
      payer_pkh_chain_b58 = E.hash_to_base58 payer_pkh_chain;
      payer_pubkey_b58 = payer_pubkey_b58;
      payer_pubkey = payer_pubkey;
      sk_t8 = sk_t8;
    })

  unfoldable pub build_input_condition : E.Hash → NoteLock → C.SpendCondition
  build_input_condition payer_pkh NoteLock.simple_pkh = simple_pkh payer_pkh
  build_input_condition payer_pkh (NoteLock.coinbase_pkh timelock_min) =
      coinbase_pkh payer_pkh timelock_min

  unfoldable pub base58_hash : String → String → Result WalletBackendError E.Hash
  base58_hash s field =
      map_err (λ e. other ("decode " <> field <> ": " <> e)) (E.hash_from_base58 s)

  abbrev pub lock_root_of : String → C.SpendCondition → Result WalletBackendError E.Hash
  lock_root_of what condition =
      map_err (λ e. other (what <> " lock hash: " <> e)) (lock_hash condition)

  abbrev pub output_seed : E.Hash → ℕ → E.Hash → Seed E
  output_seed lock_root gift parent_hash = record {
    output_source = none;
    lock_root = lock_root;
    note_data = [];
    gift = gift;
    parent_hash = parent_hash;
  }

  -- The seed that returns the change, if there is any.
  unfoldable pub change_seeds :
      Authorization → ℕ → E.Hash → Result WalletBackendError (List (Seed E))
  change_seeds auth change parent_hash =
      if ltb 0 change
      then (do
        change_pkh ← base58_hash auth.change_address "auth.change_address"
        change_lock_root ← lock_root_of "change" (simple_pkh change_pkh)
        ok (output_seed change_lock_root change parent_hash ∷ []))
      else ok []

  -- What the steps 1 to 4 work out.
  pub record Planned : Type 0 where
    pub input_first : E.Hash
    pub input_last : E.Hash
    pub input_condition : C.SpendCondition
    pub input_lock_root : E.Hash
    pub seeds : List (Seed E)
    pub fee : ℕ

  unfoldable pub plan : NockchainWalletClient → Authorization → Result WalletBackendError Planned
  plan w auth = do
    guard (auth.from == w.payer_pkh_envelope_b58) (
        other (
          "authorization.from (" <> auth.from <> ") does not match this wallet's envelope PKH ("
          <> w.payer_pkh_envelope_b58 <> ")"))
    note ← only_note auth.notes
    amounts ← amounts_of auth note
    recipient_pkh ← base58_hash auth.to "auth.to"
    parent_hash ← base58_hash note.name.last "auth.notes[0].name.last"
    input_first ← base58_hash note.name.first "auth.notes[0].name.first"
    recipient_lock_root ← lock_root_of "output" (simple_pkh recipient_pkh)
    let input_condition = build_input_condition w.payer_pkh_chain note.lock
    input_lock_root ← lock_root_of "input" input_condition
    change ← change_seeds auth amounts.change parent_hash
    ok (record {
      input_first = input_first;
      input_last = parent_hash;
      input_condition = input_condition;
      input_lock_root = input_lock_root;
      seeds = output_seed recipient_lock_root amounts.value parent_hash ∷ change;
      fee = amounts.fee;
    })
