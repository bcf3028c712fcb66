-- ===== src/Wallet/Client/Signing.antt =====
-- `authorize_and_sign` of crates/x402-nockchain-wallet-client/src/lib.rs as a whole. The state of
-- the wallet kernel is passed from poke to poke.
pub mod Laws
use x402_nockchain.Prelude.{
  ℕ, suc, ◌+◌, ◌*◌, ◌^◌, String, ◌<>◌, List, [], ◌∷◌, Result, ok, err, map_err,
}
use x402_nockchain.Prelude.Actions.{Act, ◌>>=◌, lift}
use x402_nockchain.Types.Payment.{Authorization, PaymentRequirements, SchnorrSignatureJson}
use x402_nockchain.Client.{WalletBackend, WalletBackendError, other, AuthorizedPayment}
use x402_nockchain.Crypto.Interface.{Encoding, Schnorr}
use x402_nockchain.Crypto.SignMessage.{x402_sign_message_digest}
use x402_nockchain.Crypto.Signer.{sign_message_text}
use x402_nockchain.Crypto.WireCompat.{vesl_to_x402}
use x402_nockchain.Wallet.Engine.{
  TxEngine, ChainSignature, Witness, Seed, Spend, Spend1, Name, RawTx,
}
use x402_nockchain.Wallet.Kernel.{WalletEngine, LockMerkleProofFull}
use x402_nockchain.Wallet.Surrogate.{surrogate_from_raw_tx}
use x402_nockchain.Wallet.Client.{NockchainWalletClient, Planned, plan}
use x402_nockchain.Wallet.Client.Envelope.{sign_envelope}

module _ {N : Encoding} {S : Schnorr} {E : TxEngine} (C : WalletEngine N S E) where
  open C use {
    full, new_witness, tas, tag, atom, direct, tuple, seeds_to_noun, to_array, sign, Kernel, poke,
    extract_hash_from_effect, kernel_tx_id,
  }

  -- A poke, whose error is told under a heading.
  abbrev pub poked :
      {A : Type 0} → String → (Kernel → Result String A × Kernel) → Act WalletBackendError Kernel A
  poked what action kernel =
      let (result, kernel') = action kernel in (map_err (λ e. other (what <> e)) result, kernel')

  unfoldable pub jam_seeds_canonical : List (Seed E) → List ℕ
  jam_seeds_canonical seeds = E.jam (seeds_to_noun seeds)

  -- The hash in the effects of a poke that went well.
  unfoldable pub sig_hash_of : Result String C.Effects × Kernel → Result String E.Hash × Kernel
  sig_hash_of (ok effects, kernel) = (extract_hash_from_effect effects "sig-hash", kernel)
  sig_hash_of (err e, kernel) = (err ("sig-hash poke failed: " <> e), kernel)

  unfoldable pub kernel_sig_hash_canonical :
      List (Seed E) → ℕ → Kernel → Result String E.Hash × Kernel
  kernel_sig_hash_canonical seeds fee kernel =
      sig_hash_of
        (poke (tuple (tag "sig-hash" ∷ atom (jam_seeds_canonical seeds) ∷ direct fee ∷ [])) kernel)

  -- The steps 7 and 8.
  unfoldable pub witness_of : NockchainWalletClient C → Planned C → ChainSignature → Witness E
  witness_of w p chain_signature =
      new_witness
        (full (record {
          version = tas "full";
          spend_condition = p.input_condition;
          axis = 1;
          root = p.input_lock_root;
          path = [];
        }))
        ((record { hash = w.payer_pkh_chain; pubkey = w.payer_pubkey; signature = chain_signature })
          ∷ [])
        []

  unfoldable pub spends_of :
      NockchainWalletClient C → Planned C → ChainSignature → List (Name E × Spend E)
  spends_of w p chain_signature =
      (
        record { first = p.input_first; last = p.input_last },
        Spend.witness
            (record { witness = witness_of w p chain_signature; seeds = p.seeds; fee = p.fee }),
      )
      ∷ []

  -- The steps 5 to 12, from a plan on.
  unfoldable pub sign_plan :
      NockchainWalletClient C
      → Authorization
      → Planned C
      → Act WalletBackendError Kernel AuthorizedPayment
  sign_plan w auth p = do
    sig_hash ← poked "kernel %sig-hash poke: " (kernel_sig_hash_canonical p.seeds p.fee)
    chain_signature ← lift (
        map_err (λ e. other ("vesl_core::signing::sign (chain): " <> e))
          (sign w.sk_t8 (to_array sig_hash)))
    let spends = spends_of w p chain_signature
    tx_id ← poked "kernel %tx-id poke: " (kernel_tx_id spends)
    signed_raw_tx ← lift (
        map_err (λ e. other ("surrogate encode: " <> e))
          (surrogate_from_raw_tx E (record { version = E.v1; id = tx_id; spends = spends })))
    envelope_signature ← lift (sign_envelope C w auth)
    lift (ok (record { envelope_signature = envelope_signature; signed_raw_tx = signed_raw_tx }))

  unfoldable pub authorize_and_sign :
      NockchainWalletClient C → Authorization → Act WalletBackendError Kernel AuthorizedPayment
  authorize_and_sign w auth = do p ← lift (plan C w auth); sign_plan w auth p

  -- `impl WalletBackend`, over the kernel's state at the call.
  unfoldable pub wallet_backend :
      {Value : Type 0} → NockchainWalletClient C → Kernel → WalletBackend Value
  wallet_backend w kernel = record {
    payer_pkh = w.payer_pkh_envelope_b58;
    payer_pubkey_base58 = w.payer_pubkey_b58;
    authorize_and_sign = λ auth _. (authorize_and_sign w auth kernel).0;
  }
