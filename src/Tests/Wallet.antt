-- ===== src/Tests/Wallet.antt =====
-- The wallet, its surrogate of a transaction, and the chain client that submits it.
use x402_nockchain.Prelude.{
  ℕ, ◌+◌, String, ◌≡◌, refl, sym, ap, ◌∙◌, ◌↔◌, ◌⊎◌, Bool, true, some, ok, err, ok-injective, [],
  ◌∷◌, Result, try_map, All, arith,
}
use x402_nockchain.Decimal.{parse, parse_codes, parse_digits, scan, to_text_from, digit, to_text}
use x402_nockchain.Crypto.SignMessage.{
  pkh_from_pubkey_bytes, accumulate, bytes_to_belts, chunks, fill_buf, from_le_bytes, reduce,
  decimal_to_belt, u64_to_belt, note_belts, sort_notes, insert_note, base58_to_belts,
  pkh_belts_to_base58, compute_notes_hash, x402_sign_message_belts, x402_sign_message_digest,
}
use x402_nockchain.Crypto.WireCompat.{vesl_to_x402}
use x402_nockchain.Types.Payment.{Authorization}
use x402_nockchain.Types.Nockchain.{ExactNockchainPayload, SignedRawTx}
use x402_nockchain.Types.Facilitator.{SettleRequest}
use x402_nockchain.Facilitator.Chain.{ChainError}
use x402_nockchain.Facilitator.Chain.Grpc.{extract_signed_raw_tx, grpc_chain_client}
use x402_nockchain.Facilitator.Chain.Grpc.Laws.{
  IsSubmission, grpc_settle-cases, grpc_settle-Settles,
}
use x402_nockchain.Wallet.Engine.{RawTx}
use x402_nockchain.Wallet.Surrogate.RoundTrip.{raw_tx_from_surrogate-surrogate_from_raw_tx}
use x402_nockchain.Wallet.Surrogate.Shape.{
  IsV1, raw_tx_from_surrogate-IsV1, IsEncodable, surrogate_from_raw_tx_iff,
}
use x402_nockchain.Wallet.Client.Solvency.{Solvent}
use x402_nockchain.Wallet.Client.Envelope.Laws.{SameKey}
use x402_nockchain.Wallet.Client.Signing.Laws.{
  Settles, authorize_and_sign-Settles, authorize_and_sign-refused,
}
use x402_nockchain.Client.{WalletBackendError}
use x402_nockchain.Wallet.Surrogate.{
  schnorr_to_atoms, encode_noun, signed_pkh_entry, signed_hax, signed_seed, signed_witness,
  signed_spend, signed_spend_entry, surrogate_from_raw_tx, raw_tx_from_surrogate,
}
use x402_nockchain.Wallet.Client.{
  NockchainWalletClient, from_signing_key, plan, parse_decimal, only_note, amounts_of,
  build_input_condition, base58_hash, change_seeds,
}
use x402_nockchain.Wallet.Client.Envelope.{scalar_from, crypto_secret_key, sign_envelope}
use x402_nockchain.Wallet.Client.Signing.{
  jam_seeds_canonical, sig_hash_of, kernel_sig_hash_canonical, witness_of, spends_of, sign_plan,
  authorize_and_sign,
}
use x402_nockchain.Tests.Samples.{encoding, dec, enc, ones, sum, sender, Node, exact, requirements}
use x402_nockchain.Tests.Crypto.{payload}
use x402_nockchain.Tests.WalletSamples.{
  tx_engine, tx_engine-IsLawfulTxEngine, wallet_engine, wallet_engine-IsLawfulWalletEngine,
  wallet_auth, sk_t8, wallet_json, payment, full_tx,
}

abbrev pub wallet : NockchainWalletClient wallet_engine
wallet = record {
  payer_pkh_envelope_b58 = sender;
  payer_pkh_chain = 2;
  payer_pkh_chain_b58 = enc (2 ∷ []);
  payer_pubkey_b58 = enc (2 ∷ []);
  payer_pubkey = 2;
  sk_t8 = sk_t8;
}

pub made : from_signing_key wallet_engine sk_t8 ≡ ok wallet
unfolding from_signing_key enc pkh_from_pubkey_bytes pkh_belts_to_base58 accumulate bytes_to_belts
    chunks fill_buf from_le_bytes ones sum dec
made = refl

authorized : authorize_and_sign wallet_engine wallet wallet_auth 0 ≡ (ok payment, 2)
unfolding authorize_and_sign sign_plan plan only_note amounts_of parse_decimal parse parse_codes
    parse_digits scan base58_hash change_seeds build_input_condition kernel_sig_hash_canonical
    sig_hash_of jam_seeds_canonical spends_of witness_of surrogate_from_raw_tx signed_spend_entry
    signed_spend signed_witness signed_pkh_entry signed_hax signed_seed schnorr_to_atoms encode_noun
    sign_envelope crypto_secret_key scalar_from x402_sign_message_digest x402_sign_message_belts
    base58_to_belts reduce decimal_to_belt u64_to_belt compute_notes_hash note_belts sort_notes
    insert_note bytes_to_belts chunks fill_buf from_le_bytes vesl_to_x402 to_text to_text_from digit
    dec sum ones enc try_map
authorized = refl

authorize_and_sign-Settles_example :
    (raw : RawTx tx_engine) × (raw_tx_from_surrogate tx_engine payment.signed_raw_tx ≡ ok raw)
    × Settles wallet_engine wallet wallet_auth raw
authorize_and_sign-Settles_example =
    authorize_and_sign-Settles wallet_engine tx_engine-IsLawfulTxEngine
      wallet_engine-IsLawfulWalletEngine wallet wallet_auth payment 0 2 authorized

-- An authorization without notes.
abbrev poor_auth : Authorization
poor_auth = record wallet_auth { notes = [] }

poor : ¬ (Solvent sender poor_auth)
poor h = let e = h.single in cc

authorize_and_sign-refused_example :
    (e : WalletBackendError) × (authorize_and_sign wallet_engine wallet poor_auth 8 ≡ (err e, 8))
authorize_and_sign-refused_example =
    authorize_and_sign-refused wallet_engine wallet poor_auth 8 poor

pub same_key : SameKey wallet_engine sk_t8
unfolding scalar_from enc dec ones
same_key sk text bytes key named read =
    let e : 2 ≡ sk = ok-injective key in
    let t : enc (2 ∷ []) ≡ text = ok-injective named in
    ap (λ k. ok (k ∷ [])) (sym e) ∙ ap encoding.bs58_decode t ∙ read

full_signed : (signed : SignedRawTx) × (surrogate_from_raw_tx tx_engine full_tx ≡ ok signed)
unfolding authorize_and_sign sign_plan plan only_note amounts_of parse_decimal parse parse_codes
    parse_digits scan base58_hash change_seeds build_input_condition kernel_sig_hash_canonical
    sig_hash_of jam_seeds_canonical spends_of witness_of surrogate_from_raw_tx signed_spend_entry
    signed_spend signed_witness signed_pkh_entry signed_hax signed_seed schnorr_to_atoms encode_noun
    sign_envelope crypto_secret_key scalar_from x402_sign_message_digest x402_sign_message_belts
    base58_to_belts reduce decimal_to_belt u64_to_belt compute_notes_hash note_belts sort_notes
    insert_note bytes_to_belts chunks fill_buf from_le_bytes vesl_to_x402 to_text to_text_from digit
    dec sum ones enc try_map
full_signed = (_, refl)

raw_tx_from_surrogate-surrogate_from_raw_tx_example :
    raw_tx_from_surrogate tx_engine full_signed.0 ≡ ok full_tx
raw_tx_from_surrogate-surrogate_from_raw_tx_example =
    raw_tx_from_surrogate-surrogate_from_raw_tx tx_engine-IsLawfulTxEngine full_tx full_signed.0
      (omega arith, tt) full_signed.1

raw_tx_from_surrogate-IsV1_example : IsV1 tx_engine full_tx
raw_tx_from_surrogate-IsV1_example = raw_tx_from_surrogate-IsV1 tx_engine full_signed.0 full_tx (
    raw_tx_from_surrogate-surrogate_from_raw_tx tx_engine-IsLawfulTxEngine full_tx full_signed.0
      (omega arith, tt) full_signed.1)

surrogate_from_raw_tx_iff_example :
    ((signed : SignedRawTx) × (surrogate_from_raw_tx tx_engine full_tx ≡ ok signed))
    ↔ ((full_tx.version ≡ 1) × All (IsEncodable tx_engine) full_tx.spends)
surrogate_from_raw_tx_iff_example = surrogate_from_raw_tx_iff tx_engine full_tx

abbrev nock : ExactNockchainPayload
nock = record {
  signature = payment.envelope_signature;
  authorization = wallet_auth;
  signed_raw_tx = some payment.signed_raw_tx;
}

abbrev request : SettleRequest Node
request = record { payload = record payload { payload = exact nock }; requirements = requirements }

-- A node that counts submissions and accepts each.
abbrev node : RawTx tx_engine → String → ℕ → Result String Bool × ℕ
node raw tx_id chain = (ok true, chain + 1)

found : extract_signed_raw_tx wallet_json tx_engine request ≡ ok payment.signed_raw_tx
unfolding extract_signed_raw_tx
found = refl

grpc_settle-Settles_example :
    (raw : RawTx tx_engine) × Settles wallet_engine wallet wallet_auth raw
    × IsSubmission wallet_json tx_engine node payment.signed_raw_tx raw 4
        ((grpc_chain_client wallet_json tx_engine node).settle request 4)
grpc_settle-Settles_example =
    grpc_settle-Settles wallet_json tx_engine node wallet_engine tx_engine-IsLawfulTxEngine
      wallet_engine-IsLawfulWalletEngine wallet wallet_auth payment 0 2 request 4 authorized found

grpc_settle-cases_example :
    ((e : ChainError) × ((grpc_chain_client wallet_json tx_engine node).settle request 4
        ≡ (err e, 4)))
    ⊎ ((signed : SignedRawTx) × (raw : RawTx tx_engine) × (extract_signed_raw_tx wallet_json
            tx_engine request
          ≡ ok signed)
        × IsSubmission wallet_json tx_engine node signed raw 4
            ((grpc_chain_client wallet_json tx_engine node).settle request 4))
grpc_settle-cases_example = grpc_settle-cases wallet_json tx_engine node request 4
