-- ===== src/Tests/Payment.antt =====
-- A payment from the wallet's builder to the checks of the facilitator.
use x402_nockchain.Prelude.{◌≡◌, refl, inl, none, [], ◌∷◌, ok, try_map, arith}
use x402_nockchain.Decimal.{parse, parse_codes, parse_digits, scan, to_text_from, digit, to_text}
use x402_nockchain.Crypto.SignMessage.{
  reduce, decimal_to_belt, u64_to_belt, note_belts, sort_notes, insert_note, base58_to_belts,
  compute_notes_hash, x402_sign_message_belts, x402_sign_message_digest, bytes_to_belts, chunks,
  fill_buf, from_le_bytes,
}
use x402_nockchain.Crypto.WireCompat.{vesl_to_x402}
use x402_nockchain.Types.Payment.{PaymentPayload}
use x402_nockchain.Facilitator.State
use x402_nockchain.Facilitator.State.{saturating_add}
use x402_nockchain.Facilitator.Envelope.Laws.{Passes}
use x402_nockchain.Client.{build_exact_nockchain_payload_with_wallet, authorization_for, min_fee}
use x402_nockchain.Wallet.Surrogate.{
  schnorr_to_atoms, encode_noun, signed_pkh_entry, signed_hax, signed_seed, signed_witness,
  signed_spend, signed_spend_entry, surrogate_from_raw_tx,
}
use x402_nockchain.Wallet.Client.{
  plan, parse_decimal, only_note, amounts_of, build_input_condition, base58_hash, change_seeds,
}
use x402_nockchain.Wallet.Client.Envelope.{scalar_from, crypto_secret_key, sign_envelope}
use x402_nockchain.Wallet.Client.Signing.{
  jam_seeds_canonical, sig_hash_of, kernel_sig_hash_canonical, witness_of, spends_of, sign_plan,
  authorize_and_sign, wallet_backend,
}
use x402_nockchain.Wallet.Payment.{Carries, build_with_wallet-Passes}
use x402_nockchain.Tests.Samples.{
  json, json-IsLawfulJson, Node, schnorr-IsLawfulSchnorr, dec, enc, ones, sum, requirements,
}
use x402_nockchain.Tests.WalletSamples.{
  tx_engine-IsLawfulTxEngine, wallet_engine, wallet_engine-IsLawfulWalletEngine, rich_note, sk_t8,
}
use x402_nockchain.Tests.Facilitator.{app_state, at, verifier_text}
use x402_nockchain.Tests.Clients.{random, parse_5}
use x402_nockchain.Tests.Wallet.{wallet, made, same_key}

wallet_built :
    (payload : PaymentPayload Node Node) × (build_exact_nockchain_payload_with_wallet json
        requirements
        (wallet_backend wallet_engine wallet 0)
        (rich_note ∷ [])
        none
        100
        random
      ≡ ok payload)
unfolding build_exact_nockchain_payload_with_wallet authorization_for min_fee saturating_add
    wallet_backend authorize_and_sign sign_plan plan only_note amounts_of parse_decimal parse
    parse_codes parse_digits scan base58_hash change_seeds build_input_condition
    kernel_sig_hash_canonical sig_hash_of jam_seeds_canonical spends_of witness_of
    surrogate_from_raw_tx signed_spend_entry signed_spend signed_witness signed_pkh_entry signed_hax
    signed_seed schnorr_to_atoms encode_noun sign_envelope crypto_secret_key scalar_from
    x402_sign_message_digest x402_sign_message_belts base58_to_belts reduce decimal_to_belt
    u64_to_belt compute_notes_hash note_belts sort_notes insert_note bytes_to_belts chunks fill_buf
    from_le_bytes vesl_to_x402 to_text to_text_from digit dec sum ones enc try_map
wallet_built = (_, refl)

build_with_wallet-Passes_example :
    Passes app_state at (record { payload = wallet_built.0; requirements = requirements })
    × Carries json wallet_engine wallet wallet_built.0
unfolding State.new
build_with_wallet-Passes_example =
    build_with_wallet-Passes json wallet_engine json-IsLawfulJson schnorr-IsLawfulSchnorr
      tx_engine-IsLawfulTxEngine wallet_engine-IsLawfulWalletEngine verifier_text sk_t8 wallet 0
      requirements (rich_note ∷ []) none 100 random wallet_built.0 app_state at 5 same_key made
      wallet_built.1 refl (inl refl) refl refl parse_5 (omega arith) (omega arith) (omega arith)
