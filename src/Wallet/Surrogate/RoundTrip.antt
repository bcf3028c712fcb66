-- ===== src/Wallet/Surrogate/RoundTrip.antt =====
-- Reading a surrogate gives back the transaction that it was made from.
use x402_nockchain.Prelude.{
  ℕ, suc, String, ◌≡◌, refl, Option, none, some, List, [], ◌∷◌, map, ok, ok-injective,
  map_err-bind-eq-ok, >>=-eq-ok, guard-bind-eq-ok, try_map, try_map_undoes, All, All-tt,
}
use x402_nockchain.Types.Nockchain.{
  SignedPkhSignatureEntry, SignedHaxPreimage, SignedSeed, SignedWitness, SignedSpend,
  SignedSpendEntry, SignedRawTx,
}
use x402_nockchain.Decimal.{u64_mod, to_text}
use x402_nockchain.Decimal.Laws.{parse-to_text}
use x402_nockchain.Wallet.Engine.{
  TxEngine, IsLawfulTxEngine, NounCodec, IsLawfulCodec, ChainSignature, PkhSignatureEntry,
  HaxPreimage, Witness, Seed, Spend1, Spend, Name, RawTx, FitsU64, SignatureFits, Spend1Fits,
  SpendFits,
}
use x402_nockchain.Wallet.Surrogate.{
  decode_source, encode_source, decode_note_data, encode_note_data, schnorr_to_atoms, parse_belts,
  parse_belt_array, schnorr_from_atoms, encode_noun, decode_noun, signed_pkh_entry, signed_hax,
  signed_seed, signed_witness, signed_spend, signed_spend_entry, surrogate_from_raw_tx,
  pkh_entry_from_surrogate, hax_from_surrogate, seed_from_surrogate, witness_from_surrogate,
  spend1_from_surrogate, spend_pair_from_surrogate, raw_tx_from_surrogate,
}

parse_belts-to_text :
    (field : String) (i : ℕ) (belts : List ℕ)
    → All FitsU64 belts
    → parse_belts field i (map to_text belts) ≡ ok belts
unfolding parse_belts
parse_belts-to_text field i [] h = refl
parse_belts-to_text field i (n ∷ belts) (h, hs) =
    rw (parse-to_text u64_mod n h, parse_belts-to_text field (suc i) belts hs) refl

schnorr_from-to_atoms :
    (s : ChainSignature) → SignatureFits s → schnorr_from_atoms (schnorr_to_atoms s) ≡ ok s
unfolding schnorr_from_atoms schnorr_to_atoms parse_belt_array
schnorr_from-to_atoms s h =
    rw (parse_belts-to_text "chal" 0 s.chal h.chal, parse_belts-to_text "sig" 0 s.sig h.sig) refl

module _ {E : TxEngine} (lawful : IsLawfulTxEngine E) where
  decode-encode_noun :
      {T : Type 0} (C : NounCodec E.Noun T) (t : T)
      → IsLawfulCodec C
      → decode_noun E C (encode_noun E C t) ≡ ok t
  unfolding decode_noun encode_noun
  decode-encode_noun C t codec = rw (
    lawful.b64_decode-encode (E.jam (C.to_noun t)),
    lawful.cue-jam (C.to_noun t),
    codec.from-to_noun t,
  )

  pkh_entry_from_surrogate-signed_pkh_entry :
      (entry : PkhSignatureEntry E) (s : SignedPkhSignatureEntry)
      → SignatureFits entry.signature
      → signed_pkh_entry E entry ≡ ok s
      → pkh_entry_from_surrogate E s ≡ ok entry
  unfolding signed_pkh_entry pkh_entry_from_surrogate
  pkh_entry_from_surrogate-signed_pkh_entry entry s fits h =
      let (pubkey, encoded, h1) = map_err-bind-eq-ok _ (E.pubkey_to_base58 entry.pubkey) _ h in
      rw (
        ← ok-injective h1,
        lawful.hash_from-to_base58 entry.hash,
        lawful.pubkey_from-to_base58 entry.pubkey pubkey encoded,
        schnorr_from-to_atoms entry.signature fits,
      )

  hax_from_surrogate-signed_hax :
      (hax : HaxPreimage E) (s : SignedHaxPreimage)
      → Unit {0}
      → signed_hax E hax ≡ ok s
      → hax_from_surrogate E s ≡ ok hax
  unfolding signed_hax hax_from_surrogate
  hax_from_surrogate-signed_hax hax s _ h =
      rw (← ok-injective h, lawful.hash_from-to_base58 hax.hash, lawful.b64_decode-encode hax.value)

  decode-encode_source : (o : Option E.Source) → decode_source E (encode_source E o) ≡ ok o
  decode-encode_source none = refl
  decode-encode_source (some src) = rw (decode-encode_noun E.source_codec src lawful.source_lawful)

  decode-encode_note_data :
      (l : List E.NoteDataEntry) → decode_note_data E (encode_note_data E l) ≡ ok l
  decode-encode_note_data [] = refl
  decode-encode_note_data (entry ∷ rest) =
      rw (decode-encode_noun E.note_data_codec (entry ∷ rest) lawful.note_data_lawful)

  seed_from_surrogate-signed_seed :
      (seed : Seed E) (s : SignedSeed)
      → FitsU64 seed.gift
      → signed_seed E seed ≡ ok s
      → seed_from_surrogate E s ≡ ok seed
  unfolding signed_seed seed_from_surrogate
  seed_from_surrogate-signed_seed seed s fits h = rw (
    ← ok-injective h,
    decode-encode_source seed.output_source,
    lawful.hash_from-to_base58 seed.lock_root,
    decode-encode_note_data seed.note_data,
    parse-to_text u64_mod seed.gift fits,
    lawful.hash_from-to_base58 seed.parent_hash,
  )

  witness_from_surrogate-signed_witness :
      (w : Witness E) (s : SignedWitness)
      → All (λ (e : PkhSignatureEntry E). SignatureFits e.signature) w.pkh_signature
      → signed_witness E w ≡ ok s
      → witness_from_surrogate E s ≡ ok w
  unfolding signed_witness witness_from_surrogate
  witness_from_surrogate-signed_witness w s fits h =
      let (entries, signed_entries, h1) =
        >>=-eq-ok (try_map (signed_pkh_entry E) w.pkh_signature) _ h in
      let (hax, signed, h2) = >>=-eq-ok (try_map (signed_hax E) w.hax) _ h1 in
      rw (
        ← ok-injective h2,
        decode-encode_noun E.proof_codec w.lock_merkle_proof lawful.proof_lawful,
        try_map_undoes (signed_pkh_entry E) (pkh_entry_from_surrogate E) _
            pkh_entry_from_surrogate-signed_pkh_entry w.pkh_signature entries fits signed_entries,
        try_map_undoes (signed_hax E) (hax_from_surrogate E) _ hax_from_surrogate-signed_hax w.hax
            hax (All-tt w.hax) signed,
      )

  spend1_from_surrogate-signed_spend :
      (spend : Spend1 E) (s : SignedSpend)
      → Spend1Fits E spend
      → signed_spend E spend ≡ ok s
      → spend1_from_surrogate E s ≡ ok spend
  unfolding signed_spend spend1_from_surrogate
  spend1_from_surrogate-signed_spend spend s fits h =
      let (w, signed_w, h1) = >>=-eq-ok (signed_witness E spend.witness) _ h in
      let (seeds, signed_seeds, h2) = >>=-eq-ok (try_map (signed_seed E) spend.seeds) _ h1 in
      rw (
        ← ok-injective h2,
        witness_from_surrogate-signed_witness spend.witness w fits.signatures signed_w,
        try_map_undoes (signed_seed E) (seed_from_surrogate E) _ seed_from_surrogate-signed_seed
            spend.seeds seeds fits.gifts signed_seeds,
        parse-to_text u64_mod spend.fee fits.fee,
      )

  spend_pair_from_surrogate-signed_spend_entry :
      (pair : Name E × Spend E) (s : SignedSpendEntry)
      → SpendFits E pair
      → signed_spend_entry E pair ≡ ok s
      → spend_pair_from_surrogate E s ≡ ok pair
  unfolding signed_spend_entry spend_pair_from_surrogate
  spend_pair_from_surrogate-signed_spend_entry (name, Spend.legacy old) s fits h = cc
  spend_pair_from_surrogate-signed_spend_entry (name, Spend.witness spend) s fits h =
      let (signed, e, h1) = >>=-eq-ok (signed_spend E spend) _ h in
      rw (
        ← ok-injective h1,
        lawful.hash_from-to_base58 name.first,
        lawful.hash_from-to_base58 name.last,
        spend1_from_surrogate-signed_spend spend signed fits e,
      )

  -- A transaction whose numbers fit their 64-bit types and whose surrogate can be made is read
  -- back from that surrogate, whole.
  pub raw_tx_from_surrogate-surrogate_from_raw_tx :
      (raw : RawTx E) (signed : SignedRawTx)
      → All (SpendFits E) raw.spends
      → surrogate_from_raw_tx E raw ≡ ok signed
      → raw_tx_from_surrogate E signed ≡ ok raw
  unfolding surrogate_from_raw_tx raw_tx_from_surrogate
  raw_tx_from_surrogate-surrogate_from_raw_tx raw signed fits h =
      let (is_v1, h1) = guard-bind-eq-ok (E.version_eq.test raw.version E.v1) _ _ h in
      let (spends, signed_spends, h2) =
        >>=-eq-ok (try_map (signed_spend_entry E) raw.spends) _ h1 in
      let e = (E.version_eq.test_iff raw.version E.v1).0 is_v1 in
      rw (
        ← ok-injective h2,
        lawful.hash_from-to_base58 raw.id,
        try_map_undoes (signed_spend_entry E) (spend_pair_from_surrogate E) _
            spend_pair_from_surrogate-signed_spend_entry raw.spends spends fits signed_spends,
        ← e,
      )
