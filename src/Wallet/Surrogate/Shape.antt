-- ===== src/Wallet/Surrogate/Shape.antt =====
-- Which transactions have a surrogate, and which transactions a surrogate can give.
use x402_nockchain.Prelude.{
  ℕ, suc, arith, String, ◌≡◌, refl, ◌↔◌, subst, List, [], ◌∷◌, ok, ok-injective, >>=-eq-ok,
  map_err-bind-eq-ok, ok_or-bind-eq-ok, guard-bind-eq-ok, try_map, try_map-All, try_map-Returns,
  try_map_total, Returns, All, All-map,
}
use x402_nockchain.Types.Nockchain.{
  SignedSchnorrAtoms, SignedPkhSignatureEntry, SignedSeed, SignedWitness, SignedSpend,
  SignedSpendEntry, SignedRawTx,
}
use x402_nockchain.Decimal.{u64_mod, parse}
use x402_nockchain.Decimal.Laws.{parse-lt}
use x402_nockchain.Wallet.Engine.{
  TxEngine, ChainSignature, PkhSignatureEntry, HaxPreimage, Witness, Seed, Spend1, Spend, Name,
  RawTx, FitsU64, SignatureFits, Spend1Fits,
}
use x402_nockchain.Wallet.Surrogate.{
  parse_belts, parse_belt_array, schnorr_from_atoms, decode_noun, decode_source, decode_note_data,
  signed_pkh_entry, signed_hax, signed_seed, signed_witness, signed_spend, signed_spend_entry,
  surrogate_from_raw_tx, pkh_entry_from_surrogate, hax_from_surrogate, seed_from_surrogate,
  witness_from_surrogate, spend1_from_surrogate, spend_pair_from_surrogate, raw_tx_from_surrogate,
}

parse_belts-FitsU64 :
    (field : String) (i : ℕ) (arr : List String) (belts : List ℕ)
    → parse_belts field i arr ≡ ok belts
    → All FitsU64 belts
unfolding parse_belts
parse_belts-FitsU64 field i [] belts h = subst (All FitsU64) (ok-injective h) tt
parse_belts-FitsU64 field i (s ∷ arr) belts h =
    let (v, parsed, h1) = ok_or-bind-eq-ok (parse u64_mod s) _ _ h in
    let (vs, rest, h2) = >>=-eq-ok (parse_belts field (suc i) arr) _ h1 in
    subst (All FitsU64) (ok-injective h2)
      (parse-lt u64_mod s v (omega arith) parsed, parse_belts-FitsU64 field (suc i) arr vs rest)

schnorr_from_atoms-SignatureFits :
    (atoms : SignedSchnorrAtoms) (s : ChainSignature)
    → schnorr_from_atoms atoms ≡ ok s
    → SignatureFits s
unfolding schnorr_from_atoms parse_belt_array
schnorr_from_atoms-SignatureFits atoms s h =
    let (chal, parsed, h1) = >>=-eq-ok (parse_belts "chal" 0 atoms.chal) _ h in
    let (sig, parsed_sig, h2) = >>=-eq-ok (parse_belts "sig" 0 atoms.sig) _ h1 in
    subst SignatureFits (ok-injective h2) (record {
      chal = parse_belts-FitsU64 "chal" 0 atoms.chal chal parsed;
      sig = parse_belts-FitsU64 "sig" 0 atoms.sig sig parsed_sig;
    })

module _ (E : TxEngine) where
  -- A spend of the new format with every number in its 64-bit range.
  abbrev pub IsSpend1 : Name E × Spend E → Type 0
  IsSpend1 (name, Spend.witness s) = Spend1Fits E s
  IsSpend1 (name, Spend.legacy s) = ⊥

  pub record IsV1 (raw : RawTx E) : Type 0 where
    pub version : raw.version ≡ E.v1
    pub spends : All IsSpend1 raw.spends

  abbrev EntryFits : PkhSignatureEntry E → Type 0
  EntryFits e = SignatureFits e.signature

  abbrev SeedFits : Seed E → Type 0
  SeedFits s = FitsU64 s.gift

  pkh_entry_from_surrogate-EntryFits :
      (s : SignedPkhSignatureEntry) (entry : PkhSignatureEntry E)
      → pkh_entry_from_surrogate E s ≡ ok entry
      → EntryFits entry
  unfolding pkh_entry_from_surrogate
  pkh_entry_from_surrogate-EntryFits s entry h =
      let (hash, _, h1) = map_err-bind-eq-ok _ (E.hash_from_base58 s.hash) _ h in
      let (pubkey, _, h2) = map_err-bind-eq-ok _ (E.pubkey_from_base58 s.pubkey) _ h1 in
      let (signature, read, h3) = >>=-eq-ok (schnorr_from_atoms s.signature) _ h2 in
      subst EntryFits (ok-injective h3)
        (schnorr_from_atoms-SignatureFits s.signature signature read)

  seed_from_surrogate-SeedFits :
      (s : SignedSeed) (seed : Seed E) → seed_from_surrogate E s ≡ ok seed → SeedFits seed
  unfolding seed_from_surrogate
  seed_from_surrogate-SeedFits s seed h =
      let (source, _, h1) = >>=-eq-ok (decode_source E s.output_source_noun) _ h in
      let (root, _, h2) = map_err-bind-eq-ok _ (E.hash_from_base58 s.lock_root) _ h1 in
      let (note_data, _, h3) = >>=-eq-ok (decode_note_data E s.note_data_noun) _ h2 in
      let (gift, parsed, h4) = ok_or-bind-eq-ok (parse u64_mod s.gift) _ _ h3 in
      let (parent, _, h5) = map_err-bind-eq-ok _ (E.hash_from_base58 s.parent_hash) _ h4 in
      subst SeedFits (ok-injective h5) (parse-lt u64_mod s.gift gift (omega arith) parsed)

  witness_from_surrogate-EntryFits :
      (s : SignedWitness) (w : Witness E)
      → witness_from_surrogate E s ≡ ok w
      → All EntryFits w.pkh_signature
  unfolding witness_from_surrogate
  witness_from_surrogate-EntryFits s w h =
      let (proof, _, h1) =
        map_err-bind-eq-ok _ (decode_noun E E.proof_codec s.lock_merkle_proof_noun) _ h in
      let (entries, read, h2) =
        >>=-eq-ok (try_map (pkh_entry_from_surrogate E) s.pkh_signature) _ h1 in
      let (hax, _, h3) = >>=-eq-ok (try_map (hax_from_surrogate E) s.hax) _ h2 in
      subst (λ (v : Witness E). All EntryFits v.pkh_signature) (ok-injective h3)
        (try_map-All _ EntryFits pkh_entry_from_surrogate-EntryFits s.pkh_signature entries read)

  spend1_from_surrogate-Spend1Fits :
      (s : SignedSpend) (spend : Spend1 E)
      → spend1_from_surrogate E s ≡ ok spend
      → Spend1Fits E spend
  unfolding spend1_from_surrogate
  spend1_from_surrogate-Spend1Fits s spend h =
      let (w, read, h1) = >>=-eq-ok (witness_from_surrogate E s.witness) _ h in
      let (seeds, read_seeds, h2) = >>=-eq-ok (try_map (seed_from_surrogate E) s.seeds) _ h1 in
      let (fee, parsed, h3) = ok_or-bind-eq-ok (parse u64_mod s.fee) _ _ h2 in
      subst (Spend1Fits E) (ok-injective h3) (record {
        signatures = witness_from_surrogate-EntryFits s.witness w read;
        gifts = try_map-All _ SeedFits seed_from_surrogate-SeedFits s.seeds seeds read_seeds;
        fee = parse-lt u64_mod s.fee fee (omega arith) parsed;
      })

  spend_pair_from_surrogate-IsSpend1 :
      (s : SignedSpendEntry) (pair : Name E × Spend E)
      → spend_pair_from_surrogate E s ≡ ok pair
      → IsSpend1 pair
  unfolding spend_pair_from_surrogate
  spend_pair_from_surrogate-IsSpend1 s pair h =
      let (first, _, h1) = map_err-bind-eq-ok _ (E.hash_from_base58 s.name.first) _ h in
      let (last, _, h2) = map_err-bind-eq-ok _ (E.hash_from_base58 s.name.last) _ h1 in
      let (spend, read, h3) = >>=-eq-ok (spend1_from_surrogate E s.spend) _ h2 in
      subst IsSpend1 (ok-injective h3) (spend1_from_surrogate-Spend1Fits s.spend spend read)

  -- Whatever the surrogate, a transaction read from it is of version 1, spends no legacy note, and
  -- has every gift, fee and signature atom in 64 bits.
  pub raw_tx_from_surrogate-IsV1 :
      (signed : SignedRawTx) (raw : RawTx E) → raw_tx_from_surrogate E signed ≡ ok raw → IsV1 raw
  unfolding raw_tx_from_surrogate
  raw_tx_from_surrogate-IsV1 signed raw h =
      let (_, h1) = guard-bind-eq-ok _ _ _ h in
      let (id, _, h2) = map_err-bind-eq-ok _ (E.hash_from_base58 signed.tx_id) _ h1 in
      let (spends, read, h3) =
        >>=-eq-ok (try_map (spend_pair_from_surrogate E) signed.spends) _ h2 in
      subst IsV1 (ok-injective h3) (record {
        version = refl;
        spends = try_map-All _ IsSpend1 spend_pair_from_surrogate-IsSpend1 _ spends read;
      })

  -- A spend of the new format whose public keys have a text.
  abbrev pub IsEncodable : Name E × Spend E → Type 0
  IsEncodable (name, Spend.witness s) =
      All (λ (e : PkhSignatureEntry E). (text : String) × (E.pubkey_to_base58 e.pubkey ≡ ok text))
        s.witness.pkh_signature
  IsEncodable (name, Spend.legacy s) = ⊥

  signed_hax_total : (hax : HaxPreimage E) → Returns (signed_hax E) hax
  unfolding signed_hax
  signed_hax_total hax = (_, refl)

  signed_seed_total : (seed : Seed E) → Returns (signed_seed E) seed
  unfolding signed_seed
  signed_seed_total seed = (_, refl)

  All-of_each : {A : Type 0} (P : A → Type 0) → ((x : A) → P x) → (xs : List A) → All P xs
  All-of_each P each [] = tt
  All-of_each P each (x ∷ xs) = (each x, All-of_each P each xs)

  signed_pkh_entry_total :
      (e : PkhSignatureEntry E)
      → ((text : String) × (E.pubkey_to_base58 e.pubkey ≡ ok text))
      → Returns (signed_pkh_entry E) e
  unfolding signed_pkh_entry
  signed_pkh_entry_total e (text, encoded) = rw encoded (_, refl)

  signed_spend_entry_total :
      (pair : Name E × Spend E) → IsEncodable pair → Returns (signed_spend_entry E) pair
  unfolding signed_spend_entry signed_spend signed_witness
  signed_spend_entry_total (name, Spend.legacy s) h = absurd h
  signed_spend_entry_total (name, Spend.witness s) h =
      let (entries, e1) =
        try_map_total (signed_pkh_entry E) _ (All-map _ _ signed_pkh_entry_total _ h) in
      let (hax, e2) =
        try_map_total (signed_hax E) s.witness.hax (All-of_each _ signed_hax_total _) in
      let (seeds, e3) = try_map_total (signed_seed E) s.seeds (All-of_each _ signed_seed_total _) in
      rw (e1, e2, e3) (_, refl)

  signed_pkh_entry-text :
      (e : PkhSignatureEntry E)
      → Returns (signed_pkh_entry E) e
      → (text : String) × (E.pubkey_to_base58 e.pubkey ≡ ok text)
  unfolding signed_pkh_entry
  signed_pkh_entry-text e (s, h) =
      let (text, encoded, _) = map_err-bind-eq-ok _ (E.pubkey_to_base58 e.pubkey) _ h in
      (text, encoded)

  signed_spend_entry-IsEncodable :
      (pair : Name E × Spend E) → Returns (signed_spend_entry E) pair → IsEncodable pair
  unfolding signed_spend_entry signed_spend signed_witness
  signed_spend_entry-IsEncodable (name, Spend.legacy s) (entry, h) = cc
  signed_spend_entry-IsEncodable (name, Spend.witness s) (entry, h) =
      let (spend, h1, _) = >>=-eq-ok (signed_spend E s) _ h in
      let (w, h2, _) = >>=-eq-ok (signed_witness E s.witness) _ h1 in
      let (entries, h3, _) =
        >>=-eq-ok (try_map (signed_pkh_entry E) s.witness.pkh_signature) _ h2 in
      All-map _ _ signed_pkh_entry-text _ (try_map-Returns _ _ entries h3)

  -- A transaction has a surrogate exactly when it is of version 1, spends no legacy note and each
  -- of its public keys has a base58 text.
  pub surrogate_from_raw_tx_iff :
      (raw : RawTx E)
      → ((signed : SignedRawTx) × (surrogate_from_raw_tx E raw ≡ ok signed))
        ↔ ((raw.version ≡ E.v1) × All IsEncodable raw.spends)
  unfolding surrogate_from_raw_tx
  surrogate_from_raw_tx_iff raw = (to, from)
    where
      to :
          ((signed : SignedRawTx) × (surrogate_from_raw_tx E raw ≡ ok signed))
          → (raw.version ≡ E.v1) × All IsEncodable raw.spends
      to (signed, h) =
          let (is_v1, h1) = guard-bind-eq-ok (E.version_eq.test raw.version E.v1) _ _ h in
          let (spends, h2, _) = >>=-eq-ok (try_map (signed_spend_entry E) raw.spends) _ h1 in
          (
            (E.version_eq.test_iff raw.version E.v1).0 is_v1,
            All-map _ _ signed_spend_entry-IsEncodable _ (try_map-Returns _ _ spends h2),
          )

      from :
          (raw.version ≡ E.v1) × All IsEncodable raw.spends
          → (signed : SignedRawTx) × (surrogate_from_raw_tx E raw ≡ ok signed)
      from (is_v1, encodable) =
          let (spends, e) =
            try_map_total (signed_spend_entry E) _
              (All-map _ _ signed_spend_entry_total _ encodable) in
          rw ((E.version_eq.test_iff raw.version E.v1).1 is_v1, e) (_, refl)
