-- ===== src/Wallet/Surrogate.antt =====
-- crates/x402-nockchain-wallet-client/src/surrogate.rs. An `anyhow::Error` is its text, the
-- outermost context where one was added. `as usize` on a 64-bit machine changes nothing.
pub mod RoundTrip
pub mod Shape
use x402_nockchain.Prelude.{
  ℕ, suc, String, ◌<>◌, Option, none, some, List, [], ◌∷◌, map, not, Result, ok, err, guard, ok_or,
  map_err, ◌>>=◌, ◌>>◌, try_map, ◌==◌, string_eq,
}
use x402_nockchain.Types.Nockchain.{
  SignedSchnorrAtoms, SignedPkhSignatureEntry, SignedHaxPreimage, SignedSeed, SignedWitness,
  SignedSpend, SignedNoteName, SignedSpendEntry, SignedRawTx,
}
use x402_nockchain.Decimal.{u64_mod, to_text, parse}
use x402_nockchain.Wallet.Engine.{
  TxEngine, NounCodec, ChainSignature, PkhSignatureEntry, HaxPreimage, Witness, Seed, Spend1, Spend,
  Name, RawTx,
}

-- `context`: the text of an error becomes this one.
abbrev pub context : {A : Type 0} → String → Result String A → Result String A
context text = map_err (λ _. text)

unfoldable pub schnorr_to_atoms : ChainSignature → SignedSchnorrAtoms
schnorr_to_atoms s = record { chal = map to_text s.chal; sig = map to_text s.sig }

-- The loop of `parse_belt_array`, from an index on.
unfoldable pub parse_belts : String → ℕ → List String → Result String (List ℕ)
parse_belts field i [] = ok []
parse_belts field i (s ∷ rest) = do
  v ← ok_or (parse u64_mod s) ("decode " <> field <> "[" <> to_text i <> "] `" <> s <> "` as u64")
  vs ← parse_belts field (suc i) rest
  ok (v ∷ vs)

unfoldable pub parse_belt_array : List String → String → Result String (List ℕ)
parse_belt_array arr field = parse_belts field 0 arr

unfoldable pub schnorr_from_atoms : SignedSchnorrAtoms → Result String ChainSignature
schnorr_from_atoms atoms = do
  chal ← parse_belt_array atoms.chal "chal"
  sig ← parse_belt_array atoms.sig "sig"
  ok (record { chal = chal; sig = sig })

module _ (E : TxEngine) where
  open E use {
    hash_to_base58, hash_from_base58, pubkey_to_base58, pubkey_from_base58, v1, proof_codec,
    source_codec, note_data_codec, jam, cue, b64_encode, b64_decode,
  }

  unfoldable pub encode_noun : {T : Type 0} → NounCodec E.Noun T → T → String
  encode_noun C value = b64_encode (jam (C.to_noun value))

  unfoldable pub decode_noun : {T : Type 0} → NounCodec E.Noun T → String → Result String T
  decode_noun C b64 = do
    bytes ← context "decode jammed-noun base58" (b64_decode b64)
    cued ← map_err (λ e. "cue jammed bytes: " <> e) (cue bytes)
    map_err (λ e. "decode noun: " <> e) (C.from_noun cued)

  -- `Hash::from_base58`, with the text that the caller puts in front of an error.
  abbrev pub read_hash : String → String → Result String E.Hash
  read_hash what s = map_err (λ e. what <> e) (hash_from_base58 s)

  unfoldable pub signed_pkh_entry : PkhSignatureEntry E → Result String SignedPkhSignatureEntry
  signed_pkh_entry entry = do
    pubkey ← map_err (λ e. "encode pubkey to base58: " <> e) (pubkey_to_base58 entry.pubkey)
    ok (record {
      hash = hash_to_base58 entry.hash;
      pubkey = pubkey;
      signature = schnorr_to_atoms entry.signature;
    })

  unfoldable pub signed_hax : HaxPreimage E → Result String SignedHaxPreimage
  signed_hax hax = ok (record { hash = hash_to_base58 hax.hash; value_noun = b64_encode hax.value })

  abbrev pub encode_source : Option E.Source → Option String
  encode_source none = none
  encode_source (some src) = some (encode_noun source_codec src)

  abbrev pub encode_note_data : List E.NoteDataEntry → Option String
  encode_note_data [] = none
  encode_note_data (entry ∷ rest) = some (encode_noun note_data_codec (entry ∷ rest))

  unfoldable pub signed_seed : Seed E → Result String SignedSeed
  signed_seed seed = ok (record {
    output_source_noun = encode_source seed.output_source;
    lock_root = hash_to_base58 seed.lock_root;
    note_data_noun = encode_note_data seed.note_data;
    gift = to_text seed.gift;
    parent_hash = hash_to_base58 seed.parent_hash;
  })

  unfoldable pub signed_witness : Witness E → Result String SignedWitness
  signed_witness w = do
    pkh_signature ← try_map signed_pkh_entry w.pkh_signature
    hax ← try_map signed_hax w.hax
    ok (record {
      lock_merkle_proof_noun = encode_noun proof_codec w.lock_merkle_proof;
      pkh_signature = pkh_signature;
      hax = hax;
      tim = w.tim;
    })

  unfoldable pub signed_spend : Spend1 E → Result String SignedSpend
  signed_spend spend = do
    w ← signed_witness spend.witness
    seeds ← try_map signed_seed spend.seeds
    ok (record { witness = w; seeds = seeds; fee = to_text spend.fee })

  unfoldable pub signed_spend_entry : Name E × Spend E → Result String SignedSpendEntry
  signed_spend_entry (name, Spend.legacy _) =
      err "legacy (v0) spends are not supported by the surrogate"
  signed_spend_entry (name, Spend.witness spend1) = do
    spend ← signed_spend spend1
    ok (record {
      name = record { first = hash_to_base58 name.first; last = hash_to_base58 name.last };
      spend = spend;
    })

  unfoldable pub surrogate_from_raw_tx : RawTx E → Result String SignedRawTx
  surrogate_from_raw_tx raw = do
    guard (E.version_eq.test raw.version v1)
        "only v1 RawTx is supported by the SignedRawTx surrogate"
    spends ← try_map signed_spend_entry raw.spends
    ok (record { version = "v1"; tx_id = hash_to_base58 raw.id; spends = spends })

  unfoldable pub pkh_entry_from_surrogate :
      SignedPkhSignatureEntry → Result String (PkhSignatureEntry E)
  pkh_entry_from_surrogate e = do
    hash ← read_hash "decode pkh entry hash: " e.hash
    pubkey ← map_err (λ x. "decode pkh entry pubkey: " <> x) (pubkey_from_base58 e.pubkey)
    signature ← schnorr_from_atoms e.signature
    ok (record { hash = hash; pubkey = pubkey; signature = signature })

  unfoldable pub hax_from_surrogate : SignedHaxPreimage → Result String (HaxPreimage E)
  hax_from_surrogate h = do
    hash ← read_hash "decode HaxPreimage.hash: " h.hash
    value ← context "decode HaxPreimage.value_noun base64" (b64_decode h.value_noun)
    ok (record { hash = hash; value = value })

  abbrev pub decode_source : Option String → Result String (Option E.Source)
  decode_source none = ok none
  decode_source (some b64) = do
    src ← context "decode Seed.output_source" (decode_noun source_codec b64)
    ok (some src)

  abbrev pub decode_note_data : Option String → Result String (List E.NoteDataEntry)
  decode_note_data none = ok []
  decode_note_data (some b64) = context "decode Seed.note_data" (decode_noun note_data_codec b64)

  unfoldable pub seed_from_surrogate : SignedSeed → Result String (Seed E)
  seed_from_surrogate s = do
    output_source ← decode_source s.output_source_noun
    lock_root ← read_hash "decode Seed.lock_root: " s.lock_root
    note_data ← decode_note_data s.note_data_noun
    gift ← ok_or (parse u64_mod s.gift) ("decode Seed.gift `" <> s.gift <> "` as u64")
    parent_hash ← read_hash "decode Seed.parent_hash: " s.parent_hash
    ok (record {
      output_source = output_source;
      lock_root = lock_root;
      note_data = note_data;
      gift = gift;
      parent_hash = parent_hash;
    })

  unfoldable pub witness_from_surrogate : SignedWitness → Result String (Witness E)
  witness_from_surrogate w = do
    proof ←
        context "decode SignedWitness.lock_merkle_proof_noun"
          (decode_noun proof_codec w.lock_merkle_proof_noun)
    pkh_entries ← try_map pkh_entry_from_surrogate w.pkh_signature
    hax ← try_map hax_from_surrogate w.hax
    ok (record { lock_merkle_proof = proof; pkh_signature = pkh_entries; hax = hax; tim = w.tim })

  unfoldable pub spend1_from_surrogate : SignedSpend → Result String (Spend1 E)
  spend1_from_surrogate s = do
    w ← witness_from_surrogate s.witness
    seeds ← try_map seed_from_surrogate s.seeds
    fee ← ok_or (parse u64_mod s.fee) ("decode SignedSpend.fee `" <> s.fee <> "` as u64")
    ok (record { witness = w; seeds = seeds; fee = fee })

  unfoldable pub spend_pair_from_surrogate : SignedSpendEntry → Result String (Name E × Spend E)
  spend_pair_from_surrogate entry = do
    first ← read_hash "decode spend name.first: " entry.name.first
    last ← read_hash "decode spend name.last: " entry.name.last
    spend1 ← spend1_from_surrogate entry.spend
    ok (record { first = first; last = last }, Spend.witness spend1)

  unfoldable pub raw_tx_from_surrogate : SignedRawTx → Result String (RawTx E)
  raw_tx_from_surrogate signed = do
    guard (signed.version == "v1")
        ("unsupported SignedRawTx version `" <> signed.version <> "` (only `v1` is accepted)")
    id ← read_hash "decode SignedRawTx.tx_id: " signed.tx_id
    spends ← try_map spend_pair_from_surrogate signed.spends
    ok (record { version = v1; id = id; spends = spends })
