-- ===== src/Wallet/Client/Outputs.antt =====
-- The outputs of a plan conserve value, and a plan is made for solvent payments only.
use x402_nockchain.Prelude.{
  ℕ, ◌+◌, ◌-◌, ◌<◌, String, ◌≡◌, refl, subst, List, [], ◌∷◌, ok, ok-injective, >>=-eq-ok,
  map_err-bind-eq-ok, map_err-eq-ok, guard-bind-eq-ok, ltb, ltb→lt, ◌==◌, string_eq, eq_iff, arith,
  Bool-cases, inl, inr, All,
}
use x402_nockchain.Types.Payment.{Authorization}
use x402_nockchain.Crypto.Interface.{Encoding, Schnorr}
use x402_nockchain.Wallet.Engine.{TxEngine, Seed, FitsU64}
use x402_nockchain.Wallet.Kernel.{WalletEngine}
use x402_nockchain.Wallet.Client.Solvency.{Solvent, only_note-eq-ok, amounts_of-Covers}
use x402_nockchain.Wallet.Client.{
  NockchainWalletClient, only_note, amounts_of, build_input_condition, base58_hash, output_seed,
  change_seeds, Planned, plan,
}

-- What a seed list pays out.
abbrev pub gifts : {E : TxEngine} → List (Seed E) → ℕ
gifts [] = 0
gifts (seed ∷ rest) = seed.gift + gifts rest

module _ {N : Encoding} {S : Schnorr} {E : TxEngine} (C : WalletEngine N S E) where
  -- A seed that pays an amount to the simple lock of an address.
  pub record IsPaidTo (address : String) (amount : ℕ) (seed : Seed E) : Type 0 where
    pub pkh : E.Hash
    pub address_read : E.hash_from_base58 address ≡ ok pkh
    pub locked : C.lock_hash (C.simple_pkh pkh) ≡ ok seed.lock_root
    pub gift : seed.gift ≡ amount

  -- The outputs of a payment: one to the recipient, then the change to the change address, which is
  -- left out exactly when there is none.
  pub data IsSplit (auth : Authorization) (value : ℕ) : ℕ → List (Seed E) → Type 0 where
    exact : (seed : Seed E) → IsPaidTo auth.to value seed → IsSplit auth value 0 (seed ∷ [])
    with_change :
        (seed back : Seed E) (change : ℕ)
        → 0 < change
        → IsPaidTo auth.to value seed
        → IsPaidTo auth.change_address change back
        → IsSplit auth value change (seed ∷ back ∷ [])

  base58_hash-eq-ok :
      (s field : String) {h : E.Hash} → base58_hash C s field ≡ ok h → E.hash_from_base58 s ≡ ok h
  unfolding base58_hash
  base58_hash-eq-ok s field e = map_err-eq-ok _ (E.hash_from_base58 s) e

  IsSplit-change_seeds :
      (auth : Authorization) (value change : ℕ) (parent : E.Hash) (seed : Seed E)
      (back : List (Seed E))
      → IsPaidTo auth.to value seed
      → change_seeds C auth change parent ≡ ok back
      → IsSplit auth value change (seed ∷ back)
  unfolding change_seeds
  IsSplit-change_seeds auth value change parent seed back paid h =
      elim (Bool-cases (ltb 0 change)) [
        | inl some_left ↦
            let h0 = rw some_left at h in
            let (pkh, e1, h1) =
              >>=-eq-ok (base58_hash C auth.change_address "auth.change_address") _ h0 in
            let (root, e2, h2) = map_err-bind-eq-ok _ (C.lock_hash (C.simple_pkh pkh)) _ h1 in
            subst (λ l. IsSplit auth value change (seed ∷ l)) (ok-injective h2)
              (with_change seed _ change (ltb→lt 0 change some_left) paid (record {
                pkh = pkh;
                address_read = base58_hash-eq-ok auth.change_address _ e1;
                locked = e2;
                gift = refl;
              }))
        | inr none_left ↦
            let h0 = rw none_left at h in
            let e : 0 ≡ change = ground arith in
            subst (λ l. IsSplit auth value change (seed ∷ l)) (ok-injective h0)
              (subst (λ c. IsSplit auth value c (seed ∷ [])) e (exact seed paid))
      ]

  pub gifts-IsSplit :
      (auth : Authorization) (value change : ℕ) (seeds : List (Seed E))
      → IsSplit auth value change seeds
      → gifts seeds ≡ value + change
  gifts-IsSplit auth value _ _ (exact seed paid) = omega (arith, paid.gift)
  gifts-IsSplit auth value _ _ (with_change seed back change pos paid returned) =
      omega (arith, paid.gift, returned.gift)

  pub All-IsSplit :
      (auth : Authorization) (value change : ℕ) (seeds : List (Seed E))
      → IsSplit auth value change seeds
      → FitsU64 value
      → FitsU64 change
      → All (λ (seed : Seed E). FitsU64 seed.gift) seeds
  All-IsSplit auth value _ _ (exact seed paid) hv hc = (rw (paid.gift) hv, tt)
  All-IsSplit auth value _ _ (with_change seed back change pos paid returned) hv hc =
      (rw (paid.gift) hv, (rw (returned.gift) hc, tt))

  -- A plan that spends the one note of a solvent authorization, whole.
  pub record IsPlanOf (w : NockchainWalletClient C) (auth : Authorization) (p : Planned C)
      : Type 0 where
    pub solvent : Solvent w.payer_pkh_envelope_b58 auth
    pub open solvent use {note, value, fee, assets}
    pub first_read : E.hash_from_base58 note.name.first ≡ ok p.input_first
    pub last_read : E.hash_from_base58 note.name.last ≡ ok p.input_last
    pub condition : p.input_condition ≡ build_input_condition C w.payer_pkh_chain note.lock
    pub root : C.lock_hash p.input_condition ≡ ok p.input_lock_root
    pub fee_paid : p.fee ≡ fee
    pub split : IsSplit auth value (assets - (value + fee)) p.seeds

  pub plan-IsPlanOf :
      (w : NockchainWalletClient C) (auth : Authorization) (p : Planned C)
      → plan C w auth ≡ ok p
      → IsPlanOf w auth p
  unfolding plan
  plan-IsPlanOf w auth p h =
      let (bound, h1) = guard-bind-eq-ok (auth.from == w.payer_pkh_envelope_b58) _ _ h in
      let (note, e2, h2) = >>=-eq-ok (only_note auth.notes) _ h1 in
      let (a, e3, h3) = >>=-eq-ok (amounts_of auth note) _ h2 in
      let (recipient, e4, h4) = >>=-eq-ok (base58_hash C auth.to "auth.to") _ h3 in
      let (parent, e5, h5) =
        >>=-eq-ok (base58_hash C note.name.last "auth.notes[0].name.last") _ h4 in
      let (first, e6, h6) =
        >>=-eq-ok (base58_hash C note.name.first "auth.notes[0].name.first") _ h5 in
      let (output_root, e7, h7) =
        map_err-bind-eq-ok _ (C.lock_hash (C.simple_pkh recipient)) _ h6 in
      let (input_root, e8, h8) =
        map_err-bind-eq-ok _ (C.lock_hash (build_input_condition C w.payer_pkh_chain note.lock)) _
          h7 in
      let (back, e9, h9) = >>=-eq-ok (change_seeds C auth a.change parent) _ h8 in
      let covers = amounts_of-Covers auth note a e3 in
      let seed = output_seed C output_root a.value parent in
      let paid : IsPaidTo auth.to a.value seed = record {
        pkh = recipient;
        address_read = base58_hash-eq-ok auth.to _ e4;
        locked = e7;
        gift = refl;
      } in
      let left : a.change ≡ covers.assets - (a.value + a.fee) = omega (arith, covers.conserved) in
      subst (IsPlanOf w auth) (ok-injective h9) (record {
        solvent = record {
          note = note;
          value = a.value;
          fee = a.fee;
          assets = covers.assets;
          payer_bound = (eq_iff _ _).0 bound;
          single = only_note-eq-ok auth.notes note e2;
          value_read = covers.value_read;
          fee_read = covers.fee_read;
          assets_read = covers.assets_read;
          fits = covers.fits;
          covered = omega (arith, covers.conserved);
        };
        first_read = base58_hash-eq-ok note.name.first _ e6;
        last_read = base58_hash-eq-ok note.name.last _ e5;
        condition = refl;
        root = e8;
        fee_paid = refl;
        split =
            subst (λ c. IsSplit auth a.value c (seed ∷ back)) left
              (IsSplit-change_seeds auth a.value a.change parent seed back paid e9);
      })
