-- ===== src/Wallet/Client/Signing/Laws.antt =====
-- What the wallet signs, and when it touches the kernel at all.
use x402_nockchain.Prelude.{
  ℕ, ◌+◌, ◌-◌, ◌≡◌, refl, ap, List, [], ◌∷◌, ok, err, map_err, ok-injective, map_err-eq-ok, ◌∙◌,
  Result-cases, inl, inr, arith,
}
use x402_nockchain.Decimal.{u64_mod}
use x402_nockchain.Decimal.Laws.{parse-lt}
use x402_nockchain.Prelude.Actions.{follow-eq-ok}
use x402_nockchain.Types.Payment.{Authorization}
use x402_nockchain.Client.{WalletBackendError, AuthorizedPayment}
use x402_nockchain.Crypto.Interface.{Encoding, Schnorr}
use x402_nockchain.Wallet.Engine.{
  TxEngine, IsLawfulTxEngine, ChainSignature, Spend, Spend1, Spend1Fits, Name, RawTx,
}
use x402_nockchain.Wallet.Kernel.{WalletEngine, IsLawfulWalletEngine}
use x402_nockchain.Wallet.Surrogate.{surrogate_from_raw_tx, raw_tx_from_surrogate}
use x402_nockchain.Wallet.Surrogate.RoundTrip.{raw_tx_from_surrogate-surrogate_from_raw_tx}
use x402_nockchain.Wallet.Client.{NockchainWalletClient, Planned, plan}
use x402_nockchain.Wallet.Client.Solvency.{Solvent}
use x402_nockchain.Wallet.Client.Outputs.{
  gifts, gifts-IsSplit, All-IsSplit, IsSplit, IsPlanOf, plan-IsPlanOf,
}
use x402_nockchain.Wallet.Client.Envelope.{sign_envelope}
use x402_nockchain.Wallet.Client.Signing.{
  poked, kernel_sig_hash_canonical, witness_of, spends_of, sign_plan, authorize_and_sign,
}

module _ {N : Encoding} {S : Schnorr} {E : TxEngine} (C : WalletEngine N S E) where
  -- A transaction that spends the one note of a solvent authorization: what it pays to the
  -- recipient, as change and as fee is what the note holds.
  pub record Settles (w : NockchainWalletClient C) (auth : Authorization) (raw : RawTx E)
      : Type 0 where
    pub solvent : Solvent w.payer_pkh_envelope_b58 auth
    pub open solvent use {note, value, fee, assets}
    pub name : Name E
    pub spend : Spend1 E
    pub one_spend : raw.spends ≡ (name, Spend.witness spend) ∷ []
    pub first_read : E.hash_from_base58 note.name.first ≡ ok name.first
    pub last_read : E.hash_from_base58 note.name.last ≡ ok name.last
    pub split : IsSplit C auth value (assets - (value + fee)) spend.seeds
    pub fee_paid : spend.fee ≡ fee
    pub conserved : gifts spend.seeds + spend.fee ≡ assets

  raw_of : NockchainWalletClient C → Planned C → ChainSignature → E.Hash → RawTx E
  raw_of w p s id = record { version = E.v1; id = id; spends = spends_of C w p s }

  Settles-raw_of :
      (w : NockchainWalletClient C) (auth : Authorization) (p : Planned C) (s : ChainSignature)
      (id : E.Hash)
      → IsPlanOf C w auth p
      → Settles w auth (raw_of w p s id)
  unfolding raw_of spends_of
  Settles-raw_of w auth p s id h =
      let covered = h.solvent.covered in
      let fee_paid = h.fee_paid in
      record {
        solvent = h.solvent;
        name = record { first = p.input_first; last = p.input_last };
        spend = record { witness = witness_of C w p s; seeds = p.seeds; fee = p.fee };
        one_spend = refl;
        first_read = h.first_read;
        last_read = h.last_read;
        split = h.split;
        fee_paid = h.fee_paid;
        conserved = omega (arith, gifts-IsSplit C auth h.value _ p.seeds h.split);
      }

  -- What went into a payment that was returned.
  record Assembled (w : NockchainWalletClient C) (auth : Authorization) (p : Planned C)
      (payment : AuthorizedPayment) : Type 0 where
    msg : List ℕ
    s : ChainSignature
    tx_id : E.Hash
    signed : C.sign w.sk_t8 msg ≡ ok s
    surrogate : surrogate_from_raw_tx E (raw_of w p s tx_id) ≡ ok payment.signed_raw_tx
    envelope : sign_envelope C w auth ≡ ok payment.envelope_signature

  sign_plan-Assembled :
      (w : NockchainWalletClient C) (auth : Authorization) (p : Planned C)
      (payment : AuthorizedPayment) (kernel end : C.Kernel)
      → sign_plan C w auth p kernel ≡ (ok payment, end)
      → Assembled w auth p payment
  unfolding sign_plan raw_of
  sign_plan-Assembled w auth p payment kernel end h =
      let (sig_hash, k1, e1, h1) =
        follow-eq-ok _
          (poked C "kernel %sig-hash poke: " (kernel_sig_hash_canonical C p.seeds p.fee) kernel) end
          h in
      let (s, k2, e2, h2) =
        follow-eq-ok _ (map_err _ (C.sign w.sk_t8 (C.to_array sig_hash)), k1) end h1 in
      let (tx_id, k3, e3, h3) =
        follow-eq-ok _ (poked C "kernel %tx-id poke: " (C.kernel_tx_id (spends_of C w p s)) k2) end
          h2 in
      let (signed, k4, e4, h4) =
        follow-eq-ok _ (map_err _ (surrogate_from_raw_tx E (raw_of w p s tx_id)), k3) end h3 in
      let (envelope, k5, e5, h5) = follow-eq-ok _ (sign_envelope C w auth, k4) end h4 in
      let built : record { envelope_signature = envelope; signed_raw_tx = signed } ≡ payment =
        ok-injective (ap (λ r. r.0) h5) in
      record {
        msg = C.to_array sig_hash;
        s = s;
        tx_id = tx_id;
        signed = map_err-eq-ok _ (C.sign w.sk_t8 (C.to_array sig_hash)) (ap (λ r. r.0) e2);
        surrogate =
            map_err-eq-ok _ (surrogate_from_raw_tx E (raw_of w p s tx_id)) (ap (λ r. r.0) e4)
            ∙ ap (λ r. ok r.signed_raw_tx) built;
        envelope = ap (λ r. r.0) e5 ∙ ap (λ r. ok r.envelope_signature) built;
      }

  -- The envelope signature of a payment is that of `sign_envelope`.
  pub authorize_and_sign-envelope :
      (w : NockchainWalletClient C) (auth : Authorization) (payment : AuthorizedPayment)
      (kernel end : C.Kernel)
      → authorize_and_sign C w auth kernel ≡ (ok payment, end)
      → sign_envelope C w auth ≡ ok payment.envelope_signature
  unfolding authorize_and_sign
  authorize_and_sign-envelope w auth payment kernel end h =
      let (p, k0, e0, h0) = follow-eq-ok _ (plan C w auth, kernel) end h in
      (sign_plan-Assembled w auth p payment k0 end h0).envelope

  module _ (lawful : IsLawfulTxEngine E) (wallet : IsLawfulWalletEngine C) where
    Spend1Fits-witness_of :
        (w : NockchainWalletClient C) (auth : Authorization) (p : Planned C) (s : ChainSignature)
        (sk msg : List ℕ)
        → C.sign sk msg ≡ ok s
        → IsPlanOf C w auth p
        → Spend1Fits E (record { witness = witness_of C w p s; seeds = p.seeds; fee = p.fee })
    unfolding witness_of
    Spend1Fits-witness_of w auth p s sk msg signed h = record {
      signatures =
          rw (wallet.new_witness-pkh_signature _ _ [])
            (wallet.sign-SignatureFits sk msg s signed, tt);
      gifts =
          let value_fits = parse-lt u64_mod auth.value h.value (omega arith) h.solvent.value_read in
          let assets_fit =
            parse-lt u64_mod h.note.assets h.assets (omega arith) h.solvent.assets_read in
          All-IsSplit C auth h.value _ p.seeds h.split value_fits (omega arith);
      fee = rw (h.fee_paid) (parse-lt u64_mod auth.fee h.fee (omega arith) h.solvent.fee_read);
    }

    -- When the wallet returns a payment, the facilitator reads from its surrogate a transaction
    -- with one spend, of the one note of the authorization, which pays the value to the recipient
    -- and what is left to the change address; the gifts and the fee add up to the note's assets.
    pub authorize_and_sign-Settles :
        (w : NockchainWalletClient C) (auth : Authorization) (payment : AuthorizedPayment)
        (kernel end : C.Kernel)
        → authorize_and_sign C w auth kernel ≡ (ok payment, end)
        → (raw : RawTx E) × (raw_tx_from_surrogate E payment.signed_raw_tx ≡ ok raw)
          × Settles w auth raw
    unfolding authorize_and_sign raw_of spends_of
    authorize_and_sign-Settles w auth payment kernel end h =
        let (p, k0, e0, h0) = follow-eq-ok _ (plan C w auth, kernel) end h in
        let a = sign_plan-Assembled w auth p payment k0 end h0 in
        let planned = plan-IsPlanOf C w auth p (ap (λ r. r.0) e0) in
        (
          raw_of w p a.s a.tx_id,
          raw_tx_from_surrogate-surrogate_from_raw_tx lawful (raw_of w p a.s a.tx_id)
              payment.signed_raw_tx
              (Spend1Fits-witness_of w auth p a.s w.sk_t8 a.msg a.signed planned, tt) a.surrogate,
          Settles-raw_of w auth p a.s a.tx_id planned,
        )

  -- An authorization that is not of this wallet, that does not have exactly one note, whose amounts
  -- do not parse or overflow, or whose note does not cover value and fee, is refused with an error,
  -- and the kernel is left as it was.
  pub authorize_and_sign-refused :
      (w : NockchainWalletClient C) (auth : Authorization) (kernel : C.Kernel)
      → ¬ (Solvent w.payer_pkh_envelope_b58 auth)
      → (e : WalletBackendError) × (authorize_and_sign C w auth kernel ≡ (err e, kernel))
  unfolding authorize_and_sign
  authorize_and_sign-refused w auth kernel insolvent = elim (Result-cases (plan C w auth)) [
    | inl (p, e) ↦ absurd (insolvent (plan-IsPlanOf C w auth p e).solvent)
    | inr (e, h) ↦ rw h (e, refl)
  ]
