-- ===== src/Facilitator/Chain/Grpc/Laws.antt =====
-- What the gRPC client submits, and when it leaves the chain alone.
use x402_nockchain.Prelude.{String, ◌≡◌, refl, ◌⊎◌, inl, inr, Bool, Result, ok, err, Result-cases}
use x402_nockchain.Types.Json.{Json}
use x402_nockchain.Types.Facilitator.{SettleRequest}
use x402_nockchain.Types.Nockchain.{SignedRawTx}
use x402_nockchain.Types.Payment.{Authorization}
use x402_nockchain.Crypto.Interface.{Encoding, Schnorr}
use x402_nockchain.Wallet.Engine.{TxEngine, IsLawfulTxEngine, RawTx}
use x402_nockchain.Wallet.Kernel.{WalletEngine, IsLawfulWalletEngine}
use x402_nockchain.Wallet.Surrogate.{raw_tx_from_surrogate}
use x402_nockchain.Wallet.Surrogate.Shape.{IsV1, raw_tx_from_surrogate-IsV1}
use x402_nockchain.Wallet.Client.{NockchainWalletClient}
use x402_nockchain.Wallet.Client.Signing.{authorize_and_sign}
use x402_nockchain.Wallet.Client.Signing.Laws.{Settles, authorize_and_sign-Settles}
use x402_nockchain.Client.{AuthorizedPayment}
use x402_nockchain.Facilitator.Chain.{ChainError, ChainSettle}
use x402_nockchain.Facilitator.Chain.Grpc.{
  report, extract_signed_raw_tx, decoded, submit, grpc_chain_client,
}

module _ (J : Json) (E : TxEngine) {Chain : Type 0}
    (submit_and_wait : RawTx E → String → Chain → Result String Bool × Chain) where
  -- A submission of the transaction that a surrogate stands for, and of nothing else.
  pub record IsSubmission (signed : SignedRawTx) (raw : RawTx E) (chain : Chain)
      (outcome : Result ChainError ChainSettle × Chain) : Type 0 where
    pub read : raw_tx_from_surrogate E signed ≡ ok raw
    pub version : IsV1 E raw
    pub done : outcome ≡ (
      report signed.tx_id (submit_and_wait raw signed.tx_id chain).0,
      (submit_and_wait raw signed.tx_id chain).1,
    )

  -- A settlement over gRPC either fails and leaves the chain as it was, or submits the one
  -- transaction that the payload's surrogate stands for: a transaction of version 1 without legacy
  -- spends and with all its numbers in 64 bits.
  pub grpc_settle-cases :
      (req : SettleRequest J.Value) (chain : Chain)
      → ((e : ChainError) × ((grpc_chain_client J E submit_and_wait).settle req chain
            ≡ (err e, chain)))
        ⊎ ((signed : SignedRawTx) × (raw : RawTx E) × (extract_signed_raw_tx J E req ≡ ok signed)
            × IsSubmission signed raw chain
                ((grpc_chain_client J E submit_and_wait).settle req chain))
  unfolding grpc_chain_client decoded submit
  grpc_settle-cases req chain = elim (Result-cases (extract_signed_raw_tx J E req)) [
    | inr (e, missing) ↦ inl (rw missing (e, refl))
    | inl (signed, found) ↦ elim (Result-cases (raw_tx_from_surrogate E signed)) [
      | inr (e, bad) ↦ inl (rw (found, bad) (_, refl))
      | inl (raw, read) ↦ inr (
        signed,
        raw,
        found,
        record {
          read = read;
          version = raw_tx_from_surrogate-IsV1 E signed raw read;
          done = rw (found, read) refl;
        },
      )
    ]
  ]

  module _ {N : Encoding} {S : Schnorr} (C : WalletEngine N S E) (lawful : IsLawfulTxEngine E)
      (wallet : IsLawfulWalletEngine C) where
    -- When the payload of a settlement carries the surrogate that a wallet returned for an
    -- authorization, the client submits a transaction that spends the one note of that
    -- authorization: the value goes to the recipient, the rest less the fee to the change address.
    pub grpc_settle-Settles :
        (w : NockchainWalletClient C) (auth : Authorization) (payment : AuthorizedPayment)
        (kernel end : C.Kernel) (req : SettleRequest J.Value) (chain : Chain)
        → authorize_and_sign C w auth kernel ≡ (ok payment, end)
        → extract_signed_raw_tx J E req ≡ ok payment.signed_raw_tx
        → (raw : RawTx E) × Settles C w auth raw
          × IsSubmission payment.signed_raw_tx raw chain
              ((grpc_chain_client J E submit_and_wait).settle req chain)
    unfolding grpc_chain_client decoded submit
    grpc_settle-Settles w auth payment kernel end req chain signed found =
        let (raw, read, settles) =
          authorize_and_sign-Settles C lawful wallet w auth payment kernel end signed in
        (
          raw,
          settles,
          record {
            read = read;
            version = raw_tx_from_surrogate-IsV1 E payment.signed_raw_tx raw read;
            done = rw (found, read) refl;
          },
        )
