-- ===== src/Facilitator/Chain/Grpc.antt =====
-- crates/x402-nockchain-facilitator/src/chain/grpc.rs: the chain client that submits the wallet's
-- transaction. The gRPC client of nockchain-client-rs is the argument `submit_and_wait`.
pub mod Laws
use x402_nockchain.Prelude.{
  String, ◌<>◌, Bool, Option, none, some, Result, ok, err, ok_or, map_err, ◌>>=◌, if◌then◌else◌,
}
use x402_nockchain.Types.Json.{Json}
use x402_nockchain.Types.Facilitator.{SettleRequest}
use x402_nockchain.Types.Nockchain.{SignedRawTx}
use x402_nockchain.Wallet.Engine.{TxEngine, RawTx}
use x402_nockchain.Wallet.Surrogate.{raw_tx_from_surrogate}
use x402_nockchain.Facilitator.Chain.{
  ChainStatus, processing, ChainSettle, ChainError, transport, rejected,
  tx_construction_unavailable, ChainClient,
}

-- What a submission comes to.
unfoldable pub report : String → Result String Bool → Result ChainError ChainSettle
report tx_id (ok accepted) = ok (record {
  tx_id = tx_id;
  block_height = none;
  status = if accepted then ChainStatus.accepted else processing;
})
report tx_id (err e) = err (transport ("submit_and_wait: " <> e))

module _ (J : Json) (E : TxEngine) where
  unfoldable pub extract_signed_raw_tx : SettleRequest J.Value → Result ChainError SignedRawTx
  extract_signed_raw_tx req = do
    raw_field ← ok_or (J.get "signedRawTx" req.payload.payload) (
        tx_construction_unavailable
          "PaymentPayload.payload.signedRawTx missing — clients must use the path-2B WalletBackend flow (see docs/wallet-integration.md)")
    map_err (λ e. rejected ("PaymentPayload.payload.signedRawTx is malformed: " <> J.error_text e))
        (J.read_signed_raw_tx raw_field)

  -- The transaction to submit, with the text of its id.
  unfoldable pub decoded : SettleRequest J.Value → Result ChainError (RawTx E × String)
  decoded req = do
    signed ← extract_signed_raw_tx req
    raw ←
        map_err (λ e. rejected ("decode SignedRawTx surrogate: " <> e))
          (raw_tx_from_surrogate E signed)
    ok (raw, signed.tx_id)

  module _ {Chain : Type 0}
      (submit_and_wait : RawTx E → String → Chain → Result String Bool × Chain) where
    unfoldable pub submit :
        Result ChainError (RawTx E × String) → Chain → Result ChainError ChainSettle × Chain
    submit (ok (raw, tx_id)) chain =
        let (accepted, chain') = submit_and_wait raw tx_id chain in (report tx_id accepted, chain')
    submit (err e) chain = (err e, chain)

    unfoldable pub grpc_chain_client : ChainClient J.Value Chain
    unfolding submit decoded
    grpc_chain_client = record { settle = λ req chain. submit (decoded req) chain }
