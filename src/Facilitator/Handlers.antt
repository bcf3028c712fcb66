-- ===== src/Facilitator/Handlers.antt =====
-- crates/x402-nockchain-facilitator/src/handlers: the endpoints, without metrics and logs.
pub mod Discovery
pub mod Laws
pub mod Listed
use x402_nockchain.Prelude.{
  ℕ, String, ◌<>◌, Bool, true, false, Option, none, some, List, [], ◌∷◌, Result, ok, err, map_err,
  ◌>>=◌, ◌>>◌, Dict, lookup,
}
use x402_nockchain.Types.Json.{Json}
use x402_nockchain.Types.Payment.{
  BazaarExtensionResponse, ExtensionResponsesHeader, BazaarExtensionStatus, success,
  rejected as rejected_status,
}
use x402_nockchain.Types.Bazaar.{
  BazaarExtension, DiscoveryInput, http, mcp, DiscoveryResource, ListDiscoveryResourcesParams,
  DiscoveryResourcesResponse, Pagination,
}
use x402_nockchain.Types.Facilitator.{
  VerifyRequest, VerifyResponse, SettleRequest, SettleResponse, TransactionStatus, FacilitatorError,
}
use x402_nockchain.Facilitator.Error.{VerifyError, to_facilitator_error, AppError, internal}
use x402_nockchain.Facilitator.Chain.{
  ChainError, ChainSettle, transport, rejected, tx_construction_unavailable, as_wire_str,
}
use x402_nockchain.Facilitator.Scheme.{SchemeHandler, handler_for}
use x402_nockchain.Facilitator.Replay.{ReplayCache}
use x402_nockchain.Facilitator.State.{AppState, Moment}
use x402_nockchain.Facilitator.Envelope.{verify_envelope, verify_envelope_for_settle}
use x402_nockchain.Facilitator.Catalog.Memory.{unwrap_or}
use x402_nockchain.Facilitator.Bazaar.{Web, process, header_of}

-- What the handles of `AppState` point to.
pub record World (Cache Rows Chain : Type 0) : Type 0 where
  pub cache : Cache
  pub rows : Rows
  pub chain : Chain

unfoldable pub chain_error_to_facilitator : ChainError → FacilitatorError
chain_error_to_facilitator (transport m) = record { code = "chain_transport"; message = m }
chain_error_to_facilitator (rejected m) = record { code = "chain_rejected"; message = m }
chain_error_to_facilitator (tx_construction_unavailable m) = record {
  code = "chain_unimplemented";
  message = m;
}

module _ (J : Json) (W : Web J.Value) where
  open J use {Value}
  open W use {HeaderValue}

  module _ {Chain Rows : Type 0} (state : AppState Value Chain Rows) where
    module _ (R : ReplayCache) where
      abbrev pub Worlds : Type 0
      Worlds = World R.Cache Rows Chain

      abbrev pub verify_body :
          VerifyRequest Value
          → String
          → Worlds
          → Result VerifyError (Unit {0})
          → (Option HeaderValue × VerifyResponse) × Worlds
      verify_body req stamp world (err e) =
          ((none, record { valid = false; error = some (to_facilitator_error e) }), world)
      verify_body req stamp world (ok _) =
          let (outcome, rows) = process J W state req stamp world.rows in
          (
            (header_of J W state outcome, record { valid = true; error = none }),
            record world { rows = rows },
          )

      -- `handlers::verify::handler`
      unfoldable pub verify_handler :
          Moment
          → String
          → VerifyRequest Value
          → Worlds
          → (Option HeaderValue × VerifyResponse) × Worlds
      verify_handler at stamp req world =
          let (result, cache) = verify_envelope R state at req world.cache in
          verify_body req stamp (record world { cache = cache }) result

      abbrev pub settle_body : Result ChainError ChainSettle → SettleResponse
      settle_body (err e) = record {
        success = false;
        transaction = none;
        error = some (chain_error_to_facilitator e);
      }
      settle_body (ok result) = record {
        success = true;
        transaction = some (record {
          tx_id = result.tx_id;
          block_height = result.block_height;
          status = as_wire_str result.status;
        });
        error = none;
      }

      abbrev pub dispatch :
          SettleRequest Value
          → Option HeaderValue
          → Worlds
          → Option (SchemeHandler Value Chain)
          → (Option HeaderValue × SettleResponse) × Worlds
      dispatch req headers world none = (
        (
          headers,
          record {
            success = false;
            transaction = none;
            error = some (record {
              code = "unknown_scheme";
              message = "scheme handler unavailable for settle";
            });
          },
        ),
        world,
      )
      dispatch req headers world (some handler) =
          let (result, chain) = handler.settle state.chain req world.chain in
          ((headers, settle_body result), record world { chain = chain })

      abbrev pub settle_valid :
          SettleRequest Value
          → String
          → Worlds
          → Result VerifyError (Unit {0})
          → (Option HeaderValue × SettleResponse) × Worlds
      settle_valid req stamp world (err e) = (
        (
          none,
          record { success = false; transaction = none; error = some (to_facilitator_error e) },
        ),
        world,
      )
      settle_valid req stamp world (ok _) =
          let (outcome, rows) = process J W state req stamp world.rows in
          dispatch req (header_of J W state outcome) (record world { rows = rows })
            (handler_for state.scheme_registry req.requirements.scheme req.requirements.network)

      -- `handlers::settle::handler`
      unfoldable pub settle_handler :
          Moment
          → String
          → SettleRequest Value
          → Worlds
          → (Option HeaderValue × SettleResponse) × Worlds
      settle_handler at stamp req world =
          let (result, cache) = verify_envelope_for_settle R state at req world.cache in
          settle_valid req stamp (record world { cache = cache }) result

    -- `handlers::discovery::list_resources`; the parameters of the query have the same fields.
    unfoldable pub list_resources :
        ListDiscoveryResourcesParams → Rows → Result AppError (DiscoveryResourcesResponse Value)
    list_resources params rows = do
      let limit = unwrap_or params.limit 50
      let offset = unwrap_or params.offset 0
      page ←
          map_err internal
            (state.catalog.list (record params { limit = some limit; offset = some offset }) rows)
      let (items, total) = page
      ok (record {
        x402_version = 2;
        items = items;
        pagination = record { limit = limit; offset = offset; total = total };
      })
