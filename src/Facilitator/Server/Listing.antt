-- ===== src/Facilitator/Server/Listing.antt =====
-- What tasks that run side by side put in the catalog in memory.
use x402_nockchain.Prelude.{ℕ, String, ◌≡◌, Option, none, some, All, nat_eq}
use x402_nockchain.Types.Json.{Json}
use x402_nockchain.Types.Bazaar.{BazaarExtension, DiscoveryResource}
use x402_nockchain.Types.Facilitator.{VerifyRequest}
use x402_nockchain.Facilitator.Replay.{ReplayCache}
use x402_nockchain.Facilitator.State.{AppState, Moment}
use x402_nockchain.Facilitator.Catalog.Memory.{Rows, in_memory_catalog_store}
use x402_nockchain.Facilitator.Catalog.Memory.Laws.{Distinct}
use x402_nockchain.Facilitator.Bazaar.{Web, entry_of}
use x402_nockchain.Facilitator.Handlers.Laws.{Declares}
use x402_nockchain.Facilitator.Server.Checks.{checked_of, IsChecked}
use x402_nockchain.Facilitator.Server.{Endpoint, listed, answered, settle_endpoint, Stages, Worlds}

module _ (J : Json) (W : Web J.Value) {Chain Store : Type 0} (state : AppState J.Value Chain Store)
    (R : ReplayCache) where
  abbrev Tasks : Type 0
  Tasks = Stages J W state R

  -- The request of a task whose bazaar extension has been processed, with the time of that.
  abbrev pub processed_of : Tasks → Option (Endpoint × VerifyRequest J.Value × Moment × String)
  processed_of (listed endpoint req at stamp headers) = some (endpoint, req, at, stamp)
  processed_of (answered req at stamp headers response) = some (settle_endpoint, req, at, stamp)
  processed_of stage = none

  -- An upsert by a task that has passed its checks, of the row that its request declares.
  record Upsert (stage stage' : Tasks) (before after : Store) : Type 0 where
    endpoint : Endpoint
    req : VerifyRequest J.Value
    at : Moment
    stamp : String
    ext : BazaarExtension J.Value
    passed : checked_of J W state R stage ≡ some (endpoint, req, at)
    processed : processed_of stage' ≡ some (endpoint, req, at, stamp)
    declares : Declares J W state req ext
    after_eq : after ≡ (state.catalog.upsert (entry_of J W req ext stamp) before).1

  module _ (first : Worlds J W state R) (since : ℕ) where
    -- Where a row comes from: a task whose request passed the checks of its endpoint and declares the
    -- row.
    pub record Origin (tasks : ℕ → Tasks) (row : DiscoveryResource J.Value) : Type 0 where
      pub task : ℕ
      pub endpoint : Endpoint
      pub req : VerifyRequest J.Value
      pub at : Moment
      pub stamp : String
      pub ext : BazaarExtension J.Value
      pub processed : processed_of (tasks task) ≡ some (endpoint, req, at, stamp)
      pub checked : IsChecked J W state R first since (endpoint, req, at)
      pub declares : Declares J W state req ext
      pub row_eq : row ≡ entry_of J W req ext stamp

module _ (J : Json) (W : Web J.Value) {Chain : Type 0}
    (other : AppState J.Value Chain (Rows J.Value)) (R : ReplayCache) where
  -- The state with the catalog in memory.
  abbrev pub state : AppState J.Value Chain (Rows J.Value)
  state = record other { catalog = in_memory_catalog_store }

  record Inv (first : Worlds J W state R) (since : ℕ) (rows : Rows J.Value)
      (tasks : ℕ → Tasks J W state R) : Type 0 where
    origins : All (Origin J W state R first since tasks) rows
    distinct : Distinct rows
