-- ===== src/Facilitator/Handlers/Discovery.antt =====
-- The discovery endpoint over the catalog in memory.
use x402_nockchain.Prelude.{
  ℕ, zero, suc, ◌+◌, ◌*◌, ◌≤◌, ◌≡◌, refl, ap, some, List, [], ◌++◌, Result, ok, ◌>>=◌, length, drop,
  ◌∙◌,
}
use x402_nockchain.Types.Json.{Json}
use x402_nockchain.Types.Bazaar.{DiscoveryResource, ListDiscoveryResourcesParams}
use x402_nockchain.Facilitator.Error.{AppError}
use x402_nockchain.Facilitator.State.{AppState}
use x402_nockchain.Facilitator.Catalog.Memory.{Rows, filtered, in_memory_catalog_store}
use x402_nockchain.Facilitator.Catalog.Memory.Laws.{walk, walk-drop}
use x402_nockchain.Facilitator.Bazaar.{Web}
use x402_nockchain.Facilitator.Handlers.{list_resources}

module _ (J : Json) (W : Web J.Value) {Chain : Type 0}
    (state : AppState J.Value Chain (Rows J.Value)) where
  abbrev pub in_memory : AppState J.Value Chain (Rows J.Value)
  in_memory = record state { catalog = in_memory_catalog_store }

  -- `n` requests for pages of size `l`, from an offset on, and the items of their answers.
  unfoldable pub pages :
      ListDiscoveryResourcesParams
      → ℕ
      → ℕ
      → ℕ
      → Rows J.Value
      → Result AppError (List (DiscoveryResource J.Value))
  pages params l zero offset rows = ok []
  pages params l (suc n) offset rows = do
    let rest = pages params l n (offset + l) rows
    response ←
        list_resources J W in_memory (record params { limit = some l; offset = some offset }) rows
    items ← rest
    ok (response.items ++ items)

  pages-walk :
      (params : ListDiscoveryResourcesParams) (l n offset : ℕ) (rows : Rows J.Value)
      → pages params l n offset rows ≡ ok (walk params l n offset rows)
  unfolding pages walk list_resources in_memory_catalog_store
  pages-walk params l zero offset rows = refl
  pages-walk params l (suc n) offset rows = rw (pages-walk params l n (offset + l) rows) refl

  -- Over the catalog in memory, a client that asks the discovery endpoint for page after page, as
  -- many as the rows that pass the filters need, is refused none and gets exactly those rows from
  -- the first offset on, in their order: none is missing and none comes twice.
  pub pages-drop :
      (params : ListDiscoveryResourcesParams) (l n offset : ℕ) (rows : Rows J.Value)
      → length (filtered params rows) ≤ offset + n * l
      → pages params l n offset rows ≡ ok (drop offset (filtered params rows))
  pages-drop params l n offset rows h =
      pages-walk params l n offset rows ∙ ap ok (walk-drop params l n offset rows h)
