-- ===== src/Facilitator/Catalog/Memory.antt =====
-- crates/x402-nockchain-facilitator/src/storage/memory.rs
pub mod Laws
use x402_nockchain.Prelude.{
  ℕ, ◌%◌, ◌^◌, String, Bool, true, ◌&&◌, Option, none, some, List, [], ◌∷◌, Result, ok, ◌==◌,
  string_eq, if◌then◌else◌, length, take, drop, filter, any,
}
use x402_nockchain.Types.Payment.{PaymentRequirements}
use x402_nockchain.Types.Bazaar.{DiscoveryResource, ListDiscoveryResourcesParams}
use x402_nockchain.Facilitator.Catalog.{CatalogStore}

abbrev pub default_list_limit : ℕ
default_list_limit = 50

-- `unwrap_or`
abbrev pub unwrap_or : Option ℕ → ℕ → ℕ
unwrap_or none d = d
unwrap_or (some n) d = n

abbrev pub Rows : Type 0 → Type 0
Rows Value = List (DiscoveryResource Value)

module _ {Value : Type 0} where
  -- The test of `position`.
  unfoldable pub same_key : DiscoveryResource Value → DiscoveryResource Value → Bool
  same_key r s = r.resource == s.resource && r.kind == s.kind

  -- `position`, then the row replaced in place or pushed.
  unfoldable pub put : DiscoveryResource Value → Rows Value → Rows Value
  put resource [] = resource ∷ []
  put resource (r ∷ rows) = if same_key r resource then resource ∷ rows else r ∷ put resource rows

  unfoldable pub accepts_has_network : List (PaymentRequirements Value) → String → Bool
  accepts_has_network accepts network = any (λ p. p.network == network) accepts

  unfoldable pub accepts_has_scheme : List (PaymentRequirements Value) → String → Bool
  accepts_has_scheme accepts scheme = any (λ p. p.scheme == scheme) accepts

  -- A filter that is there only when its parameter is.
  abbrev pub retain_by :
      Option String → (String → DiscoveryResource Value → Bool) → Rows Value → Rows Value
  retain_by none test rows = rows
  retain_by (some s) test rows = filter (test s) rows

  unfoldable pub filtered : ListDiscoveryResourcesParams → Rows Value → Rows Value
  filtered params rows =
      retain_by params.scheme (λ s r. accepts_has_scheme r.accepts s)
        (retain_by params.network (λ n r. accepts_has_network r.accepts n)
          (retain_by params.kind (λ k r. r.kind == k) rows))

  unfoldable pub list_rows : ListDiscoveryResourcesParams → Rows Value → Rows Value × ℕ
  list_rows params rows =
      let kept = filtered params rows in
      (
        take (unwrap_or params.limit default_list_limit) (drop (unwrap_or params.offset 0) kept),
        length kept % 2 ^ 32,
      )

  unfoldable pub in_memory_catalog_store : CatalogStore Value (Rows Value)
  in_memory_catalog_store = record {
    upsert = λ resource rows. (ok tt, put resource rows);
    list = λ params rows. ok (list_rows params rows);
  }
