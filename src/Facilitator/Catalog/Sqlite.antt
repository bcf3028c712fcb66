-- ===== src/Facilitator/Catalog/Sqlite.antt =====
-- crates/x402-nockchain-facilitator/src/storage/sqlite.rs, over the table of
-- crates/x402-nockchain-facilitator/migrations/0001_catalog.sql. The database and the texts of JSON
-- values are parameters; a statement is written on one line. The helpers for the filters are those
-- of memory.rs, which are the same.
pub mod Decoding
pub mod Refinement
use x402_nockchain.Prelude.{
  ℕ, ◌%◌, ◌^◌, String, Option, none, some, List, [], ◌∷◌, Result, ok, err, map_err, ◌>>=◌, try_map,
  length, take, drop,
}
use x402_nockchain.Types.Payment.{PaymentRequirements}
use x402_nockchain.Types.Bazaar.{DiscoveryResource, ListDiscoveryResourcesParams}
use x402_nockchain.Facilitator.Catalog.{CatalogStore}
use x402_nockchain.Facilitator.Catalog.Memory.{
  default_list_limit, unwrap_or, Rows, retain_by, accepts_has_network, accepts_has_scheme,
}

-- An `i64` that holds a version is never negative here.
pub record RawCatalogRow : Type 0 where
  pub resource : String
  pub kind : String
  pub x402_version : ℕ
  pub accepts : String
  pub last_updated : String
  pub metadata : Option String

-- A bound parameter of a statement.
pub data SqlValue : Type 0 where
  text : String → SqlValue
  integer : ℕ → SqlValue
  null : SqlValue

-- What sqlx does: statements with their parameters, which only `execute` lets change the database.
pub record Sql : Type 1 where
  pub Db : Type 0
  pub execute : String → List SqlValue → Db → Result String (Unit {0}) × Db
  pub fetch_all : String → List SqlValue → Db → Result String (List RawCatalogRow)

-- `serde_json::to_string` and `from_str` at the types of the two JSON columns.
pub record CatalogJson (Value : Type 0) : Type 0 where
  pub write_accepts : List (PaymentRequirements Value) → Result String String
  pub read_accepts : String → Result String (List (PaymentRequirements Value))
  pub write_value : Value → Result String String
  pub read_value : String → Result String Value

abbrev pub upsert_sql : String
upsert_sql =
    "INSERT INTO catalog (resource, type, x402_version, accepts, last_updated, metadata) VALUES (?1, ?2, ?3, ?4, ?5, ?6) ON CONFLICT(resource, type) DO UPDATE SET x402_version = excluded.x402_version, accepts = excluded.accepts, last_updated = excluded.last_updated, metadata = excluded.metadata"

abbrev pub select_by_kind_sql : String
select_by_kind_sql =
    "SELECT resource, type, x402_version, accepts, last_updated, metadata FROM catalog WHERE type = ?1 ORDER BY id"

abbrev pub select_sql : String
select_sql =
    "SELECT resource, type, x402_version, accepts, last_updated, metadata FROM catalog ORDER BY id"

-- `context`: the text of an error becomes this one.
abbrev pub context : {A : Type 0} → String → Result String A → Result String A
context what = map_err (λ _. what)

-- `as_ref().map(f).transpose()`
abbrev pub try_some : {A B : Type 0} → (A → Result String B) → Option A → Result String (Option B)
try_some f none = ok none
try_some f (some a) = do b ← f a; ok (some b)

abbrev pub text_or_null : Option String → SqlValue
text_or_null none = null
text_or_null (some s) = text s

-- The six parameters of the upsert.
unfoldable pub bindings : RawCatalogRow → List SqlValue
bindings row =
    text row.resource
    ∷ text row.kind
    ∷ integer row.x402_version
    ∷ text row.accepts
    ∷ text row.last_updated
    ∷ text_or_null row.metadata
    ∷ []

module _ {Value : Type 0} (K : CatalogJson Value) where
  unfoldable pub row_of : DiscoveryResource Value → Result String RawCatalogRow
  row_of resource = do
    accepts_json ← context "serialize accepts JSON" (K.write_accepts resource.accepts)
    metadata_json ← context "serialize metadata JSON" (try_some K.write_value resource.metadata)
    ok (record {
      resource = resource.resource;
      kind = resource.kind;
      x402_version = resource.x402_version;
      accepts = accepts_json;
      last_updated = resource.last_updated;
      metadata = metadata_json;
    })

  unfoldable pub into_resource : RawCatalogRow → Result String (DiscoveryResource Value)
  into_resource row = do
    accepts ← context "parse accepts JSON" (K.read_accepts row.accepts)
    metadata ← context "parse metadata JSON" (try_some K.read_value row.metadata)
    ok (record {
      resource = row.resource;
      kind = row.kind;
      x402_version = row.x402_version % 2 ^ 32;
      accepts = accepts;
      last_updated = row.last_updated;
      metadata = metadata;
    })

  module _ (Q : Sql) where
    unfoldable pub execute_upsert :
        Result String RawCatalogRow → Q.Db → Result String (Unit {0}) × Q.Db
    execute_upsert (err e) db = (err e, db)
    execute_upsert (ok row) db =
        let (done, db') = Q.execute upsert_sql (bindings row) db in
        (context "upsert catalog entry" done, db')

    unfoldable pub select_rows : Option String → Q.Db → Result String (List RawCatalogRow)
    select_rows (some k) db =
        context "fetch catalog rows by kind" (Q.fetch_all select_by_kind_sql (text k ∷ []) db)
    select_rows none db = context "fetch catalog rows" (Q.fetch_all select_sql [] db)

    unfoldable pub sqlite_upsert : DiscoveryResource Value → Q.Db → Result String (Unit {0}) × Q.Db
    sqlite_upsert resource db = execute_upsert (row_of resource) db

    unfoldable pub sqlite_list :
        ListDiscoveryResourcesParams → Q.Db → Result String (Rows Value × ℕ)
    sqlite_list params db = do
      rows ← select_rows params.kind db
      decoded ← try_map into_resource rows
      let kept =
          retain_by params.scheme (λ s r. accepts_has_scheme r.accepts s)
            (retain_by params.network (λ n r. accepts_has_network r.accepts n) decoded)
      ok (
        take (unwrap_or params.limit default_list_limit) (drop (unwrap_or params.offset 0) kept),
        length kept % 2 ^ 32,
      )

    unfoldable pub sqlite_catalog_store : CatalogStore Value Q.Db
    sqlite_catalog_store = record { upsert = sqlite_upsert; list = sqlite_list }
