-- ===== src/Facilitator/Catalog/Sqlite/Decoding.antt =====
-- The rows of the table and the resources that they decode to, under an upsert and under the
-- filter of a query.
use mathlib.Core.Path.{subst}
use x402_nockchain.Prelude.{
  ◌%◌, ◌^◌, ◌<◌, String, ◌≡◌, refl, sym, ap, ◌∙◌, ◌&&◌, Option, none, some, List, [], ◌∷◌, ok, err,
  ok-injective, >>=-eq-ok, map_err-bind-eq-ok, try_map, filter, arith, ◌==◌, string_eq, Bool-cases,
  inl, inr, if◌then◌else◌,
}
use x402_nockchain.Types.Payment.{PaymentRequirements}
use x402_nockchain.Types.Bazaar.{DiscoveryResource}
use x402_nockchain.Facilitator.Catalog.Memory.{Rows, same_key, put}
use x402_nockchain.Facilitator.Catalog.Sqlite.{
  RawCatalogRow, text, Sql, CatalogJson, upsert_sql, select_by_kind_sql, select_sql, try_some,
  bindings, row_of, into_resource,
}

-- What `INSERT … ON CONFLICT(resource, type) DO UPDATE` does to the rows in the order of their ids:
-- a row with the same resource and type keeps its id and takes the new columns, and a new row has
-- the largest id.
abbrev pub upsert_row : RawCatalogRow → List RawCatalogRow → List RawCatalogRow
upsert_row row [] = row ∷ []
upsert_row row (r ∷ rows) =
    if r.resource == row.resource && r.kind == row.kind then row ∷ rows else r ∷ upsert_row row rows

-- The database as SQLite documents it: `table` are the rows of `catalog` in the order of their ids,
-- and a statement that fails changes nothing.
pub record IsLawfulSql (Q : Sql) : Type 0 where
  pub table : Q.Db → List RawCatalogRow
  pub execute-ok :
      (row : RawCatalogRow) (db : Q.Db)
      → (Q.execute upsert_sql (bindings row) db).0 ≡ ok tt
      → table (Q.execute upsert_sql (bindings row) db).1 ≡ upsert_row row (table db)
  pub execute-err :
      (row : RawCatalogRow) (db : Q.Db) (e : String)
      → (Q.execute upsert_sql (bindings row) db).0 ≡ err e
      → table (Q.execute upsert_sql (bindings row) db).1 ≡ table db
  pub fetch_by_kind :
      (k : String) (db : Q.Db) (rows : List RawCatalogRow)
      → Q.fetch_all select_by_kind_sql (text k ∷ []) db ≡ ok rows
      → rows ≡ filter (λ r. r.kind == k) (table db)
  pub fetch_every :
      (db : Q.Db) (rows : List RawCatalogRow)
      → Q.fetch_all select_sql [] db ≡ ok rows
      → rows ≡ table db

-- JSON that was written reads back.
pub record IsLawfulCatalogJson {Value : Type 0} (K : CatalogJson Value) : Type 0 where
  pub read-write_accepts :
      (accepts : List (PaymentRequirements Value)) (s : String)
      → K.write_accepts accepts ≡ ok s
      → K.read_accepts s ≡ ok accepts
  pub read-write_value : (v : Value) (s : String) → K.write_value v ≡ ok s → K.read_value s ≡ ok v

-- A version is a `u32`.
abbrev pub VersionFits : {Value : Type 0} → DiscoveryResource Value → Type 0
VersionFits resource = resource.x402_version < 2 ^ 32

module _ {Value : Type 0} {K : CatalogJson Value} (json : IsLawfulCatalogJson K) where
  try_some-read_write :
      (o : Option Value) (s : Option String)
      → try_some K.write_value o ≡ ok s
      → try_some K.read_value s ≡ ok o
  try_some-read_write none s h = ap (try_some K.read_value) (sym (ok-injective h))
  try_some-read_write (some v) s h =
      let (t, written, h1) = >>=-eq-ok (K.write_value v) _ h in
      ap (try_some K.read_value) (sym (ok-injective h1))
      ∙ rw (json.read-write_value v t written) refl

  pub into_resource-row_of :
      (resource : DiscoveryResource Value) (row : RawCatalogRow)
      → VersionFits resource
      → row_of K resource ≡ ok row
      → into_resource K row ≡ ok resource
  unfolding row_of into_resource
  into_resource-row_of resource row fits h =
      let (accepts, written, h1) = map_err-bind-eq-ok _ (K.write_accepts resource.accepts) _ h in
      let (metadata, stored, h2) =
        map_err-bind-eq-ok _ (try_some K.write_value resource.metadata) _ h1 in
      let version : resource.x402_version % 2 ^ 32 ≡ resource.x402_version = omega arith in
      rw (
        ← ok-injective h2,
        json.read-write_accepts resource.accepts accepts written,
        try_some-read_write resource.metadata metadata stored,
        version,
      )

module _ {Value : Type 0} (K : CatalogJson Value) where
  into_resource-key :
      (row : RawCatalogRow) (resource : DiscoveryResource Value)
      → into_resource K row ≡ ok resource
      → (row.resource ≡ resource.resource) × (row.kind ≡ resource.kind)
  unfolding into_resource
  into_resource-key row resource h =
      let (accepts, _, h1) = map_err-bind-eq-ok _ (K.read_accepts row.accepts) _ h in
      let (metadata, _, h2) = map_err-bind-eq-ok _ (try_some K.read_value row.metadata) _ h1 in
      (ap (λ r. r.resource) (ok-injective h2), ap (λ r. r.kind) (ok-injective h2))

  -- The rows of the table decode to the rows in memory.
  abbrev pub Decodes : List RawCatalogRow → Rows Value → Type 0
  Decodes rows mem = try_map (into_resource K) rows ≡ ok mem

  Decodes-cons :
      (r : RawCatalogRow) (m : DiscoveryResource Value) (rows : List RawCatalogRow)
      (mem : Rows Value)
      → into_resource K r ≡ ok m
      → Decodes rows mem
      → Decodes (r ∷ rows) (m ∷ mem)
  unfolding try_map
  Decodes-cons r m rows mem read rest = rw (read, rest) refl

  same_key-row :
      (row r : RawCatalogRow) (resource m : DiscoveryResource Value)
      → into_resource K row ≡ ok resource
      → into_resource K r ≡ ok m
      → (r.resource == row.resource && r.kind == row.kind) ≡ same_key m resource
  unfolding same_key
  same_key-row row r resource m e read =
      let (row_resource, row_kind) = into_resource-key row resource e in
      let (r_resource, r_kind) = into_resource-key r m read in
      λ i. r_resource i == row_resource i && r_kind i == row_kind i

  upsert-cons :
      (row r : RawCatalogRow) (resource m : DiscoveryResource Value) (rows : List RawCatalogRow)
      (mem : Rows Value)
      → into_resource K row ≡ ok resource
      → into_resource K r ≡ ok m
      → Decodes rows mem
      → Decodes (upsert_row row rows) (put resource mem)
      → Decodes (upsert_row row (r ∷ rows)) (put resource (m ∷ mem))
  unfolding put
  upsert-cons row r resource m rows mem e read rest ih =
      let same = same_key-row row r resource m e read in
      elim (Bool-cases (same_key m resource)) [
        | inl b ↦ rw (b, same ∙ b) (Decodes-cons row resource rows mem e rest)
        | inr b ↦
            rw (b, same ∙ b) (Decodes-cons r m (upsert_row row rows) (put resource mem) read ih)
      ]

  pub Decodes-upsert_row :
      (row : RawCatalogRow) (resource : DiscoveryResource Value) (rows : List RawCatalogRow)
      (mem : Rows Value)
      → into_resource K row ≡ ok resource
      → Decodes rows mem
      → Decodes (upsert_row row rows) (put resource mem)
  unfolding try_map put
  Decodes-upsert_row row resource [] mem e h = rw (e, ← ok-injective h) refl
  Decodes-upsert_row row resource (r ∷ rows) mem e h =
      let (m, read, h1) = >>=-eq-ok (into_resource K r) _ h in
      let (rest, read_rest, h2) = >>=-eq-ok (try_map (into_resource K) rows) _ h1 in
      subst (λ l. Decodes (upsert_row row (r ∷ rows)) (put resource l)) (ok-injective h2)
        (upsert-cons row r resource m rows rest e read read_rest
          (Decodes-upsert_row row resource rows rest e read_rest))

  filter-cons :
      (k : String) (r : RawCatalogRow) (m : DiscoveryResource Value) (rows : List RawCatalogRow)
      (mem : Rows Value)
      → into_resource K r ≡ ok m
      → Decodes (filter (λ r. r.kind == k) rows) (filter (λ r. r.kind == k) mem)
      → Decodes (filter (λ r. r.kind == k) (r ∷ rows)) (filter (λ r. r.kind == k) (m ∷ mem))
  filter-cons k r m rows mem read ih =
      let same : (r.kind == k) ≡ (m.kind == k) = ap (λ s. s == k) (into_resource-key r m read).1 in
      elim (Bool-cases (m.kind == k)) [
        | inl b ↦ rw (b, same ∙ b) (Decodes-cons r m _ _ read ih)
        | inr b ↦ rw (b, same ∙ b) ih
      ]

  pub Decodes-filter :
      (k : String) (rows : List RawCatalogRow) (mem : Rows Value)
      → Decodes rows mem
      → Decodes (filter (λ r. r.kind == k) rows) (filter (λ r. r.kind == k) mem)
  unfolding try_map
  Decodes-filter k [] mem h = rw (← ok-injective h) refl
  Decodes-filter k (r ∷ rows) mem h =
      let (m, read, h1) = >>=-eq-ok (into_resource K r) _ h in
      let (rest, read_rest, h2) = >>=-eq-ok (try_map (into_resource K) rows) _ h1 in
      subst (λ l. Decodes (filter (λ r. r.kind == k) (r ∷ rows)) (filter (λ r. r.kind == k) l))
        (ok-injective h2) (filter-cons k r m rows rest read (Decodes-filter k rows rest read_rest))
