-- ===== src/Facilitator/Catalog/Sqlite/Refinement.antt =====
-- The SQLite catalog is the catalog in memory: after the same upserts it lists the same pages.
use x402_nockchain.Prelude.{
  String, ◌≡◌, refl, sym, subst, Option, none, some, List, [], ◌∷◌, Result, ok, err, map_err-eq-ok,
  try_map, All, Result-cases, inl, inr, filter, ◌==◌, string_eq,
}
use x402_nockchain.Types.Bazaar.{DiscoveryResource, ListDiscoveryResourcesParams}
use x402_nockchain.Facilitator.Catalog.Memory.{Rows, put, filtered, list_rows, retain_by}
use x402_nockchain.Facilitator.Catalog.Sqlite.{
  RawCatalogRow, text, Sql, CatalogJson, upsert_sql, select_by_kind_sql, select_sql, bindings,
  row_of, execute_upsert, select_rows, sqlite_upsert, sqlite_list,
}
use x402_nockchain.Facilitator.Catalog.Sqlite.Decoding.{
  IsLawfulSql, IsLawfulCatalogJson, VersionFits, Decodes, into_resource-row_of, Decodes-upsert_row,
  Decodes-filter,
}

-- What an upsert that came to this result does to the catalog in memory.
abbrev pub mirrored :
    {Value : Type 0} → DiscoveryResource Value → Result String (Unit {0}) → Rows Value → Rows Value
mirrored resource (ok _) mem = put resource mem
mirrored resource (err _) mem = mem

module _ {Value : Type 0} (K : CatalogJson Value) (Q : Sql) where
  -- A sequence of upserts, and the same upserts on the catalog in memory, without those that failed.
  unfoldable pub run : List (DiscoveryResource Value) → Q.Db → Q.Db
  run [] db = db
  run (resource ∷ rest) db = run rest (sqlite_upsert K Q resource db).1

  unfoldable pub replay : List (DiscoveryResource Value) → Q.Db → Rows Value → Rows Value
  replay [] db mem = mem
  replay (resource ∷ rest) db mem =
      replay rest (sqlite_upsert K Q resource db).1
        (mirrored resource (sqlite_upsert K Q resource db).0 mem)

module _ {Value : Type 0} {K : CatalogJson Value} {Q : Sql} (sql : IsLawfulSql Q)
    (json : IsLawfulCatalogJson K) where
  Decodes-nil : Decodes K [] []
  unfolding try_map
  Decodes-nil = refl

  sqlite_upsert-Decodes :
      (resource : DiscoveryResource Value) (db : Q.Db) (mem : Rows Value)
      → VersionFits resource
      → Decodes K (sql.table db) mem
      → Decodes K
          (sql.table (sqlite_upsert K Q resource db).1)
          (mirrored resource (sqlite_upsert K Q resource db).0 mem)
  unfolding sqlite_upsert execute_upsert
  sqlite_upsert-Decodes resource db mem fits h = elim (Result-cases (row_of K resource)) [
    | inr (e, bad) ↦ rw bad h
    | inl (row, made) ↦ elim (Result-cases (Q.execute upsert_sql (bindings row) db).0) [
      | inl (tt, done) ↦
          rw (made, done, sql.execute-ok row db done)
            (Decodes-upsert_row K row resource (sql.table db) mem
              (into_resource-row_of json resource row fits made) h)
      | inr (e, failed) ↦ rw (made, failed, sql.execute-err row db e failed) h
    ]
  ]

  run-Decodes :
      (ops : List (DiscoveryResource Value)) (db : Q.Db) (mem : Rows Value)
      → All VersionFits ops
      → Decodes K (sql.table db) mem
      → Decodes K (sql.table (run K Q ops db)) (replay K Q ops db mem)
  unfolding run replay
  run-Decodes [] db mem fits h = h
  run-Decodes (resource ∷ ops) db mem (fit, fits) h =
      run-Decodes ops _ _ fits (sqlite_upsert-Decodes resource db mem fit h)

  -- The rows of the query decode to the resources that pass the filter by kind.
  select_rows-Decodes :
      (kind : Option String) (db : Q.Db) (mem : Rows Value) (rows : List RawCatalogRow)
      → Decodes K (sql.table db) mem
      → select_rows K Q kind db ≡ ok rows
      → Decodes K rows (retain_by kind (λ k r. r.kind == k) mem)
  unfolding select_rows
  select_rows-Decodes none db mem rows h e =
      let fetched = map_err-eq-ok _ (Q.fetch_all select_sql [] db) e in
      subst (λ l. Decodes K l mem) (sym (sql.fetch_every db rows fetched)) h
  select_rows-Decodes (some k) db mem rows h e =
      let fetched = map_err-eq-ok _ (Q.fetch_all select_by_kind_sql (text k ∷ []) db) e in
      subst (λ l. Decodes K l (filter (λ r. r.kind == k) mem))
        (sym (sql.fetch_by_kind k db rows fetched)) (Decodes-filter K k (sql.table db) mem h)

  -- From an empty table, over a database that runs the statements as SQLite documents them: after
  -- any sequence of upserts, whether they succeed or fail, a listing whose query succeeds is the
  -- page and the total of the catalog in memory after the upserts that succeeded.
  pub sqlite_list-run :
      (ops : List (DiscoveryResource Value)) (db : Q.Db) (params : ListDiscoveryResourcesParams)
      (rows : List RawCatalogRow)
      → All VersionFits ops
      → sql.table db ≡ []
      → select_rows K Q params.kind (run K Q ops db) ≡ ok rows
      → sqlite_list K Q params (run K Q ops db) ≡ ok (list_rows params (replay K Q ops db []))
  unfolding sqlite_list list_rows filtered
  sqlite_list-run ops db params rows fits empty selected =
      let start : Decodes K (sql.table db) [] = rw empty Decodes-nil in
      let decodes = run-Decodes ops db [] fits start in
      rw (selected, select_rows-Decodes params.kind (run K Q ops db) _ rows decodes selected) refl
