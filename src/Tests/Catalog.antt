-- ===== src/Tests/Catalog.antt =====
-- The SQLite catalog over a database that is the list of its rows.
use x402_nockchain.Prelude.{
  String, ◌≡◌, refl, sym, ap, ok-injective, Option, none, some, List, [], ◌∷◌, Result, ok, err,
  filter, ◌==◌, string_eq, arith,
}
use x402_nockchain.Types.Payment.{PaymentRequirements}
use x402_nockchain.Types.Bazaar.{DiscoveryResource, ListDiscoveryResourcesParams}
use x402_nockchain.Facilitator.Catalog.Memory.{list_rows}
use x402_nockchain.Facilitator.Catalog.Sqlite.{
  RawCatalogRow, SqlValue, text, integer, text_or_null, Sql, CatalogJson, bindings, select_rows,
  sqlite_list, sqlite_upsert, execute_upsert, row_of,
}
use x402_nockchain.Facilitator.Catalog.Sqlite.Decoding.{
  upsert_row, IsLawfulSql, IsLawfulCatalogJson,
}
use x402_nockchain.Facilitator.Catalog.Sqlite.Refinement.{run, replay, sqlite_list-run}

abbrev metadata_of : SqlValue → Option String
metadata_of (text s) = some s
metadata_of _ = none

-- An upsert of the row that the six parameters make.
abbrev upsert_values : List SqlValue → List RawCatalogRow → List RawCatalogRow
upsert_values (text r ∷ text k ∷ integer v ∷ text a ∷ text l ∷ m ∷ []) rows =
    upsert_row
      (record {
        resource = r;
        kind = k;
        x402_version = v;
        accepts = a;
        last_updated = l;
        metadata = metadata_of m;
      })
      rows
upsert_values _ rows = rows

abbrev selected : List SqlValue → List RawCatalogRow → List RawCatalogRow
selected (text k ∷ _) rows = filter (λ r. r.kind == k) rows
selected _ rows = rows

abbrev sql : Sql
sql = record {
  Db = List RawCatalogRow;
  execute = λ statement values db. (ok tt, upsert_values values db);
  fetch_all = λ statement values db. ok (selected values db);
}

metadata_of-text_or_null : (m : Option String) → metadata_of (text_or_null m) ≡ m
metadata_of-text_or_null none = refl
metadata_of-text_or_null (some s) = refl

upsert_values-bindings :
    (row : RawCatalogRow) (rows : List RawCatalogRow)
    → upsert_values (bindings row) rows ≡ upsert_row row rows
unfolding bindings
upsert_values-bindings row rows =
    ap (λ m. upsert_row (record row { metadata = m }) rows) (metadata_of-text_or_null row.metadata)

sql-IsLawfulSql : IsLawfulSql sql
sql-IsLawfulSql = record {
  table = λ db. db;
  execute-ok = λ row db h. upsert_values-bindings row db;
  execute-err = λ row db e h. cc;
  fetch_by_kind = λ k db rows h. sym (ok-injective h);
  fetch_every = λ db rows h. sym (ok-injective h);
}

-- A resource without requirements is all that these texts can hold.
abbrev write_none : List (PaymentRequirements (Unit {0})) → Result String String
write_none [] = ok "[]"
write_none _ = err "too long"

abbrev json : CatalogJson (Unit {0})
json = record {
  write_accepts = write_none;
  read_accepts = λ s. ok [];
  write_value = λ v. ok "null";
  read_value = λ s. ok tt;
}

read-write_none :
    (accepts : List (PaymentRequirements (Unit {0}))) (s : String)
    → write_none accepts ≡ ok s
    → ◌≡◌ {A = Result String (List (PaymentRequirements (Unit {0})))} (ok []) (ok accepts)
read-write_none [] s h = refl
read-write_none (p ∷ rest) s h = cc

json-IsLawfulCatalogJson : IsLawfulCatalogJson json
json-IsLawfulCatalogJson = record {
  read-write_accepts = read-write_none;
  read-write_value = λ v s h. refl;
}

abbrev entry : String → String → DiscoveryResource (Unit {0})
entry resource updated = record {
  resource = resource;
  kind = "http";
  x402_version = 2;
  accepts = [];
  last_updated = updated;
  metadata = some tt;
}

abbrev ops : List (DiscoveryResource (Unit {0}))
ops = entry "/a" "1" ∷ entry "/b" "2" ∷ entry "/a" "3" ∷ []

abbrev params : ListDiscoveryResourcesParams
params = record { kind = some "http"; limit = some 1; offset = none; network = none; scheme = none }

abbrev stored : String → String → RawCatalogRow
stored resource updated = record {
  resource = resource;
  kind = "http";
  x402_version = 2;
  accepts = "[]";
  last_updated = updated;
  metadata = some "null";
}

-- The second upsert of `/a` replaced the first in its place.
rows_after :
    select_rows json sql params.kind (run json sql ops [])
    ≡ ok (stored "/a" "3" ∷ stored "/b" "2" ∷ [])
unfolding select_rows run sqlite_upsert execute_upsert row_of bindings
rows_after = refl

sqlite_list-run_example :
    sqlite_list json sql params (run json sql ops [])
    ≡ ok (list_rows params (replay json sql ops [] []))
unfolding sql-IsLawfulSql
sqlite_list-run_example =
    sqlite_list-run sql-IsLawfulSql json-IsLawfulCatalogJson ops [] params _ (omega arith) refl
      rows_after
