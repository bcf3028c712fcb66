-- ===== src/Facilitator/Startup.antt =====
-- crates/x402-nockchain-facilitator/src/lib.rs: `open_pool`. The connection and the migrations are
-- those of sqlx, with the files of the directory migrations.
use x402_nockchain.Prelude.{
  String, ◌<>◌, ◌≡◌, refl, inl, inr, Result, ok, map_err, Result-cases, ok-injective,
}
use x402_nockchain.Prelude.Actions.{Act, ◌>>=◌, ◌>>◌, lift}

-- `Db` is the database, `Pool` what connects to it.
pub record Sqlx : Type 1 where
  pub Db : Type 0
  pub Pool : Type 0
  pub connect : String → Db → Result String Pool × Db
  pub migrate : Pool → Db → Result String (Unit {0}) × Db

-- `context`: the text of an error becomes this one.
abbrev context : {A Db : Type 0} → String → Act String Db A → Act String Db A
context what action db = let (result, db') = action db in (map_err (λ _. what) result, db')

module _ (Q : Sqlx) where
  open Q use {Db, Pool}

  unfoldable pub open_pool : String → Act String Db Pool
  open_pool database_url = do
    pool ← context ("connect to SQLite at " <> database_url) (Q.connect database_url)
    context "apply catalog migrations" (Q.migrate pool)
    lift (ok pool)

  unfoldable pub in_memory_pool : Act String Db Pool
  in_memory_pool = open_pool "sqlite::memory:"

  -- A pool is returned only of a database that was reached and to which all migrations were
  -- applied, and the database is as the migrations left it.
  pub open_pool-ok :
      (database_url : String) (db : Db) (pool : Pool)
      → (open_pool database_url db).0 ≡ ok pool
      → let (result, mid) = Q.connect database_url db in
        (result ≡ ok pool)
        × ((Q.migrate pool mid).0 ≡ ok tt)
        × ((open_pool database_url db).1 ≡ (Q.migrate pool mid).1)
  unfolding open_pool
  open_pool-ok database_url db pool h = elim (Result-cases (Q.connect database_url db).0) [
    | inr (x, e) ↦ let h' = rw e at h in cc
    | inl (p, e) ↦
        let h' = rw e at h in
        elim (Result-cases (Q.migrate p (Q.connect database_url db).1).0) [
          | inr (x, f) ↦ let h'' = rw f at h' in cc
          | inl (u, f) ↦
              let h'' = rw f at h' in
              let same : p ≡ pool = ok-injective h'' in
              (rw same at e, rw same at f, rw (e, f, same) refl)
        ]
  ]
