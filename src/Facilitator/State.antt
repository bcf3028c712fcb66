-- ===== src/Facilitator/State.antt =====
-- crates/x402-nockchain-facilitator/src/lib.rs: `AppState`. What its handles point to (catalog
-- rows, chain, replay cache) and the time are arguments of the operations; the replay cache
-- itself is a parameter of the modules that use it. A `Duration` is in whole seconds.
use x402_nockchain.Prelude.{ℕ, ◌*◌, ◌+◌, ◌-◌, min}
use x402_nockchain.Types.Json.{Json}
use x402_nockchain.Crypto.Interface.{Encoding, Schnorr}
use x402_nockchain.Crypto.Verifier
use x402_nockchain.Decimal.{u64_mod}
use x402_nockchain.Prelude.{String}
use x402_nockchain.Facilitator.Chain.{ChainClient, stub_chain_client}
use x402_nockchain.Facilitator.Catalog.{CatalogStore}
use x402_nockchain.Facilitator.Catalog.Sqlite.{CatalogJson, Sql, sqlite_catalog_store}
use x402_nockchain.Facilitator.Scheme.{SchemeHandlerRegistry, with_default_handlers}

abbrev pub default_clock_skew_tolerance : ℕ
default_clock_skew_tolerance = 60

abbrev pub default_replay_ttl : ℕ
default_replay_ttl = 15 * 60

pub record AppState (Value Chain Rows : Type 0) : Type 0 where
  pub catalog : CatalogStore Value Rows
  pub chain : ChainClient Value Chain
  pub clock_skew_tolerance : ℕ
  pub replay_ttl : ℕ
  pub scheme_registry : SchemeHandlerRegistry Value Chain

-- What the two clocks show when a request is handled: the Unix time, and the instant of the cache.
pub record Moment : Type 0 where
  pub now : ℕ
  pub instant : ℕ

unfoldable pub saturating_add : ℕ → ℕ → ℕ
saturating_add a b = min (a + b) (u64_mod - 1)

module _ {Value Chain Rows : Type 0} where
  unfoldable pub with_clock_skew_tolerance :
      AppState Value Chain Rows → ℕ → AppState Value Chain Rows
  with_clock_skew_tolerance state tolerance = record state { clock_skew_tolerance = tolerance }

  unfoldable pub with_replay_ttl : AppState Value Chain Rows → ℕ → AppState Value Chain Rows
  with_replay_ttl state ttl = record state { replay_ttl = ttl }

  unfoldable pub with_scheme_registry :
      AppState Value Chain Rows → SchemeHandlerRegistry Value Chain → AppState Value Chain Rows
  with_scheme_registry state registry = record state { scheme_registry = registry }

module _ (J : Json) (E : Encoding) (S : Schnorr)
    (verifier_text : Verifier.VerifyError J.JsonError S.SchnorrError E.DecodeError → String)
    {Chain Rows : Type 0} where
  -- `AppState::new`
  unfoldable pub new :
      CatalogStore J.Value Rows → ChainClient J.Value Chain → AppState J.Value Chain Rows
  new catalog chain = record {
    catalog = catalog;
    chain = chain;
    clock_skew_tolerance = default_clock_skew_tolerance;
    replay_ttl = default_replay_ttl;
    scheme_registry = with_default_handlers J E S verifier_text;
  }

  unfoldable pub with_stub_chain : CatalogStore J.Value Rows → AppState J.Value Chain Rows
  unfolding new
  with_stub_chain catalog = new catalog (stub_chain_client J)

-- The pool is the database of the catalog, a part of what the endpoints change.
unfoldable pub with_stub_chain_sqlite :
    {Chain : Type 0} (J : Json) (E : Encoding) (S : Schnorr)
    (verifier_text : Verifier.VerifyError J.JsonError S.SchnorrError E.DecodeError → String)
    (K : CatalogJson J.Value) (Q : Sql)
    → AppState J.Value Chain Q.Db
unfolding with_stub_chain
with_stub_chain_sqlite J E S verifier_text K Q =
    with_stub_chain J E S verifier_text (sqlite_catalog_store K Q)
