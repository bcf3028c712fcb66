-- ===== src/Facilitator/Observability.antt =====
-- crates/x402-nockchain-facilitator/src/observability.rs: the log subscriber and the metrics
-- recorder, of which a process has one each. The recorder of metrics_exporter_prometheus and the
-- subscriber of tracing are parameters.
pub mod Single
use x402_nockchain.Prelude.{
  ℕ, String, Bool, true, Option, none, some, List, [], ◌∷◌, Result, ok, err, map_err, ◌==◌, nat_eq,
  if◌then◌else◌, ◌≡◌,
}

-- `Global` is what the process holds of them: whether a recorder is installed, what it counted.
pub record Exporter : Type 1 where
  pub Handle : Type 0
  pub Global : Type 0
  pub Filter : Type 0
  pub install_recorder : Global → Result String Handle × Global
  pub render : Handle → Global → String
  pub default_env : Global → Option Filter
  pub filter_of : String → Filter
  pub try_init : Filter → Global → Result String (Unit {0}) × Global

abbrev unwrap_or_else : {A : Type 0} → Option A → A → A
unwrap_or_else none other = other
unwrap_or_else (some a) other = a

-- The effect of `OnceLock::set`.
abbrev pub keep_first : {A : Type 0} → A → Option A → Option A
keep_first a none = some a
keep_first a (some held) = some held

module _ (E : Exporter) where
  open E use {Handle, Global}

  -- The memory of the process: METRICS_HANDLE and the rest.
  pub record Process : Type 0 where
    pub metrics_handle : Option Handle
    pub globals : Global

  -- The result of `try_init` is not used.
  unfoldable pub init_tracing : Global → Result String (Unit {0}) × Global
  init_tracing globals =
      let filter = unwrap_or_else (E.default_env globals) (E.filter_of "info") in
      (ok tt, (E.try_init filter globals).1)

  abbrev recorded : Result String Handle → Process → Result String Handle × Process
  recorded (err e) p = (err "install Prometheus recorder", p)
  recorded (ok handle) p =
      (ok handle, record p { metrics_handle = keep_first handle p.metrics_handle })

  abbrev install_unless : Option Handle → Process → Result String Handle × Process
  install_unless (some handle) p = (ok handle, p)
  install_unless none p =
      let (result, globals') = E.install_recorder p.globals in
      recorded result (record p { globals = globals' })

  unfoldable pub install_metrics_recorder : Process → Result String Handle × Process
  install_metrics_recorder p = install_unless p.metrics_handle p

  -- The headers and the body of `GET /metrics`.
  unfoldable pub render_metrics : Handle → Process → List (String × String) × String
  render_metrics handle p =
      (("content-type", "text/plain; version=0.0.4") ∷ [], E.render handle p.globals)

  -- A call of `install_metrics_recorder`, between two accesses to what the process shares.
  pub data Installation : Type 0 where
    called missed : Installation
    installed : Handle → Installation
    returned : Result String Handle → Installation

  abbrev looked : Option Handle → Installation
  looked none = missed
  looked (some handle) = returned (ok handle)

  abbrev tried : Result String Handle → Installation
  tried (ok handle) = installed handle
  tried (err e) = returned (err "install Prometheus recorder")

  unfoldable pub step : Installation → Process → Installation × Process
  step called p = (looked p.metrics_handle, p)
  step missed p =
      let (result, globals') = E.install_recorder p.globals in
      (tried result, record p { globals = globals' })
  step (installed handle) p =
      (returned (ok handle), record p { metrics_handle = keep_first handle p.metrics_handle })
  step (returned result) p = (returned result, p)

  -- Threads that call it, in the order in which they take their steps.
  unfoldable pub interleave : List ℕ → (ℕ → Installation) → Process → (ℕ → Installation) × Process
  interleave [] calls p = (calls, p)
  interleave (i ∷ order) calls p =
      let (call, p') = step (calls i) p in
      interleave order (λ j. if i == j then call else calls j) p'
