-- ===== src/Facilitator/Observability/Single.antt =====
-- One handle for all threads.
use x402_nockchain.Prelude.{
  ℕ, Bool, true, false, Option, none, some, List, [], ◌∷◌, ok, err, ◌≡◌, inl, inr, refl, sym, ◌∙◌,
  OnSome, Result-cases, Option-cases, Bool-cases, ◌==◌, nat_eq, if◌then◌else◌,
}
use x402_nockchain.Facilitator.Observability.{
  Exporter, Process, Installation, called, missed, installed, returned, keep_first, looked,
  install_metrics_recorder, step, interleave,
}

-- What the exporter documents: installing a recorder fails when one is installed, and changes
-- nothing then; an installed recorder stays.
pub record IsExclusive (E : Exporter) : Type 0 where
  pub is_set : E.Global → Bool
  pub install-ok :
      (g : E.Global) (h : E.Handle)
      → (E.install_recorder g).0 ≡ ok h
      → (is_set g ≡ false) × (is_set (E.install_recorder g).1 ≡ true)
  pub install-keep : (g : E.Global) → is_set g ≡ true → is_set (E.install_recorder g).1 ≡ true

module _ (E : Exporter) where
  -- Without other threads, the steps of a call are the function.
  step-install_metrics_recorder :
      (p : Process E)
      → let (call, p') = step E called p in
        let (call', p'') = step E call p' in
        step E call' p''
        ≡ (returned (install_metrics_recorder E p).0, (install_metrics_recorder E p).1)
  unfolding step install_metrics_recorder
  step-install_metrics_recorder p = elim (Option-cases p.metrics_handle) [
    | inr (h, e) ↦ rw e refl
    | inl e ↦ elim (Result-cases (E.install_recorder p.globals).0) [
      | inl (h, f) ↦ rw (e, f) refl
      | inr (x, f) ↦ rw (e, f) refl
    ]
  ]

  -- The handle that a call holds.
  abbrev pub handle_of : Installation E → Option E.Handle
  handle_of called = none
  handle_of missed = none
  handle_of (installed h) = some h
  handle_of (returned (ok h)) = some h
  handle_of (returned (err e)) = none

  module _ (X : IsExclusive E) where
    open X use {is_set}

    abbrev Is : E.Handle → Option E.Handle → Type 0
    Is h o = OnSome (λ x. x ≡ h) o

    -- No call holds a handle, or all that do hold the same one.
    data Shared (calls : ℕ → Installation E) (p : Process E) : Type 0 where
      nobody : p.metrics_handle ≡ none → ((i : ℕ) → handle_of (calls i) ≡ none) → Shared calls p
      everybody :
          (h : E.Handle)
          → is_set p.globals ≡ true
          → Is h p.metrics_handle
          → ((i : ℕ) → Is h (handle_of (calls i)))
          → Shared calls p

    abbrev put : (ℕ → Installation E) → ℕ → Installation E → ℕ → Installation E
    put calls i call j = if i == j then call else calls j

    put-none :
        (calls : ℕ → Installation E) (i : ℕ) (call : Installation E)
        → ((i : ℕ) → handle_of (calls i) ≡ none)
        → handle_of call ≡ none
        → (j : ℕ) → handle_of (put calls i call j) ≡ none
    put-none calls i call all e j = elim (Bool-cases (i == j)) [
      | inl b ↦ rw b e
      | inr b ↦ rw b (all j)
    ]

    put-Is :
        (calls : ℕ → Installation E) (i : ℕ) (call : Installation E) (h : E.Handle)
        → ((i : ℕ) → Is h (handle_of (calls i)))
        → Is h (handle_of call)
        → (j : ℕ) → Is h (handle_of (put calls i call j))
    put-Is calls i call h all e j = elim (Bool-cases (i == j)) [
      | inl b ↦ rw b e
      | inr b ↦ rw b (all j)
    ]

    none-Is : (h : E.Handle) (o : Option E.Handle) → o ≡ none → Is h o
    none-Is h o e = rw e tt

    keep_first-Is : (h : E.Handle) (o : Option E.Handle) → Is h o → Is h (keep_first h o)
    keep_first-Is h none e = refl
    keep_first-Is h (some x) e = e

    looked-handle : (o : Option E.Handle) → handle_of (looked E o) ≡ o
    looked-handle none = refl
    looked-handle (some h) = refl

    step-Shared :
        (i : ℕ) (call : Installation E) (calls : ℕ → Installation E) (p : Process E)
        → calls i ≡ call
        → Shared calls p
        → Shared (put calls i (step E call p).0) (step E call p).1
    unfolding step
    step-Shared i called calls p at (nobody lock quiet) =
        nobody lock (put-none calls i _ quiet (rw lock refl))
    step-Shared i called calls p at (everybody h installed_g held all) =
        everybody h installed_g held
          (put-Is calls i _ h all (rw (looked-handle p.metrics_handle) held))
    step-Shared i missed calls p at (nobody lock quiet) =
        elim (Result-cases (E.install_recorder p.globals).0) [
          | inl (k, f) ↦
              everybody k (X.install-ok p.globals k f).1 (none-Is k p.metrics_handle lock)
                (put-Is calls i _ k (λ j. none-Is k (handle_of (calls j)) (quiet j)) (rw f refl))
          | inr (x, f) ↦ nobody lock (put-none calls i _ quiet (rw f refl))
        ]
    step-Shared i missed calls p at (everybody h installed_g held all) =
        elim (Result-cases (E.install_recorder p.globals).0) [
          | inl (k, f) ↦ let (unset, _) = X.install-ok p.globals k f in cc
          | inr (x, f) ↦
              everybody h (X.install-keep p.globals installed_g) held
                (put-Is calls i _ h all (rw f tt))
        ]
    step-Shared i (installed k) calls p at (nobody lock quiet) =
        let held = quiet i in let held' = rw at at held in cc
    step-Shared i (installed k) calls p at (everybody h installed_g held all) =
        let same : k ≡ h = let held' = all i in let mine = rw at at held' in mine in
        everybody h installed_g (rw same (keep_first-Is h p.metrics_handle held))
          (put-Is calls i _ h all same)
    step-Shared i (returned r) calls p at (nobody lock quiet) =
        nobody lock (put-none calls i _ quiet (let q = quiet i in let mine = rw at at q in mine))
    step-Shared i (returned r) calls p at (everybody h installed_g held all) =
        everybody h installed_g held
          (put-Is calls i _ h all (let q = all i in let mine = rw at at q in mine))

    interleave-Shared :
        (order : List ℕ) (calls : ℕ → Installation E) (p : Process E)
        → Shared calls p
        → Shared (interleave E order calls p).0 (interleave E order calls p).1
    unfolding interleave
    interleave-Shared [] calls p inv = inv
    interleave-Shared (i ∷ order) calls p inv =
        interleave-Shared order (put calls i (step E (calls i) p).0) (step E (calls i) p).1
          (step-Shared i (calls i) calls p refl inv)

    -- However the calls of `install_metrics_recorder` by the threads of a process interleave, and
    -- whether or not another part of the process has installed a recorder before: when the
    -- exporter installs at most one recorder, all calls that succeed return the same handle, and
    -- the handle that the process keeps for later calls, if it keeps one yet, is that handle.
    pub interleave-IsSingle :
        (order : List ℕ) (globals : E.Global) (i j : ℕ) (h k : E.Handle)
        → let start : Process E = record { metrics_handle = none; globals = globals } in
          let (calls, p) = interleave E order (λ i. called) start in
          calls i ≡ returned (ok h)
          → calls j ≡ returned (ok k)
          → (h ≡ k) × OnSome (λ kept. kept ≡ h) p.metrics_handle
    interleave-IsSingle order globals i j h k e f =
        elim (interleave-Shared order (λ i. called)
          (record { metrics_handle = none; globals = globals }) (nobody refl (λ i. refl))) [
            | nobody lock quiet ↦ let q = quiet i in let mine = rw e at q in cc
            | everybody x installed_g held all ↦
                let q = all i in
                let first = rw e at q in
                let r = all j in let second = rw f at r in (first ∙ sym second, rw first held)
          ]
