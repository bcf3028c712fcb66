-- ===== src/Facilitator/Server/Checks.antt =====
-- A task that goes on has a request that passed its checks.
use x402_nockchain.Prelude.{
  ℕ, ◌≡◌, refl, false, Option, none, some, OnSome, ok, Result-cases, Bool-cases, inl, inr, ◌==◌,
  nat_eq,
}
use x402_nockchain.Types.Json.{Json}
use x402_nockchain.Types.Payment.{Authorization}
use x402_nockchain.Types.Facilitator.{VerifyRequest}
use x402_nockchain.Facilitator.Replay.{ReplayCache}
use x402_nockchain.Facilitator.State.{AppState, Moment}
use x402_nockchain.Facilitator.Scheme.{SchemeHandler}
use x402_nockchain.Facilitator.Bazaar.{Web}
use x402_nockchain.Facilitator.Handlers.{dispatch}
use x402_nockchain.Facilitator.Envelope.Laws.{
  Passes, hit, verify_envelope_iff, verify_envelope_for_settle_iff,
}
use x402_nockchain.Facilitator.Server.{
  idle, arrived, refused, accepted, listed, answered, Action, receive, check, list, settle,
  verify_endpoint, settle_endpoint, Stages, Worlds, act, System, perform, pick, pass, Reach, begin,
  later, checks_of, Endpoint,
}

module _ (J : Json) (W : Web J.Value) {Chain Store : Type 0} (state : AppState J.Value Chain Store)
    (R : ReplayCache) where
  abbrev Tasks : Type 0
  Tasks = Stages J W state R

  pub dispatch-cache :
      (req : VerifyRequest J.Value) (headers : Option W.HeaderValue) (world : Worlds J W state R)
      (found : Option (SchemeHandler J.Value Chain))
      → (dispatch J W state R req headers world found).1.cache ≡ world.cache
  dispatch-cache req headers world none = refl
  dispatch-cache req headers world (some handler) = refl

  pub dispatch-rows :
      (req : VerifyRequest J.Value) (headers : Option W.HeaderValue) (world : Worlds J W state R)
      (found : Option (SchemeHandler J.Value Chain))
      → (dispatch J W state R req headers world found).1.rows ≡ world.rows
  dispatch-rows req headers world none = refl
  dispatch-rows req headers world (some handler) = refl

  -- The request that `/verify` has accepted, and when its nonce was looked up.
  abbrev pub verified_of : Tasks → Option (VerifyRequest J.Value × Moment)
  verified_of (accepted verify_endpoint req at) = some (req, at)
  verified_of (listed verify_endpoint req at stamp headers) = some (req, at)
  verified_of stage = none

  -- The request of a task that has passed its checks, and when it did.
  abbrev pub passed_of : Tasks → Option (VerifyRequest J.Value × Moment)
  passed_of (accepted endpoint req at) = some (req, at)
  passed_of (listed endpoint req at stamp headers) = some (req, at)
  passed_of (answered req at stamp headers response) = some (req, at)
  passed_of stage = none

  abbrev pub HasPassed : VerifyRequest J.Value × Moment → Type 0
  HasPassed (req, at) = Passes state at req

  -- The endpoint and the request of a task that has passed its checks, and when it did.
  abbrev pub checked_of : Tasks → Option (Endpoint × VerifyRequest J.Value × Moment)
  checked_of (accepted endpoint req at) = some (endpoint, req, at)
  checked_of (listed endpoint req at stamp headers) = some (endpoint, req, at)
  checked_of (answered req at stamp headers response) = some (settle_endpoint, req, at)
  checked_of stage = none

  -- What `/verify` asks of the replay cache besides: the nonce is not in it.
  abbrev pub IsNew : Endpoint → Moment → Authorization → R.Cache → Type 0
  IsNew verify_endpoint at auth cache = hit state at R auth cache ≡ false
  IsNew settle_endpoint at auth cache = Unit

  checks_of-Passes :
      (endpoint : Endpoint) (at : Moment) (req : VerifyRequest J.Value) (cache : R.Cache)
      → (checks_of J W state R endpoint at req cache).0 ≡ ok tt
      → (p : Passes state at req) × IsNew endpoint at p.auth cache
  checks_of-Passes verify_endpoint at req cache h = (verify_envelope_iff state at R req cache).0 h
  checks_of-Passes settle_endpoint at req cache h =
      ((verify_envelope_for_settle_iff state at R req cache).0.0 h, tt)

  module _ (world : Worlds J W state R) (clock : ℕ) where
    -- A state that the server went through, in which the request passed the checks of its
    -- endpoint: all but that of the replay cache, and for `/verify` that one as well.
    pub record IsChecked (c : Endpoint × VerifyRequest J.Value × Moment) : Type 0 where
      pub then : System J W state R
      pub reached : Reach J W state R world clock then
      pub instant_eq : c.2.instant ≡ then.clock
      pub passes : Passes state c.2 c.1
      pub new : IsNew c.0 c.2 passes.auth then.world.cache

    act-IsChecked :
        {s : System J W state R} (reach : Reach J W state R world clock s) (action : Action J.Value)
        (stage : Tasks)
        → OnSome IsChecked (checked_of stage)
        → OnSome IsChecked (checked_of (act J W state R s.clock action stage s.world).0)
    unfolding act
    act-IsChecked reach (receive endpoint req) idle old = tt
    act-IsChecked {s} reach (check now) (arrived endpoint req) old =
        let at : Moment = record { now = now; instant = s.clock } in
        elim (Result-cases (checks_of J W state R endpoint at req s.world.cache).0) [
          | inl (tt, e) ↦
              let (p, new) = checks_of-Passes endpoint at req s.world.cache e in
              rw e (record { then = s; reached = reach; instant_eq = refl; passes = p; new = new })
          | inr (v, e) ↦ rw e tt
        ]
    act-IsChecked reach (list stamp) (accepted endpoint req at) old = old
    act-IsChecked reach settle (listed settle_endpoint req at stamp headers) old = old
    act-IsChecked reach action stage old = old

    -- Every task that goes on, in every state that the server reaches.
    pub Reach-IsChecked :
        {s : System J W state R}
        → Reach J W state R world clock s
        → (i : ℕ) → OnSome IsChecked (checked_of (s.tasks i))
    unfolding perform
    Reach-IsChecked begin i = tt
    Reach-IsChecked (later r (pass seconds)) i = Reach-IsChecked r i
    Reach-IsChecked (later {s} r (pick j action)) i = elim (Bool-cases (j == i)) [
      | inl e ↦ rw e (act-IsChecked r action (s.tasks j) (Reach-IsChecked r j))
      | inr e ↦ rw e (Reach-IsChecked r i)
    ]

    IsChecked-HasPassed :
        (stage : Tasks) → OnSome IsChecked (checked_of stage) → OnSome HasPassed (passed_of stage)
    IsChecked-HasPassed (accepted endpoint req at) c = c.passes
    IsChecked-HasPassed (listed endpoint req at stamp headers) c = c.passes
    IsChecked-HasPassed (answered req at stamp headers response) c = c.passes
    IsChecked-HasPassed idle c = tt
    IsChecked-HasPassed (arrived endpoint req) c = tt
    IsChecked-HasPassed (refused endpoint req e) c = tt

  pub Reach-passed :
      {world : Worlds J W state R} {clock : ℕ} {s : System J W state R}
      → Reach J W state R world clock s
      → (i : ℕ) → OnSome HasPassed (passed_of (s.tasks i))
  Reach-passed {world} {clock} {s} reach i =
      IsChecked-HasPassed world clock (s.tasks i) (Reach-IsChecked world clock reach i)
