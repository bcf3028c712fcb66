-- ===== src/Facilitator/Server.antt =====
-- The two payment handlers of crates/x402-nockchain-facilitator/src/handlers, as tasks that run
-- side by side over the shared state. A task is suspended between any two of its accesses to that
-- state: the look-up in the replay cache, the upsert of a catalog row and the call of the chain.
-- Each access is atomic, as the locks of the cache and of the stores make it.
pub mod Checks
pub mod Taken
pub mod Nonces
pub mod Once
pub mod Listing
pub mod History
pub mod Settlement
pub mod Alone
use x402_nockchain.Prelude.{
  ℕ, ◌+◌, String, true, false, Option, none, some, Result, ok, err, ◌==◌, nat_eq, if◌then◌else◌,
}
use x402_nockchain.Types.Json.{Json}
use x402_nockchain.Types.Facilitator.{VerifyRequest, VerifyResponse, SettleResponse}
use x402_nockchain.Facilitator.Error.{VerifyError, to_facilitator_error}
use x402_nockchain.Facilitator.Replay.{ReplayCache}
use x402_nockchain.Facilitator.State.{AppState, Moment}
use x402_nockchain.Facilitator.Scheme.{handler_for}
use x402_nockchain.Facilitator.Envelope.{verify_envelope, verify_envelope_for_settle}
use x402_nockchain.Facilitator.Bazaar.{Web, process, header_of}
use x402_nockchain.Facilitator.Handlers.{World, dispatch}

pub data Endpoint : Type 0 where
  verify_endpoint settle_endpoint : Endpoint

-- How far a task is. What it has done stays in its stage, and a finished task stays where it is.
pub data Stage (Value HeaderValue : Type 0) : Type 0 where
  idle : Stage Value HeaderValue
  arrived : Endpoint → VerifyRequest Value → Stage Value HeaderValue
  refused : Endpoint → VerifyRequest Value → VerifyError → Stage Value HeaderValue
  accepted : Endpoint → VerifyRequest Value → Moment → Stage Value HeaderValue
  listed :
      Endpoint
      → VerifyRequest Value
      → Moment
      → (stamp : String) (headers : Option HeaderValue) → Stage Value HeaderValue
  answered :
      VerifyRequest Value
      → Moment
      → (stamp : String) (headers : Option HeaderValue) → SettleResponse
      → Stage Value HeaderValue

-- The next access of a task: a request comes in, its checks with the replay cache run at a Unix
-- time, the bazaar extension is processed at a time with a text, the payment goes to the chain.
pub data Action (Value : Type 0) : Type 0 where
  receive : Endpoint → VerifyRequest Value → Action Value
  check : (now : ℕ) → Action Value
  list : (stamp : String) → Action Value
  settle : Action Value

module _ (J : Json) (W : Web J.Value) {Chain Rows : Type 0} (state : AppState J.Value Chain Rows)
    (R : ReplayCache) where
  open J use {Value}
  open W use {HeaderValue}
  open R use {Cache}

  abbrev pub Stages : Type 0
  Stages = Stage Value HeaderValue

  abbrev pub Worlds : Type 0
  Worlds = World Cache Rows Chain

  -- The early return of a handler, or its way on.
  abbrev pub judged :
      Endpoint → VerifyRequest Value → Moment → Result VerifyError (Unit {0}) → Stages
  judged endpoint req at (err e) = refused endpoint req e
  judged endpoint req at (ok _) = accepted endpoint req at

  abbrev pub checks_of :
      Endpoint → Moment → VerifyRequest Value → Cache → Result VerifyError (Unit {0}) × Cache
  checks_of verify_endpoint at req cache = verify_envelope R state at req cache
  checks_of settle_endpoint at req cache = verify_envelope_for_settle R state at req cache

  -- One access of a task to the shared state, at an instant; an action that is not the next one of
  -- the task does nothing.
  unfoldable pub act : ℕ → Action Value → Stages → Worlds → Stages × Worlds
  act instant (receive endpoint req) idle world = (arrived endpoint req, world)
  act instant (check now) (arrived endpoint req) world =
      let at : Moment = record { now = now; instant = instant } in
      let (result, cache) = checks_of endpoint at req world.cache in
      (judged endpoint req at result, record world { cache = cache })
  act instant (list stamp) (accepted endpoint req at) world =
      let (outcome, rows) = process J W state req stamp world.rows in
      (listed endpoint req at stamp (header_of J W state outcome), record world { rows = rows })
  act instant settle (listed settle_endpoint req at stamp headers) world =
      let ((headers', response), world') =
        dispatch J W state R req headers world
          (handler_for state.scheme_registry req.requirements.scheme req.requirements.network) in
      (answered req at stamp headers' response, world')
  act instant action stage world = (stage, world)

  -- What `verify::handler` returns, once its task is done.
  abbrev pub verify_answer : Stages → Option (Option HeaderValue × VerifyResponse)
  verify_answer (refused verify_endpoint req e) =
      some (none, record { valid = false; error = some (to_facilitator_error e) })
  verify_answer (listed verify_endpoint req at stamp headers) =
      some (headers, record { valid = true; error = none })
  verify_answer stage = none

  -- What `settle::handler` returns, once its task is done.
  abbrev pub settle_answer : Stages → Option (Option HeaderValue × SettleResponse)
  settle_answer (refused settle_endpoint req e) =
      some (
        none,
        record { success = false; transaction = none; error = some (to_facilitator_error e) },
      )
  settle_answer (answered req at stamp headers response) = some (headers, response)
  settle_answer stage = none

  pub record System : Type 0 where
    pub world : Worlds
    pub clock : ℕ
    pub tasks : ℕ → Stages

  abbrev pub put_task : (ℕ → Stages) → ℕ → Stages → ℕ → Stages
  put_task tasks i stage j = if i == j then stage else tasks j

  unfoldable pub perform : ℕ → Action Value → System → System
  perform i action s =
      let (stage, world) = act s.clock action (s.tasks i) s.world in
      record { world = world; clock = s.clock; tasks = put_task s.tasks i stage }

  -- Any task may go on, with any action, or time may pass.
  pub data Step (s : System) : System → Type 0 where
    pick : (i : ℕ) (action : Action Value) → Step s (perform i action s)
    pass : (seconds : ℕ) → Step s (record s { clock = s.clock + seconds })

  -- No task has begun.
  abbrev pub start : Worlds → ℕ → System
  start world clock = record { world = world; clock = clock; tasks = λ _. idle }

  pub data Reach (world : Worlds) (clock : ℕ) : System → Type 0 where
    begin : Reach world clock (start world clock)
    later : {s t : System} → Reach world clock s → Step s t → Reach world clock t
