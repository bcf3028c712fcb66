-- ===== src/Facilitator/Server/Alone.antt =====
-- A task that is not interrupted does what the handler of its endpoint does.
use x402_nockchain.Prelude.{
  ℕ, String, ◌≡◌, refl, ap, ◌∙◌, some, List, [], ◌∷◌, Result-cases, inl, inr, nat_eq, nat_beq_iff,
  Option-cases,
}
use x402_nockchain.Types.Json.{Json}
use x402_nockchain.Types.Facilitator.{VerifyRequest}
use x402_nockchain.Facilitator.Replay.{ReplayCache}
use x402_nockchain.Facilitator.State.{AppState, Moment}
use x402_nockchain.Facilitator.Scheme.{handler_for}
use x402_nockchain.Facilitator.Bazaar.{Web}
use x402_nockchain.Facilitator.Envelope.{verify_envelope, verify_envelope_for_settle}
use x402_nockchain.Facilitator.Handlers.{verify_handler, settle_handler}
use x402_nockchain.Facilitator.Server.{
  idle, Action, receive, check, list, settle, verify_endpoint, settle_endpoint, Endpoint, Stages,
  Worlds, act, verify_answer, settle_answer, System, perform,
}

-- The accesses of a task, in their order.
abbrev pub whole :
    {Value : Type 0} → Endpoint → VerifyRequest Value → ℕ → String → List (Action Value)
whole endpoint req now stamp = receive endpoint req ∷ check now ∷ list stamp ∷ settle ∷ []

module _ (J : Json) (W : Web J.Value) {Chain Rows : Type 0} (state : AppState J.Value Chain Rows)
    (R : ReplayCache) where
  abbrev Tasks : Type 0
  Tasks = Stages J W state R

  -- One task goes on, action after action, and no other one does.
  unfoldable pub run_task : ℕ → List (Action J.Value) → System J W state R → System J W state R
  run_task i [] s = s
  run_task i (action ∷ actions) s = run_task i actions (perform J W state R i action s)

  unfoldable acts :
      ℕ → List (Action J.Value) → Tasks → Worlds J W state R → Tasks × Worlds J W state R
  acts clock [] stage world = (stage, world)
  acts clock (action ∷ actions) stage world =
      let (stage', world') = act J W state R clock action stage world in
      acts clock actions stage' world'

  run_task-acts :
      (i : ℕ) (actions : List (Action J.Value)) (s : System J W state R)
      → let s' = run_task i actions s in
        ◌≡◌ {A = Tasks × Worlds J W state R}
          (s'.tasks i, s'.world)
          (acts s.clock actions (s.tasks i) s.world)
  unfolding run_task acts perform
  run_task-acts i [] s = refl
  run_task-acts i (action ∷ actions) s =
      let b = (nat_beq_iff i i).1 refl in
      let (stage', world') = act J W state R s.clock action (s.tasks i) s.world in
      let mine : (perform J W state R i action s).tasks i ≡ stage' = rw b refl in
      run_task-acts i actions (perform J W state R i action s)
      ∙ ap (λ t. acts s.clock actions t world') mine

  acts-verify_handler :
      (clock now : ℕ) (stamp : String) (req : VerifyRequest J.Value) (world : Worlds J W state R)
      → let at : Moment = record { now = now; instant = clock } in
        let (stage, world') = acts clock (whole verify_endpoint req now stamp) idle world in
        let (answer, after) = verify_handler J W state R at stamp req world in
        (verify_answer J W state R stage ≡ some answer) × (world' ≡ after)
  unfolding acts act verify_handler
  acts-verify_handler clock now stamp req world =
      let at : Moment = record { now = now; instant = clock } in
      elim (Result-cases (verify_envelope R state at req world.cache).0) [
        | inl (tt, e) ↦ rw e (refl, refl)
        | inr (v, e) ↦ rw e (refl, refl)
      ]

  acts-settle_handler :
      (clock now : ℕ) (stamp : String) (req : VerifyRequest J.Value) (world : Worlds J W state R)
      → let at : Moment = record { now = now; instant = clock } in
        let (stage, world') = acts clock (whole settle_endpoint req now stamp) idle world in
        let (answer, after) = settle_handler J W state R at stamp req world in
        (settle_answer J W state R stage ≡ some answer) × (world' ≡ after)
  unfolding acts act settle_handler
  acts-settle_handler clock now stamp req world =
      let at : Moment = record { now = now; instant = clock } in
      elim (Result-cases (verify_envelope_for_settle R state at req world.cache).0) [
        | inl (tt, e) ↦
            elim (Option-cases (
              handler_for state.scheme_registry req.requirements.scheme req.requirements.network)) [
                | inl f ↦ rw (e, f) (refl, refl)
                | inr (h, f) ↦ rw (e, f) (refl, refl)
              ]
        | inr (v, e) ↦ rw e (refl, refl)
      ]

  -- A task that has not begun and that goes through its accesses with no other task in between
  -- returns what the handler of its endpoint returns, and leaves the shared state as the handler
  -- does.
  pub run_task-handler :
      (i now : ℕ) (stamp : String) (req : VerifyRequest J.Value) (s : System J W state R)
      → s.tasks i ≡ idle
      → let at : Moment = record { now = now; instant = s.clock } in
        let verified = run_task i (whole verify_endpoint req now stamp) s in
        let settled = run_task i (whole settle_endpoint req now stamp) s in
        let (verify_reply, after_verify) = verify_handler J W state R at stamp req s.world in
        let (settle_reply, after_settle) = settle_handler J W state R at stamp req s.world in
        (verify_answer J W state R (verified.tasks i) ≡ some verify_reply)
        × (verified.world ≡ after_verify)
        × (settle_answer J W state R (settled.tasks i) ≡ some settle_reply)
        × (settled.world ≡ after_settle)
  run_task-handler i now stamp req s free =
      let v = run_task-acts i (whole verify_endpoint req now stamp) s in
      let w = run_task-acts i (whole settle_endpoint req now stamp) s in
      let v' = rw free at v in
      let w' = rw free at w in
      let (answer, after) = acts-verify_handler s.clock now stamp req s.world in
      let (answer', after') = acts-settle_handler s.clock now stamp req s.world in
      (
        ap (λ r. verify_answer J W state R r.0) v' ∙ answer,
        ap (λ r. r.1) v' ∙ after,
        ap (λ r. settle_answer J W state R r.0) w' ∙ answer',
        ap (λ r. r.1) w' ∙ after',
      )
