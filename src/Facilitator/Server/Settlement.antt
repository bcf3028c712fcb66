-- ===== src/Facilitator/Server/Settlement.antt =====
-- What tasks that run side by side do to the chain.
use x402_nockchain.Prelude.{
  ℕ, String, ◌≡◌, ◌⊎◌, ◌↔◌, refl, true, false, sym, ap, ◌∙◌, Option, OnSome, List, [], ◌∷◌,
  Result-cases, Bool-cases, inl, inr, ◌==◌, nat_eq, nat_beq_iff,
}
use x402_nockchain.Types.Json.{Json}
use x402_nockchain.Types.Facilitator.{VerifyRequest}
use x402_nockchain.Facilitator.Replay.{ReplayCache}
use x402_nockchain.Facilitator.State.{AppState, Moment}
use x402_nockchain.Facilitator.Bazaar.{Web}
use x402_nockchain.Facilitator.Handlers.{settle_body}
use x402_nockchain.Facilitator.Envelope.Laws.{Passes}
use x402_nockchain.Facilitator.Server.Checks.{passed_of, HasPassed, Reach-passed}
use x402_nockchain.Facilitator.Server.{
  idle, arrived, accepted, listed, answered, Action, receive, check, list, settle, settle_endpoint,
  Stages, Worlds, act, put_task, System, perform, pick, pass, Reach, begin, later, checks_of,
}
use x402_nockchain.Facilitator.Server.History.{
  is_answered, Payment, settle_all, IsHistory, Contains, IsHistory-put_task, IsHistory-fresh,
}

module _ (J : Json) (W : Web J.Value) {Chain Rows : Type 0} (state : AppState J.Value Chain Rows)
    (R : ReplayCache) where
  -- The call of the chain.
  record Dispatch (stage stage' : (Stages J W state R)) (before after : Chain) : Type 0 where
    req : VerifyRequest J.Value
    at : Moment
    stamp : String
    headers : Option W.HeaderValue
    passes : Passes state at req
    open_eq : (is_answered J W state R) stage ≡ false
    answer :
        stage'
        ≡ answered req at stamp headers
            (settle_body J W state R (passes.handler.settle state.chain req before).0)
    after_eq : after ≡ (passes.handler.settle state.chain req before).1

  -- An access that does not call the chain.
  abbrev IsQuiet : (Stages J W state R) → (Stages J W state R) → Chain → Chain → Type 0
  IsQuiet stage stage' before after =
      (after ≡ before)
      × ((stage' ≡ stage)
          ⊎ (((is_answered J W state R) stage ≡ false)
              × ((is_answered J W state R) stage' ≡ false)))

  act-chain :
      (instant : ℕ) (action : Action J.Value) (stage : (Stages J W state R))
      (world : Worlds J W state R)
      → OnSome (HasPassed J W state R) (passed_of J W state R stage)
      → let (stage', world') = act J W state R instant action stage world in
        IsQuiet stage stage' world.chain world'.chain
        ⊎ Dispatch stage stage' world.chain world'.chain
  unfolding act
  act-chain instant (receive endpoint req) idle world passed = inl (refl, inr (refl, refl))
  act-chain instant (check now) (arrived endpoint req) world passed =
      let at : Moment = record { now = now; instant = instant } in
      elim (Result-cases (checks_of J W state R endpoint at req world.cache).0) [
        | inl (tt, e) ↦ inl (refl, inr (refl, rw e refl))
        | inr (v, e) ↦ inl (refl, inr (refl, rw e refl))
      ]
  act-chain instant (list stamp) (accepted endpoint req at) world passed =
      inl (refl, inr (refl, refl))
  act-chain instant settle (listed settle_endpoint req at stamp headers) world passed =
      inr (record {
        req = req;
        at = at;
        stamp = stamp;
        headers = headers;
        passes = passed;
        open_eq = refl;
        answer = rw passed.found refl;
        after_eq = rw passed.found refl;
      })
  act-chain instant action stage world passed = inl (refl, inl refl)

  -- The task that moved stays answered, or stays open.
  quiet-answered :
      (stage stage' : (Stages J W state R))
      → (stage' ≡ stage)
        ⊎ (((is_answered J W state R) stage ≡ false) × ((is_answered J W state R) stage' ≡ false))
      → ((is_answered J W state R) stage ≡ true → stage' ≡ stage)
        × ((is_answered J W state R) stage' ≡ (is_answered J W state R) stage)
  quiet-answered stage stage' (inl same) = (λ e. same, ap (is_answered J W state R) same)
  quiet-answered stage stage' (inr (f, f')) = (λ e. cc, cc)

  record Inv (first now : Chain) (tasks : ℕ → (Stages J W state R)) : Type 0 where
    payments : List (Payment J W state R)
    history : (IsHistory J W state R) first tasks payments
    result : now ≡ (settle_all J W state R) first payments
    complete :
        (i : ℕ) → (is_answered J W state R) (tasks i) ≡ true → (Contains J W state R) i payments

  pick-Inv :
      (first : Chain) (i clock : ℕ) (action : Action J.Value) (world : Worlds J W state R)
      (tasks : ℕ → (Stages J W state R))
      → OnSome (HasPassed J W state R) (passed_of J W state R (tasks i))
      → Inv first world.chain tasks
      → let (stage', world') = act J W state R clock action (tasks i) world in
        Inv first world'.chain (put_task J W state R tasks i stage')
  unfolding settle_all
  pick-Inv first i clock action world tasks passed inv =
      let (stage', world') = act J W state R clock action (tasks i) world in
      let tasks' = put_task J W state R tasks i stage' in
      elim (act-chain clock action (tasks i) world passed) [
        | inl (same, quiet) ↦
            let (keep, alike) = quiet-answered (tasks i) stage' quiet in
            record {
              payments = inv.payments;
              history =
                  (IsHistory-put_task J W state R) first tasks i stage' inv.payments keep
                    inv.history;
              result = same ∙ inv.result;
              complete = λ j e. elim (Bool-cases (i == j)) [
                | inl b ↦
                    let mine = rw b at e in
                    let here = (nat_beq_iff i j).0 b in
                    inv.complete j (rw (sym here) (sym alike ∙ mine))
                | inr b ↦ let theirs = rw b at e in inv.complete j theirs
              ];
            }
        | inr d ↦
            let p : (Payment J W state R) = record {
              task = i;
              req = d.req;
              handler = d.passes.handler;
            } in
            let shut : (is_answered J W state R) (tasks i) ≡ true → stage' ≡ tasks i =
              λ e. let f = d.open_eq in cc in
            record {
              payments = p ∷ inv.payments;
              history = (
                record {
                  at = d.at;
                  stamp = d.stamp;
                  headers = d.headers;
                  answer =
                      let b = (nat_beq_iff i i).1 refl in
                      rw b (
                        d.answer
                        ∙ ap
                            (λ c. answered d.req d.at d.stamp d.headers (
                              settle_body J W state R
                                (d.passes.handler.settle state.chain d.req c).0))
                            inv.result);
                  passes = d.passes;
                  handler_eq = refl;
                },
                (IsHistory-fresh J W state R) first tasks i inv.payments d.open_eq inv.history,
                (IsHistory-put_task J W state R) first tasks i stage' inv.payments shut inv.history,
              );
              result =
                  d.after_eq ∙ ap (λ c. (d.passes.handler.settle state.chain d.req c).1) inv.result;
              complete = λ j e. elim (Bool-cases (i == j)) [
                | inl b ↦ inl ((nat_beq_iff i j).0 b)
                | inr b ↦ let theirs = rw b at e in inr (inv.complete j theirs)
              ];
            }
      ]

  Reach-Inv :
      {world : Worlds J W state R} {clock : ℕ} {s : System J W state R}
      → Reach J W state R world clock s
      → Inv world.chain s.world.chain s.tasks
  unfolding perform settle_all
  Reach-Inv begin = record { payments = []; history = tt; result = refl; complete = λ i e. cc }
  Reach-Inv (later r (pass seconds)) = Reach-Inv r
  Reach-Inv {world} (later {s} r (pick i action)) =
      pick-Inv world.chain i s.clock action s.world s.tasks (Reach-passed J W state R r i)
        (Reach-Inv r)

  IsHistory-answered :
      (chain : Chain) (tasks : ℕ → (Stages J W state R)) (i : ℕ) (ps : List (Payment J W state R))
      → (IsHistory J W state R) chain tasks ps
      → (Contains J W state R) i ps
      → (is_answered J W state R) (tasks i) ≡ true
  IsHistory-answered chain tasks i [] h c = elim c [ ]
  IsHistory-answered chain tasks i (p ∷ ps) (n, others, h) (inl same) =
      let mine = rw same at n.answer in rw mine refl
  IsHistory-answered chain tasks i (p ∷ ps) (n, others, h) (inr c) =
      IsHistory-answered chain tasks i ps h c

  -- Whatever way the tasks of the server interleave, the chain has seen the payments one after the
  -- other: there is a list of payments, each by another task, whose requests had passed the checks
  -- of `/settle`, such that the chain is the one at the start after these payments, the tasks
  -- in the list are those that have answered, and each answers what the chain said at its place.
  pub chain-IsHistory :
      {world : Worlds J W state R} {clock : ℕ} {s : System J W state R}
      → Reach J W state R world clock s
      → (ps : List (Payment J W state R)) × (IsHistory J W state R) world.chain s.tasks ps
        × (s.world.chain ≡ (settle_all J W state R) world.chain ps)
        × ((i : ℕ) → ((is_answered J W state R) (s.tasks i) ≡ true) ↔ (Contains J W state R) i ps)
  chain-IsHistory {world} {clock} {s} reach =
      let inv = Reach-Inv reach in
      (
        inv.payments,
        inv.history,
        inv.result,
        λ i. (inv.complete i, IsHistory-answered world.chain s.tasks i inv.payments inv.history),
      )
