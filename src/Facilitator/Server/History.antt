-- ===== src/Facilitator/Server/History.antt =====
-- The chain as a history of payments, each by another task.
use x402_nockchain.Prelude.{
  ℕ, String, Bool, ◌≡◌, ◌≢◌, ◌⊎◌, refl, true, false, sym, ◌∙◌, Option, List, [], ◌∷◌, All,
  Bool-cases, inl, inr, ◌==◌, nat_eq, nat_beq_iff,
}
use x402_nockchain.Types.Json.{Json}
use x402_nockchain.Types.Facilitator.{VerifyRequest}
use x402_nockchain.Facilitator.Replay.{ReplayCache}
use x402_nockchain.Facilitator.State.{AppState, Moment}
use x402_nockchain.Facilitator.Scheme.{SchemeHandler}
use x402_nockchain.Facilitator.Bazaar.{Web}
use x402_nockchain.Facilitator.Handlers.{settle_body}
use x402_nockchain.Facilitator.Envelope.Laws.{Passes}
use x402_nockchain.Facilitator.Server.{answered, Stages, put_task}

module _ (J : Json) (W : Web J.Value) {Chain Rows : Type 0} (state : AppState J.Value Chain Rows)
    (R : ReplayCache) where
  abbrev Tasks : Type 0
  Tasks = Stages J W state R

  abbrev pub is_answered : Tasks → Bool
  is_answered (answered req at stamp headers response) = true
  is_answered stage = false

  -- A task that has sent a request to the chain through a handler.
  pub record Payment : Type 0 where
    pub task : ℕ
    pub req : VerifyRequest J.Value
    pub handler : SchemeHandler J.Value Chain

  -- The chain after a list of payments, the last one first.
  unfoldable pub settle_all : Chain → List Payment → Chain
  settle_all chain [] = chain
  settle_all chain (p ∷ ps) = (p.handler.settle state.chain p.req (settle_all chain ps)).1

  -- A payment after which the chain had run the others: its request passed the checks, by this
  -- handler, and its task answers what the chain said at this place.
  pub record IsNext (chain : Chain) (tasks : ℕ → Tasks) (ps : List Payment) (p : Payment)
      : Type 0 where
    pub at : Moment
    pub stamp : String
    pub headers : Option W.HeaderValue
    pub answer :
        tasks p.task
        ≡ answered p.req at stamp headers
            (settle_body J W state R (p.handler.settle state.chain p.req (settle_all chain ps)).0)
    pub passes : Passes state at p.req
    pub handler_eq : passes.handler ≡ p.handler

  -- A history of the chain: every payment comes from another task, and is the next one at its place.
  abbrev pub IsHistory : Chain → (ℕ → Tasks) → List Payment → Type 0
  IsHistory chain tasks [] = Unit
  IsHistory chain tasks (p ∷ ps) =
      IsNext chain tasks ps p × All (λ (q : Payment). q.task ≢ p.task) ps × IsHistory chain tasks ps

  abbrev pub Contains : ℕ → List Payment → Type 0
  Contains i [] = ⊥
  Contains i (p ∷ ps) = (p.task ≡ i) ⊎ Contains i ps

  pub IsNext-put_task :
      (chain : Chain) (tasks : ℕ → Tasks) (i : ℕ) (stage' : Tasks) (ps : List Payment) (p : Payment)
      → (is_answered (tasks i) ≡ true → stage' ≡ tasks i)
      → IsNext chain tasks ps p
      → IsNext chain (put_task J W state R tasks i stage') ps p
  IsNext-put_task chain tasks i stage' ps p keep n = record {
    at = n.at;
    stamp = n.stamp;
    headers = n.headers;
    answer = elim (Bool-cases (i == p.task)) [
      | inl e ↦
          let same = (nat_beq_iff i p.task).0 e in
          let mine = rw (sym same) at n.answer in rw e (keep (rw mine refl) ∙ mine)
      | inr e ↦ rw e n.answer
    ];
    passes = n.passes;
    handler_eq = n.handler_eq;
  }

  pub IsHistory-put_task :
      (chain : Chain) (tasks : ℕ → Tasks) (i : ℕ) (stage' : Tasks) (ps : List Payment)
      → (is_answered (tasks i) ≡ true → stage' ≡ tasks i)
      → IsHistory chain tasks ps
      → IsHistory chain (put_task J W state R tasks i stage') ps
  IsHistory-put_task chain tasks i stage' [] keep h = tt
  IsHistory-put_task chain tasks i stage' (p ∷ ps) keep (n, others, h) = (
    IsNext-put_task chain tasks i stage' ps p keep n,
    others,
    IsHistory-put_task chain tasks i stage' ps keep h,
  )

  -- While task `i` has not answered, none of the payments is its own.
  pub IsHistory-fresh :
      (chain : Chain) (tasks : ℕ → Tasks) (i : ℕ) (ps : List Payment)
      → is_answered (tasks i) ≡ false
      → IsHistory chain tasks ps
      → All (λ (q : Payment). q.task ≢ i) ps
  IsHistory-fresh chain tasks i [] e h = tt
  IsHistory-fresh chain tasks i (p ∷ ps) e (n, others, h) = (
    λ same. let mine = rw same at n.answer in let f = rw mine at e in cc,
    IsHistory-fresh chain tasks i ps e h,
  )
