-- ===== src/Facilitator/Server/Nonces.antt =====
-- A nonce is accepted once by tasks that run side by side.
use x402_nockchain.Prelude.{
  ℕ, ◌+◌, sym, ◌∙◌, Option, none, some, OnSome, OnSome-map, nat_beq_iff, ◌≤◌, ◌≡◌, ◌≢◌, ◌⊎◌, arith,
  Bool-cases, inl, inr, ◌==◌, nat_eq,
}
use x402_nockchain.Types.Json.{Json}
use x402_nockchain.Types.Facilitator.{VerifyRequest}
use x402_nockchain.Facilitator.Replay.{ReplayCache, IsLawfulReplayCache}
use x402_nockchain.Facilitator.State.{AppState, Moment}
use x402_nockchain.Facilitator.Bazaar.{Web}
use x402_nockchain.Facilitator.Envelope.Laws.{Passes}
use x402_nockchain.Facilitator.Envelope.NoReplay.{nonce_key}
use x402_nockchain.Facilitator.Server.Checks.{verified_of}
use x402_nockchain.Facilitator.Server.{
  Action, Stages, Worlds, act, put_task, System, perform, Step, pick, pass, Reach, begin, later,
}
use x402_nockchain.Facilitator.Server.Taken.{
  act-keep, IsHeld, IsApart, IsTaken, act-verified, taken-IsApart,
}

module _ (J : Json) (W : Web J.Value) {Chain Rows : Type 0} (state : AppState J.Value Chain Rows)
    (R : ReplayCache) (L : IsLawfulReplayCache R) where
  open R use {Cache, Key}
  open L use {is_live, seen-is_live, is_live-seen, is_live-seen_keep}

  record Inv (cache : Cache) (clock : ℕ) (tasks : ℕ → Stages J W state R) : Type 0 where
    held : (i : ℕ) → OnSome ((IsHeld J W state R L) cache clock) (verified_of J W state R (tasks i))
    apart :
        (i j : ℕ)
        → i ≢ j
        → OnSome
            (λ a. OnSome ((IsApart J W state R L) a) (verified_of J W state R (tasks j)))
            (verified_of J W state R (tasks i))

  -- What an access of task `i` keeps, in the parts of the system that it changes.
  module _ (i clock : ℕ) (action : Action J.Value) (world : Worlds J W state R)
      (tasks : ℕ → Stages J W state R) (inv : Inv world.cache clock tasks) where
    abbrev stage' : (Stages J W state R)
    stage' = (act J W state R clock action (tasks i) world).0

    abbrev cache' : Cache
    cache' = (act J W state R clock action (tasks i) world).1.cache

    IsHeld-act :
        (a : VerifyRequest J.Value × Moment)
        → (IsHeld J W state R L) world.cache clock a
        → (IsHeld J W state R L) cache' clock a
    IsHeld-act (req, at) (early, held) = (
      early,
      λ p u le lt.
          (act-keep J W state R L) (nonce_key R state p.auth) u clock action (tasks i) world le
            (held p u le lt),
    )

    taken-IsHeld :
        (req : VerifyRequest J.Value) (at : Moment)
        → (IsTaken J W state R L) world.cache cache' clock req at
        → (IsHeld J W state R L) cache' clock (req, at)
    taken-IsHeld req at taken =
        (omega (arith, taken.now), λ p u le lt. taken.present p u le (omega (arith, taken.now)))

    IsApart-sym :
        (a b : VerifyRequest J.Value × Moment)
        → (IsApart J W state R L) a b
        → (IsApart J W state R L) b a
    IsApart-sym (req, at) (req', at') apart p p' same = elim (apart p' p (sym same)) [
      | inl h ↦ inr h
      | inr h ↦ inl h
    ]

    pick-IsHeld :
        (j : ℕ)
        → OnSome
            ((IsHeld J W state R L) cache' clock)
            (verified_of J W state R (put_task J W state R tasks i stage' j))
    pick-IsHeld j = elim (Bool-cases (i == j)) [
      | inl e ↦ rw e (
          (act-verified J W state R L) ((IsHeld J W state R L) cache' clock) clock action (tasks i)
            world (OnSome-map (verified_of J W state R (tasks i)) IsHeld-act (inv.held i))
            taken-IsHeld)
      | inr e ↦ rw e (OnSome-map (verified_of J W state R (tasks j)) IsHeld-act (inv.held j))
    ]

    -- The task that moved, and another one.
    moved-IsApart :
        (j : ℕ)
        → i ≢ j
        → OnSome
            (λ a. OnSome ((IsApart J W state R L) a) (verified_of J W state R (tasks j)))
            (verified_of J W state R stage')
    moved-IsApart j other =
        (act-verified J W state R L)
          (λ a. OnSome ((IsApart J W state R L) a) (verified_of J W state R (tasks j))) clock action
          (tasks i) world (inv.apart i j other)
          (λ req at taken.
            OnSome-map (verified_of J W state R (tasks j))
              (λ b held. (taken-IsApart J W state R L) world.cache cache' clock req at b taken held)
              (inv.held j))

    OnSome-flip :
        (o p : Option (VerifyRequest J.Value × Moment))
        → OnSome (λ a. OnSome ((IsApart J W state R L) a) p) o
        → OnSome (λ a. OnSome ((IsApart J W state R L) a) o) p
    OnSome-flip none none h = tt
    OnSome-flip none (some b) h = tt
    OnSome-flip (some a) none h = tt
    OnSome-flip (some a) (some b) h = IsApart-sym a b h

    pick-IsApart :
        (j k : ℕ)
        → j ≢ k
        → OnSome
            (λ a.
              OnSome
                ((IsApart J W state R L) a)
                (verified_of J W state R (put_task J W state R tasks i stage' k)))
            (verified_of J W state R (put_task J W state R tasks i stage' j))
    pick-IsApart j k other = elim (Bool-cases (i == j)) [
      | inl e ↦ elim (Bool-cases (i == k)) [
        | inl f ↦ absurd (other (sym ((nat_beq_iff i j).0 e) ∙ (nat_beq_iff i k).0 f))
        | inr f ↦ rw (e, f) (moved-IsApart k (λ same. let b = (nat_beq_iff i k).1 same in cc))
      ]
      | inr e ↦ elim (Bool-cases (i == k)) [
        | inl f ↦
            rw (e, f)
              (OnSome-flip (verified_of J W state R stage') (verified_of J W state R (tasks j))
                (moved-IsApart j (λ same. let b = (nat_beq_iff i j).1 same in cc)))
        | inr f ↦ rw (e, f) (inv.apart j k other)
      ]
    ]

  Step-Inv :
      {s t : System J W state R}
      → Step J W state R s t
      → Inv s.world.cache s.clock s.tasks
      → Inv t.world.cache t.clock t.tasks
  unfolding perform
  Step-Inv {s} (pick i action) inv = record {
    held = pick-IsHeld i s.clock action s.world s.tasks inv;
    apart = pick-IsApart i s.clock action s.world s.tasks inv;
  }
  Step-Inv {s} (pass seconds) inv = record {
    held = λ i.
        OnSome-map (verified_of J W state R (s.tasks i))
          (λ a h. (omega (arith, h.0), λ p u le lt. h.1 p u (omega arith) lt)) (inv.held i);
    apart = inv.apart;
  }

  Reach-Inv :
      {world : Worlds J W state R} {clock : ℕ} {s : System J W state R}
      → Reach J W state R world clock s
      → Inv s.world.cache s.clock s.tasks
  Reach-Inv begin = record { held = λ i. tt; apart = λ i j h. tt }
  Reach-Inv (later r st) = Step-Inv st (Reach-Inv r)

  -- Whatever way the tasks of the server interleave, with a replay cache that obeys its laws: when
  -- `/verify` has accepted two requests with the same nonce, it looked the nonce up for one of
  -- them only after the time to live that the other one's look-up began was over.
  pub verified-IsApart :
      {world : Worlds J W state R} {clock : ℕ} {s : System J W state R} (i j : ℕ)
      (first second : VerifyRequest J.Value) (at at' : Moment) (p : Passes state at first)
      (p' : Passes state at' second)
      → Reach J W state R world clock s
      → i ≢ j
      → verified_of J W state R (s.tasks i) ≡ some (first, at)
      → verified_of J W state R (s.tasks j) ≡ some (second, at')
      → p.auth.nonce ≡ p'.auth.nonce
      → (at.instant + state.replay_ttl ≤ at'.instant)
        ⊎ (at'.instant + state.replay_ttl ≤ at.instant)
  verified-IsApart {s} i j first second at at' p p' reach other e e' same =
      let apart = (Reach-Inv reach).apart i j other in
      let apart' = rw (e, e') at apart in apart' p p' same
