-- ===== src/Tests/Server.antt =====
-- The server with tasks side by side.
use x402_nockchain.Prelude.{ℕ, ◌+◌, ◌≡◌, ◌≢◌, ◌≤◌, ◌⊎◌, ◌↔◌, refl, true, some, List, [], ok, arith}
use x402_nockchain.Facilitator.State.{AppState, Moment, new, saturating_add}
use x402_nockchain.Facilitator.Scheme.{
  register, handler_for, with_default_handlers, exact_nockchain_handler, upto_nockchain_handler,
  extract_nockchain,
}
use x402_nockchain.Facilitator.Catalog.Memory.{Rows}
use x402_nockchain.Facilitator.Envelope.{
  verify_envelope, verify_envelope_inner, before_replay, check_replay, check_time_window,
}
use x402_nockchain.Facilitator.Envelope.Laws.{Passes, verify_envelope_iff}
use x402_nockchain.Facilitator.Server.{
  Action, receive, check, list, settle, verify_endpoint, settle_endpoint, act, System, start,
  perform, pick, pass, Reach, begin, later,
}
use x402_nockchain.Facilitator.Server.Checks.{verified_of}
use x402_nockchain.Facilitator.Server.Nonces.{verified-IsApart}
use x402_nockchain.Facilitator.Server.Once.{verified-once}
use x402_nockchain.Facilitator.Server.Listing.{state}
use x402_nockchain.Facilitator.Server.History.{
  Payment, IsHistory, settle_all, is_answered, Contains,
}
use x402_nockchain.Facilitator.Server.Settlement.{chain-IsHistory}
use x402_nockchain.Tests.Samples.{json, Node, replay_cache, replay_cache-IsLawfulReplayCache}
use x402_nockchain.Tests.Facilitator.{app_state, at, request, passes}
use x402_nockchain.Tests.Endpoints.{web, world, listed as listed_request}

abbrev Server : Type 0
Server = System json web app_state replay_cache

abbrev go : ℕ → Action Node → Server → Server
go = perform json web app_state replay_cache

abbrev wait : ℕ → Server → Server
wait seconds s = record s { clock = s.clock + seconds }

abbrev fresh : Server
fresh = start json web app_state replay_cache world 1000

-- Two tasks verify the same request, the second one when the time to live is over.
abbrev asked : Server
asked = go 1 (receive verify_endpoint request) (go 0 (receive verify_endpoint request) fresh)

abbrev once : Server
once = go 0 (check 230) asked

abbrev twice : Server
twice = go 1 (check 230) (wait 900 once)

abbrev at_later : Moment
at_later = record { now = 230; instant = 1900 }

twice-Reach : Reach json web app_state replay_cache world 1000 twice
twice-Reach =
    later
      (later
        (later
          (later (later begin (pick 0 (receive verify_endpoint request)))
            (pick 1 (receive verify_endpoint request)))
          (pick 0 (check 230)))
        (pass 900))
      (pick 1 (check 230))

-- The time counts for the window only.
unfoldable pub passes_at :
    (moment : Moment)
    → check_time_window app_state moment passes.auth ≡ ok tt
    → Passes app_state moment request
unfolding new handler_for with_default_handlers register exact_nockchain_handler
    upto_nockchain_handler extract_nockchain passes
passes_at moment window = record {
  handler = passes.handler;
  auth = passes.auth;
  version = refl;
  scheme = refl;
  network = refl;
  found = passes.found;
  extracted = passes.extracted;
  window = window;
  verified = passes.verified;
}

unfoldable passes_later : Passes app_state at_later request
unfolding new check_time_window saturating_add passes
passes_later = passes_at at_later refl

first_accepted : (verify_envelope replay_cache app_state at request []).0 ≡ ok tt
first_accepted = (verify_envelope_iff app_state at replay_cache request []).1 (passes, refl)

second_accepted :
    (verify_envelope replay_cache app_state at_later request
      (verify_envelope replay_cache app_state at request []).1).0
    ≡ ok tt
unfolding passes_later passes_at passes verify_envelope verify_envelope_inner before_replay
    check_replay new handler_for with_default_handlers register exact_nockchain_handler
    upto_nockchain_handler extract_nockchain check_time_window saturating_add
second_accepted =
    (verify_envelope_iff app_state at_later replay_cache request
        (verify_envelope replay_cache app_state at request []).1).1
      (passes_later, refl)

first_verified : verified_of json web app_state replay_cache (twice.tasks 0) ≡ some (request, at)
unfolding perform act
first_verified = rw first_accepted refl

second_verified :
    verified_of json web app_state replay_cache (twice.tasks 1) ≡ some (request, at_later)
unfolding perform act
second_verified = rw second_accepted refl

verified-IsApart_example : (1000 + 900 ≤ 1900) ⊎ (1900 + 900 ≤ 1000)
unfolding passes_later passes_at passes
verified-IsApart_example =
    verified-IsApart json web app_state replay_cache replay_cache-IsLawfulReplayCache 0 1 request
      request at at_later passes passes_later twice-Reach (λ e. omega arith) first_verified
      second_verified refl

-- The second task asks again half a minute after the first one.
abbrev again : Server
again = go 1 (check 260) (wait 30 once)

abbrev at_again : Moment
at_again = record { now = 260; instant = 1030 }

again-Reach : Reach json web app_state replay_cache world 1000 again
again-Reach =
    later
      (later
        (later
          (later (later begin (pick 0 (receive verify_endpoint request)))
            (pick 1 (receive verify_endpoint request)))
          (pick 0 (check 230)))
        (pass 30))
      (pick 1 (check 260))

again_verified : verified_of json web app_state replay_cache (again.tasks 0) ≡ some (request, at)
unfolding perform act
again_verified = rw first_accepted refl

unfoldable passes_again : Passes app_state at_again request
unfolding new check_time_window saturating_add passes
passes_again = passes_at at_again refl

verified-once_example :
    verified_of json web app_state replay_cache (again.tasks 1) ≢ some (request, at_again)
unfolding passes_again passes_at passes new
verified-once_example =
    verified-once json web app_state replay_cache replay_cache-IsLawfulReplayCache 0 1 request
      request at at_again passes passes_again again-Reach (λ e. omega arith) again_verified refl
      (omega arith) (omega arith) refl

abbrev memory_state : AppState Node ℕ (Rows Node)
memory_state = state json web app_state replay_cache

abbrev move :
    ℕ
    → Action Node
    → System json web memory_state replay_cache
    → System json web memory_state replay_cache
move = perform json web memory_state replay_cache

-- The request with an extension, before the settlement of another one begins.
abbrev shown : System json web memory_state replay_cache
shown = move 1 (receive settle_endpoint request) (
    move 0 (list "now") (
      move 0 (check 230) (
        move 0 (receive verify_endpoint listed_request)
          (start json web memory_state replay_cache world 1000))))

-- A settlement, between whose accesses another task verifies its request.
abbrev paid : Server
paid = go 0 settle (
    go 0 (list "now") (
      go 1 (check 230) (
        go 0 (check 230)
          (go 1 (receive verify_endpoint request) (go 0 (receive settle_endpoint request) fresh)))))

paid-Reach : Reach json web app_state replay_cache world 1000 paid
paid-Reach =
    later
      (later
        (later
          (later
            (later (later begin (pick 0 (receive settle_endpoint request)))
              (pick 1 (receive verify_endpoint request)))
            (pick 0 (check 230)))
          (pick 1 (check 230)))
        (pick 0 (list "now")))
      (pick 0 settle)

chain-IsHistory_example :
    (ps : List (Payment json web app_state replay_cache)) × IsHistory json web app_state
      replay_cache 0 paid.tasks ps
    × (paid.world.chain ≡ settle_all json web app_state replay_cache 0 ps)
    × ((i : ℕ)
        → (is_answered json web app_state replay_cache (paid.tasks i) ≡ true)
          ↔ Contains json web app_state replay_cache i ps)
chain-IsHistory_example = chain-IsHistory json web app_state replay_cache paid-Reach
