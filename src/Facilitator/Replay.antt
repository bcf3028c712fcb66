-- ===== src/Facilitator/Replay.antt =====
-- The replay cache that crates/x402-nockchain-facilitator uses (vesl-siwn, passed on by
-- crates/x402-nockchain-crypto/src/lib.rs): its trait, with the instant of the call and the state
-- of the cache as arguments.
use x402_nockchain.Prelude.{ℕ, ◌+◌, ◌≤◌, ◌<◌, String, Bool, true, false, ◌≡◌}

pub record ReplayCache : Type 1 where
  pub Cache : Type 0
  pub Key : Type 0
  pub prefixed_replay_key : String → String → Key
  -- `replay_domains::AUTHORIZATION`
  pub authorization_domain : String
  -- `seen(&key, ttl)` at an instant
  pub seen : Key → ℕ → ℕ → Cache → Bool × Cache

-- `seen` says whether the key is live, records it when it is not, for the time to live, and drops
-- no key that is still live.
pub record IsLawfulReplayCache (R : ReplayCache) : Type 0 where
  pub is_live : R.Key → ℕ → R.Cache → Bool
  pub seen-is_live : (k : R.Key) (ttl t : ℕ) (c : R.Cache) → (R.seen k ttl t c).0 ≡ is_live k t c
  pub is_live-seen :
      (k : R.Key) (ttl t u : ℕ) (c : R.Cache)
      → is_live k t c ≡ false
      → t ≤ u
      → u < t + ttl
      → is_live k u (R.seen k ttl t c).1 ≡ true
  pub is_live-seen_keep :
      (k j : R.Key) (ttl t u : ℕ) (c : R.Cache)
      → is_live k u c ≡ true
      → t ≤ u
      → is_live k u (R.seen j ttl t c).1 ≡ true
