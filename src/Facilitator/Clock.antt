-- ===== src/Facilitator/Clock.antt =====
-- crates/x402-nockchain-facilitator/src/clock.rs. The `AtomicI64` of `MockClock` is its bit
-- pattern, a number below 2 ^ 64; the casts between `u64` and `i64` keep it.
use x402_nockchain.Prelude.{
  ℕ, ◌+◌, ◌-◌, ◌%◌, ◌^◌, ◌<◌, ◌≤◌, ◌≡◌, arith, ltb, if◌then◌else◌, Result, ok, err,
}
use x402_nockchain.Decimal.{u64_mod}

-- The `now` of `SystemClock`, on what `duration_since(UNIX_EPOCH)` says of the machine's time in
-- whole seconds: 0 for a time before the epoch.
unfoldable pub system_now : {SystemTimeError : Type 0} → Result SystemTimeError ℕ → ℕ
system_now (ok seconds) = seconds
system_now (err _) = 0

pub record MockClock : Type 0 where
  pub inner : ℕ

unfoldable pub frozen_at : ℕ → MockClock
frozen_at now = record { inner = now }

unfoldable pub set : MockClock → ℕ → MockClock
set clock now = record clock { inner = now }

-- `fetch_add` of an `i64`, which wraps; `delta` is given as its bit pattern.
unfoldable pub advance : MockClock → ℕ → MockClock
advance clock delta = record clock { inner = (clock.inner + delta) % u64_mod }

-- `raw < 0` is the sign bit.
unfoldable pub now : MockClock → ℕ
now clock = if ltb clock.inner (2 ^ 63) then clock.inner else 0

-- A clock that is frozen below 2 ^ 63 and advanced by seconds that keep it there shows the sum.
pub now-advance : (t d : ℕ) → t + d < 2 ^ 63 → now (advance (frozen_at t) d) ≡ t + d
unfolding now advance frozen_at
now-advance t d fits = ground arith

-- A clock that is set below 2 ^ 63 and moved back, by the bit pattern of a negative number of
-- seconds, shows the difference, or 0 when that is negative.
pub now-advance_back :
    (clock : MockClock) (t d : ℕ)
    → t < 2 ^ 63
    → d ≤ 2 ^ 63
    → now (advance (set clock t) (2 ^ 64 - d)) ≡ t - d
unfolding now advance set
now-advance_back clock t d h k = ground arith
