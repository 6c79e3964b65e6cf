-- ===== src/MediaPolicy/Backoff.antt =====
-- The retry budget and the backoff of crates/pronk/src/media_policy.rs.
use native.Mathlib.Nat.{pow-le-pow_right, mul-le-mul_left}
use pronk.Common.{ℕ, ◌*◌, ◌≤◌, ◌<◌, ◌≡◌, ◌↔◌, none, some, arith, min, duration_max}
use pronk.MediaPolicy.{MediaRecoveryPolicy, RetryTracker, multiplier, next_delay}

-- A retry is offered exactly while the attempts are below the budget; its delay never passes the
-- maximum, the first is the initial delay cut to the maximum, and one more attempt never shortens
-- it.
pub next_delay_lem :
    (policy : MediaRecoveryPolicy) (r : RetryTracker)
    → policy.initial_delay ≤ duration_max
    → ((next_delay r policy ≡ none) ↔ (policy.maximum_attempts ≤ r.attempts))
      × ((delay : ℕ) → next_delay r policy ≡ some delay → delay ≤ policy.maximum_delay)
      × (r.attempts ≡ 0
          → 0 < policy.maximum_attempts
          → next_delay r policy ≡ some (min policy.initial_delay policy.maximum_delay))
      × ((s : RetryTracker) (d e : ℕ)
          → r.attempts ≤ s.attempts
          → next_delay r policy ≡ some d
          → next_delay s policy ≡ some e
          → d ≤ e)
unfolding next_delay
next_delay_lem policy r fits = (
  ground arith,
  λ delay. ground arith,
  λ first room. ground (arith, first_multiplier r.attempts first),
  λ s d e le p q. ground (arith, grows policy.initial_delay r.attempts s.attempts le),
)
  where
    first_multiplier : (n : ℕ) → n ≡ 0 → multiplier n ≡ 1
    first_multiplier n e = rw e

    grows : (i m n : ℕ) → m ≤ n → i * multiplier m ≤ i * multiplier n
    grows i m n le = mul-le-mul_left i (pow-le-pow_right (omega arith) (omega arith))
