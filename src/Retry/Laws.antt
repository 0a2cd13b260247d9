-- ===== src/Retry/Laws.antt =====
-- Bounds and classification of the retry policy.
use native.Mathlib.Nat.{pow-suc}
use webhook_broadcast.Base.{
  ℕ, suc, ◌-◌, ◌*◌, ◌^◌, ◌≤◌, ◌<◌, min, ◌≡◌, ◌↔◌, ◌⊎◌, none, some, true, arith,
}
use webhook_broadcast.Retry.{
  is_retryable_outcome, BackoffInput, random_scale, backoff_ceiling, jitter,
  compute_backoff_delay_ms,
}

-- ADR 0003: a status is retried exactly when it is 408, 429 or 5xx.
pub is_retryable_outcome_iff :
    (status : ℕ)
    → (is_retryable_outcome (some status) ≡ true)
      ↔ ((status ≡ 408) ⊎ (status ≡ 429) ⊎ ((500 ≤ status) × (status ≤ 599)))
unfolding is_retryable_outcome
is_retryable_outcome_iff status = ground arith

pub jitter-le : (random capped : ℕ) → random < random_scale → jitter random capped ≤ capped
unfolding jitter
jitter-le random capped h = grind arith

backoff_ceiling_bounds :
    (base_ms cap_ms n : ℕ)
    → (backoff_ceiling base_ms cap_ms n ≤ cap_ms)
      × (backoff_ceiling base_ms cap_ms n ≤ base_ms * 2 ^ (n - 1))
unfolding backoff_ceiling
backoff_ceiling_bounds base_ms cap_ms n = omega arith

-- A delay never passes the cap. A `Retry-After` that fits under the cap is waited out whole, and
-- without one the delay lies below the exponential, too.
pub compute_backoff_delay_ms_bounds :
    (input : BackoffInput)
    → input.random < random_scale
    → (compute_backoff_delay_ms input ≤ input.cap_ms)
      × ((ms : ℕ)
          → input.retry_after_ms ≡ some ms
          → ms ≤ input.cap_ms
          → compute_backoff_delay_ms input ≡ ms)
      × (input.retry_after_ms ≡ none
          → compute_backoff_delay_ms input ≤ input.base_ms * 2 ^ (input.attempt_number - 1))
unfolding compute_backoff_delay_ms
compute_backoff_delay_ms_bounds input h =
    let ceiling = backoff_ceiling input.base_ms input.cap_ms input.attempt_number in
    let drawn = jitter-le input.random ceiling h in
    let bounds = backoff_ceiling_bounds input.base_ms input.cap_ms input.attempt_number in
    (ground (arith, drawn, bounds), λ ms e fits. ground arith, λ e. ground (arith, drawn, bounds))

suc-sub-one : (n : ℕ) → suc n - 1 ≡ n
suc-sub-one n = omega arith

-- The ceiling starts at the base and doubles with each Attempt until it meets the cap.
pub backoff_ceiling-doubles :
    (base_ms cap_ms n : ℕ)
    → (backoff_ceiling base_ms cap_ms 1 ≡ min base_ms cap_ms)
      × (backoff_ceiling base_ms cap_ms (suc (suc n))
          ≡ min (2 * backoff_ceiling base_ms cap_ms (suc n)) cap_ms)
unfolding backoff_ceiling
backoff_ceiling-doubles base_ms cap_ms n =
    (omega arith, rw (suc-sub-one (suc n), suc-sub-one n, pow-suc 2 n) (omega arith))
