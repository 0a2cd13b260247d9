-- ===== src/Witnesses/Retries.antt =====
-- The retry policy at concrete inputs.
use webhook_broadcast.Base.{ℕ, ◌≤◌, ◌^◌, ◌*◌, ◌-◌, ◌≡◌, none, some, arith, refl}
use webhook_broadcast.Retry.{BackoffInput, compute_backoff_delay_ms, jitter, backoff_ceiling}
use webhook_broadcast.Retry.Laws.{compute_backoff_delay_ms_bounds}

abbrev third_attempt : BackoffInput
third_attempt = record {
  attempt_number = 3;
  base_ms = 5000;
  cap_ms = 3600000;
  retry_after_ms = some 120000;
  random = 2 ^ 52;
}

delay_test : compute_backoff_delay_ms third_attempt ≡ 120000
unfolding compute_backoff_delay_ms
delay_test = refl

computed_delay_test :
    compute_backoff_delay_ms (record third_attempt { retry_after_ms = none }) ≡ 10000
unfolding compute_backoff_delay_ms jitter backoff_ceiling
computed_delay_test = refl

compute_backoff_delay_ms_bounds_example :
    (compute_backoff_delay_ms third_attempt ≤ 3600000)
    × ((ms : ℕ)
        → third_attempt.retry_after_ms ≡ some ms
        → ms ≤ 3600000
        → compute_backoff_delay_ms third_attempt ≡ ms)
    × (third_attempt.retry_after_ms ≡ none
        → compute_backoff_delay_ms third_attempt ≤ 5000 * 2 ^ (3 - 1))
compute_backoff_delay_ms_bounds_example =
    compute_backoff_delay_ms_bounds third_attempt (omega arith)
