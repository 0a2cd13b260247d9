-- ===== src/Retry.antt =====
-- apps/api/src/worker/retryPolicy.ts: what is retried, and how long a worker waits before it does.
pub mod Laws
use webhook_broadcast.Base.{
  ℕ, ◌+◌, ◌-◌, ◌*◌, ◌/◌, ◌^◌, min, Bool, true, false, ◌&&◌, ◌||◌, Option, none, some, [], ◌∷◌, Text,
  ℤ, pos, negsuc, pos_part, ◌==◌, ltb, leb, if◌then◌else◌,
}

-- `none` is a network error, a TLS failure or a timeout.
unfoldable pub is_retryable_outcome : Option ℕ → Bool
is_retryable_outcome none = true
is_retryable_outcome (some status) =
    if status == 408 || status == 429 then true else leb 500 status && ltb status 600

-- The JavaScript parsers that read a `Retry-After` value.
pub record HeaderParsers : Type 0 where
  -- `Number(value) * 1000` where `Number(value)` is finite
  pub seconds_in_ms : Text → Option ℤ
  -- `Date.parse(value)` where it is not NaN
  pub date_ms : Text → Option ℤ

-- `Math.max(0, dateMs - now)`
abbrev until : ℕ → ℤ → ℕ
until now date = pos_part date - now

parse_date : HeaderParsers → Text → ℕ → Option ℕ
parse_date js value now = elim (js.date_ms value) [
  | none ↦ none
  | some date ↦ some (until now date)
]

parse_value : HeaderParsers → Text → ℕ → Option ℕ
unfolding parse_date
parse_value js value now = elim (js.seconds_in_ms value) [
  | none ↦ parse_date js value now
  | some ms ↦ some (pos_part ms)
]

-- An absent header and an empty one are both "no header".
unfoldable pub parse_retry_after_ms : HeaderParsers → Option Text → ℕ → Option ℕ
unfolding parse_value
parse_retry_after_ms js none now = none
parse_retry_after_ms js (some []) now = none
parse_retry_after_ms js (some (c ∷ value)) now = parse_value js (c ∷ value) now

pub record BackoffInput : Type 0 where
  pub attempt_number : ℕ
  pub base_ms : ℕ
  pub cap_ms : ℕ
  pub retry_after_ms : Option ℕ
  -- `Math.random()` answers `random / 2 ^ 53`.
  pub random : ℕ

abbrev pub random_scale : ℕ
random_scale = 2 ^ 53

-- The cap of the exponential: `Math.min(baseMs * 2 ** (attemptNumber - 1), capMs)`.
unfoldable pub backoff_ceiling : ℕ → ℕ → ℕ → ℕ
backoff_ceiling base_ms cap_ms attempt_number = min (base_ms * 2 ^ (attempt_number - 1)) cap_ms

-- `Math.round(random() * capped)`
unfoldable pub jitter : ℕ → ℕ → ℕ
jitter random capped = (2 * (random * capped) + random_scale) / (2 * random_scale)

abbrev pub honoured : ℕ → Option ℕ → ℕ → ℕ
honoured cap_ms none computed = computed
honoured cap_ms (some ms) computed = min ms cap_ms

unfoldable pub compute_backoff_delay_ms : BackoffInput → ℕ
compute_backoff_delay_ms input =
    honoured input.cap_ms input.retry_after_ms
      (jitter input.random (backoff_ceiling input.base_ms input.cap_ms input.attempt_number))
