-- ===== src/Request.antt =====
-- The HTTP side of apps/api/src/worker/processDelivery.ts: what a worker is configured with, what it
-- sends, and what it makes of the answer.
use webhook_broadcast.Base.{
  ℕ, ◌||◌, Bool, false, ◌&&◌, Option, none, some, List, ◌++◌, Text, codes, ◌==◌, ltb, leb,
  if◌then◌else◌, or_default, decimal,
}
use webhook_broadcast.Store.Deliveries.{DeliveryForProcessing}
use webhook_broadcast.Headers.{attempt_headers}
use webhook_broadcast.Retry.{HeaderParsers, parse_retry_after_ms}

abbrev pub default_delivery_max_attempts : ℕ
default_delivery_max_attempts = 8

abbrev pub default_delivery_backoff_ms : ℕ
default_delivery_backoff_ms = 5000

abbrev pub default_delivery_backoff_max_ms : ℕ
default_delivery_backoff_max_ms = 3600000

abbrev pub default_endpoint_auto_disable_after_ms : ℕ
default_endpoint_auto_disable_after_ms = 3600000

-- `ProcessDeliveryDeps`, without the connections.
pub record Config : Type 0 where
  pub default_timeout_ms : ℕ
  pub max_attempts : Option ℕ
  pub backoff_base_ms : Option ℕ
  pub backoff_max_ms : Option ℕ
  pub endpoint_auto_disable_after_ms : Option ℕ

abbrev pub max_attempts_of : Config → ℕ
max_attempts_of c = or_default c.max_attempts default_delivery_max_attempts

abbrev pub base_of : Config → ℕ
base_of c = or_default c.backoff_base_ms default_delivery_backoff_ms

abbrev pub cap_of : Config → ℕ
cap_of c = or_default c.backoff_max_ms default_delivery_backoff_max_ms

abbrev pub disable_after_of : Config → ℕ
disable_after_of c =
    or_default c.endpoint_auto_disable_after_ms default_endpoint_auto_disable_after_ms

-- A POST that does not follow redirects and is aborted after `timeout_ms`.
pub record FetchRequest : Type 0 where
  pub url : Text
  pub headers : List (Text × Text)
  pub body : List ℕ
  pub timeout_ms : ℕ

pub data FetchOutcome : Type 0 where
  -- the status, and the `Retry-After` header
  response : ℕ → Option Text → FetchOutcome
  aborted : FetchOutcome
  -- any other rejection, with its message
  threw : Text → FetchOutcome

-- The statements of a run.
pub data DbCall : Type 0 where
  reading claiming recording resetting disabling : DbCall

pub record Surroundings : Type 0 where
  pub fetch : FetchRequest → FetchOutcome
  pub parsers : HeaderParsers
  pub claimed_at : ℕ
  pub answered_at : ℕ
  pub finished_at : ℕ
  pub duration_ms : ℕ
  pub random : ℕ
  -- the `randomUUID()` of the Attempt row
  pub attempt_id : ℕ
  -- which statement throws for a reason outside the database's rules
  pub fails : DbCall → Bool

unfoldable pub timeout_message : ℕ → Text
timeout_message ms = codes "timed out after " ++ decimal ms ++ codes "ms"

abbrev pub is_2xx : Option ℕ → Bool
is_2xx none = false
is_2xx (some status) = leb 200 status && ltb status 300

-- What the `try` around the fetch leaves in `statusCode`, `error` and `retryAfterMs`.
pub record Answer : Type 0 where
  pub status_code : Option ℕ
  pub error : Option Text
  pub retry_after_ms : Option ℕ

unfoldable pub answer : Surroundings → ℕ → FetchOutcome → Answer
unfolding timeout_message
answer s timeout_ms (response status header) = record {
  status_code = some status;
  error = none;
  retry_after_ms =
      if status == 429 || status == 503
      then parse_retry_after_ms s.parsers header s.answered_at
      else none;
}
answer s timeout_ms aborted = record {
  status_code = none;
  error = some (timeout_message timeout_ms);
  retry_after_ms = none;
}
answer s timeout_ms (threw message) = record {
  status_code = none;
  error = some message;
  retry_after_ms = none;
}

unfoldable pub fetch_request : Config → DeliveryForProcessing → FetchRequest
fetch_request c r = record {
  url = r.url;
  headers = attempt_headers r.broadcast_headers r.forward_headers r.endpoint_headers r.content_type;
  body = r.body;
  timeout_ms = or_default r.timeout_ms c.default_timeout_ms;
}
