-- ===== src/Worker.antt =====
-- apps/api/src/worker/processDelivery.ts: one Attempt of a Delivery. What the process reads from
-- its surroundings (clock, network, random numbers, whether a transaction goes through) is the
-- record `Surroundings`; log lines are left out.
pub mod Verdict
pub mod Settle
pub mod Process
pub mod System
use webhook_broadcast.Base.{
  ℕ, zero, suc, ◌+◌, ◌*◌, ◌/◌, ◌%◌, not, ◌||◌, Bool, true, false, ◌&&◌, Option, none, some, List,
  [], ◌∷◌, ◌++◌, Text, codes, ◌==◌, ltb, leb, if◌then◌else◌, or_default,
}
use webhook_broadcast.Store.Rows.{Database, DeliveryStatus, pending, in_progress, status_eq}
use webhook_broadcast.Store.Deliveries.{
  DeliveryForProcessing, get_delivery_for_processing, mark_delivery_in_progress,
  reset_in_progress_delivery_to_pending, complete_delivery, Completion,
}
use webhook_broadcast.Store.Endpoints.{maybe_auto_disable_endpoint}
use webhook_broadcast.Headers.{attempt_headers}
use webhook_broadcast.Retry.{
  HeaderParsers, is_retryable_outcome, parse_retry_after_ms, compute_backoff_delay_ms,
}
use webhook_broadcast.Request.{
  reading, claiming, recording, resetting, disabling, Answer, Config, FetchRequest, Surroundings,
  answer, base_of, cap_of, disable_after_of, fetch_request, is_2xx, max_attempts_of,
}

pub data AttemptResultClass : Type 0 where
  succeeded failed dead_lettered retry : AttemptResultClass

pub record World : Type 0 where
  pub db : Database
  -- `metrics.recordAttempt`, oldest first
  pub metrics : List (AttemptResultClass × ℕ)
  -- the requests that went out, oldest first
  pub sent : List FetchRequest

-- A call returns, throws `RetryableDeliveryError` with its `delayMs`, or throws what the database threw.
pub data Outcome {ℓ} (A : Type ℓ) : Type ℓ where
  returned : A → Outcome A
  retryable : ℕ → Outcome A
  crashed : Outcome A

abbrev pub M : Type 0 → Type 0
M A = World → World × Outcome A

abbrev continue : {A B : Type 0} → World → Outcome A → (A → M B) → World × Outcome B
continue w (returned a) f = f a w
continue w (retryable ms) f = (w, retryable ms)
continue w crashed f = (w, crashed)

infixl 5 ◌>>=◌ ◌>>◌
abbrev pub ◌>>=◌ : {A B : Type 0} → M A → (A → M B) → M B
◌>>=◌ m f w = continue (m w).0 (m w).1 f

abbrev pub ◌>>◌ : {B : Type 0} → M (Unit {0}) → M B → M B
m >> k = m >>= λ _. k

abbrev return : M (Unit {0})
return w = (w, returned tt)

abbrev throw_retryable : {A : Type 0} → ℕ → M A
throw_retryable ms w = (w, retryable ms)

abbrev crash : {A : Type 0} → M A
crash w = (w, crashed)

-- `error: status === "succeeded" ? null : error`
unfoldable pub completion :
    Surroundings → DeliveryForProcessing → Answer → DeliveryStatus → Completion
completion s r a status = record {
  delivery_id = r.id;
  n = r.attempt_count + 1;
  status_code = a.status_code;
  duration_ms = s.duration_ms;
  error = if status_eq status DeliveryStatus.succeeded then none else a.error;
  status = status;
  at = s.finished_at;
}

unfoldable pub delay_after : Config → Surroundings → ℕ → Option ℕ → ℕ
delay_after c s n retry_after_ms = compute_backoff_delay_ms (record {
  attempt_number = n;
  base_ms = base_of c;
  cap_ms = cap_of c;
  retry_after_ms = retry_after_ms;
  random = s.random;
})

unfoldable pub persist : Surroundings → Database → Completion → Option Database
persist s db c = if s.fails recording then none else complete_delivery db s.attempt_id c

record_metric : AttemptResultClass → ℕ → World → World
record_metric class ms w = record w { metrics = w.metrics ++ (class, ms) ∷ [] }

module _ (c : Config) (s : Surroundings) (r : DeliveryForProcessing) (a : Answer) where
  -- The `try` and `catch` around `completeDelivery`.
  store_outcome : Option Database → M (Unit {0})
  store_outcome (some db) w = return (record w { db = db })
  store_outcome none w =
      if s.fails resetting
      then crash w
      else throw_retryable (delay_after c s (r.attempt_count + 1) none)
          (record w { db = (reset_in_progress_delivery_to_pending w.db r.id s.finished_at).0 })

  finish_attempt : DeliveryStatus → AttemptResultClass → M (Unit {0})
  unfolding record_metric store_outcome
  finish_attempt status class w =
      store_outcome (persist s w.db (completion s r a status)) (record_metric class s.duration_ms w)

  auto_disable : M (Unit {0})
  auto_disable w =
      if s.fails disabling
      then crash w
      else return (record w {
        db = (maybe_auto_disable_endpoint w.db r.endpoint_id (disable_after_of c) s.finished_at).0;
      })

  finish_terminal : DeliveryStatus → AttemptResultClass → M (Unit {0})
  unfolding finish_attempt auto_disable
  finish_terminal status class = do finish_attempt status class; auto_disable

  finish_retry : M (Unit {0})
  unfolding finish_attempt
  finish_retry = do
    finish_attempt pending AttemptResultClass.retry
    throw_retryable (delay_after c s (r.attempt_count + 1) a.retry_after_ms)

  -- From the answer on.
  unfoldable pub settle : M (Unit {0})
  unfolding finish_attempt finish_terminal finish_retry
  settle w =
      if is_2xx a.status_code
      then finish_attempt DeliveryStatus.succeeded AttemptResultClass.succeeded w
      else if not (is_retryable_outcome a.status_code)
      then finish_terminal DeliveryStatus.failed AttemptResultClass.failed w
      else if leb (max_attempts_of c) (r.attempt_count + 1)
      then finish_terminal DeliveryStatus.dead_lettered AttemptResultClass.dead_lettered w
      else finish_retry w

-- From the claim on.
unfoldable pub attempt : Config → Surroundings → DeliveryForProcessing → M (Unit {0})
unfolding settle
attempt c s r w =
    let request = fetch_request c r in
    settle c s r (answer s request.timeout_ms (s.fetch request))
      (record w { sent = w.sent ++ request ∷ [] })

claim : Config → Surroundings → DeliveryForProcessing → Database × Bool → M (Unit {0})
unfolding attempt
claim c s r (db, claimed) w = if claimed then attempt c s r (record w { db = db }) else return w

-- The two statuses that are not terminal.
abbrev pub is_open : DeliveryStatus → Bool
is_open status = status_eq status pending || status_eq status in_progress

admit : Config → Surroundings → ℕ → Option DeliveryForProcessing → M (Unit {0})
unfolding claim
admit c s id none w = return w
admit c s id (some r) w =
    if not (is_open r.status)
    then return w
    else if s.fails claiming
    then crash w
    else claim c s r (mark_delivery_in_progress w.db id s.claimed_at) w

unfoldable pub process_delivery : Config → Surroundings → ℕ → M (Unit {0})
unfolding admit
process_delivery c s id w =
    if s.fails reading then crash w else admit c s id (get_delivery_for_processing w.db id) w
