-- ===== src/Worker/Settle.antt =====
-- What processDelivery.ts does once the answer is there, for each verdict.
use webhook_broadcast.Base.{
  ℕ, ◌+◌, ◌≤◌, ◌<◌, true, false, ◌&&◌, Option, none, some, ◌≡◌, ◌≢◌, refl, arith, ◌==◌, ==_refl,
  any, if◌then◌else◌,
}
use webhook_broadcast.Store.Rows.{
  Database, DeliveryRow, DeliveryStatus, pending, in_progress, status_eq, status_eq_iff,
}
use webhook_broadcast.Store.Deliveries.{
  DeliveryForProcessing, find_delivery, completed, complete_delivery, is_attempt,
  reset_in_progress_delivery_to_pending,
}
use webhook_broadcast.Store.Deliveries.Lookup.{
  found, find_delivery_complete, attempts_complete, find_delivery-id,
}
use webhook_broadcast.Retry.{random_scale}
use webhook_broadcast.Retry.Laws.{compute_backoff_delay_ms_bounds}
use webhook_broadcast.Worker.{
  World, M, Outcome, returned, retryable, crashed, AttemptResultClass, completion, delay_after,
  persist, finish_attempt, finish_terminal, finish_retry, settle,
}
use webhook_broadcast.Request.{
  Config, Surroundings, Answer, max_attempts_of, disable_after_of, cap_of, DbCall, recording,
  resetting, disabling,
}
use webhook_broadcast.Worker.Verdict.{
  Verdict, delivered, refused, exhausted, again, MayRecover-is_retryable, MayRecover-not_2xx,
  not_retryable, Reports, auto_disable-deliveries, Verdict-ne-in_progress,
}

pub delay_after-le :
    (c : Config) (s : Surroundings) (n : ℕ) (retry_after_ms : Option ℕ)
    → s.random < random_scale
    → delay_after c s n retry_after_ms ≤ cap_of c
unfolding delay_after
delay_after-le c s n retry_after_ms h = (compute_backoff_delay_ms_bounds _ h).0

-- The Delivery's row, its Attempts and the report after an Attempt that took the status `status`.
pub record Settled (c : Config) (r : DeliveryForProcessing) (status : DeliveryStatus)
    (result : World × Outcome (Unit {0})) : Type 0 where
  pub row :
      found
        (λ d. status_eq d.status status && d.attempt_count == r.attempt_count + 1)
        (find_delivery result.0.db r.id)
      ≡ true
  pub recorded : any (is_attempt r.id (r.attempt_count + 1)) result.0.db.attempts ≡ true
  pub report : Reports (cap_of c) status result.1

-- The database takes each statement of the run.
abbrev pub Works : Surroundings → Type 0
Works s = (call : DbCall) → s.fails call ≡ false

-- The branch of `settle` that belongs to a status.
branch : Config → Surroundings → DeliveryForProcessing → Answer → DeliveryStatus → M (Unit {0})
branch c s r a DeliveryStatus.succeeded =
    finish_attempt c s r a DeliveryStatus.succeeded AttemptResultClass.succeeded
branch c s r a DeliveryStatus.failed =
    finish_terminal c s r a DeliveryStatus.failed AttemptResultClass.failed
branch c s r a DeliveryStatus.dead_lettered =
    finish_terminal c s r a DeliveryStatus.dead_lettered AttemptResultClass.dead_lettered
branch c s r a _ = finish_retry c s r a

module _ (c : Config) (s : Surroundings) (r : DeliveryForProcessing) (a : Answer) where
  completion_row :
      (status : DeliveryStatus) (d : DeliveryRow) (db db' : Database)
      → find_delivery db r.id ≡ some d
      → complete_delivery db s.attempt_id (completion s r a status) ≡ some db'
      → (found
            (λ d. status_eq d.status status && d.attempt_count == r.attempt_count + 1)
            (find_delivery db' r.id)
          ≡ true)
        × (any (is_attempt r.id (r.attempt_count + 1)) db'.attempts ≡ true)
  unfolding completion completed
  completion_row status d db db' there e =
      let k = completion s r a status in
      let moved = find_delivery_complete db db' s.attempt_id k r.id e in
      let added = attempts_complete db db' s.attempt_id k r.id (r.attempt_count + 1) e in
      (
        ground (arith, moved, there, find_delivery-id db r.id there, status_eq_iff status status),
        ground (arith, added.0, ==_refl r.id, ==_refl (r.attempt_count + 1)),
      )

  finish_attempt_persisted :
      (w : World) (db' : Database) (status : DeliveryStatus) (class : AttemptResultClass)
      → Works s
      → complete_delivery w.db s.attempt_id (completion s r a status) ≡ some db'
      → ((finish_attempt c s r a status class w).0.db ≡ db')
        × ((finish_attempt c s r a status class w).1 ≡ returned tt)
  unfolding finish_attempt persist
  finish_attempt_persisted w db' status class works e = ground (arith, works recording)

  finish_terminal_persisted :
      (w : World) (db' : Database) (status : DeliveryStatus) (class : AttemptResultClass)
      → Works s
      → complete_delivery w.db s.attempt_id (completion s r a status) ≡ some db'
      → ((finish_terminal c s r a status class w).0.db.deliveries ≡ db'.deliveries)
        × ((finish_terminal c s r a status class w).0.db.attempts ≡ db'.attempts)
        × ((finish_terminal c s r a status class w).1 ≡ returned tt)
  unfolding finish_terminal persist
  finish_terminal_persisted w db' status class works e = ground (
    arith,
    works recording,
    works disabling,
    auto_disable-deliveries db' r.endpoint_id (disable_after_of c) s.finished_at,
  )

  finish_retry_persisted :
      (w : World) (db' : Database)
      → Works s
      → complete_delivery w.db s.attempt_id (completion s r a pending) ≡ some db'
      → ((finish_retry c s r a w).0.db ≡ db')
        × ((finish_retry c s r a w).1
            ≡ retryable (delay_after c s (r.attempt_count + 1) a.retry_after_ms))
  unfolding finish_retry persist
  finish_retry_persisted w db' works e = ground (arith, works recording)

  -- `settle` takes the branch of the verdict.
  settle-eq :
      (w : World) (status : DeliveryStatus) (code : Option ℕ)
      → a.status_code ≡ code
      → Verdict (max_attempts_of c) r.attempt_count code status
      → settle c s r a w ≡ branch c s r a status w
  unfolding settle branch finish_terminal finish_retry
  settle-eq w status (some code) e (delivered _ low high) = ground arith
  settle-eq w status (some code) e (refused _ range final) =
      ground (arith, not_retryable (some code) final)
  settle-eq w status code e (exhausted _ m h) =
      ground (arith, MayRecover-is_retryable m, MayRecover-not_2xx m)
  settle-eq w status code e (again _ m h) =
      ground (arith, MayRecover-is_retryable m, MayRecover-not_2xx m)

  terminal-Settled :
      (w : World) (d : DeliveryRow) (db' : Database) (status : DeliveryStatus)
      (class : AttemptResultClass)
      → Works s
      → find_delivery w.db r.id ≡ some d
      → complete_delivery w.db s.attempt_id (completion s r a status) ≡ some db'
      → Reports (cap_of c) status (returned tt)
      → Settled c r status (finish_terminal c s r a status class w)
  unfolding find_delivery
  terminal-Settled w d db' status class works there e report =
      let done = finish_terminal_persisted w db' status class works e in
      let facts = completion_row status d w.db db' there e in
      record {
        row = rw (done.0) (facts.0);
        recorded = rw (done.1) (facts.1);
        report = rw (done.2) report;
      }

  branch-Settled :
      (w : World) (d : DeliveryRow) (db' : Database) (status : DeliveryStatus)
      → s.random < random_scale
      → Works s
      → find_delivery w.db r.id ≡ some d
      → complete_delivery w.db s.attempt_id (completion s r a status) ≡ some db'
      → status ≢ in_progress
      → Settled c r status (branch c s r a status w)
  unfolding branch
  branch-Settled w d db' DeliveryStatus.succeeded random works there e _ =
      let done =
        finish_attempt_persisted w db' DeliveryStatus.succeeded AttemptResultClass.succeeded works
          e in
      let facts = completion_row DeliveryStatus.succeeded d w.db db' there e in
      record {
        row = rw (done.0) (facts.0);
        recorded = rw (done.0) (facts.1);
        report = rw (done.1) tt;
      }
  branch-Settled w d db' DeliveryStatus.failed random works there e _ =
      terminal-Settled w d db' DeliveryStatus.failed AttemptResultClass.failed works there e tt
  branch-Settled w d db' DeliveryStatus.dead_lettered random works there e _ =
      terminal-Settled w d db' DeliveryStatus.dead_lettered AttemptResultClass.dead_lettered works
        there e tt
  branch-Settled w d db' pending random works there e _ =
      let done = finish_retry_persisted w db' works e in
      let facts = completion_row pending d w.db db' there e in
      record {
        row = rw (done.0) (facts.0);
        recorded = rw (done.0) (facts.1);
        report = rw (done.1) (delay_after-le c s (r.attempt_count + 1) a.retry_after_ms random);
      }
  branch-Settled w d db' in_progress random works there e other = absurd (other refl)

  -- Once its transaction goes through, `settle` records the verdict.
  pub settle-Settled :
      (w : World) (d : DeliveryRow) (db' : Database) (status : DeliveryStatus)
      → s.random < random_scale
      → Works s
      → find_delivery w.db r.id ≡ some d
      → complete_delivery w.db s.attempt_id (completion s r a status) ≡ some db'
      → Verdict (max_attempts_of c) r.attempt_count a.status_code status
      → Settled c r status (settle c s r a w)
  settle-Settled w d db' status random works there e v =
      rw (settle-eq w status a.status_code refl v)
        (branch-Settled w d db' status random works there e (Verdict-ne-in_progress v))

  -- Where the outcome is not recorded, on every branch: the claim is released and the call throws, unless
  -- the release fails too.
  pub settle_unpersisted :
      (w : World)
      → ((status : DeliveryStatus) → persist s w.db (completion s r a status) ≡ none)
      → ((settle c s r a w).0.db ≡ (
          if s.fails resetting
          then w.db
          else (reset_in_progress_delivery_to_pending w.db r.id s.finished_at).0))
        × ((settle c s r a w).1 ≡ (
            if s.fails resetting
            then crashed
            else retryable (delay_after c s (r.attempt_count + 1) none)))
  unfolding settle
  settle_unpersisted w fails = ground (
    arith,
    fails DeliveryStatus.succeeded,
    fails DeliveryStatus.failed,
    fails DeliveryStatus.dead_lettered,
    fails pending,
  )

  -- What comes after the answer sends nothing.
  pub settle-sent : (w : World) → (settle c s r a w).0.sent ≡ w.sent
  unfolding settle
  settle-sent w = ground arith
