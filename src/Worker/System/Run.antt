-- ===== src/Worker/System/Run.antt =====
-- A run of `processDelivery` among the steps of the system.
use webhook_broadcast.Base.{
  arith, ℕ, Option, none, some, List, [], ◌∷◌, ◌++◌, ◌≡◌, refl, sym, ◌∙◌, leb, ◌+◌, Option-cases,
  Bool-cases, inl, inr,
}
use webhook_broadcast.Store.Rows.{Database, DeliveryStatus, pending}
use webhook_broadcast.Store.Deliveries.{
  DeliveryForProcessing, get_delivery_for_processing, mark_delivery_in_progress,
}
use webhook_broadcast.Retry.{is_retryable_outcome}
use webhook_broadcast.Worker.{
  delay_after, throw_retryable, record_metric, World, AttemptResultClass, completion, is_open,
  Outcome, returned, retryable, crashed, continue, persist, store_outcome, finish_attempt,
  finish_terminal, finish_retry, auto_disable, settle, attempt, claim, admit, process_delivery,
}
use webhook_broadcast.Request.{
  reading, claiming, recording, resetting, disabling, disable_after_of, Config, Surroundings,
  Answer, is_2xx, max_attempts_of, answer, fetch_request,
}
use webhook_broadcast.Worker.System.{System, Step, Reach, here, next}

-- What the other processes see of a worker: the database, and what it has read.
abbrev pub seen : World → List DeliveryForProcessing → System
seen w rs = record { db = w.db; held = rs }

module _ (c : Config) (s : Surroundings) (r : DeliveryForProcessing) (a : Answer)
    (from : System) where
  store_outcome-Reach :
      (w : World) (status : DeliveryStatus) (o : Option Database)
      → persist s w.db (completion s r a status) ≡ o
      → Reach from (seen w (r ∷ []))
      → Reach from (seen (store_outcome c s r a o w).0 [])
  unfolding store_outcome persist
  store_outcome-Reach w status none e run = elim (Bool-cases (s.fails resetting)) [
    | inl fails ↦ rw fails (next run (Step.leave [] [] r refl))
    | inr works ↦
        rw works (next (next run (Step.reset r.id s.finished_at)) (Step.leave [] [] r refl))
  ]
  store_outcome-Reach w status (some db) e run = elim (Bool-cases (s.fails recording)) [
    | inl fails ↦ absurd (ground (arith, e, fails))
    | inr goes ↦ next run (Step.complete [] [] r s a status db refl (sym (rw goes refl) ∙ e))
  ]

  finish_attempt-Reach :
      (w : World) (status : DeliveryStatus) (class : AttemptResultClass)
      → Reach from (seen w (r ∷ []))
      → Reach from (seen (finish_attempt c s r a status class w).0 [])
  unfolding finish_attempt record_metric
  finish_attempt-Reach w status class run =
      store_outcome-Reach (record_metric class s.duration_ms w) status
        (persist s w.db (completion s r a status)) refl run

  disable-Reach :
      (w : World) (o : Outcome (Unit {0}))
      → Reach from (seen w [])
      → Reach from (seen (continue w o (λ _. auto_disable c s r a)).0 [])
  unfolding auto_disable
  disable-Reach w (returned tt) run = elim (Bool-cases (s.fails disabling)) [
    | inl fails ↦ rw fails run
    | inr works ↦
        rw works (next run (Step.auto_disable r.endpoint_id (disable_after_of c) s.finished_at))
  ]
  disable-Reach w (retryable ms) run = run
  disable-Reach w crashed run = run

  throw-Reach :
      (w : World) (o : Outcome (Unit {0})) (ms : ℕ)
      → Reach from (seen w [])
      → Reach from (seen (continue w o (λ _. throw_retryable {A = Unit {0}} ms)).0 [])
  throw-Reach w (returned tt) ms run = run
  throw-Reach w (retryable _) ms run = run
  throw-Reach w crashed ms run = run

  finish_terminal-Reach :
      (w : World) (status : DeliveryStatus) (class : AttemptResultClass)
      → Reach from (seen w (r ∷ []))
      → Reach from (seen (finish_terminal c s r a status class w).0 [])
  unfolding finish_terminal
  finish_terminal-Reach w status class run =
      disable-Reach (finish_attempt c s r a status class w).0
        (finish_attempt c s r a status class w).1 (finish_attempt-Reach w status class run)

  settle-Reach :
      (w : World) → Reach from (seen w (r ∷ [])) → Reach from (seen (settle c s r a w).0 [])
  unfolding settle finish_retry
  settle-Reach w run = elim (Bool-cases (is_2xx a.status_code)) [
    | inl e ↦
        rw e (finish_attempt-Reach w DeliveryStatus.succeeded AttemptResultClass.succeeded run)
    | inr e ↦ rw e (elim (Bool-cases (is_retryable_outcome a.status_code)) [
      | inr f ↦ rw f (finish_terminal-Reach w DeliveryStatus.failed AttemptResultClass.failed run)
      | inl f ↦ rw f (elim (Bool-cases (leb (max_attempts_of c) (r.attempt_count + 1))) [
        | inl g ↦ rw g (
            finish_terminal-Reach w DeliveryStatus.dead_lettered AttemptResultClass.dead_lettered
              run)
        | inr g ↦ rw g (
            throw-Reach (finish_attempt c s r a pending AttemptResultClass.retry w).0
              (finish_attempt c s r a pending AttemptResultClass.retry w).1
              (delay_after c s (r.attempt_count + 1) a.retry_after_ms)
              (finish_attempt-Reach w pending AttemptResultClass.retry run))
      ])
    ])
  ]

module _ (c : Config) (s : Surroundings) (id : ℕ) (w : World) where
  claim-Reach :
      (r : DeliveryForProcessing)
      → Reach (seen w []) (seen w (r ∷ []))
      → Reach
          (seen w [])
          (seen (claim c s r (mark_delivery_in_progress w.db id s.claimed_at) w).0 [])
  unfolding claim attempt
  claim-Reach r held = elim (Bool-cases (mark_delivery_in_progress w.db id s.claimed_at).1) [
    | inr refused ↦ rw refused (next held (Step.leave [] [] r refl))
    | inl granted ↦ rw granted (
        let request = fetch_request c r in
        settle-Reach c s r (answer s request.timeout_ms (s.fetch request)) (seen w [])
          (record w {
            db = (mark_delivery_in_progress w.db id s.claimed_at).0;
            sent = w.sent ++ request ∷ [];
          })
          (next held (Step.claim id s.claimed_at)))
  ]

  admit-Reach :
      (r : DeliveryForProcessing)
      → get_delivery_for_processing w.db id ≡ some r
      → Reach (seen w []) (seen (admit c s id (some r) w).0 [])
  unfolding admit
  admit-Reach r there = elim (Bool-cases (is_open r.status)) [
    | inr shut ↦ rw shut here
    | inl opened ↦ rw opened (
        let held = next here (Step.read id r there opened) in
        elim (Bool-cases (s.fails claiming)) [
          | inl fails ↦ rw fails (next held (Step.leave [] [] r refl))
          | inr works ↦ rw works (claim-Reach r held)
        ])
  ]

-- Whatever the clock, the network and the statements do, a run of `processDelivery` by itself is a sequence
-- of steps that ends with no Delivery held. So what holds along every sequence of steps holds across its
-- runs.
pub process_delivery-Reach :
    (c : Config) (s : Surroundings) (id : ℕ) (w : World)
    → Reach (seen w []) (seen (process_delivery c s id w).0 [])
unfolding process_delivery admit
process_delivery-Reach c s id w = elim (Bool-cases (s.fails reading)) [
  | inl fails ↦ rw fails here
  | inr works ↦ rw works (elim (Option-cases (get_delivery_for_processing w.db id)) [
    | inl gone ↦ rw gone here
    | inr (r, there) ↦ rw there (admit-Reach c s id w r there)
  ])
]
