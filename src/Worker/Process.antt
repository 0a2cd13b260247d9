-- ===== src/Worker/Process.antt =====
-- One run of `processDelivery`, from the read of the Delivery to its report to the queue.
use webhook_broadcast.Base.{
  ℕ, ◌+◌, ◌<◌, true, false, ◌&&◌, none, some, [], ◌∷◌, ◌++◌, ◌≡◌, refl, sym, ◌∙◌, arith, ◌==◌,
  if◌then◌else◌, any, ◌⊎◌, inl, inr, Option-cases, Bool, Bool-cases,
}
use webhook_broadcast.Store.Rows.{
  Database, DeliveryRow, DeliveryStatus, pending, in_progress, status_eq, status_eq_iff,
}
use webhook_broadcast.Store.Deliveries.{
  DeliveryForProcessing, find_delivery, is_attempt, get_delivery_for_processing,
  mark_delivery_in_progress, reset_in_progress_delivery_to_pending,
}
use webhook_broadcast.Store.Deliveries.Lookup.{
  HasKeys, found, find_delivery-id, complete_delivery-goes_through, complete_delivery_refused,
}
use webhook_broadcast.Store.Deliveries.Moves.{
  find_delivery-mark, mark-granted, mark-attempts, find_delivery-reset,
}
use webhook_broadcast.Retry.{random_scale}
use webhook_broadcast.Worker.{
  World, Outcome, returned, crashed, retryable, delay_after, persist, completion, is_open, attempt,
  settle, claim, admit, process_delivery,
}
use webhook_broadcast.Request.{
  Config, Surroundings, reading, claiming, recording, resetting, Answer, max_attempts_of, cap_of,
  fetch_request, answer,
}
use webhook_broadcast.Worker.Verdict.{Verdict, Reports}
use webhook_broadcast.Worker.Settle.{
  Works, Settled, settle-Settled, settle-sent, settle_unpersisted, delay_after-le,
}

-- What the worker reads is the row of the Delivery, joined.
pub get_delivery-row :
    (db : Database) (id : ℕ) (r : DeliveryForProcessing)
    → get_delivery_for_processing db id ≡ some r
    → (d : DeliveryRow) × (find_delivery db id ≡ some d)
      × (r.id ≡ d.id)
      × (r.status ≡ d.status)
      × (r.attempt_count ≡ d.attempt_count)
unfolding get_delivery_for_processing
get_delivery-row db id r e = elim (Option-cases (find_delivery db id)) [
  | inl absent ↦ absurd (ground (arith, e, absent))
  | inr (d, there) ↦ (d, there, ground arith, ground arith, ground arith)
]

-- The answer to the one request of a run.
abbrev pub answered : Config → Surroundings → DeliveryForProcessing → Answer
answered c s r = answer s (fetch_request c r).timeout_ms (s.fetch (fetch_request c r))

-- How a run whose outcome was not recorded leaves the Delivery and reports, by whether the statement that
-- releases the claim throws too.
abbrev pub left_as : Bool → DeliveryStatus
left_as true = in_progress
left_as false = pending

abbrev pub Released : ℕ → Bool → Outcome (Unit {0}) → Type 0
Released cap true outcome = outcome ≡ crashed
Released cap false outcome = Reports cap pending outcome

module _ (c : Config) (s : Surroundings) (id : ℕ) (w : World) where
  -- A run on a Delivery that is gone, or has a terminal status, touches nothing.
  pub process_delivery_idle :
      (get_delivery_for_processing w.db id ≡ none)
        ⊎ ((r : DeliveryForProcessing) × (get_delivery_for_processing w.db id ≡ some r)
            × (is_open r.status ≡ false))
      → s.fails reading ≡ false
      → process_delivery c s id w ≡ (w, returned tt)
  unfolding process_delivery admit
  process_delivery_idle (inl gone) works = rw (works, gone) refl
  process_delivery_idle (inr (r, there, closed)) works = rw (works, there) (rw closed refl)

  module _ (r : DeliveryForProcessing) (there : get_delivery_for_processing w.db id ≡ some r)
      (keys : HasKeys w.db.deliveries) (opened : is_open r.status ≡ true)
      (reads : s.fails reading ≡ false) (claims : s.fails claiming ≡ false) where
    claimed_world : World
    claimed_world = record w {
      db = (mark_delivery_in_progress w.db id s.claimed_at).0;
      sent = w.sent ++ fetch_request c r ∷ [];
    }

    granted : (mark_delivery_in_progress w.db id s.claimed_at).1 ≡ true
    granted =
        let (d, found_d, same_id, same_status, same_count) = get_delivery-row w.db id r there in
        ground (arith, mark-granted w.db id s.claimed_at keys, found_d, same_status, opened)

    process_delivery-eq : process_delivery c s id w ≡ settle c s r (answered c s r) claimed_world
    unfolding process_delivery admit claim attempt claimed_world
    process_delivery-eq = rw (reads, there) (rw opened (rw claims (rw granted refl)))

    -- The row after the claim.
    claimed_row :
        (d : DeliveryRow) × (find_delivery claimed_world.db r.id ≡ some d)
        × (d.status ≡ in_progress)
        × (d.attempt_count ≡ r.attempt_count)
    unfolding claimed_world
    claimed_row =
        let (d, found_d, same_id, same_status, same_count) = get_delivery-row w.db id r there in
        (
          record d {
            status = in_progress;
            updated_at = if status_eq d.status pending then s.claimed_at else d.updated_at;
          },
          ground (
            arith,
            find_delivery-mark w.db id s.claimed_at r.id keys,
            found_d,
            find_delivery-id w.db id found_d,
            same_id,
            same_status,
            opened,
            status_eq_iff d.status in_progress,
          ),
          refl,
          sym same_count,
        )

    claimed_attempts : claimed_world.db.attempts ≡ w.db.attempts
    unfolding claimed_world
    claimed_attempts = mark-attempts w.db id s.claimed_at

    read_id : r.id ≡ id
    read_id =
        let (d, found_d, same_id, _, _) = get_delivery-row w.db id r there in
        same_id ∙ find_delivery-id w.db id found_d

    attempt_exists :
        (n : ℕ)
        → any (is_attempt id n) w.db.attempts ≡ any (is_attempt r.id n) claimed_world.db.attempts
    attempt_exists n = rw (claimed_attempts, read_id) refl

    -- Where the database takes each statement, has unique Delivery ids and has no Attempt of that number
    -- yet, a run on a Delivery that is not terminal sends one request, the one of its row, and takes the
    -- verdict of ADR 0003: the row has the verdict's status and one Attempt more, that Attempt is recorded,
    -- and the call throws with a delay under the cap exactly if the Delivery is to be tried again.
    pub process_delivery-Settled :
        (status : DeliveryStatus)
        → s.random < random_scale
        → Works s
        → any (is_attempt id (r.attempt_count + 1)) w.db.attempts ≡ false
        → Verdict (max_attempts_of c) r.attempt_count (answered c s r).status_code status
        → Settled c r status (process_delivery c s id w)
          × ((process_delivery c s id w).0.sent ≡ w.sent ++ fetch_request c r ∷ [])
    unfolding completion claimed_world
    process_delivery-Settled status random works fresh v =
        let (d, found_d, _, _) = claimed_row in
        let (db', e) =
          complete_delivery-goes_through claimed_world.db s.attempt_id
            (completion s r (answered c s r) status) d found_d
            (sym (attempt_exists (r.attempt_count + 1)) ∙ fresh) in
        rw process_delivery-eq (
          settle-Settled c s r (answered c s r) claimed_world d db' status random works found_d e v,
          settle-sent c s r (answered c s r) claimed_world,
        )

    not_persisted :
        (s.fails recording ≡ true)
          ⊎ (any (is_attempt id (r.attempt_count + 1)) w.db.attempts ≡ true)
        → (status : DeliveryStatus)
        → persist s claimed_world.db (completion s r (answered c s r) status) ≡ none
    unfolding persist completion
    not_persisted (inl fails) status = rw fails refl
    not_persisted (inr taken) status = elim (Bool-cases (s.fails recording)) [
      | inl fails ↦ rw fails refl
      | inr works ↦ rw works (
          complete_delivery_refused claimed_world.db s.attempt_id
            (completion s r (answered c s r) status)
            (sym (attempt_exists (r.attempt_count + 1)) ∙ taken))
    ]

    left :
        (b : Bool) (db : Database)
        → db ≡ (
            if b
            then claimed_world.db
            else (reset_in_progress_delivery_to_pending claimed_world.db r.id s.finished_at).0)
        → (found
              (λ d. status_eq d.status (left_as b) && d.attempt_count == r.attempt_count)
              (find_delivery db r.id)
            ≡ true)
          × (db.attempts ≡ w.db.attempts)
    left true db e =
        let (d, found_d, claimed, count) = claimed_row in
        rw e (
          ground (arith, found_d, claimed, count, status_eq_iff d.status in_progress),
          claimed_attempts,
        )
    left false db e =
        let (d, found_d, claimed, count) = claimed_row in
        let reset = find_delivery-reset claimed_world.db r.id s.finished_at r.id in
        rw e (
          ground (
            arith,
            reset.0,
            found_d,
            find_delivery-id claimed_world.db r.id found_d,
            claimed,
            count,
            status_eq_iff d.status in_progress,
            status_eq_iff pending pending,
          ),
          reset.1 ∙ claimed_attempts,
        )

    released :
        (b : Bool) (outcome : Outcome (Unit {0}))
        → s.random < random_scale
        → outcome ≡ (if b then crashed else retryable (delay_after c s (r.attempt_count + 1) none))
        → Released (cap_of c) b outcome
    released true outcome random e = e
    released false outcome random e = rw e (delay_after-le c s (r.attempt_count + 1) none random)

    -- In a run on a Delivery that is not terminal, whose read and claim go through, where the outcome is not
    -- recorded, since the transaction fails or the Attempt of that number is there already, whatever the
    -- answer was, the Attempts stay as they were and the Delivery keeps its count. It is `pending` again and
    -- the call throws with a delay under the cap; if the statement that releases the claim throws too, the
    -- Delivery stays `in_progress` and the call throws that error, which names no delay.
    pub process_delivery_unpersisted :
        s.random < random_scale
        → (s.fails recording ≡ true)
          ⊎ (any (is_attempt id (r.attempt_count + 1)) w.db.attempts ≡ true)
        → let after = process_delivery c s id w in
          (found
              (λ d.
                status_eq d.status (left_as (s.fails resetting))
                && d.attempt_count == r.attempt_count)
              (find_delivery after.0.db r.id)
            ≡ true)
          × (after.0.db.attempts ≡ w.db.attempts)
          × Released (cap_of c) (s.fails resetting) after.1
    process_delivery_unpersisted random fails =
        let after = settle_unpersisted c s r (answered c s r) claimed_world (not_persisted fails) in
        let row = left (s.fails resetting) _ (after.0) in
        rw process_delivery-eq (row.0, row.1, released (s.fails resetting) _ random (after.1))
