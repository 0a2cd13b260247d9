-- ===== src/Admin/Deliveries/Retry.antt =====
-- apps/api/src/admin/deliveries.ts: what a retry does on each branch.
use webhook_broadcast.Base.{
  ℕ, ◌≡◌, ◌≢◌, refl, ◌∙◌, arith, Bool, true, false, if◌then◌else◌, ◌==◌, ==_iff, Option,
  Option-cases, some, Text, ==_refl, inl, inr, Bool-cases,
}
use webhook_broadcast.Store.Rows.{
  Database, DeliveryRow, EndpointRow, pending, dead_lettered, status_eq, status_eq_iff,
}
use webhook_broadcast.Store.Deliveries.{find_delivery, retry_dead_lettered_delivery}
use webhook_broadcast.Store.Deliveries.Lookup.{HasKeys, find_delivery-id}
use webhook_broadcast.Store.Deliveries.Moves.{
  find_delivery-retry, retry-HasKeys, retry-endpoints, retry-deliveries, retry-granted,
  retry-refused,
}
use webhook_broadcast.Store.Views.{detail, HasDelivery, detail_found, get_delivery_detail_by_id}
use webhook_broadcast.FanOut.{DeliveryQueue, WorkItem}
use webhook_broadcast.Admin.{done, refused, thrown, conflict, require_uuid_param}
use webhook_broadcast.Admin.Deliveries.{
  item_of, find_detail, enqueue, requeue, refuse_retry, retry_delivery,
}

-- The row after a retry.
abbrev pub retried : ℕ → DeliveryRow → DeliveryRow
retried now d = record d { status = pending; updated_at = now }

retry-HasDelivery :
    (db : Database) (id now : ℕ) (d : DeliveryRow) (e : EndpointRow)
    → HasDelivery db id d e
    → d.status ≡ dead_lettered
    → HasDelivery (retry_dead_lettered_delivery db id now).0 id (retried now d) e
retry-HasDelivery db id now d e h dead = record {
  delivery_found =
      (find_delivery-retry db id now id).0
      ∙ rw (h.delivery_found) (
          rw ((find_delivery-id db id h.delivery_found))
            (rw (==_refl id, (status_eq_iff d.status dead_lettered).1 dead) refl));
  endpoint_found = rw (retry-endpoints db id now) h.endpoint_found;
}

-- The item that a retry hands to the queue: it names the Delivery, with its Broadcast, its Channel and its
-- Endpoint.
abbrev pub retry_item : ℕ → DeliveryRow → WorkItem
retry_item request_id d = record {
  delivery_id = d.id;
  request_id = request_id;
  channel_id = d.channel_id;
  broadcast_id = d.broadcast_id;
  endpoint_id = d.endpoint_id;
}

-- Of the Deliveries only that one has moved: the one with the id `k` is as it was. Nothing else has changed.
abbrev pub OnlyMoved : Database → Database → ℕ → ℕ → DeliveryRow → ℕ → Type 0
OnlyMoved before after id now d k =
    (find_delivery after id ≡ some (retried now d))
    × (find_delivery after k ≡ find_delivery before k)
    × (after ≡ record before { deliveries = after.deliveries })

enqueue_result :
    {Q : Type 0} (queue : DeliveryQueue Q) (parse_id : Text → Option ℕ) (d : DeliveryRow)
    (e : EndpointRow) (now request_id : ℕ) (db : Database) (q q' : Q) (taken : Bool)
    → queue.enqueue q (retry_item request_id d) ≡ (q', taken)
    → enqueue queue parse_id (item_of (detail (retried now d) e) request_id) (db, q)
      ≡ ((db, q'), if taken then done tt else thrown)
unfolding enqueue item_of detail
enqueue_result queue parse_id d e now request_id db q q' taken h = rw h refl

unmoved :
    (db : Database) (id now k : ℕ)
    → k ≢ id
    → find_delivery (retry_dead_lettered_delivery db id now).0 k ≡ find_delivery db k
unmoved db id now k other = elim (Option-cases (find_delivery db k)) [
  | inl absent ↦ (find_delivery-retry db id now k).0 ∙ rw absent refl
  | inr (d, there) ↦
      let elsewhere : (d.id == id) ≡ false =
        ground (arith, find_delivery-id db k there, ==_iff d.id id, other) in
      (find_delivery-retry db id now k).0 ∙ rw there (rw elsewhere refl)
]

module _ {Q : Type 0} (queue : DeliveryQueue Q) (parse_id : Text → Option ℕ) (now request_id : ℕ)
    (param : Text) (db : Database) (q : Q) (id : ℕ) (d : DeliveryRow) (e : EndpointRow)
    (valid : parse_id param ≡ some id) (keys : HasKeys db.deliveries)
    (there : HasDelivery db id d e) where
  -- A retry of a Delivery that is not dead-lettered is a conflict, and changes nothing.
  pub retry_delivery-conflict :
      d.status ≢ dead_lettered
      → retry_delivery queue parse_id now request_id param (db, q) ≡ ((db, q), refused 409 conflict)
  unfolding retry_delivery require_uuid_param refuse_retry find_detail
  retry_delivery-conflict alive = elim (Bool-cases (status_eq d.status dead_lettered)) [
    | inl dead ↦ absurd (alive ((status_eq_iff d.status dead_lettered).0 dead))
    | inr not_dead ↦
        let no_row = retry-granted db id now d keys there.delivery_found ∙ not_dead in
        rw (valid, no_row) (rw (retry-refused db id now no_row, detail_found db id d e there) refl)
  ]

module _ {Q : Type 0} (queue : DeliveryQueue Q) (parse_id : Text → Option ℕ) (now request_id : ℕ)
    (param : Text) (db : Database) (q : Q) (id : ℕ) (d : DeliveryRow) (e : EndpointRow)
    (valid : parse_id param ≡ some id) (keys : HasKeys db.deliveries)
    (there : HasDelivery db id d e) (dead : d.status ≡ dead_lettered) where
  granted : (retry_dead_lettered_delivery db id now).1 ≡ true
  granted =
      retry-granted db id now d keys there.delivery_found
      ∙ (status_eq_iff d.status dead_lettered).1 dead

  moved_there :
      get_delivery_detail_by_id (retry_dead_lettered_delivery db id now).0 id
      ≡ some (detail (retried now d) e)
  moved_there =
      detail_found (retry_dead_lettered_delivery db id now).0 id (retried now d) e
        (retry-HasDelivery db id now d e there dead)

  only_moved : (k : ℕ) → k ≢ id → OnlyMoved db (retry_dead_lettered_delivery db id now).0 id now d k
  only_moved k other = (
    (retry-HasDelivery db id now d e there dead).delivery_found,
    unmoved db id now k other,
    retry-deliveries db id now,
  )

  -- A retry of a dead-lettered Delivery that the queue takes answers 200 with the Delivery, which is now
  -- pending and has the Attempts that it had; no other Delivery and no other table has changed, and the
  -- queue is what it is after it took the item that names the Delivery, its Broadcast, its Channel and its
  -- Endpoint.
  pub retry_delivery_queued :
      (q' : Q) (k : ℕ)
      → k ≢ id
      → queue.enqueue q (retry_item request_id d) ≡ (q', true)
      → let after = retry_delivery queue parse_id now request_id param (db, q) in
        (after.1 ≡ done (200, detail (retried now d) e))
        × (after.0.1 ≡ q')
        × OnlyMoved db after.0.0 id now d k
  unfolding retry_delivery require_uuid_param requeue find_detail
  retry_delivery_queued q' k other taken =
      rw (valid, granted, moved_there)
        (rw
          (enqueue_result queue parse_id d e now request_id
            (retry_dead_lettered_delivery db id now).0 q q' true taken)
          (rw moved_there (refl, refl, only_moved k other)))

  retry_delivery_thrown :
      (q' : Q)
      → queue.enqueue q (retry_item request_id d) ≡ (q', false)
      → retry_delivery queue parse_id now request_id param (db, q)
        ≡ (((retry_dead_lettered_delivery db id now).0, q'), thrown)
  unfolding retry_delivery require_uuid_param requeue find_detail
  retry_delivery_thrown q' shut =
      rw (valid, granted, moved_there)
        (rw
          (enqueue_result queue parse_id d e now request_id
            (retry_dead_lettered_delivery db id now).0 q q' false shut)
          refl)

  -- If the enqueue throws, the retry throws, and the Delivery has left dead_lettered all the same, no other
  -- Delivery and no other table has changed, and the queue is what the enqueue left: another retry is then
  -- a conflict that changes nothing.
  pub retry_delivery_stranded :
      (q' : Q) (later again k : ℕ)
      → k ≢ id
      → queue.enqueue q (retry_item request_id d) ≡ (q', false)
      → let after = retry_delivery queue parse_id now request_id param (db, q) in
        (after.1 ≡ thrown)
        × (after.0.1 ≡ q')
        × OnlyMoved db after.0.0 id now d k
        × (retry_delivery queue parse_id later again param after.0
            ≡ (after.0, refused 409 conflict))
  retry_delivery_stranded q' later again k other shut = rw (retry_delivery_thrown q' shut) (
    refl,
    refl,
    only_moved k other,
    retry_delivery-conflict queue parse_id later again param
        (retry_dead_lettered_delivery db id now).0 q' id (retried now d) e valid
        (retry-HasKeys db id now keys) (retry-HasDelivery db id now d e there dead)
        (λ same. absurd (ground (arith, same))),
  )
