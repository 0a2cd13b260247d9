-- ===== src/FanOut/Laws.antt =====
-- What a fan-out leaves behind, whether or not the queue takes its work items.
use webhook_broadcast.Base.{
  Option, none, some, ℕ, suc, true, false, some, List, [], ◌∷◌, ◌++◌, map, length, ◌≡◌, ◌⊎◌, refl,
  ap, sym, if◌then◌else◌, ◌∙◌, arith, Bool, ◌&&◌, is_none, filter, ◌==◌, all, any, inl, inr,
}
use webhook_broadcast.Store.Rows.{Database, BroadcastRow, DeliveryRow, EndpointRow}
use webhook_broadcast.Store.Deliveries.{has_id, create_deliveries_for_broadcast}
use webhook_broadcast.Store.Deliveries.Lookup.{HasKeys}
use webhook_broadcast.Store.Deliveries.Creation.{
  create-HasKeys, create-absent, AreFresh, create-AreFresh, create-db, all_of_AreFresh,
}
use webhook_broadcast.Store.Endpoints.{list_enabled_endpoints_by_channel}
use webhook_broadcast.Store.Broadcasts.{insert_broadcast, delete_broadcast_by_id}
use webhook_broadcast.Store.Broadcasts.Cascade.{IsIntegral, has_broadcast}
use webhook_broadcast.FanOut.{
  enqueued, WorkItem, DeliveryQueue, accepted, not_queued, not_stored, is_accepted, work_item,
  accept_broadcast, committed_broadcast, dispatch, dispatch_accepted, fan_out_broadcast,
}
use webhook_broadcast.FanOut.Rollback.{undo}

pub committed_broadcast-eq :
    (uuid : ℕ → ℕ) (db : Database) (b : BroadcastRow)
    → (committed_broadcast uuid db b).0 ≡ record db {
      broadcasts = db.broadcasts ++ b ∷ [];
      deliveries = db.deliveries ++ (committed_broadcast uuid db b).1;
    }
unfolding committed_broadcast insert_broadcast
committed_broadcast-eq uuid db b =
    create-db uuid (insert_broadcast db b).0 b.id b.channel_id
      (map (λ e. e.id) (list_enabled_endpoints_by_channel (insert_broadcast db b).0 b.channel_id))
      b.received_at

pub committed_broadcast-AreFresh :
    (uuid : ℕ → ℕ) (db : Database) (b : BroadcastRow)
    → AreFresh b.id b.channel_id
        (map (λ e. e.id) (list_enabled_endpoints_by_channel db b.channel_id))
        (committed_broadcast uuid db b).1
unfolding committed_broadcast insert_broadcast list_enabled_endpoints_by_channel
committed_broadcast-AreFresh uuid db b =
    create-AreFresh uuid (insert_broadcast db b).0 b.id b.channel_id
      (map (λ e. e.id) (list_enabled_endpoints_by_channel db b.channel_id)) b.received_at

length-AreFresh :
    (b c : ℕ) (es : List ℕ) (ds : List DeliveryRow) → AreFresh b c es ds → length ds ≡ length es
length-AreFresh b c [] [] f = refl
length-AreFresh b c [] (d ∷ ds) f = absurd f
length-AreFresh b c (e ∷ es) [] f = absurd f
length-AreFresh b c (e ∷ es) (d ∷ ds) (_, _, _, _, _, rest) =
    ap suc (length-AreFresh b c es ds rest)

-- The keys of the new rows.
pub committed_broadcast-HasKeys :
    (uuid : ℕ → ℕ) (db : Database) (b : BroadcastRow)
    → ((i j : ℕ) → uuid i ≡ uuid j → i ≡ j)
    → ((i : ℕ) → any (has_id (uuid i)) db.deliveries ≡ false)
    → HasKeys db.deliveries
    → HasKeys (db.deliveries ++ (committed_broadcast uuid db b).1)
unfolding committed_broadcast insert_broadcast
committed_broadcast-HasKeys uuid db b inj apart h =
    create-HasKeys uuid (insert_broadcast db b).0 b.id b.channel_id
      (map (λ e. e.id) (list_enabled_endpoints_by_channel (insert_broadcast db b).0 b.channel_id))
      b.received_at inj apart h

pub committed_broadcast-absent :
    (uuid : ℕ → ℕ) (db : Database) (b : BroadcastRow) (j : ℕ)
    → ((i : ℕ) → (uuid i == j) ≡ false)
    → any (has_id j) (committed_broadcast uuid db b).1 ≡ false
unfolding committed_broadcast
committed_broadcast-absent uuid db b j apart =
    create-absent uuid (insert_broadcast db b).0 b.id b.channel_id
      (map (λ e. e.id) (list_enabled_endpoints_by_channel (insert_broadcast db b).0 b.channel_id))
      b.received_at j apart

-- Whose rows they are, seen from the cascade.
rows_owned :
    (uuid : ℕ → ℕ) (db : Database) (b : BroadcastRow)
    → all (has_broadcast (b ∷ [])) (committed_broadcast uuid db b).1 ≡ true
rows_owned uuid db b =
    all_of_AreFresh (has_broadcast (b ∷ [])) b.id b.channel_id
      (map (λ e. e.id) (list_enabled_endpoints_by_channel db b.channel_id))
      (committed_broadcast uuid db b).1 (λ d e _ _. ground arith)
      (committed_broadcast-AreFresh uuid db b)

-- An item names its Delivery, with the Broadcast, the Channel and the Endpoint of it.
abbrev pub Names : BroadcastRow → ℕ → DeliveryRow → WorkItem → Type 0
Names b request_id d item =
    (item.delivery_id ≡ d.id)
    × (item.request_id ≡ request_id)
    × (item.channel_id ≡ b.channel_id)
    × (item.broadcast_id ≡ b.id)
    × (item.endpoint_id ≡ d.endpoint_id)

-- One item for each row, in order.
abbrev pub ItemsFor : BroadcastRow → ℕ → List DeliveryRow → List WorkItem → Type 0
ItemsFor b request_id [] [] = Unit
ItemsFor b request_id [] (item ∷ items) = ⊥
ItemsFor b request_id (d ∷ ds) [] = ⊥
ItemsFor b request_id (d ∷ ds) (item ∷ items) =
    Names b request_id d item × ItemsFor b request_id ds items

work_item-ItemsFor :
    (b : BroadcastRow) (request_id : ℕ) (ds : List DeliveryRow)
    → ItemsFor b request_id ds (map (work_item b request_id) ds)
unfolding work_item
work_item-ItemsFor b request_id [] = tt
work_item-ItemsFor b request_id (d ∷ ds) =
    ((refl, refl, refl, refl, refl), work_item-ItemsFor b request_id ds)

-- The queue after a fan-out: handed one work item for each row, if there is one.
abbrev pub Queued :
    {Q : Type 0} → DeliveryQueue Q → BroadcastRow → ℕ → Q → List DeliveryRow → Q → Type 0
Queued queue b request_id q ds q' =
    ((ds ≡ []) × (q' ≡ q))
    ⊎ ((items : List WorkItem) × ItemsFor b request_id ds items
        × (queue.enqueue_bulk q items ≡ some q'))

-- The Endpoints of a Channel that get a Delivery, by the columns of their rows.
abbrev pub takes_part : ℕ → EndpointRow → Bool
takes_part channel_id e = e.channel_id == channel_id && (e.enabled && is_none e.auto_disabled_at)

abbrev pub participants : Database → ℕ → List ℕ
participants db channel_id =
    map (λ (e : EndpointRow). e.id) (filter (takes_part channel_id) db.endpoints)

module _ {Q : Type 0} (queue : DeliveryQueue Q) (b : BroadcastRow) (request_id : ℕ) (db : Database)
    (q : Q) where
  dispatch_refused :
      (ds : List DeliveryRow)
      → (dispatch queue b request_id db q ds).2 ≡ not_queued
      → ((dispatch queue b request_id db q ds).0 ≡ (delete_broadcast_by_id db b.id).0)
        × ((dispatch queue b request_id db q ds).1 ≡ q)
  unfolding dispatch
  dispatch_refused [] e = absurd (ground arith)
  dispatch_refused (d ∷ ds) e = ground arith

  dispatch-accepted :
      (ds : List DeliveryRow) (n : ℕ)
      → (dispatch queue b request_id db q ds).2 ≡ accepted b request_id n
      → ((dispatch queue b request_id db q ds).0 ≡ db)
        × (n ≡ length ds)
        × Queued queue b request_id q ds (dispatch queue b request_id db q ds).1
  unfolding dispatch
  dispatch-accepted [] n e = (refl, ground arith, inl (refl, refl))
  dispatch-accepted (d ∷ ds) n e = (
    ground arith,
    ground arith,
    inr (
      map (work_item b request_id) (d ∷ ds),
      work_item-ItemsFor b request_id (d ∷ ds),
      ground arith,
    ),
  )

enqueued-result :
    {Q : Type 0} (queue : DeliveryQueue Q) (b : BroadcastRow) (request_id n : ℕ) (db : Database)
    (q : Q) (o : Option Q)
    → ((enqueued queue b request_id n db q o).2 ≡ accepted b request_id n)
      ⊎ ((enqueued queue b request_id n db q o).2 ≡ not_queued)
unfolding enqueued
enqueued-result queue b request_id n db q (some q') = inl refl
enqueued-result queue b request_id n db q none = inr refl

dispatch-result :
    {Q : Type 0} (queue : DeliveryQueue Q) (b : BroadcastRow) (request_id : ℕ) (db : Database)
    (q : Q) (ds : List DeliveryRow)
    → ((dispatch queue b request_id db q ds).2 ≡ accepted b request_id (length ds))
      ⊎ ((dispatch queue b request_id db q ds).2 ≡ not_queued)
unfolding dispatch
dispatch-result queue b request_id db q [] = inl refl
dispatch-result queue b request_id db q (d ∷ ds) =
    enqueued-result queue b request_id (length (d ∷ ds)) db q
      (queue.enqueue_bulk q (map (work_item b request_id) (d ∷ ds)))

accept_broadcast_result :
    (uuid : ℕ → ℕ) (db : Database) (b : BroadcastRow)
    → (accept_broadcast uuid db b ≡ none)
      ⊎ (accept_broadcast uuid db b ≡ some (committed_broadcast uuid db b))
unfolding accept_broadcast committed_broadcast create_deliveries_for_broadcast
accept_broadcast_result uuid db b = if_taken _ (committed_broadcast uuid db b)
  where
    if_taken :
        (taken : Bool) (c : Database × List DeliveryRow)
        → ((if taken then none else some c) ≡ none) ⊎ ((if taken then none else some c) ≡ some c)
    if_taken true c = inl refl
    if_taken false c = inr refl

-- Where the transaction throws nothing has happened; where it goes through the queue is asked.
fan_out_broadcast_cases :
    {Q : Type 0} (queue : DeliveryQueue Q) (uuid : ℕ → ℕ) (db : Database) (q : Q) (b : BroadcastRow)
    (request_id : ℕ)
    → (fan_out_broadcast queue uuid db q b request_id ≡ (db, q, not_stored))
      ⊎ (fan_out_broadcast queue uuid db q b request_id
          ≡ dispatch queue b request_id
              (committed_broadcast uuid db b).0
              q
              (committed_broadcast uuid db b).1)
unfolding fan_out_broadcast dispatch_accepted
fan_out_broadcast_cases queue uuid db q b request_id = elim (accept_broadcast_result uuid db b) [
  | inl thrown ↦ inl (ap (dispatch_accepted queue b request_id db q) thrown)
  | inr went ↦ inr (ap (dispatch_accepted queue b request_id db q) went)
]

-- The results of a fan-out.
pub fan_out_broadcast-result :
    {Q : Type 0} (queue : DeliveryQueue Q) (uuid : ℕ → ℕ) (db : Database) (q : Q) (b : BroadcastRow)
    (request_id : ℕ)
    → ((n : ℕ) × ((fan_out_broadcast queue uuid db q b request_id).2 ≡ accepted b request_id n))
      ⊎ (is_accepted (fan_out_broadcast queue uuid db q b request_id).2 ≡ false)
fan_out_broadcast-result queue uuid db q b request_id =
    elim (fan_out_broadcast_cases queue uuid db q b request_id) [
      | inl thrown ↦ inr (rw thrown refl)
      | inr went ↦
          elim (dispatch-result queue b request_id (committed_broadcast uuid db b).0 q
            (committed_broadcast uuid db b).1) [
              | inl e ↦ inl (length (committed_broadcast uuid db b).1, ap (λ p. p.2) went ∙ e)
              | inr e ↦ inr (rw went (rw e refl))
            ]
    ]

committed_broadcast-participants :
    (uuid : ℕ → ℕ) (db : Database) (b : BroadcastRow)
    → AreFresh b.id b.channel_id (participants db b.channel_id) (committed_broadcast uuid db b).1
unfolding list_enabled_endpoints_by_channel
committed_broadcast-participants uuid db b = committed_broadcast-AreFresh uuid db b

-- A fan-out that was accepted: the Broadcast is added, and one Delivery for each Endpoint of the Channel
-- that is enabled and not auto-disabled.
pub record IsAccepted {Q : Type 0} (queue : DeliveryQueue Q) (before : Database) (q : Q)
    (b : BroadcastRow) (request_id n : ℕ) (after : Database) (q' : Q) : Type 0 where
  pub rows : List DeliveryRow
  pub fresh : AreFresh b.id b.channel_id (participants before b.channel_id) rows
  pub added : after ≡ record before {
    broadcasts = before.broadcasts ++ b ∷ [];
    deliveries = before.deliveries ++ rows;
  }
  pub counted : n ≡ length (participants before b.channel_id)
  pub queued : Queued queue b request_id q rows q'

module _ {Q : Type 0} (queue : DeliveryQueue Q) (uuid : ℕ → ℕ) (db : Database) (q : Q)
    (b : BroadcastRow) (request_id : ℕ) where
  -- A fan-out that the queue refuses leaves no trace: database and queue are exactly what they were,
  -- provided that the Broadcast's id is new and no row dangled before.
  pub fan_out_broadcast_rollback :
      any (λ c. c.id == b.id) db.broadcasts ≡ false
      → IsIntegral db
      → (fan_out_broadcast queue uuid db q b request_id).2 ≡ not_queued
      → ((fan_out_broadcast queue uuid db q b request_id).0 ≡ db)
        × ((fan_out_broadcast queue uuid db q b request_id).1 ≡ q)
  fan_out_broadcast_rollback unused integral refused =
      elim (fan_out_broadcast_cases queue uuid db q b request_id) [
        | inl thrown ↦ rw thrown (refl, refl)
        | inr went ↦
            let facts =
              dispatch_refused queue b request_id (committed_broadcast uuid db b).0 q
                (committed_broadcast uuid db b).1 (sym (ap (λ p. p.2) went) ∙ refused) in
            rw went (
              facts.0
                  ∙ ap (λ d. (delete_broadcast_by_id d b.id).0) (committed_broadcast-eq uuid db b)
                  ∙ undo db b (committed_broadcast uuid db b).1 unused integral
                      (rows_owned uuid db b),
              facts.1,
            )
      ]

  -- So does one that is not accepted for whatever reason.
  pub fan_out_broadcast_untouched :
      any (λ c. c.id == b.id) db.broadcasts ≡ false
      → IsIntegral db
      → is_accepted (fan_out_broadcast queue uuid db q b request_id).2 ≡ false
      → ((fan_out_broadcast queue uuid db q b request_id).0 ≡ db)
        × ((fan_out_broadcast queue uuid db q b request_id).1 ≡ q)
  fan_out_broadcast_untouched unused integral not_accepted =
      elim (fan_out_broadcast_cases queue uuid db q b request_id) [
        | inl thrown ↦ rw thrown (refl, refl)
        | inr went ↦
            elim (dispatch-result queue b request_id (committed_broadcast uuid db b).0 q
              (committed_broadcast uuid db b).1) [
                | inl e ↦ absurd (
                    ground (arith, not_accepted, ap (λ p. is_accepted p.2) went ∙ ap is_accepted e))
                | inr e ↦ fan_out_broadcast_rollback unused integral (ap (λ p. p.2) went ∙ e)
              ]
      ]

  dispatched-IsAccepted :
      (n : ℕ)
      → (dispatch queue b request_id
          (committed_broadcast uuid db b).0
          q
          (committed_broadcast uuid db b).1).2
        ≡ accepted b request_id n
      → let after =
          dispatch queue b request_id
            (committed_broadcast uuid db b).0
            q
            (committed_broadcast uuid db b).1 in
        IsAccepted queue db q b request_id n after.0 after.1
  dispatched-IsAccepted n e =
      let rows = (committed_broadcast uuid db b).1 in
      let facts =
        dispatch-accepted queue b request_id (committed_broadcast uuid db b).0 q rows n e in
      let fresh = committed_broadcast-participants uuid db b in
      record {
        rows = rows;
        fresh = fresh;
        added = facts.0 ∙ committed_broadcast-eq uuid db b;
        counted = facts.1 ∙ length-AreFresh b.id b.channel_id _ rows fresh;
        queued = facts.2;
      }

  -- A fan-out that is accepted adds the Broadcast and, for each Endpoint of its Channel that is enabled and
  -- not auto-disabled, in their order, one Delivery that is pending and has no Attempt. It reports their
  -- number, and the queue has taken one work item for each of
  -- them, which names it with its Broadcast, its Channel and its Endpoint.
  pub fan_out_broadcast-IsAccepted :
      (n : ℕ)
      → (fan_out_broadcast queue uuid db q b request_id).2 ≡ accepted b request_id n
      → IsAccepted queue db q b request_id n
          (fan_out_broadcast queue uuid db q b request_id).0
          (fan_out_broadcast queue uuid db q b request_id).1
  fan_out_broadcast-IsAccepted n e = elim (fan_out_broadcast_cases queue uuid db q b request_id) [
    | inl thrown ↦ absurd (ground (arith, ap is_accepted (sym e ∙ ap (λ p. p.2) thrown)))
    | inr went ↦ rw went (dispatched-IsAccepted n (sym (ap (λ p. p.2) went) ∙ e))
  ]
