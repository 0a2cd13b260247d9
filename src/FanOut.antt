-- ===== src/FanOut.antt =====
-- apps/api/src/fanOutBroadcast.ts: a Broadcast becomes rows and queue entries.
pub mod Rollback
pub mod Laws
use webhook_broadcast.Base.{ℕ, Bool, true, false, Option, none, some, List, [], ◌∷◌, map, length}
use webhook_broadcast.Store.Rows.{Database, BroadcastRow, DeliveryRow, EndpointRow}
use webhook_broadcast.Store.Deliveries.{create_deliveries_for_broadcast, insert_deliveries}
use webhook_broadcast.Store.Endpoints.{list_enabled_endpoints_by_channel}
use webhook_broadcast.Store.Broadcasts.{insert_broadcast, delete_broadcast_by_id}

-- `DeliveryWorkItem`
pub record WorkItem : Type 0 where
  pub delivery_id : ℕ
  pub request_id : ℕ
  pub channel_id : ℕ
  pub broadcast_id : ℕ
  pub endpoint_id : ℕ

-- The interface `DeliveryQueue`. `enqueue` gives the queue after the call, and whether it went through, for
-- it may have removed a finished job before it throws. A fan-out hands over the ids of new rows, for which
-- no job is there, and then an `enqueueBulk` that throws has changed nothing: it is `none`.
pub record DeliveryQueue (Q : Type 0) : Type 0 where
  pub enqueue : Q → WorkItem → Q × Bool
  pub enqueue_bulk : Q → List WorkItem → Option Q

pub data FanOutResult : Type 0 where
  -- the Broadcast, the request id and the number of Deliveries
  accepted : BroadcastRow → ℕ → ℕ → FanOutResult
  -- the error of the queue, thrown again
  not_queued : FanOutResult
  -- the error of the transaction
  not_stored : FanOutResult

abbrev pub is_accepted : FanOutResult → Bool
is_accepted (accepted _ _ _) = true
is_accepted _ = false

pub work_item : BroadcastRow → ℕ → DeliveryRow → WorkItem
work_item b request_id d = record {
  delivery_id = d.id;
  request_id = request_id;
  channel_id = b.channel_id;
  broadcast_id = b.id;
  endpoint_id = d.endpoint_id;
}

-- The transaction; `none` where it throws. With no enabled Endpoint the insert of no rows is skipped, which
-- is the same.
unfoldable pub accept_broadcast :
    (ℕ → ℕ) → Database → BroadcastRow → Option (Database × List DeliveryRow)
accept_broadcast uuid db b =
    let tx = (insert_broadcast db b).0 in
    create_deliveries_for_broadcast uuid tx b.id b.channel_id
      (map (λ e. e.id) (list_enabled_endpoints_by_channel tx b.channel_id)) b.received_at

-- The transaction that goes through.
unfoldable pub committed_broadcast : (ℕ → ℕ) → Database → BroadcastRow → Database × List DeliveryRow
committed_broadcast uuid db b =
    let tx = (insert_broadcast db b).0 in
    insert_deliveries uuid tx b.id b.channel_id
      (map (λ e. e.id) (list_enabled_endpoints_by_channel tx b.channel_id)) b.received_at

module _ {Q : Type 0} (queue : DeliveryQueue Q) where
  enqueued : BroadcastRow → ℕ → ℕ → Database → Q → Option Q → Database × Q × FanOutResult
  enqueued b request_id n db q (some q') = (db, q', accepted b request_id n)
  enqueued b request_id n db q none = ((delete_broadcast_by_id db b.id).0, q, not_queued)

  dispatch : BroadcastRow → ℕ → Database → Q → List DeliveryRow → Database × Q × FanOutResult
  unfolding enqueued
  dispatch b request_id db q [] = (db, q, accepted b request_id 0)
  dispatch b request_id db q (d ∷ ds) =
      enqueued b request_id (length (d ∷ ds)) db q
        (queue.enqueue_bulk q (map (work_item b request_id) (d ∷ ds)))

  dispatch_accepted :
      BroadcastRow
      → ℕ
      → Database
      → Q
      → Option (Database × List DeliveryRow)
      → Database × Q × FanOutResult
  unfolding dispatch
  dispatch_accepted b request_id db q none = (db, q, not_stored)
  dispatch_accepted b request_id db q (some committed) =
      dispatch b request_id committed.0 q committed.1

  unfoldable pub fan_out_broadcast :
      (ℕ → ℕ) → Database → Q → BroadcastRow → ℕ → Database × Q × FanOutResult
  unfolding dispatch_accepted
  fan_out_broadcast uuid db q b request_id =
      dispatch_accepted b request_id db q (accept_broadcast uuid db b)
