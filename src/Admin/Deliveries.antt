-- ===== src/Admin/Deliveries.antt =====
-- apps/api/src/admin/deliveries.ts: the detail of a Delivery, its Attempts, and its retry.
pub mod Retry
use webhook_broadcast.Base.{ℕ, Option, none, some, Text, List, Bool, if◌then◌else◌}
use webhook_broadcast.Store.Rows.{Database, AttemptRow}
use webhook_broadcast.Store.Deliveries.{retry_dead_lettered_delivery}
use webhook_broadcast.Store.Views.{
  DeliveryDetailRow, get_delivery_detail_by_id, list_attempts_for_delivery,
}
use webhook_broadcast.FanOut.{DeliveryQueue, WorkItem}
use webhook_broadcast.Admin.{
  Handler, Reply, ◌>>=◌, after, done, refused, thrown, Outcome, not_found, conflict,
  validation_failed, reply, refuse, read, write, require, require_uuid_param,
}

unfoldable pub item_of : DeliveryDetailRow → ℕ → WorkItem
item_of row request_id = record {
  delivery_id = row.id;
  request_id = request_id;
  channel_id = row.channel_id;
  broadcast_id = row.broadcast_id;
  endpoint_id = row.endpoint_id;
}

module _ {Q : Type 0} (queue : DeliveryQueue Q) (parse_id : Text → Option ℕ) where
  abbrev pub State : Type 0
  State = Database × Q

  -- `getDeliveryDetailById`, and 404 where there is none.
  find_detail : ℕ → Handler State DeliveryDetailRow
  find_detail id s = require 404 not_found (get_delivery_detail_by_id (s.0) id) s

  unfoldable pub get_delivery : Text → Handler State (Reply DeliveryDetailRow)
  unfolding find_detail require_uuid_param
  get_delivery param = do
    id ← require_uuid_param parse_id param
    row ← find_detail id
    reply 200 row

  unfoldable pub list_attempts : Text → Handler State (Reply (List AttemptRow))
  unfolding find_detail require_uuid_param
  list_attempts param = do
    id ← require_uuid_param parse_id param
    _ ← find_detail id
    rows ← read (λ s. list_attempts_for_delivery (s.0) id)
    reply 200 rows

  enqueue : WorkItem → Handler State Unit
  enqueue item s =
      let (q, taken) = queue.enqueue (s.1) item in ((s.0, q), if taken then done tt else thrown)

  requeue : ℕ → ℕ → Handler State (Reply DeliveryDetailRow)
  unfolding find_detail enqueue
  requeue id request_id = do
    row ← find_detail id
    _ ← enqueue (item_of row request_id)
    updated ← find_detail id
    reply 200 updated

  refuse_retry : ℕ → Handler State (Reply DeliveryDetailRow)
  unfolding find_detail
  refuse_retry id = do _ ← find_detail id; refuse 409 conflict

  -- `now` is `new Date()`, and `request_id` is `newRequestId()`.
  unfoldable pub retry_delivery : ℕ → ℕ → Text → Handler State (Reply DeliveryDetailRow)
  unfolding requeue refuse_retry require_uuid_param
  retry_delivery now request_id param = do
    id ← require_uuid_param parse_id param
    retried ← write (λ s. let r = retry_dead_lettered_delivery (s.0) id now in ((r.0, s.1), r.1))
    if retried then requeue id request_id else refuse_retry id
