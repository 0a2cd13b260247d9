-- ===== src/Store/Broadcasts.antt =====
-- packages/db/src/repositories/broadcasts.ts. `ON DELETE CASCADE` takes the Deliveries of a deleted
-- Broadcast, and the Attempts of a deleted Delivery, with it.
pub mod Listing
pub mod Cascade
use webhook_broadcast.Base.{
  ℕ, ◌+◌, Bool, true, false, not, ◌&&◌, ◌||◌, Option, none, some, List, [], ◌∷◌, ◌++◌, ◌==◌, ltb,
  if◌then◌else◌, filter, any, find, count, length, map, Text,
}
use webhook_broadcast.Store.Rows.{
  Database, BroadcastRow, DeliveryRow, AttemptRow, DeliveryStatus, in_progress, status_eq,
  is_failure,
}
use webhook_broadcast.Store.Endpoints.{keep_attempts}
use webhook_broadcast.Paging.{list_page}

unfoldable pub insert_broadcast : Database → BroadcastRow → Database × BroadcastRow
insert_broadcast db row = (record db { broadcasts = db.broadcasts ++ row ∷ [] }, row)

-- `(received_at, id)`
abbrev pub Cursor : Type 0
Cursor = ℕ × ℕ

abbrev pub cursor_of : BroadcastRow → Cursor
cursor_of b = (b.received_at, b.id)

-- Newest first, then by falling id: `lt` on the pair.
abbrev pub newer : Cursor → Cursor → Bool
newer (at, id) (at', id') = ltb at' at || (at' == at && ltb id' id)

unfoldable pub list_broadcasts_by_channel :
    Database → ℕ → Option Cursor → ℕ → List BroadcastRow × Option Cursor
list_broadcasts_by_channel db channel_id cursor limit =
    list_page cursor_of newer (λ b. b.channel_id == channel_id) db.broadcasts cursor limit

-- The Delivery of a Broadcast to one Endpoint; `delivery_broadcast_endpoint_key` has at most one.
abbrev pub is_failed_delivery : ℕ → ℕ → DeliveryRow → Bool
is_failed_delivery endpoint_id broadcast_id d =
    d.broadcast_id == broadcast_id && (d.endpoint_id == endpoint_id && is_failure d.status)

pub record BroadcastWithEndpointDeliveryRow : Type 0 where
  pub broadcast : BroadcastRow
  pub delivery_id : ℕ
  pub delivery_status : DeliveryStatus
  pub attempt_count : ℕ
  pub last_status_code : Option ℕ
  pub last_duration_ms : Option ℕ
  pub last_error : Option Text

with_delivery : BroadcastRow → DeliveryRow → BroadcastWithEndpointDeliveryRow
with_delivery b d = record {
  broadcast = b;
  delivery_id = d.id;
  delivery_status = d.status;
  attempt_count = d.attempt_count;
  last_status_code = d.last_status_code;
  last_duration_ms = d.last_duration_ms;
  last_error = d.last_error;
}

-- The inner join.
join_failures : ℕ → List DeliveryRow → List BroadcastRow → List BroadcastWithEndpointDeliveryRow
unfolding with_delivery
join_failures endpoint_id deliveries [] = []
join_failures endpoint_id deliveries (b ∷ bs) =
    map (with_delivery b) (filter (is_failed_delivery endpoint_id b.id) deliveries)
    ++ join_failures endpoint_id deliveries bs

unfoldable pub list_broadcasts_for_endpoint_failures :
    Database → ℕ → ℕ → Option Cursor → ℕ → List BroadcastWithEndpointDeliveryRow × Option Cursor
unfolding join_failures
list_broadcasts_for_endpoint_failures db channel_id endpoint_id cursor limit =
    list_page (λ r. cursor_of r.broadcast) newer (λ r. r.broadcast.channel_id == channel_id)
      (join_failures endpoint_id db.deliveries db.broadcasts) cursor limit

unfoldable pub get_broadcast_by_id : Database → ℕ → ℕ → Option BroadcastRow
get_broadcast_by_id db channel_id id =
    find (λ b. b.channel_id == channel_id && b.id == id) db.broadcasts

-- `delete from broadcast where …`
unfoldable pub delete_broadcasts : (BroadcastRow → Bool) → Database → Database
delete_broadcasts doomed db =
    let gone = filter doomed db.broadcasts in
    let deliveries = filter (λ d. not (any (λ b. b.id == d.broadcast_id) gone)) db.deliveries in
    record db {
      broadcasts = filter (λ b. not (doomed b)) db.broadcasts;
      deliveries = deliveries;
      attempts = keep_attempts deliveries db.attempts;
    }

unfoldable pub delete_broadcast_by_id : Database → ℕ → Database × Bool
unfolding delete_broadcasts
delete_broadcast_by_id db id =
    (delete_broadcasts (λ b. b.id == id) db, any (λ b. b.id == id) db.broadcasts)

unfoldable pub delete_broadcasts_received_before : Database → ℕ → Database × ℕ
unfolding delete_broadcasts
delete_broadcasts_received_before db cutoff = (
  delete_broadcasts (λ b. ltb b.received_at cutoff) db,
  length (filter (λ b. ltb b.received_at cutoff) db.broadcasts),
)

unfoldable pub has_any_broadcast : Database → ℕ → Bool
has_any_broadcast db channel_id = any (λ b. b.channel_id == channel_id) db.broadcasts

pub record FanoutSummaryRow : Type 0 where
  pub total : ℕ
  pub succeeded : ℕ
  pub failed : ℕ
  pub dead_lettered : ℕ
  pub pending : ℕ

-- The entry of one Broadcast in the Map; one with no Delivery has the empty summary.
unfoldable pub get_fanout_summary : Database → ℕ → FanoutSummaryRow
get_fanout_summary db broadcast_id =
    let rows = filter (λ d. d.broadcast_id == broadcast_id) db.deliveries in
    record {
      total = length rows;
      succeeded = count (λ d. status_eq d.status DeliveryStatus.succeeded) rows;
      failed = count (λ d. status_eq d.status DeliveryStatus.failed) rows;
      dead_lettered = count (λ d. status_eq d.status DeliveryStatus.dead_lettered) rows;
      pending =
          count (λ d. status_eq d.status DeliveryStatus.pending || status_eq d.status in_progress)
            rows;
    }
