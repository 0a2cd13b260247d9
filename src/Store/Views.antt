-- ===== src/Store/Views.antt =====
-- The reads of packages/db/src/repositories/deliveries.ts that the admin API shows.
use webhook_broadcast.Base.{
  ℕ, ◌≡◌, arith, Bool, ◌&&◌, ◌||◌, Option, none, some, List, [], ◌∷◌, Text, text_eq, ◌==◌, ltb,
  filter, find,
}
use webhook_broadcast.Store.Rows.{Database, DeliveryRow, AttemptRow, EndpointRow, DeliveryStatus}
use webhook_broadcast.Store.Deliveries.{find_delivery}
use webhook_broadcast.Paging.{order_by}

pub record DeliveryDetailRow : Type 0 where
  pub id : ℕ
  pub broadcast_id : ℕ
  pub channel_id : ℕ
  pub endpoint_id : ℕ
  pub endpoint_name : Option Text
  pub endpoint_url : Text
  pub status : DeliveryStatus
  pub attempt_count : ℕ
  pub last_status_code : Option ℕ
  pub last_duration_ms : Option ℕ
  pub last_error : Option Text
  pub updated_at : ℕ

unfoldable pub detail : DeliveryRow → EndpointRow → DeliveryDetailRow
detail d e = record {
  id = d.id;
  broadcast_id = d.broadcast_id;
  channel_id = d.channel_id;
  endpoint_id = d.endpoint_id;
  endpoint_name = e.name;
  endpoint_url = e.url;
  status = d.status;
  attempt_count = d.attempt_count;
  last_status_code = d.last_status_code;
  last_duration_ms = d.last_duration_ms;
  last_error = d.last_error;
  updated_at = d.updated_at;
}

with_endpoint : DeliveryRow → Option EndpointRow → Option DeliveryDetailRow
unfolding detail
with_endpoint d none = none
with_endpoint d (some e) = some (detail d e)

-- The inner join is on the primary key of `endpoint`.
unfoldable pub get_delivery_detail_by_id : Database → ℕ → Option DeliveryDetailRow
unfolding with_endpoint
get_delivery_detail_by_id db id = elim (find_delivery db id) [
  | none ↦ none
  | some d ↦ with_endpoint d (find (λ e. e.id == d.endpoint_id) db.endpoints)
]

-- Oldest first; `attempt_delivery_id_n_key` leaves no ties.
unfoldable pub list_attempts_for_delivery : Database → ℕ → List AttemptRow
list_attempts_for_delivery db delivery_id =
    order_by (λ a. a.n) ltb (filter (λ a. a.delivery_id == delivery_id) db.attempts)

abbrev pub find_endpoint : Database → ℕ → Option EndpointRow
find_endpoint db id = find (λ e. e.id == id) db.endpoints

-- A Delivery with its Endpoint.
pub record HasDelivery (db : Database) (id : ℕ) (d : DeliveryRow) (e : EndpointRow) : Type 0 where
  pub delivery_found : find_delivery db id ≡ some d
  pub endpoint_found : find_endpoint db d.endpoint_id ≡ some e

pub detail_found :
    (db : Database) (id : ℕ) (d : DeliveryRow) (e : EndpointRow)
    → HasDelivery db id d e
    → get_delivery_detail_by_id db id ≡ some (detail d e)
unfolding get_delivery_detail_by_id with_endpoint
detail_found db id d e h = ground (arith, h.delivery_found, h.endpoint_found)

pub record DeliveryWithEndpointRow : Type 0 where
  pub id : ℕ
  pub endpoint_id : ℕ
  pub endpoint_name : Option Text
  pub endpoint_url : Text
  pub status : DeliveryStatus
  pub attempt_count : ℕ
  pub last_status_code : Option ℕ
  pub last_duration_ms : Option ℕ
  pub last_error : Option Text
  pub updated_at : ℕ

with_endpoint_row : DeliveryRow → EndpointRow → DeliveryWithEndpointRow
with_endpoint_row d e = record {
  id = d.id;
  endpoint_id = d.endpoint_id;
  endpoint_name = e.name;
  endpoint_url = e.url;
  status = d.status;
  attempt_count = d.attempt_count;
  last_status_code = d.last_status_code;
  last_duration_ms = d.last_duration_ms;
  last_error = d.last_error;
  updated_at = d.updated_at;
}

with_endpoints : Database → List DeliveryRow → List DeliveryWithEndpointRow
unfolding with_endpoint_row
with_endpoints db [] = []
with_endpoints db (d ∷ ds) = elim (find_endpoint db d.endpoint_id) [
  | none ↦ with_endpoints db ds
  | some e ↦ with_endpoint_row d e ∷ with_endpoints db ds
]

-- By URL, then by id: `precedes` is the database's collation.
abbrev by_url : (Text → Text → Bool) → Text × ℕ → Text × ℕ → Bool
by_url precedes (url, id) (url', id') = precedes url url' || text_eq url url' && ltb id id'

unfoldable pub list_deliveries_for_broadcast :
    (Text → Text → Bool) → Database → ℕ → List DeliveryWithEndpointRow
unfolding with_endpoints
list_deliveries_for_broadcast precedes db broadcast_id =
    order_by (λ r. (r.endpoint_url, r.id)) (by_url precedes)
      (with_endpoints db (filter (λ d. d.broadcast_id == broadcast_id) db.deliveries))
