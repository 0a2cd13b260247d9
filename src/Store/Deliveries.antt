-- ===== src/Store/Deliveries.antt =====
-- packages/db/src/repositories/deliveries.ts
pub mod Lookup
pub mod Moves
pub mod Creation
use webhook_broadcast.Base.{
  ℕ, suc, ◌+◌, ◌-◌, ◌*◌, Bool, true, false, ◌&&◌, ◌||◌, not, Option, none, some, List, [], ◌∷◌,
  ◌++◌, map, Text, ◌==◌, leb, if◌then◌else◌, filter, any, find, update_where, count, length,
}
use webhook_broadcast.Store.Rows.{
  Database, DeliveryRow, AttemptRow, EndpointRow, BroadcastRow, ChannelRow, DeliveryStatus,
  HeaderValue, pending, in_progress, succeeded, failed, dead_lettered, status_eq, is_failure,
}

abbrev pub channel_recent_failure_window_ms : ℕ
channel_recent_failure_window_ms = 24 * 60 * 60 * 1000

-- `new Date(now.getTime() - CHANNEL_RECENT_FAILURE_WINDOW_MS)`; a time before the epoch is the
-- epoch, which no row precedes.
abbrev pub window_start : ℕ → ℕ
window_start now = now - channel_recent_failure_window_ms

abbrev pub has_id : ℕ → DeliveryRow → Bool
has_id id d = d.id == id

-- `randomUUID()` answers `uuid k` at its k-th call.
new_deliveries : (ℕ → ℕ) → ℕ → ℕ → ℕ → ℕ → List ℕ → List DeliveryRow
new_deliveries uuid k broadcast_id channel_id now [] = []
new_deliveries uuid k broadcast_id channel_id now (endpoint_id ∷ ids) =
    record {
      id = uuid k;
      broadcast_id = broadcast_id;
      endpoint_id = endpoint_id;
      channel_id = channel_id;
      status = pending;
      attempt_count = 0;
      last_status_code = none;
      last_duration_ms = none;
      last_error = none;
      updated_at = now;
    }
    ∷ new_deliveries uuid (suc k) broadcast_id channel_id now ids

unfoldable pub insert_deliveries :
    (ℕ → ℕ) → Database → ℕ → ℕ → List ℕ → ℕ → Database × List DeliveryRow
unfolding new_deliveries
insert_deliveries uuid db broadcast_id channel_id endpoint_ids now =
    let rows = new_deliveries uuid 0 broadcast_id channel_id now endpoint_ids in
    (record db { deliveries = db.deliveries ++ rows }, rows)

-- The primary key, and `delivery_broadcast_endpoint_key`.
abbrev same_key : DeliveryRow → DeliveryRow → Bool
same_key d e = d.id == e.id || d.broadcast_id == e.broadcast_id && d.endpoint_id == e.endpoint_id

keys_taken : List DeliveryRow → List DeliveryRow → Bool
keys_taken table [] = false
keys_taken table (d ∷ ds) = any (same_key d) table || keys_taken (d ∷ table) ds

-- `none` where one of the keys is taken: the insert throws.
unfoldable pub create_deliveries_for_broadcast :
    (ℕ → ℕ) → Database → ℕ → ℕ → List ℕ → ℕ → Option (Database × List DeliveryRow)
unfolding insert_deliveries keys_taken
create_deliveries_for_broadcast uuid db broadcast_id channel_id endpoint_ids now =
    let inserted = insert_deliveries uuid db broadcast_id channel_id endpoint_ids now in
    if keys_taken db.deliveries inserted.1 then none else some inserted

pub record DeliveryForProcessing : Type 0 where
  pub id : ℕ
  pub endpoint_id : ℕ
  pub status : DeliveryStatus
  pub attempt_count : ℕ
  pub url : Text
  pub endpoint_headers : List (Text × Text)
  pub timeout_ms : Option ℕ
  pub content_type : Text
  pub body : List ℕ
  pub broadcast_headers : List (Text × HeaderValue)
  pub forward_headers : List Text

abbrev find_endpoint : Database → ℕ → Option EndpointRow
find_endpoint db id = find (λ e. e.id == id) db.endpoints

abbrev find_broadcast : Database → ℕ → Option BroadcastRow
find_broadcast db id = find (λ b. b.id == id) db.broadcasts

abbrev find_channel : Database → ℕ → Option ChannelRow
find_channel db id = find (λ c. c.id == id) db.channels

unfoldable pub find_delivery : Database → ℕ → Option DeliveryRow
find_delivery db id = find (has_id id) db.deliveries

infixl 5 ◌>>=◌
abbrev ◌>>=◌ {ℓ κ} : {A : Type ℓ} {B : Type κ} → Option A → (A → Option B) → Option B
none >>= k = none
some a >>= k = k a

-- The three inner joins are on primary keys: each finds one row or none.
joined : DeliveryRow → EndpointRow → BroadcastRow → ChannelRow → DeliveryForProcessing
joined d e b c = record {
  id = d.id;
  endpoint_id = d.endpoint_id;
  status = d.status;
  attempt_count = d.attempt_count;
  url = e.url;
  endpoint_headers = e.headers;
  timeout_ms = e.timeout_ms;
  content_type = b.content_type;
  body = b.body;
  broadcast_headers = b.headers;
  forward_headers = c.forward_headers;
}

unfoldable pub get_delivery_for_processing : Database → ℕ → Option DeliveryForProcessing
unfolding joined
get_delivery_for_processing db id = do
  d ← find_delivery db id
  e ← find_endpoint db d.endpoint_id
  b ← find_broadcast db d.broadcast_id
  c ← find_channel db d.channel_id
  some (joined d e b c)

-- The row `id` in the given status, moved to another one.
pub move_status : DeliveryStatus → DeliveryStatus → ℕ → ℕ → Database → Database
move_status from to id at db = record db {
  deliveries =
      update_where (λ d. d.id == id && status_eq d.status from)
        (λ d. record d { status = to; updated_at = at }) db.deliveries;
}

-- Whether that statement returned a row.
pub moves_status : DeliveryStatus → ℕ → Database → Bool
moves_status from id db = any (λ d. d.id == id && status_eq d.status from) db.deliveries

is_claimed : Option DeliveryRow → Bool
is_claimed none = false
is_claimed (some d) = status_eq d.status in_progress

unfoldable pub mark_delivery_in_progress : Database → ℕ → ℕ → Database × Bool
unfolding move_status moves_status is_claimed find_delivery
mark_delivery_in_progress db id at =
    if moves_status pending id db
    then (move_status pending in_progress id at db, true)
    else (db, is_claimed (find_delivery db id))

unfoldable pub reset_in_progress_delivery_to_pending : Database → ℕ → ℕ → Database × Bool
unfolding move_status moves_status
reset_in_progress_delivery_to_pending db id at =
    (move_status in_progress pending id at db, moves_status in_progress id db)

unfoldable pub retry_dead_lettered_delivery : Database → ℕ → ℕ → Database × Bool
unfolding move_status moves_status
retry_dead_lettered_delivery db id at =
    (move_status dead_lettered pending id at db, moves_status dead_lettered id db)

pub record Completion : Type 0 where
  pub delivery_id : ℕ
  pub n : ℕ
  pub status_code : Option ℕ
  pub duration_ms : ℕ
  pub error : Option Text
  pub status : DeliveryStatus
  pub at : ℕ

abbrev pub is_attempt : ℕ → ℕ → AttemptRow → Bool
is_attempt delivery_id n a = a.delivery_id == delivery_id && a.n == n

unfoldable pub completed : Completion → DeliveryRow → DeliveryRow
completed c d = record d {
  status = c.status;
  attempt_count = c.n;
  last_status_code = c.status_code;
  last_duration_ms = some c.duration_ms;
  last_error = c.error;
  updated_at = c.at;
}

unfoldable pub attempt_of : Completion → ℕ → AttemptRow
attempt_of c id = record {
  id = id;
  delivery_id = c.delivery_id;
  n = c.n;
  status_code = c.status_code;
  duration_ms = some c.duration_ms;
  error = c.error;
  at = c.at;
}

-- One transaction. It is refused, and the database stays as it was, where the Delivery is gone (the
-- foreign key of `attempt`) or has an Attempt with that number (`attempt_delivery_id_n_key`).
unfoldable pub complete_delivery : Database → ℕ → Completion → Option Database
unfolding completed attempt_of find_delivery
complete_delivery db attempt_id c = elim (find_delivery db c.delivery_id) [
  | none ↦ none
  | some _ ↦
      if any (is_attempt c.delivery_id c.n) db.attempts
      then none
      else some (record db {
        attempts = db.attempts ++ attempt_of c attempt_id ∷ [];
        deliveries = update_where (has_id c.delivery_id) (completed c) db.deliveries;
      })
]

abbrev pub is_recent_failure : ℕ → ℕ → DeliveryRow → Bool
is_recent_failure channel_id since d =
    d.channel_id == channel_id && is_failure d.status && leb since d.updated_at

-- The entry of one Channel in the Map; a Channel with no row reads as two zeros.
unfoldable pub get_recent_failure_counts : Database → ℕ → ℕ → ℕ × ℕ
get_recent_failure_counts db channel_id now =
    let rows = filter (is_recent_failure channel_id (window_start now)) db.deliveries in
    (
      count (λ d. status_eq d.status failed) rows,
      count (λ d. status_eq d.status dead_lettered) rows,
    )
