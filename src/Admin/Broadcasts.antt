-- ===== src/Admin/Broadcasts.antt =====
-- apps/api/src/admin/broadcasts.ts and forwardedHeaderFingerprints.ts: the Activity of a Channel, the
-- detail of a Broadcast, and its replay. UTF-8 decoding, SHA-256 and `localeCompare` are parameters.
pub mod Replay
use webhook_broadcast.Base.{
  ℕ, Bool, true, false, Option, none, some, List, [], ◌∷◌, ◌++◌, map, Text, take, length, find, ltb,
  if◌then◌else◌,
}
use webhook_broadcast.Store.Rows.{
  Database, BroadcastRow, DeliveryRow, ChannelRow, DeliveryStatus, HeaderValue,
}
use webhook_broadcast.Store.Broadcasts.{
  Cursor, FanoutSummaryRow, get_fanout_summary, list_broadcasts_by_channel,
  list_broadcasts_for_endpoint_failures, get_broadcast_by_id, BroadcastWithEndpointDeliveryRow,
}
use webhook_broadcast.Store.Views.{DeliveryWithEndpointRow, list_deliveries_for_broadcast}
use webhook_broadcast.Headers.{normalize_forward_allowlist, select_forwardable_headers}
use webhook_broadcast.Paging.{order_by}
use webhook_broadcast.FanOut.{
  DeliveryQueue, FanOutResult, accepted, not_queued, not_stored, fan_out_broadcast,
}
use webhook_broadcast.Admin.{
  Handler, Outcome, Reply, ◌>>=◌, after, done, refused, thrown, not_found, validation_failed, reply,
  read, require, require_uuid_param, require_valid, require_channel, parse_list_cursor,
}

abbrev pub body_preview_max_length : ℕ
body_preview_max_length = 200

-- The ellipsis is U+2026.
unfoldable pub to_body_preview : (List ℕ → Text) → List ℕ → Text
to_body_preview utf8 body =
    let text = utf8 body in
    if ltb body_preview_max_length (length text)
    then take body_preview_max_length text ++ 8230 ∷ []
    else text

-- The `delivery` block.
pub record ItemDelivery : Type 0 where
  pub delivery_id : ℕ
  pub status : DeliveryStatus
  pub last_status_code : Option ℕ
  pub last_duration_ms : Option ℕ
  pub last_error : Option Text
  pub attempt_count : ℕ

pub record BroadcastListItem : Type 0 where
  pub id : ℕ
  pub channel_id : ℕ
  pub received_at : ℕ
  pub body_preview : Text
  pub fanout : FanoutSummaryRow
  pub delivery : Option ItemDelivery

item_delivery : Option BroadcastWithEndpointDeliveryRow → Option ItemDelivery
item_delivery none = none
item_delivery (some d) = some record {
  delivery_id = d.delivery_id;
  status = d.delivery_status;
  last_status_code = d.last_status_code;
  last_duration_ms = d.last_duration_ms;
  last_error = d.last_error;
  attempt_count = d.attempt_count;
}

unfoldable pub to_broadcast_list_item :
    (List ℕ → Text)
    → Database
    → Option BroadcastWithEndpointDeliveryRow
    → BroadcastRow
    → BroadcastListItem
unfolding item_delivery
to_broadcast_list_item utf8 db d b = record {
  id = b.id;
  channel_id = b.channel_id;
  received_at = b.received_at;
  body_preview = to_body_preview utf8 b.body;
  fanout = get_fanout_summary db b.id;
  delivery = item_delivery d;
}

pub record BroadcastListQuery : Type 0 where
  pub cursor : Option Text
  pub limit : ℕ
  -- given together with `status=failed`
  pub endpoint_id : Option ℕ

pub record BroadcastList : Type 0 where
  pub items : List BroadcastListItem
  pub next_cursor : Option Cursor

list_of : (List ℕ → Text) → ℕ → Option Cursor → ℕ → Option ℕ → Database → BroadcastList
list_of utf8 channel_id cursor limit none db =
    let page = list_broadcasts_by_channel db channel_id cursor limit in
    record { items = map (to_broadcast_list_item utf8 db none) page.0; next_cursor = page.1 }
list_of utf8 channel_id cursor limit (some endpoint_id) db =
    let page = list_broadcasts_for_endpoint_failures db channel_id endpoint_id cursor limit in
    record {
      items = map (λ r. to_broadcast_list_item utf8 db (some r) r.broadcast) page.0;
      next_cursor = page.1;
    }

unfoldable pub list_broadcasts :
    {S : Type 0}
    → (S → Database)
    → (List ℕ → Text)
    → (Text → Option ℕ)
    → (Text → Option Cursor)
    → Text
    → Option BroadcastListQuery
    → Handler S (Reply BroadcastList)
unfolding list_of
list_broadcasts db_of utf8 parse_id decode channel_param parsed = do
  channel_id ← require_uuid_param parse_id channel_param
  query ← require_valid parsed
  _ ← require_channel db_of channel_id
  cursor ← parse_list_cursor decode query.cursor
  page ← read (λ s. list_of utf8 channel_id cursor query.limit query.endpoint_id (db_of s))
  reply 200 page

pub record ForwardedHeaderFingerprint : Type 0 where
  pub name : Text
  pub fingerprint : Text

-- `FORWARDED_HEADER_FINGERPRINT_LENGTH`
abbrev pub fingerprint_length : ℕ
fingerprint_length = 12

unfoldable pub fingerprint_forwarded_headers :
    (Text → Text)
    → (Text → Text → Bool)
    → List (Text × HeaderValue)
    → List Text
    → Option (List ForwardedHeaderFingerprint)
fingerprint_forwarded_headers sha256 precedes headers forward_headers =
    elim (normalize_forward_allowlist forward_headers) [
      | [] ↦ none
      | _ ∷ _ ↦ some (
          order_by (λ f. f.name) precedes
            (map
              (λ entry. record {
                name = entry.0;
                fingerprint = take fingerprint_length (sha256 (entry.1));
              })
              (select_forwardable_headers headers forward_headers)))
    ]

pub record BroadcastDetail : Type 0 where
  pub id : ℕ
  pub channel_id : ℕ
  pub received_at : ℕ
  pub content_type : Text
  pub body : Text
  pub deliveries : List DeliveryWithEndpointRow
  pub forwarded_headers : Option (List ForwardedHeaderFingerprint)

module _ (utf8 : List ℕ → Text) (sha256 : Text → Text)
    (precedes collation : Text → Text → Bool) where
  unfoldable pub broadcast_detail : Database → ChannelRow → BroadcastRow → BroadcastDetail
  broadcast_detail db c b = record {
    id = b.id;
    channel_id = b.channel_id;
    received_at = b.received_at;
    content_type = b.content_type;
    body = utf8 b.body;
    deliveries = list_deliveries_for_broadcast collation db b.id;
    forwarded_headers = fingerprint_forwarded_headers sha256 precedes b.headers c.forward_headers;
  }

  unfoldable pub get_broadcast :
      {S : Type 0}
      → (S → Database)
      → (Text → Option ℕ)
      → Text
      → Text
      → Handler S (Reply BroadcastDetail)
  get_broadcast db_of parse_id channel_param broadcast_param = do
    channel_id ← require_uuid_param parse_id channel_param
    broadcast_id ← require_uuid_param parse_id broadcast_param
    channel ← require_channel db_of channel_id
    b ← (λ s. require 404 not_found (get_broadcast_by_id (db_of s) channel_id broadcast_id) s)
    body ← read (λ s. broadcast_detail (db_of s) channel b)
    reply 200 body

-- The Broadcast that a replay accepts: `id` and `now` are `randomUUID()` and `new Date()`.
unfoldable pub replay_of : BroadcastRow → ℕ → ℕ → BroadcastRow
replay_of original id now = record {
  id = id;
  channel_id = original.channel_id;
  received_at = now;
  content_type = original.content_type;
  body = original.body;
  headers = original.headers;
}

module _ {Q : Type 0} (queue : DeliveryQueue Q) (uuid : ℕ → ℕ) (parse_id : Text → Option ℕ) where
  fanned_out : Database × Q × FanOutResult → (Database × Q) × Outcome ℕ
  fanned_out (db, q, accepted b _ _) = ((db, q), done b.id)
  fanned_out (db, q, not_queued) = ((db, q), thrown)
  fanned_out (db, q, not_stored) = ((db, q), thrown)

  unfoldable pub replay_broadcast : ℕ → ℕ → ℕ → Text → Text → Handler (Database × Q) (Reply ℕ)
  unfolding fanned_out require_channel require_uuid_param
  replay_broadcast id now request_id channel_param broadcast_param = do
    channel_id ← require_uuid_param parse_id channel_param
    broadcast_id ← require_uuid_param parse_id broadcast_param
    _ ← require_channel (λ s. s.0) channel_id
    original ← (λ s. require 404 not_found (get_broadcast_by_id (s.0) channel_id broadcast_id) s)
    replay ← (λ s.
        fanned_out
          (fan_out_broadcast queue uuid (s.0) (s.1) (replay_of original id now) request_id))
    reply 202 replay
