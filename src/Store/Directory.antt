-- ===== src/Store/Directory.antt =====
-- The paged lists of packages/db/src/repositories/channels.ts and endpoints.ts, and the roll-up of
-- failures. `precedes` is the database's collation of texts.
pub mod Complete
pub mod Rollup
use webhook_broadcast.Base.{
  ℕ, suc, ◌+◌, ◌-◌, max, Bool, true, false, not, ◌&&◌, ◌||◌, Option, none, some, List, [], ◌∷◌,
  ◌++◌, map, Text, text_eq, ◌==◌, ltb, leb, filter, any, count, if◌then◌else◌, is_some, is_none,
  or_default,
}
use webhook_broadcast.Store.Rows.{
  Database, ChannelRow, EndpointRow, DeliveryRow, failed, dead_lettered, status_eq, is_failure,
}
use webhook_broadcast.Store.Deliveries.{is_recent_failure, window_start}
use webhook_broadcast.Store.Channels.{is_live}
use webhook_broadcast.Paging.{list_page, order_by}
use webhook_broadcast.Paging.Lex.{ascending, descending, by_text}

-- The entry of one Channel in the Map; a Channel with no row reads as 0.
unfoldable pub get_auto_disabled_endpoint_count : Database → ℕ → ℕ
get_auto_disabled_endpoint_count db channel_id =
    count (λ e. e.channel_id == channel_id && is_some e.auto_disabled_at) db.endpoints

-- `recentFailureCountSubquery`
unfoldable pub recent_failure_count : Database → ℕ → ℕ → ℕ
recent_failure_count db since channel_id = count (is_recent_failure channel_id since) db.deliveries

-- `channelHealthRankSql`
unfoldable pub channel_health_rank : Database → ℕ → ChannelRow → ℕ
channel_health_rank db since c =
    if not c.enabled
    then 2
    else if any (λ e. e.channel_id == c.id && is_some e.auto_disabled_at) db.endpoints
        || any (is_recent_failure c.id since) db.deliveries
    then 0
    else 1

-- Rank, recent failures, auto-disabled Endpoints, slug and id.
abbrev pub ChannelCursor : Type 0
ChannelCursor = ℕ × (ℕ × (ℕ × (Text × ℕ)))

unfoldable pub channel_key : Database → ℕ → ChannelRow → ChannelCursor
channel_key db since c = (
  channel_health_rank db since c,
  (recent_failure_count db since c.id, (get_auto_disabled_endpoint_count db c.id, (c.slug, c.id))),
)

-- `asc`, `desc`, `desc`, `asc`, `asc`.
abbrev pub worse : (Text → Text → Bool) → ChannelCursor → ChannelCursor → Bool
worse precedes = ascending (descending (descending (by_text ltb precedes)))

abbrev pub has_slug : Option Text → ChannelRow → Bool
has_slug none c = true
has_slug (some slug) c = text_eq c.slug slug

unfoldable pub list_channels :
    (Text → Text → Bool)
    → Database
    → Option ChannelCursor
    → ℕ
    → Option Text
    → ℕ
    → List ChannelRow × Option ChannelCursor
list_channels precedes db cursor limit slug now =
    list_page (channel_key db (window_start now)) (worse precedes)
      (λ c. is_live c && has_slug slug c) db.channels cursor limit

abbrev pub has_url : Option Text → EndpointRow → Bool
has_url none e = true
has_url (some url) e = text_eq e.url url

abbrev pub endpoint_key : EndpointRow → Text × ℕ
endpoint_key e = (e.url, e.id)

unfoldable pub list_endpoints :
    (Text → Text → Bool)
    → Database
    → ℕ
    → Option (Text × ℕ)
    → ℕ
    → Option Text
    → List EndpointRow × Option (Text × ℕ)
list_endpoints precedes db channel_id cursor limit url =
    list_page endpoint_key (by_text ltb precedes) (λ e. e.channel_id == channel_id && has_url url e)
      db.endpoints cursor limit

pub record EndpointFailureRollupRow : Type 0 where
  pub endpoint_id : ℕ
  pub endpoint_name : Option Text
  pub endpoint_url : Text
  pub failed : ℕ
  pub dead_lettered : ℕ
  pub auto_disabled_at : Option ℕ
  pub last_failure_at : ℕ

-- The joined rows of one group.
abbrev pub recent_failure_of : ℕ → ℕ → DeliveryRow → Bool
recent_failure_of since endpoint_id d =
    d.endpoint_id == endpoint_id && (is_failure d.status && leb since d.updated_at)

-- `max(updated_at)` over a group that is not empty.
latest : List DeliveryRow → ℕ
latest [] = 0
latest (d ∷ ds) = max d.updated_at (latest ds)

rollup_row : Database → ℕ → EndpointRow → EndpointFailureRollupRow
unfolding latest
rollup_row db since e =
    let rows = filter (recent_failure_of since e.id) db.deliveries in
    record {
      endpoint_id = e.id;
      endpoint_name = e.name;
      endpoint_url = e.url;
      failed = count (λ d. status_eq d.status failed) rows;
      dead_lettered = count (λ d. status_eq d.status dead_lettered) rows;
      auto_disabled_at = e.auto_disabled_at;
      last_failure_at = latest rows;
    }

-- The order: auto-disabled first, then the most severe, then the latest, then by name.
abbrev RollupKey : Type 0
RollupKey = ℕ × (ℕ × (ℕ × (ℕ × (Text × ℕ))))

abbrev rollup_key : EndpointFailureRollupRow → RollupKey
rollup_key r = (
  (if is_some r.auto_disabled_at then 0 else 1),
  (
    r.dead_lettered,
    (r.failed, (r.last_failure_at, (or_default r.endpoint_name r.endpoint_url, r.endpoint_id))),
  ),
)

abbrev ranked : (Text → Text → Bool) → RollupKey → RollupKey → Bool
ranked precedes = ascending (descending (descending (descending (by_text ltb precedes))))

-- One row for each Endpoint of the Channel with a recent failure.
unfoldable pub get_failure_rollup_for_channel :
    (Text → Text → Bool) → Database → ℕ → ℕ → List EndpointFailureRollupRow
unfolding rollup_row
get_failure_rollup_for_channel precedes db channel_id now = order_by rollup_key (ranked precedes) (
    map (rollup_row db (window_start now)) (
      filter
        (λ e.
          e.channel_id == channel_id
          && any (recent_failure_of (window_start now) e.id) db.deliveries)
        db.endpoints))
