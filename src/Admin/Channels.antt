-- ===== src/Admin/Channels.antt =====
-- apps/api/src/admin/channels.ts and channelFailures.ts.
pub mod Shown
use webhook_broadcast.Base.{
  ℕ, ◌+◌, Bool, true, false, Option, none, some, List, [], ◌∷◌, map, Text, if◌then◌else◌,
}
use webhook_broadcast.Store.Rows.{Database, ChannelRow, EndpointRow}
use webhook_broadcast.Store.Channels.{
  ChannelWrite, written, slug_conflict, slug_too_short, other_error, ChannelPatch, insert_channel,
  update_channel, soft_delete_channel, get_channel_by_id, get_endpoint_count, get_token_summaries,
  ChannelTokenSummaryRow,
}
use webhook_broadcast.Store.Broadcasts.{has_any_broadcast}
use webhook_broadcast.Store.Deliveries.{get_recent_failure_counts}
use webhook_broadcast.Store.Directory.{
  ChannelCursor, get_auto_disabled_endpoint_count, list_channels, list_endpoints,
  EndpointFailureRollupRow, get_failure_rollup_for_channel,
}
use webhook_broadcast.Admin.{
  Handler, Outcome, Reply, ◌>>=◌, after, done, refused, thrown, not_found, conflict,
  validation_failed, reply, refuse, read, write, require, require_uuid_param, require_valid,
  require_channel, parse_list_cursor,
}

-- The contract's `Channel`.
pub record Channel : Type 0 where
  pub row : ChannelRow
  pub endpoint_count : ℕ
  pub has_broadcasts : Bool
  pub recent_failed_delivery_count : ℕ
  pub auto_disabled_endpoint_count : ℕ
  pub tokens : List ChannelTokenSummaryRow

-- `hydrateChannels` for one row, with `toWireChannel`.
unfoldable pub hydrate_channel : Database → ℕ → ChannelRow → Channel
hydrate_channel db now c =
    let failures = get_recent_failure_counts db c.id now in
    record {
      row = c;
      endpoint_count = get_endpoint_count db c.id;
      has_broadcasts = has_any_broadcast db c.id;
      recent_failed_delivery_count = failures.0 + failures.1;
      auto_disabled_endpoint_count = get_auto_disabled_endpoint_count db c.id;
      tokens = get_token_summaries db c.id;
    }

pub record ChannelListQuery : Type 0 where
  pub cursor : Option Text
  pub limit : ℕ
  pub slug : Option Text

-- What `channelCreateSchema` leaves of a body.
pub record ChannelCreate : Type 0 where
  pub slug : Text
  pub description : Option Text
  pub enabled : Bool
  pub forward_headers : List Text
  pub allow_unauthenticated_ingest : Bool
  pub ingest_success_status : Option ℕ

unfoldable pub created_channel : ChannelCreate → ℕ → ℕ → ChannelRow
created_channel body id now = record {
  id = id;
  slug = body.slug;
  description = body.description;
  enabled = body.enabled;
  forward_headers = body.forward_headers;
  allow_unauthenticated_ingest = body.allow_unauthenticated_ingest;
  ingest_success_status = body.ingest_success_status;
  deleted_at = none;
  created_at = now;
  updated_at = now;
}

abbrev store_created :
    Database → ChannelWrite (Database × ChannelRow) → Database × Outcome ChannelRow
store_created db (written (db', row)) = (db', done row)
store_created db (slug_conflict slug) = (db, refused 409 conflict)
store_created db (slug_too_short slug) = (db, refused 400 validation_failed)
store_created db other_error = (db, thrown)

abbrev store_patched :
    Database → ChannelWrite (Option (Database × ChannelRow)) → Database × Outcome ChannelRow
store_patched db (written (some (db', row))) = (db', done row)
store_patched db (written none) = (db, refused 404 not_found)
store_patched db (slug_conflict slug) = (db, refused 409 conflict)
store_patched db (slug_too_short slug) = (db, refused 400 validation_failed)
store_patched db other_error = (db, thrown)

module _ (parse_id : Text → Option ℕ) (precedes : Text → Text → Bool) where
  unfoldable pub list_channels_route :
      (Text → Option ChannelCursor)
      → ℕ
      → Option ChannelListQuery
      → Handler Database (Reply (List Channel × Option ChannelCursor))
  list_channels_route decode now parsed = do
    query ← require_valid parsed
    cursor ← parse_list_cursor decode query.cursor
    page ← read (λ db. list_channels precedes db cursor query.limit query.slug now)
    items ← read (λ db. map (hydrate_channel db now) (page.0))
    reply 200 (items, page.1)

  -- `id` and `now` are `randomUUID()` and `new Date()`; `shown` is the time of the hydration.
  unfoldable pub create_channel :
      ℕ → ℕ → ℕ → Option ChannelCreate → Handler Database (Reply Channel)
  create_channel id now shown parsed = do
    body ← require_valid parsed
    row ← (λ db. store_created db (insert_channel db (created_channel body id now)))
    channel ← read (λ db. hydrate_channel db shown row)
    reply 201 channel

  unfoldable pub get_channel : ℕ → Text → Handler Database (Reply Channel)
  get_channel shown param = do
    id ← require_uuid_param parse_id param
    row ← require_channel (λ db. db) id
    channel ← read (λ db. hydrate_channel db shown row)
    reply 200 channel

  -- `parsed` is what `channelUpdateSchema` leaves of a body, with `updatedAt`.
  unfoldable pub patch_channel_route :
      ℕ → Text → Option ChannelPatch → Handler Database (Reply Channel)
  patch_channel_route shown param parsed = do
    id ← require_uuid_param parse_id param
    patch ← require_valid parsed
    row ← (λ db. store_patched db (update_channel db id patch))
    channel ← read (λ db. hydrate_channel db shown row)
    reply 200 channel

  unfoldable pub delete_channel_route : ℕ → Text → Handler Database (Reply Bool)
  delete_channel_route now param = do
    id ← require_uuid_param parse_id param
    deleted ← write (λ db. soft_delete_channel db id now)
    if deleted then reply 204 true else refuse 404 not_found

  unfoldable pub get_channel_failures :
      ℕ → Text → Handler Database (Reply (List EndpointFailureRollupRow))
  get_channel_failures now param = do
    id ← require_uuid_param parse_id param
    _ ← require_channel (λ db. db) id
    rows ← read (λ db. get_failure_rollup_for_channel precedes db id now)
    reply 200 rows

  -- `GET /channels/:channelId/endpoints` of endpoints.ts, without the health figures.
  unfoldable pub list_endpoints_route :
      (Text → Option (Text × ℕ))
      → Text
      → Option (Option Text × ℕ × Option Text)
      → Handler Database (Reply (List EndpointRow × Option (Text × ℕ)))
  list_endpoints_route decode param parsed = do
    id ← require_uuid_param parse_id param
    _ ← require_channel (λ db. db) id
    query ← require_valid parsed
    cursor ← parse_list_cursor decode (query.0)
    page ← read (λ db. list_endpoints precedes db id cursor (query.1) (query.2))
    reply 200 page
