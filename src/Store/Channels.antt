-- ===== src/Store/Channels.antt =====
-- packages/db/src/repositories/channels.ts: Channels and the constraints of their table.
pub mod Sound
pub mod Slugs
use webhook_broadcast.Base.{
  ℕ, ◌-◌, Bool, true, false, not, ◌&&◌, ◌||◌, Option, none, some, List, [], ◌∷◌, ◌++◌, Text,
  text_eq, ◌==◌, ltb, leb, if◌then◌else◌, filter, any, find, update_where, length, is_none, is_some,
  or_default, count, map,
}
use webhook_broadcast.Store.Rows.{
  Database, ChannelRow, ChannelTokenRow, EndpointRow, DeliveryRow, is_failure,
}

abbrev pub min_open_ingest_slug_length : ℕ
min_open_ingest_slug_length = 24

-- How a write ends: `other_error` is an error that is thrown on as it came.
pub data ChannelWrite {ℓ} (A : Type ℓ) : Type ℓ where
  written : A → ChannelWrite A
  slug_conflict : Text → ChannelWrite A
  slug_too_short : Option Text → ChannelWrite A
  other_error : ChannelWrite A

abbrev pub is_live : ChannelRow → Bool
is_live c = is_none c.deleted_at

-- `channel_open_ingest_slug_length_chk`
unfoldable pub has_open_ingest_length : ChannelRow → Bool
has_open_ingest_length c =
    not c.allow_unauthenticated_ingest || leb min_open_ingest_slug_length (length c.slug)

abbrev is_2xx_or_null : Option ℕ → Bool
is_2xx_or_null none = true
is_2xx_or_null (some status) = leb 200 status && leb status 299

-- `channel_ingest_success_status_2xx_chk`
unfoldable pub has_2xx_status : ChannelRow → Bool
has_2xx_status c = is_2xx_or_null c.ingest_success_status

-- `channel_slug_active_key` covers the live rows.
abbrev pub live_with : Text → ChannelRow → Bool
live_with slug c = is_live c && text_eq c.slug slug

abbrev pub has_channel_id : ℕ → ChannelRow → Bool
has_channel_id id c = c.id == id

-- PostgreSQL tests the checks, in the order of their names, before the unique indexes.
unfoldable pub insert_channel : Database → ChannelRow → ChannelWrite (Database × ChannelRow)
insert_channel db row =
    if not (has_2xx_status row)
    then other_error
    else if not (has_open_ingest_length row)
    then slug_too_short (some row.slug)
    else if any (has_channel_id row.id) db.channels
        || is_live row && any (live_with row.slug) db.channels
    then slug_conflict row.slug
    else written (record db { channels = db.channels ++ row ∷ [] }, row)

-- `channel.id = id and deleted_at is null`
abbrev pub live_id : ℕ → ChannelRow → Bool
live_id id c = c.id == id && is_live c

unfoldable pub get_channel_by_id : Database → ℕ → Option ChannelRow
get_channel_by_id db id = find (live_id id) db.channels

abbrev pub is_active : Text → ChannelRow → Bool
is_active slug c = text_eq c.slug slug && (c.enabled && is_live c)

unfoldable pub get_active_channel_by_slug : Database → Text → Option ChannelRow
get_active_channel_by_slug db slug = find (is_active slug) db.channels

-- The fields of `patch` that are given.
pub record ChannelPatch : Type 0 where
  pub slug : Option Text
  pub description : Option (Option Text)
  pub enabled : Option Bool
  pub forward_headers : Option (List Text)
  pub allow_unauthenticated_ingest : Option Bool
  pub ingest_success_status : Option (Option ℕ)
  pub updated_at : ℕ

unfoldable pub patch_channel : ChannelPatch → ChannelRow → ChannelRow
patch_channel p c = record c {
  slug = or_default p.slug c.slug;
  description = or_default p.description c.description;
  enabled = or_default p.enabled c.enabled;
  forward_headers = or_default p.forward_headers c.forward_headers;
  allow_unauthenticated_ingest =
      or_default p.allow_unauthenticated_ingest c.allow_unauthenticated_ingest;
  ingest_success_status = or_default p.ingest_success_status c.ingest_success_status;
  updated_at = p.updated_at;
}

-- Another live row than `id` has the slug.
abbrev pub clashes : ℕ → Text → ChannelRow → Bool
clashes id slug c = live_with slug c && not (c.id == id)

-- A unique violation is named only where the patch names a slug.
conflict : {A : Type 0} → Option Text → ChannelWrite A
conflict none = other_error
conflict (some slug) = slug_conflict slug

patched : Database → ℕ → ChannelPatch → ChannelRow → ChannelWrite (Option (Database × ChannelRow))
patched db id patch c =
    let row = patch_channel patch c in
    if not (has_2xx_status row)
    then other_error
    else if not (has_open_ingest_length row)
    then slug_too_short patch.slug
    else if any (clashes id row.slug) db.channels
    then conflict patch.slug
    else written (
        some (
          record db { channels = update_where (live_id id) (patch_channel patch) db.channels },
          row,
        ))

-- `written none` is a row that is not there.
unfoldable pub update_channel :
    Database → ℕ → ChannelPatch → ChannelWrite (Option (Database × ChannelRow))
unfolding patched conflict
update_channel db id patch = elim (find (live_id id) db.channels) [
  | none ↦ written none
  | some c ↦ patched db id patch c
]

abbrev pub deleted : ℕ → ChannelRow → ChannelRow
deleted at c = record c { deleted_at = some at; updated_at = at }

unfoldable pub soft_delete_channel : Database → ℕ → ℕ → Database × Bool
soft_delete_channel db id at = (
  record db { channels = update_where (live_id id) (deleted at) db.channels },
  any (live_id id) db.channels,
)

-- The entry of one Channel in the Map; a Channel with no row reads as 0.
unfoldable pub get_endpoint_count : Database → ℕ → ℕ
get_endpoint_count db channel_id = count (λ e. e.channel_id == channel_id) db.endpoints

pub record ChannelTokenSummaryRow : Type 0 where
  pub id : ℕ
  pub prefix : Text
  pub created_at : ℕ

-- The entry of one Channel in the Map; a Channel with no row reads as the empty list.
unfoldable pub get_token_summaries : Database → ℕ → List ChannelTokenSummaryRow
get_token_summaries db channel_id =
    map (λ t. record { id = t.id; prefix = t.prefix; created_at = t.created_at })
      (filter (λ t. t.channel_id == channel_id) db.channel_tokens)
