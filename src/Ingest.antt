-- ===== src/Ingest.antt =====
-- apps/api/src/ingest/routes.ts and readLimitedBody.ts: `POST /ingest/:slug`. The hash of a token is a
-- parameter; log lines and the
-- counter of accepted requests are left out.
pub mod Body
pub mod Laws
pub mod Rejected
pub mod Admits
use webhook_broadcast.Base.{
  ℕ, ◌+◌, Bool, true, false, Option, none, some, List, [], ◌∷◌, ◌++◌, Text, codes, text_eq,
  to_lower, split, ltb, if◌then◌else◌, length, or_default,
}
use webhook_broadcast.Store.Rows.{Database, BroadcastRow, ChannelRow, ChannelTokenRow, HeaderValue}
use webhook_broadcast.Store.Channels.{get_active_channel_by_slug}
use webhook_broadcast.Store.Tokens.{find_channel_token_by_hash}
use webhook_broadcast.Headers.{filter_headers}
use webhook_broadcast.FanOut.{
  DeliveryQueue, FanOutResult, accepted, not_queued, not_stored, fan_out_broadcast,
}

abbrev token_of : List Text → Option Text
token_of [] = none
token_of (scheme ∷ []) = none
token_of (scheme ∷ [] ∷ rest) = none
token_of (scheme ∷ (t ∷ token) ∷ rest) =
    if text_eq (to_lower scheme) (codes "bearer") then some (t ∷ token) else none

-- `extractBearerToken` of admin/auth.ts.
unfoldable pub extract_bearer_token : Option Text → Option Text
extract_bearer_token none = none
extract_bearer_token (some []) = none
extract_bearer_token (some (c ∷ header)) = token_of (split b' ' (c ∷ header))

-- What the socket emits, in order.
pub data ReadEvent : Type 0 where
  data_event : List ℕ → ReadEvent
  end_event error_event : ReadEvent

pub data ReadResult : Type 0 where
  read_body : List ℕ → ReadResult
  over_limit read_failed : ReadResult

-- `Buffer.concat`
unfoldable pub concat : List (List ℕ) → List ℕ
concat [] = []
concat (c ∷ cs) = c ++ concat cs

-- The listeners, until one settles the promise and removes them all; `none` where none does.
unfoldable pub read_from : ℕ → ℕ → List (List ℕ) → List ReadEvent → Option ReadResult
read_from limit total chunks [] = none
read_from limit total chunks (data_event chunk ∷ events) =
    let rest = read_from limit (total + length chunk) (chunks ++ chunk ∷ []) events in
    if ltb limit (total + length chunk) then some over_limit else rest
read_from limit total chunks (end_event ∷ events) = some (read_body (concat chunks))
read_from limit total chunks (error_event ∷ events) = some read_failed

unfoldable pub read_limited_body : ℕ → List ReadEvent → Option ReadResult
unfolding read_from
read_limited_body limit events = read_from limit 0 [] events

-- `IngestRouteConfig`, without the connections.
pub record IngestConfig : Type 0 where
  pub max_body_bytes : ℕ
  pub header_allowlist : List Text
  pub header_denylist : List Text
  pub success_status : ℕ

pub record IngestRequest : Type 0 where
  pub slug : Text
  pub authorization : Option Text
  pub declared_length : Option ℕ
  pub events : List ReadEvent
  pub content_type : Text
  pub headers : List (Text × Option HeaderValue)

pub data IngestResponse : Type 0 where
  -- 401, "invalid ingest token" and "missing ingest token"
  invalid_token missing_token : IngestResponse
  -- 413
  payload_too_large : IngestResponse
  -- the status, and the id of the Broadcast
  ingested : ℕ → ℕ → IngestResponse
  -- an error that is thrown on: the socket's, or the queue's
  thrown : IngestResponse
  -- the socket goes quiet
  waiting : IngestResponse

pub data Gate : Type 0 where
  refused : IngestResponse → Gate
  admitted : ChannelRow → Gate

gate_found : ChannelRow → Option ChannelTokenRow → Gate
gate_found c none = refused invalid_token
gate_found c (some t) = admitted c

gate_token : (Text → Text) → Database → ChannelRow → Option Text → Gate
unfolding gate_found
gate_token hash db c none = refused missing_token
gate_token hash db c (some token) = gate_found c (find_channel_token_by_hash db c.id (hash token))

gate_channel : (Text → Text) → Database → Option Text → Option ChannelRow → Gate
unfolding gate_token
gate_channel hash db authorization none = refused invalid_token
gate_channel hash db authorization (some c) =
    if c.allow_unauthenticated_ingest
    then admitted c
    else gate_token hash db c (extract_bearer_token authorization)

-- From the slug to the token.
unfoldable pub gate : (Text → Text) → Database → Text → Option Text → Gate
unfolding gate_channel
gate hash db slug authorization =
    gate_channel hash db authorization (get_active_channel_by_slug db slug)

abbrev over : ℕ → Option ℕ → Bool
over limit none = false
over limit (some declared) = ltb limit declared

-- The declared length, and then the body.
unfoldable pub receive : IngestConfig → IngestRequest → Option ReadResult
receive config r =
    if over config.max_body_bytes r.declared_length
    then some over_limit
    else read_limited_body config.max_body_bytes r.events

abbrev pub content_type_of : Text → Text
content_type_of [] = codes "application/octet-stream"
content_type_of (c ∷ t) = c ∷ t

-- The Broadcast of a request: `id` and `now` are `randomUUID()` and `new Date()`.
unfoldable pub ingest_broadcast :
    IngestConfig → IngestRequest → ChannelRow → ℕ → ℕ → List ℕ → BroadcastRow
ingest_broadcast config r c id now body = record {
  id = id;
  channel_id = c.id;
  received_at = now;
  content_type = content_type_of r.content_type;
  body = body;
  headers = filter_headers r.headers config.header_allowlist config.header_denylist;
}

module _ {Q : Type 0} (queue : DeliveryQueue Q) (hash : Text → Text) (config : IngestConfig)
    (uuid : ℕ → ℕ) (id now request_id : ℕ) (db : Database) (q : Q) (r : IngestRequest) where
  answer_fan_out : ChannelRow → Database × Q × FanOutResult → Database × Q × IngestResponse
  answer_fan_out c (db', q', accepted b _ _) =
      (db', q', ingested (or_default c.ingest_success_status config.success_status) b.id)
  answer_fan_out c (db', q', not_queued) = (db', q', thrown)
  answer_fan_out c (db', q', not_stored) = (db', q', thrown)

  answer_body : ChannelRow → Option ReadResult → Database × Q × IngestResponse
  unfolding answer_fan_out
  answer_body c none = (db, q, waiting)
  answer_body c (some over_limit) = (db, q, payload_too_large)
  answer_body c (some read_failed) = (db, q, thrown)
  answer_body c (some (read_body body)) =
      answer_fan_out c
        (fan_out_broadcast queue uuid db q (ingest_broadcast config r c id now body) request_id)

  answer_gate : Gate → Database × Q × IngestResponse
  unfolding answer_body
  answer_gate (refused response) = (db, q, response)
  answer_gate (admitted c) = answer_body c (receive config r)

  unfoldable pub ingest : Database × Q × IngestResponse
  unfolding answer_gate
  ingest = answer_gate (gate hash db r.slug r.authorization)
