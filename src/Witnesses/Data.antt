-- ===== src/Witnesses/Data.antt =====
-- A Channel with two Endpoints, one of them disabled, and one Broadcast with one Delivery.
use webhook_broadcast.Base.{ℕ, true, false, none, some, [], ◌∷◌, codes}
use webhook_broadcast.Store.Rows.{
  Database, ChannelRow, EndpointRow, BroadcastRow, DeliveryRow, one, pending,
}
use webhook_broadcast.Retry.{HeaderParsers}
use webhook_broadcast.Worker.{World}
use webhook_broadcast.Request.{Config, Surroundings, response}

abbrev pub channel : ChannelRow
channel = record {
  id = 1;
  slug = codes "orders";
  description = none;
  enabled = true;
  forward_headers = codes "X-Event" ∷ codes "Authorization" ∷ [];
  allow_unauthenticated_ingest = false;
  ingest_success_status = none;
  deleted_at = none;
  created_at = 10;
  updated_at = 10;
}

abbrev pub endpoint : EndpointRow
endpoint = record {
  id = 2;
  channel_id = 1;
  name = none;
  url = codes "https://a.example/hook";
  timeout_ms = none;
  headers = (codes "X-Key", codes "k1") ∷ [];
  enabled = true;
  auto_disabled_at = none;
  created_at = 11;
  updated_at = 11;
}

abbrev pub disabled_endpoint : EndpointRow
disabled_endpoint = record endpoint {
  id = 3;
  url = codes "https://b.example/hook";
  enabled = false;
}

abbrev pub broadcast : BroadcastRow
broadcast = record {
  id = 4;
  channel_id = 1;
  received_at = 100;
  content_type = codes "application/json";
  body = 1 ∷ 2 ∷ [];
  headers =
      (codes "x-event", one (codes "paid")) ∷ (codes "authorization", one (codes "Bearer t")) ∷ [];
}

abbrev pub delivery : DeliveryRow
delivery = record {
  id = 5;
  broadcast_id = 4;
  endpoint_id = 2;
  channel_id = 1;
  status = pending;
  attempt_count = 0;
  last_status_code = none;
  last_duration_ms = none;
  last_error = none;
  updated_at = 100;
}

abbrev pub db : Database
db = record {
  channels = channel ∷ [];
  channel_tokens = [];
  operator_tokens = [];
  endpoints = endpoint ∷ disabled_endpoint ∷ [];
  broadcasts = broadcast ∷ [];
  deliveries = delivery ∷ [];
  attempts = [];
}

abbrev pub parsers : HeaderParsers
parsers = record { seconds_in_ms = λ _. none; date_ms = λ _. none }

abbrev pub config : Config
config = record {
  default_timeout_ms = 15000;
  max_attempts = some 3;
  backoff_base_ms = none;
  backoff_max_ms = none;
  endpoint_auto_disable_after_ms = none;
}

abbrev pub answering : ℕ → Surroundings
answering status = record {
  fetch = λ _. response status none;
  parsers = parsers;
  claimed_at = 200;
  answered_at = 201;
  finished_at = 202;
  duration_ms = 1;
  random = 7;
  attempt_id = 6;
  fails = λ _. false;
}

abbrev pub world : World
world = record { db = db; metrics = []; sent = [] }
