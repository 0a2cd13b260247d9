-- ===== src/Witnesses/Ingests.antt =====
-- Requests and logins at concrete inputs.
use webhook_broadcast.Base.{
  get, ℕ, ◌≤◌, true, none, some, [], ◌∷◌, ◌++◌, Text, codes, ◌≡◌, ◌≢◌, refl, arith, map, max,
  text_eq, leb, length, if◌then◌else◌,
}
use webhook_broadcast.Store.Rows.{Database, one}
use webhook_broadcast.Store.Deliveries.{create_deliveries_for_broadcast}
use webhook_broadcast.Store.Endpoints.{list_enabled_endpoints_by_channel}
use webhook_broadcast.Store.Broadcasts.{insert_broadcast}
use webhook_broadcast.Store.Channels.{get_active_channel_by_slug}
use webhook_broadcast.FanOut.{accept_broadcast, fan_out_broadcast}
use webhook_broadcast.Ingest.{
  IngestConfig, IngestRequest, ingested, missing_token, data_event, end_event, concat, read_body,
  over_limit, read_limited_body, gate, receive, ingest_broadcast, ingest, extract_bearer_token,
}
use webhook_broadcast.Ingest.Body.{read_limited_body-whole}
use webhook_broadcast.Ingest.Laws.{Ingested, ingest-Ingested}
use webhook_broadcast.Ingest.Rejected.{ingest_untouched}
use webhook_broadcast.Login.{Window, LoginRateLimitConfig}
use webhook_broadcast.Login.Limit.{allowed_calls, login_limit}
use webhook_broadcast.Witnesses.Broadcasts.{integral}
use webhook_broadcast.Witnesses.FanOuts.{bounded, uuid}
use webhook_broadcast.Witnesses.Data.{db, channel}

read_limited_body-whole_example :
    read_limited_body 3 (map data_event ((1 ∷ 2 ∷ []) ∷ (3 ∷ []) ∷ []) ++ end_event ∷ []) ≡ (
      if leb (length (concat ((1 ∷ 2 ∷ []) ∷ (3 ∷ []) ∷ []))) 3
      then some (read_body (concat ((1 ∷ 2 ∷ []) ∷ (3 ∷ []) ∷ [])))
      else some over_limit)
read_limited_body-whole_example = read_limited_body-whole 3 ((1 ∷ 2 ∷ []) ∷ (3 ∷ []) ∷ []) []

abbrev ingest_config : IngestConfig
ingest_config = record {
  max_body_bytes = 10;
  header_allowlist = [];
  header_denylist = codes "cookie" ∷ [];
  success_status = 202;
}

abbrev open_db : Database
open_db = record db { channels = record channel { allow_unauthenticated_ingest = true } ∷ [] }

abbrev request : IngestRequest
request = record {
  slug = codes "orders";
  authorization = none;
  declared_length = some 2;
  events = data_event (7 ∷ 8 ∷ []) ∷ end_event ∷ [];
  content_type = codes "text/plain";
  headers = (codes "x-event", some (one (codes "paid"))) ∷ [];
}

request_ingested :
    (ingest (bounded 5) (λ t. t) ingest_config uuid 8 300 77 open_db [] request).2 ≡ ingested 202 8
unfolding ingest gate get_active_channel_by_slug text_eq receive read_limited_body fan_out_broadcast
    accept_broadcast create_deliveries_for_broadcast insert_broadcast
    list_enabled_endpoints_by_channel ingest_broadcast
request_ingested = refl

ingest-Ingested_example :
    Ingested
      (bounded 5)
      (λ t. t)
      ingest_config
      uuid
      8
      300
      77
      open_db
      []
      request
      202
      8
      (
        (ingest (bounded 5) (λ t. t) ingest_config uuid 8 300 77 open_db [] request).0,
        (ingest (bounded 5) (λ t. t) ingest_config uuid 8 300 77 open_db [] request).1,
      )
ingest-Ingested_example =
    ingest-Ingested (bounded 5) (λ t. t) ingest_config uuid 8 300 77 open_db [] request 202 8
      request_ingested

request_missing :
    (ingest (bounded 5) (λ t. t) ingest_config uuid 8 300 77 db [] request).2 ≡ missing_token
unfolding ingest gate get_active_channel_by_slug text_eq extract_bearer_token
request_missing = refl

request_not_ingested :
    (s k : ℕ)
    → (ingest (bounded 5) (λ t. t) ingest_config uuid 8 300 77 db [] request).2 ≢ ingested s k
request_not_ingested s k e = ground (arith, e, request_missing)

ingest_untouched_example :
    ((ingest (bounded 5) (λ t. t) ingest_config uuid 8 300 77 db [] request).0 ≡ db)
    × ((ingest (bounded 5) (λ t. t) ingest_config uuid 8 300 77 db [] request).1 ≡ [])
ingest_untouched_example =
    ingest_untouched (bounded 5) (λ t. t) ingest_config uuid 8 300 77 db [] request refl integral
      request_not_ingested

abbrev two_tries : LoginRateLimitConfig
two_tries = record { max_attempts = 2; window_ms = 1000 }

abbrev first_client : Text
first_client = codes "10.0.0.1"

abbrev other_client : Text
other_client = codes "10.0.0.2"

fresh_client : get {V = Window} first_client [] ≡ none
unfolding get
fresh_client = refl

login_limit_example :
    allowed_calls two_tries first_client
      ((5, first_client) ∷ (6, other_client) ∷ (7, first_client) ∷ (8, first_client) ∷ [])
      []
    ≤ max 1 2
login_limit_example =
    login_limit two_tries first_client 5
      ((6, other_client) ∷ (7, first_client) ∷ (8, first_client) ∷ []) [] fresh_client
      (omega arith, (omega arith, (omega arith, tt)))
