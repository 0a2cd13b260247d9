-- ===== src/Witnesses/Admins.antt =====
-- Requests of the admin API at concrete inputs.
use webhook_broadcast.Base.{
  ℕ, ◌≡◌, ◌↔◌, refl, arith, true, false, Option, none, some, List, [], ◌∷◌, ◌++◌, Text, codes,
  text_eq, split, split_from, to_lower,
}
use webhook_broadcast.Store.Rows.{
  Database, EndpointRow, DeliveryRow, OperatorTokenRow, dead_lettered,
}
use webhook_broadcast.Store.Channels.{get_channel_by_id, get_active_channel_by_slug}
use webhook_broadcast.Store.Deliveries.{find_delivery}
use webhook_broadcast.Store.Endpoints.{update_endpoint, get_endpoint_by_id, patch_endpoint}
use webhook_broadcast.Store.Tokens.{insert_channel_token, find_operator_token_by_hash}
use webhook_broadcast.Store.Views.{HasDelivery, detail}
use webhook_broadcast.FanOut.{WorkItem}
use webhook_broadcast.Ingest.{admitted, gate, extract_bearer_token}
use webhook_broadcast.Tokens.{mint_channel_token, mint_token}
use webhook_broadcast.Admin.{
  done, refused, thrown, conflict, require_uuid_param, require_valid, require_channel,
}
use webhook_broadcast.Admin.Deliveries.{retry_delivery}
use webhook_broadcast.Admin.Deliveries.Retry.{
  retried, OnlyMoved, retry_item, retry_delivery-conflict, retry_delivery_queued,
  retry_delivery_stranded,
}
use webhook_broadcast.Admin.Broadcasts.{replay_broadcast}
use webhook_broadcast.Admin.Endpoints.{EndpointUpdate, patch_of, patch_endpoint_route}
use webhook_broadcast.Admin.Endpoints.Checked.{UrlsAll}
use webhook_broadcast.Admin.Endpoints.Calls.{
  patch, remove, run_calls, is_accounted_for, run_calls-checked,
}
use webhook_broadcast.Admin.Endpoints.Enabling.{IsTakenUp, patch_endpoint_route-IsTakenUp}
use webhook_broadcast.Admin.Tokens.{
  ChannelTokenCreated, channel_token_row, create_channel_token, delete_operator_token,
}
use webhook_broadcast.Admin.Tokens.Minted.{Keeps, create_channel_token-admitted}
use webhook_broadcast.Admin.Auth.{AuthRequest, granted, unauthorized, operator_auth}
use webhook_broadcast.Admin.Auth.Granted.{
  MayOperate, operator_auth_iff, delete_operator_token-locked_out,
}
use webhook_broadcast.Witnesses.FanOuts.{bounded, uuid}
use webhook_broadcast.Witnesses.Urls.{net}
use webhook_broadcast.Witnesses.Data.{db, channel, endpoint, disabled_endpoint, delivery}

-- Ids that are one character.
abbrev parse_id : Text → Option ℕ
parse_id [] = none
parse_id (c ∷ s) = some c

abbrev param : ℕ → Text
param id = id ∷ []

abbrev dead : DeliveryRow
dead = record delivery { status = dead_lettered; attempt_count = 3 }

abbrev dead_db : Database
dead_db = record db { deliveries = dead ∷ [] }

dead_there : HasDelivery dead_db 5 dead endpoint
unfolding find_delivery
dead_there = record { delivery_found = refl; endpoint_found = refl }

there : HasDelivery db 5 delivery endpoint
unfolding find_delivery
there = record { delivery_found = refl; endpoint_found = refl }

retry_delivery-conflict_example :
    retry_delivery (bounded 5) parse_id 500 77 (param 5) (db, []) ≡ ((db, []), refused 409 conflict)
retry_delivery-conflict_example =
    retry_delivery-conflict (bounded 5) parse_id 500 77 (param 5) db [] 5 delivery endpoint refl
      (refl, tt) there (λ same. absurd (ground (arith, same)))

abbrev item : WorkItem
item = record {
  delivery_id = 5;
  request_id = 77;
  channel_id = 1;
  broadcast_id = 4;
  endpoint_id = 2;
}

taken : (bounded 5).enqueue [] (retry_item 77 dead) ≡ (item ∷ [], true)
taken = refl

retry_delivery_queued_example :
    let after = retry_delivery (bounded 5) parse_id 500 77 (param 5) (dead_db, []) in
    (after.1 ≡ done (200, detail (retried 500 dead) endpoint))
    × (after.0.1 ≡ item ∷ [])
    × OnlyMoved dead_db after.0.0 5 500 dead 6
retry_delivery_queued_example =
    retry_delivery_queued (bounded 5) parse_id 500 77 (param 5) dead_db [] 5 dead endpoint refl
      (refl, tt) dead_there refl (item ∷ []) 6 (λ e. omega (arith, e)) taken

retry_delivery_stranded_example :
    let after = retry_delivery (bounded 0) parse_id 500 77 (param 5) (dead_db, []) in
    (after.1 ≡ thrown)
    × (after.0.1 ≡ [])
    × OnlyMoved dead_db after.0.0 5 500 dead 6
    × (retry_delivery (bounded 0) parse_id 600 78 (param 5) after.0
        ≡ (after.0, refused 409 conflict))
retry_delivery_stranded_example =
    retry_delivery_stranded (bounded 0) parse_id 500 77 (param 5) dead_db [] 5 dead endpoint refl
      (refl, tt) dead_there refl [] 600 78 6 (λ e. omega (arith, e)) refl

abbrev replay_state : Database × List WorkItem
replay_state = (replay_broadcast (bounded 5) uuid parse_id 8 300 77 (param 1) (param 4) (db, [])).0

abbrev enabling : EndpointUpdate
enabling = record {
  name = none;
  url = some (codes "https://hooks.example/in");
  timeout_ms = none;
  headers = none;
  enabled = some true;
}

run_calls-checked_example :
    let calls =
      patch net 400 (param 1) (param 3) (some enabling) ∷ remove (param 1) (param 2) ∷ [] in
    UrlsAll (is_accounted_for db calls) (run_calls parse_id calls db)
run_calls-checked_example =
    run_calls-checked parse_id
      (patch net 400 (param 1) (param 3) (some enabling) ∷ remove (param 1) (param 2) ∷ []) db

abbrev only_on : EndpointUpdate
only_on = record enabling { url = none }

abbrev on_row : EndpointRow
on_row = record disabled_endpoint { enabled = true; updated_at = 400 }

abbrev on_db : Database
on_db = record db { endpoints = endpoint ∷ on_row ∷ [] }

switched_on :
    patch_endpoint_route parse_id net 400 (param 1) (param 3) (some only_on) db
    ≡ (on_db, done (200, on_row))
unfolding patch_endpoint_route require_uuid_param require_channel require_valid get_channel_by_id
    update_endpoint get_endpoint_by_id patch_endpoint patch_of text_eq
switched_on = refl

patch_endpoint_route-IsTakenUp_example : IsTakenUp on_db on_row
patch_endpoint_route-IsTakenUp_example =
    patch_endpoint_route-IsTakenUp parse_id net 400 (param 1) (param 3) only_on db on_db 200 on_row
      refl switched_on

abbrev hash : Text → Text
hash t = b'#' ∷ t

abbrev token_db : Database
token_db = record db {
  channel_tokens = channel_token_row (mint_channel_token hash (codes "Zm9v")) 1 31 400 ∷ [];
}

abbrev token_created : ChannelTokenCreated
token_created = record { id = 31; token = codes "wbt_Zm9v"; created_at = 400 }

minted :
    create_channel_token parse_id hash 31 400 (codes "Zm9v") (param 1) db
    ≡ (token_db, done (201, token_created))
unfolding create_channel_token require_uuid_param require_channel get_channel_by_id
    insert_channel_token channel_token_row mint_channel_token mint_token
minted = refl

is_active : get_active_channel_by_slug db (codes "orders") ≡ some channel
unfolding get_active_channel_by_slug text_eq
is_active = refl

create_channel_token-admitted_example :
    (gate hash token_db (codes "orders") (some (codes "Bearer " ++ codes "wbt_Zm9v"))
      ≡ admitted channel)
    × Keeps hash 1 (codes "wbt_Zm9v") db token_db
create_channel_token-admitted_example =
    create_channel_token-admitted parse_id hash 31 400 (codes "Zm9v") (param 1) (codes "orders") db
      token_db channel 201 token_created refl is_active refl minted

abbrev operator_token : OperatorTokenRow
operator_token = record {
  id = 41;
  token_hash = hash (codes "wbop_x");
  prefix = codes "wbop_x";
  label = codes "ci";
  created_at = 40;
  last_used_at = none;
}

abbrev operator_db : Database
operator_db = record db { operator_tokens = operator_token ∷ [] }

abbrev by_bearer : AuthRequest
by_bearer = record { authorization = some (codes "Bearer wbop_x"); cookie = none }

operator_auth_iff_example :
    ((operator_auth (λ t. t) hash (codes "key") false 500 operator_db by_bearer).1
      ≡ granted (codes "ci"))
    ↔ MayOperate
        (λ t. t)
        (λ s t e. e)
        hash
        (codes "key")
        false
        500
        operator_db
        by_bearer
        (codes "ci")
operator_auth_iff_example =
    operator_auth_iff (λ t. t) (λ s t e. e) hash (codes "key") false 500 operator_db by_bearer
      (codes "ci")

sent : extract_bearer_token (some (codes "Bearer wbop_x")) ≡ some (codes "wbop_x")
unfolding extract_bearer_token split split_from to_lower text_eq
sent = refl

stored : find_operator_token_by_hash operator_db (hash (codes "wbop_x")) ≡ some operator_token
unfolding find_operator_token_by_hash text_eq
stored = refl

delete_operator_token-locked_out_example :
    ((delete_operator_token parse_id hash (param 41) operator_db).1 ≡ done (204, true))
    × ((operator_auth
          (λ t. t)
          hash
          (codes "key")
          false
          500
          (delete_operator_token parse_id hash (param 41) operator_db).0
          by_bearer).1
        ≡ unauthorized)
delete_operator_token-locked_out_example =
    delete_operator_token-locked_out parse_id (λ t. t) hash (codes "key") (param 41)
      (codes "wbop_x") false 500 operator_db by_bearer operator_token (λ s t e. e) (refl, tt) sent
      (λ same. absurd (ground (arith, same))) stored refl
