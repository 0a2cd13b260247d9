-- ===== src/Admin/Endpoints/Enabling.antt =====
-- apps/api/src/admin/endpoints.ts: an Endpoint that is switched on again.
use webhook_broadcast.Base.{
  ℕ, ◌≡◌, refl, sym, ap, subst, arith, true, ◌&&◌, Option, none, some, Text, ◌==◌, ==_refl, any,
  any-filter, any-update_where_found, update_where,
}
use webhook_broadcast.Store.Rows.{Database, EndpointRow}
use webhook_broadcast.Store.Endpoints.{
  Written, written, url_conflict, patch_endpoint, update_endpoint, get_endpoint_by_id, is_enabled,
  list_enabled_endpoints_by_channel,
}
use webhook_broadcast.Store.Endpoints.Updates.{Updated, update_endpoint-Updated, is_row}
use webhook_broadcast.EndpointUrl.{NetRuntime}
use webhook_broadcast.Admin.{done, require_valid}
use webhook_broadcast.Admin.Handling.{after-Passed, reply-done, value_of}
use webhook_broadcast.Admin.Endpoints.{
  EndpointUpdate, patch_of, store_patched, check_given, in_endpoint, patch_endpoint_route,
}

store_patched-written :
    (db db' : Database) (w : Written (Option (Database × EndpointRow))) (row : EndpointRow)
    → store_patched db w ≡ (db', done row)
    → w ≡ written (some (db', row))
unfolding value_of
store_patched-written db db' (written (some (d, r))) row e =
    ap (λ x. written (some (x.0, value_of row x.1))) e
store_patched-written db db' (written none) row e = absurd (ground (arith, ap (λ r. r.1) e))
store_patched-written db db' (url_conflict url) row e = absurd (ground (arith, ap (λ r. r.1) e))

patched_on :
    (body : EndpointUpdate) (now : ℕ) (e : EndpointRow)
    → body.enabled ≡ some true
    → ((patch_endpoint (patch_of body now) e).enabled ≡ true)
      × ((patch_endpoint (patch_of body now) e).auto_disabled_at ≡ none)
unfolding patch_of patch_endpoint
patched_on body now e on = (rw on refl, rw on refl)

patched_on-is_enabled :
    (body : EndpointUpdate) (now : ℕ) (e : EndpointRow)
    → body.enabled ≡ some true
    → (is_enabled e.channel_id (patch_endpoint (patch_of body now) e)
        && (patch_endpoint (patch_of body now) e).id == e.id)
      ≡ true
unfolding patch_of patch_endpoint
patched_on-is_enabled body now e on = rw on (ground (arith, ==_refl e.channel_id, ==_refl e.id))

-- An Endpoint as the answer shows it: enabled, not auto-disabled, and one of those that the fan-out of
-- a Broadcast takes.
abbrev pub IsTakenUp : Database → EndpointRow → Type 0
IsTakenUp db row =
    (row.enabled ≡ true)
    × (row.auto_disabled_at ≡ none)
    × (any (λ e. e.id == row.id) (list_enabled_endpoints_by_channel db row.channel_id) ≡ true)

in_list :
    (db db' : Database) (channel_id id now : ℕ) (body : EndpointUpdate) (e : EndpointRow)
    → body.enabled ≡ some true
    → get_endpoint_by_id db channel_id id ≡ some e
    → db'.endpoints
      ≡ update_where (is_row channel_id id) (patch_endpoint (patch_of body now)) db.endpoints
    → any (λ f. f.id == e.id) (list_enabled_endpoints_by_channel db' e.channel_id) ≡ true
unfolding list_enabled_endpoints_by_channel get_endpoint_by_id
in_list db db' channel_id id now body e on there table =
    rw (any-filter (λ (f : EndpointRow). f.id == e.id) (is_enabled e.channel_id) db'.endpoints) (
      rw table (
        any-update_where_found (is_row channel_id id)
          (λ f. is_enabled e.channel_id f && f.id == e.id) (patch_endpoint (patch_of body now))
          db.endpoints e there (patched_on-is_enabled body now e on)))

patch-keys :
    (body : EndpointUpdate) (now : ℕ) (e : EndpointRow)
    → ((patch_endpoint (patch_of body now) e).id ≡ e.id)
      × ((patch_endpoint (patch_of body now) e).channel_id ≡ e.channel_id)
unfolding patch_endpoint
patch-keys body now e = (refl, refl)

Updated-IsTakenUp :
    (db db' : Database) (channel_id id now : ℕ) (body : EndpointUpdate) (row : EndpointRow)
    → body.enabled ≡ some true
    → Updated db channel_id id (patch_of body now) db' row
    → IsTakenUp db' row
Updated-IsTakenUp db db' channel_id id now body row on u =
    subst (IsTakenUp db') (sym (u.answered)) (
      (patched_on body now u.before on).0,
      (patched_on body now u.before on).1,
      rw ((patch-keys body now u.before).0) (
          rw ((patch-keys body now u.before).1)
            (in_list db db' channel_id id now body u.before on u.there u.table)),
    )

-- A PATCH that answers 200 to `enabled: true` has taken the Endpoint up again: it is enabled, no longer
-- auto-disabled, and among those that the fan-out of a Broadcast takes.
pub patch_endpoint_route-IsTakenUp :
    (parse_id : Text → Option ℕ) (net : NetRuntime) (now : ℕ) (c e : Text) (body : EndpointUpdate)
    (db db' : Database) (status : ℕ) (row : EndpointRow)
    → body.enabled ≡ some true
    → patch_endpoint_route parse_id net now c e (some body) db ≡ (db', done (status, row))
    → IsTakenUp db' row
unfolding patch_endpoint_route require_valid
patch_endpoint_route-IsTakenUp parse_id net now c e body db db' status row on h =
    let ids = after-Passed (in_endpoint parse_id c e db) _ db' (status, row) h in
    let checked = after-Passed (check_given net body.url ids.state) _ db' (status, row) ids.rest in
    let stored =
      after-Passed
        (store_patched checked.state
          (update_endpoint checked.state (ids.value.0) (ids.value.1) (patch_of body now)))
        _ db' (status, row) checked.rest in
    let said = reply-done 200 status stored.value row stored.state db' stored.rest in
    subst (λ (r : EndpointRow). IsTakenUp db' r) (said.2)
      (subst (λ (d : Database). IsTakenUp d stored.value) (said.0)
        (Updated-IsTakenUp checked.state stored.state (ids.value.0) (ids.value.1) now body
          stored.value on
          (update_endpoint-Updated checked.state (ids.value.0) (ids.value.1) (patch_of body now)
            stored.state stored.value
            (store_patched-written checked.state stored.state _ stored.value stored.here))))
