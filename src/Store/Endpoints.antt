-- ===== src/Store/Endpoints.antt =====
-- packages/db/src/repositories/endpoints.ts
pub mod Updates
use webhook_broadcast.Base.{
  ℕ, ◌+◌, min, max, Bool, true, false, not, ◌&&◌, ◌||◌, Option, none, some, List, [], ◌∷◌, ◌++◌,
  Text, text_eq, ◌==◌, ltb, leb, if◌then◌else◌, is_none, or_default, filter, any, find,
  update_where,
}
use webhook_broadcast.Store.Rows.{
  Database, EndpointRow, DeliveryRow, AttemptRow, succeeded, status_eq, is_failure,
}

-- A write that one of the table's unique indexes can refuse. The code reports each of them as a conflict of
-- URLs, the primary key's too.
pub data Written {ℓ} (A : Type ℓ) : Type ℓ where
  written : A → Written A
  url_conflict : Text → Written A

-- `endpoint_channel_id_url_key`
abbrev pub same_url : ℕ → Text → EndpointRow → Bool
same_url channel_id url e = e.channel_id == channel_id && text_eq e.url url

unfoldable pub insert_endpoint : Database → EndpointRow → Written (Database × EndpointRow)
insert_endpoint db row =
    if any (λ e. e.id == row.id || same_url row.channel_id row.url e) db.endpoints
    then url_conflict row.url
    else written (record db { endpoints = db.endpoints ++ row ∷ [] }, row)

unfoldable pub get_endpoint_by_id : Database → ℕ → ℕ → Option EndpointRow
get_endpoint_by_id db channel_id id =
    find (λ e. e.channel_id == channel_id && e.id == id) db.endpoints

abbrev pub is_enabled : ℕ → EndpointRow → Bool
is_enabled channel_id e = e.channel_id == channel_id && (e.enabled && is_none e.auto_disabled_at)

unfoldable pub list_enabled_endpoints_by_channel : Database → ℕ → List EndpointRow
list_enabled_endpoints_by_channel db channel_id = filter (is_enabled channel_id) db.endpoints

-- `max(…)` and `min(…)` of a column, `none` over no row.
max_of : List DeliveryRow → Option ℕ
max_of [] = none
max_of (d ∷ ds) = some (max d.updated_at (or_default (max_of ds) 0))

later_min : ℕ → Option ℕ → ℕ
later_min t none = t
later_min t (some u) = min t u

min_of : List DeliveryRow → Option ℕ
min_of [] = none
min_of (d ∷ ds) = some (later_min d.updated_at (min_of ds))

abbrev pub succeeded_at : ℕ → DeliveryRow → Bool
succeeded_at endpoint_id d = d.endpoint_id == endpoint_id && status_eq d.status succeeded

unfoldable pub last_success : Database → ℕ → Option ℕ
unfolding max_of
last_success db endpoint_id = max_of (filter (succeeded_at endpoint_id) db.deliveries)

-- `gt(deliveries.updatedAt, lastSuccess.at)`, left out where there was no success.
abbrev pub is_after : Option ℕ → ℕ → Bool
is_after none t = true
is_after (some s) t = ltb s t

abbrev pub in_streak : ℕ → Option ℕ → DeliveryRow → Bool
in_streak endpoint_id success d =
    d.endpoint_id == endpoint_id && (is_failure d.status && is_after success d.updated_at)

unfoldable pub streak_start : Database → ℕ → Option ℕ
unfolding min_of later_min
streak_start db endpoint_id =
    min_of (filter (in_streak endpoint_id (last_success db endpoint_id)) db.deliveries)

-- `now - start < autoDisableAfterMs` over the integers, negated.
spans : Option ℕ → ℕ → ℕ → Bool
spans none after now = false
spans (some start) after now = leb (start + after) now

can_disable : Option EndpointRow → Bool
can_disable none = false
can_disable (some e) = is_none e.auto_disabled_at && e.enabled

disable_endpoint : Database → ℕ → ℕ → Database
disable_endpoint db endpoint_id now = record db {
  endpoints =
      update_where (λ e. e.id == endpoint_id && is_none e.auto_disabled_at)
        (λ e. record e { enabled = false; auto_disabled_at = some now; updated_at = now })
        db.endpoints;
}

unfoldable pub maybe_auto_disable_endpoint : Database → ℕ → ℕ → ℕ → Database × Bool
unfolding spans can_disable disable_endpoint
maybe_auto_disable_endpoint db endpoint_id after now =
    if can_disable (find (λ e. e.id == endpoint_id) db.endpoints)
      && spans (streak_start db endpoint_id) after now
    then (
      disable_endpoint db endpoint_id now,
      any (λ e. e.id == endpoint_id && is_none e.auto_disabled_at) db.endpoints,
    )
    else (db, false)

-- The fields of `patch` that are given; `none` leaves a column alone.
pub record EndpointPatch : Type 0 where
  pub name : Option (Option Text)
  pub url : Option Text
  pub timeout_ms : Option (Option ℕ)
  pub headers : Option (List (Text × Text))
  pub enabled : Option Bool
  pub auto_disabled_at : Option (Option ℕ)
  pub updated_at : ℕ

unfoldable pub patch_endpoint : EndpointPatch → EndpointRow → EndpointRow
patch_endpoint p e = record e {
  name = or_default p.name e.name;
  url = or_default p.url e.url;
  timeout_ms = or_default p.timeout_ms e.timeout_ms;
  headers = or_default p.headers e.headers;
  enabled = or_default p.enabled e.enabled;
  auto_disabled_at = or_default p.auto_disabled_at e.auto_disabled_at;
  updated_at = p.updated_at;
}

-- The patched row would share its URL with another row of the Channel.
abbrev pub clashes : ℕ → ℕ → Text → EndpointRow → Bool
clashes channel_id id url e = same_url channel_id url e && not (e.id == id)

patched : Database → ℕ → ℕ → EndpointPatch → EndpointRow → Written (Option (Database × EndpointRow))
patched db channel_id id patch e =
    let row = patch_endpoint patch e in
    if any (clashes channel_id id row.url) db.endpoints
    then url_conflict row.url
    else written (
        some (
          record db {
            endpoints =
                update_where (λ e. e.channel_id == channel_id && e.id == id) (patch_endpoint patch)
                  db.endpoints;
          },
          row,
        ))

-- `written none` is a row that is not there.
unfoldable pub update_endpoint :
    Database → ℕ → ℕ → EndpointPatch → Written (Option (Database × EndpointRow))
unfolding patched patch_endpoint get_endpoint_by_id
update_endpoint db channel_id id patch = elim (get_endpoint_by_id db channel_id id) [
  | none ↦ written none
  | some e ↦ patched db channel_id id patch e
]

-- The Attempts whose Delivery is still there: what `ON DELETE CASCADE` leaves.
abbrev pub keep_attempts : List DeliveryRow → List AttemptRow → List AttemptRow
keep_attempts deliveries = filter (λ a. any (λ d. d.id == a.delivery_id) deliveries)

-- Deliveries and Attempts of the deleted Endpoint go with it.
unfoldable pub delete_endpoint : Database → ℕ → ℕ → Database × Bool
delete_endpoint db channel_id id =
    let deliveries = filter (λ d. not (d.endpoint_id == id)) db.deliveries in
    if any (λ e. e.channel_id == channel_id && e.id == id) db.endpoints
    then (
      record db {
        endpoints = filter (λ e. not (e.channel_id == channel_id && e.id == id)) db.endpoints;
        deliveries = deliveries;
        attempts = keep_attempts deliveries db.attempts;
      },
      true,
    )
    else (db, false)
