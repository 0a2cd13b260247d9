-- ===== src/Admin/Endpoints.antt =====
-- apps/api/src/admin/endpoints.ts. The health figures that some answers carry are left out.
pub mod Checked
pub mod Calls
pub mod Enabling
use webhook_broadcast.Base.{
  ℕ, Bool, true, false, Option, none, some, List, [], ◌∷◌, Text, or_default, if◌then◌else◌,
}
use webhook_broadcast.Store.Rows.{Database, EndpointRow}
use webhook_broadcast.Store.Endpoints.{
  Written, written, url_conflict, EndpointPatch, insert_endpoint, get_endpoint_by_id,
  update_endpoint, delete_endpoint,
}
use webhook_broadcast.EndpointUrl.{
  NetRuntime, UrlCheck, safe, lookup_failed, assert_safe_endpoint_url,
}
use webhook_broadcast.Admin.{
  Handler, Outcome, Reply, ◌>>=◌, after, done, refused, thrown, not_found, conflict,
  validation_failed, reply, refuse, read, write, require, require_uuid_param, require_valid,
  require_channel,
}

-- What `endpointCreateSchema` and `endpointUpdateSchema` leave of a body.
pub record EndpointCreate : Type 0 where
  pub name : Option Text
  pub url : Text
  pub timeout_ms : Option ℕ
  pub headers : Option (List (Text × Text))
  pub enabled : Bool

pub record EndpointUpdate : Type 0 where
  pub name : Option (Option Text)
  pub url : Option Text
  pub timeout_ms : Option (Option ℕ)
  pub headers : Option (List (Text × Text))
  pub enabled : Option Bool

-- An `UnsafeEndpointUrlError` is a 400, any other error is thrown on.
abbrev pub answer_check : UrlCheck → Handler Database Bool
answer_check safe s = (s, done true)
answer_check lookup_failed s = (s, thrown)
answer_check _ s = (s, refused 400 validation_failed)

abbrev pub check_url : NetRuntime → Text → Handler Database Bool
check_url net url = answer_check (assert_safe_endpoint_url net url)

-- An update that names no URL, or the empty one, is not checked.
abbrev pub check_given : NetRuntime → Option Text → Handler Database Bool
check_given net none s = (s, done true)
check_given net (some []) s = (s, done true)
check_given net (some (c ∷ url)) s = check_url net (c ∷ url) s

unfoldable pub created_row : EndpointCreate → ℕ → ℕ → ℕ → EndpointRow
created_row body channel_id id now = record {
  id = id;
  channel_id = channel_id;
  name = body.name;
  url = body.url;
  timeout_ms = body.timeout_ms;
  headers = or_default body.headers [];
  enabled = body.enabled;
  auto_disabled_at = none;
  created_at = now;
  updated_at = now;
}

abbrev store_created : Database → Written (Database × EndpointRow) → Database × Outcome EndpointRow
store_created db (written (db', row)) = (db', done row)
store_created db (url_conflict url) = (db, refused 409 conflict)

-- `enabled: true` clears `autoDisabledAt`.
abbrev cleared : Option Bool → Option (Option ℕ)
cleared none = none
cleared (some false) = none
cleared (some true) = some none

unfoldable pub patch_of : EndpointUpdate → ℕ → EndpointPatch
patch_of body now = record {
  name = body.name;
  url = body.url;
  timeout_ms = body.timeout_ms;
  headers = body.headers;
  enabled = body.enabled;
  auto_disabled_at = cleared body.enabled;
  updated_at = now;
}

abbrev store_patched :
    Database → Written (Option (Database × EndpointRow)) → Database × Outcome EndpointRow
store_patched db (written (some (db', row))) = (db', done row)
store_patched db (written none) = (db, refused 404 not_found)
store_patched db (url_conflict url) = (db, refused 409 conflict)

module _ (parse_id : Text → Option ℕ) where
  abbrev in_channel : Text → Handler Database ℕ
  in_channel channel_param = do
    channel_id ← require_uuid_param parse_id channel_param
    _ ← require_channel (λ db. db) channel_id
    read (λ _. channel_id)

  -- The two ids are read before the Channel is.
  abbrev in_endpoint : Text → Text → Handler Database (ℕ × ℕ)
  in_endpoint channel_param endpoint_param = do
    channel_id ← require_uuid_param parse_id channel_param
    endpoint_id ← require_uuid_param parse_id endpoint_param
    _ ← require_channel (λ db. db) channel_id
    read (λ _. (channel_id, endpoint_id))

  -- `id` and `now` are `randomUUID()` and `new Date()`.
  unfoldable pub create_endpoint :
      NetRuntime → ℕ → ℕ → Text → Option EndpointCreate → Handler Database (Reply EndpointRow)
  create_endpoint net id now channel_param parsed = do
    channel_id ← in_channel channel_param
    body ← require_valid parsed
    _ ← check_url net body.url
    row ← (λ db. store_created db (insert_endpoint db (created_row body channel_id id now)))
    reply 201 row

  unfoldable pub get_endpoint : Text → Text → Handler Database (Reply EndpointRow)
  get_endpoint channel_param endpoint_param = do
    ids ← in_endpoint channel_param endpoint_param
    row ← (λ db. require 404 not_found (get_endpoint_by_id db (ids.0) (ids.1)) db)
    reply 200 row

  unfoldable pub patch_endpoint_route :
      NetRuntime → ℕ → Text → Text → Option EndpointUpdate → Handler Database (Reply EndpointRow)
  patch_endpoint_route net now channel_param endpoint_param parsed = do
    ids ← in_endpoint channel_param endpoint_param
    body ← require_valid parsed
    _ ← check_given net body.url
    row ← (λ db. store_patched db (update_endpoint db (ids.0) (ids.1) (patch_of body now)))
    reply 200 row

  unfoldable pub delete_endpoint_route : Text → Text → Handler Database (Reply Bool)
  delete_endpoint_route channel_param endpoint_param = do
    ids ← in_endpoint channel_param endpoint_param
    deleted ← write (λ db. delete_endpoint db (ids.0) (ids.1))
    if deleted then reply 204 true else refuse 404 not_found
