-- ===== src/Admin/Endpoints/Calls.antt =====
-- apps/api/src/admin/endpoints.ts: sequences of the requests that write Endpoints.
use webhook_broadcast.Base.{
  ℕ, ◌≡◌, refl, arith, Bool, true, false, ◌||◌, Option, List, [], ◌∷◌, Text, text_eq, text_eq_refl,
  all, any,
}
use webhook_broadcast.Store.Rows.{Database, EndpointRow}
use webhook_broadcast.EndpointUrl.{NetRuntime, UrlCheck, safe, assert_safe_endpoint_url}
use webhook_broadcast.Admin.Endpoints.{
  EndpointCreate, EndpointUpdate, create_endpoint, patch_endpoint_route, delete_endpoint_route,
}
use webhook_broadcast.Admin.Endpoints.Checked.{UrlsAll, create_kept, patch_kept, remove_kept}

-- The three requests that write, each with what the runtime answers to it, and with its id and time.
pub data EndpointCall : Type 0 where
  create : NetRuntime → ℕ → ℕ → Text → Option EndpointCreate → EndpointCall
  patch : NetRuntime → ℕ → Text → Text → Option EndpointUpdate → EndpointCall
  remove : Text → Text → EndpointCall

unfoldable pub call : (Text → Option ℕ) → EndpointCall → Database → Database
call parse_id (create net id now c parsed) db = (create_endpoint parse_id net id now c parsed db).0
call parse_id (patch net now c e parsed) db =
    (patch_endpoint_route parse_id net now c e parsed db).0
call parse_id (remove c e) db = (delete_endpoint_route parse_id c e db).0

unfoldable pub run_calls : (Text → Option ℕ) → List EndpointCall → Database → Database
run_calls parse_id [] db = db
run_calls parse_id (c ∷ cs) db = run_calls parse_id cs (call parse_id c db)

abbrev is_safe : UrlCheck → Bool
is_safe safe = true
is_safe _ = false

-- The URL passes the check as the runtime answers it at the call.
unfoldable pub passes : Text → EndpointCall → Bool
passes t (create net id now c parsed) = is_safe (assert_safe_endpoint_url net t)
passes t (patch net now c e parsed) = is_safe (assert_safe_endpoint_url net t)
passes t (remove c e) = false

abbrev is_empty : Text → Bool
is_empty [] = true
is_empty (c ∷ t) = false

is_safe-safe : (c : UrlCheck) → c ≡ safe → is_safe c ≡ true
is_safe-safe c e = rw e refl

-- Where a stored URL comes from.
abbrev pub is_accounted_for : Database → List EndpointCall → Text → Bool
is_accounted_for db cs t =
    is_empty t || any (λ e. text_eq e.url t) db.endpoints || any (passes t) cs

own_urls :
    (es fs : List EndpointRow) (cs : List EndpointCall)
    → ((t : Text) → any (λ e. text_eq e.url t) es ≡ true → any (λ e. text_eq e.url t) fs ≡ true)
    → all (λ e. is_empty e.url || any (λ f. text_eq f.url e.url) fs || any (passes e.url) cs) es
      ≡ true
own_urls [] fs cs within = refl
own_urls (e ∷ es) fs cs within = ground (
  arith,
  within e.url,
  text_eq_refl e.url,
  own_urls es fs cs (λ t p. within t (ground (arith, p))),
)

module _ (parse_id : Text → Option ℕ) where
  call_kept :
      (ok : Text → Bool) (c : EndpointCall) (db : Database)
      → ok [] ≡ true
      → ((t : Text) → passes t c ≡ true → ok t ≡ true)
      → UrlsAll ok db
      → UrlsAll ok (call parse_id c db)
  unfolding call passes
  call_kept ok (create net id now c parsed) db empty allows h =
      create_kept parse_id ok net id now c parsed db
        (λ t e. allows t (is_safe-safe (assert_safe_endpoint_url net t) e)) h
  call_kept ok (patch net now c e parsed) db empty allows h =
      patch_kept parse_id ok net now c e parsed db empty
        (λ t e. allows t (is_safe-safe (assert_safe_endpoint_url net t) e)) h
  call_kept ok (remove c e) db empty allows h = remove_kept parse_id ok c e db h

  run_calls_kept :
      (ok : Text → Bool) (cs : List EndpointCall) (db : Database)
      → ok [] ≡ true
      → ((t : Text) → any (passes t) cs ≡ true → ok t ≡ true)
      → UrlsAll ok db
      → UrlsAll ok (run_calls parse_id cs db)
  unfolding run_calls
  run_calls_kept ok [] db empty allows h = h
  run_calls_kept ok (c ∷ cs) db empty allows h =
      run_calls_kept ok cs (call parse_id c db) empty (λ t p. allows t (ground (arith, p)))
        (call_kept ok c db empty (λ t p. allows t (ground (arith, p))) h)

  -- However creates, updates and deletes follow on each other, and whatever the network answers to each,
  -- the URL of every Endpoint is empty, or was there at the start, or passed the check at one of the
  -- requests.
  pub run_calls-checked :
      (cs : List EndpointCall) (db : Database)
      → UrlsAll (is_accounted_for db cs) (run_calls parse_id cs db)
  run_calls-checked cs db =
      run_calls_kept (is_accounted_for db cs) cs db refl (λ t p. ground (arith, p))
        (own_urls db.endpoints db.endpoints cs (λ t p. p))
