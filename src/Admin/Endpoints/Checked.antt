-- ===== src/Admin/Endpoints/Checked.antt =====
-- apps/api/src/admin/endpoints.ts: no route stores a URL that was not checked.
use webhook_broadcast.Base.{
  ℕ, ◌≡◌, ◌≢◌, not, ◌==◌, refl, sym, ap, subst, arith, Bool, true, ◌&&◌, Option, none, some, [],
  ◌∷◌, Text, all, all-append, all-filter, all-update_where, or_default, inl, inr, Bool-cases,
}
use webhook_broadcast.Store.Rows.{Database, EndpointRow}
use webhook_broadcast.Store.Channels.{get_channel_by_id}
use webhook_broadcast.Store.Endpoints.{
  Written, written, url_conflict, EndpointPatch, patch_endpoint, insert_endpoint, update_endpoint,
  delete_endpoint,
}
use webhook_broadcast.Store.Endpoints.Updates.{is_row, update_endpoint-Updated}
use webhook_broadcast.EndpointUrl.{
  NetRuntime, UrlCheck, safe, invalid_url, not_https, embeds_credentials, blocked_host, unresolved,
  blocked_address, lookup_failed, assert_safe_endpoint_url,
}
use webhook_broadcast.Admin.{
  Outcome, done, refused, not_found, validation_failed, require_uuid_param, require_valid,
  require_channel,
}
use webhook_broadcast.Admin.Handling.{after_kept, require_kept}
use webhook_broadcast.Admin.Endpoints.{
  EndpointCreate, EndpointUpdate, answer_check, check_url, check_given, created_row, patch_of,
  store_created, store_patched, create_endpoint, patch_endpoint_route, delete_endpoint_route,
  in_channel, in_endpoint,
}

abbrev pub UrlsAll : (Text → Bool) → Database → Type 0
UrlsAll ok db = all (λ e. ok e.url) db.endpoints ≡ true

-- What the check lets through is in `ok`.
abbrev pub Allows : (Text → Bool) → NetRuntime → Type 0
Allows ok net = (t : Text) → assert_safe_endpoint_url net t ≡ safe → ok t ≡ true

refused_check : Database → Database × Outcome Bool
refused_check db = (db, refused 400 validation_failed)

answer_check-safe :
    (c : UrlCheck) (db s : Database) (b : Bool) → answer_check c db ≡ (s, done b) → c ≡ safe
answer_check-safe safe db s b e = refl
answer_check-safe lookup_failed db s b e = absurd (ground (arith, ap (λ r. r.1) e))
answer_check-safe invalid_url db s b e = absurd (ground (arith, ap (λ r. r.1) e))
answer_check-safe not_https db s b e = absurd (ground (arith, ap (λ r. r.1) e))
answer_check-safe embeds_credentials db s b e = absurd (ground (arith, ap (λ r. r.1) e))
answer_check-safe blocked_host db s b e = absurd (ground (arith, ap (λ r. r.1) e))
answer_check-safe unresolved db s b e = absurd (ground (arith, ap (λ r. r.1) e))
answer_check-safe blocked_address db s b e = absurd (ground (arith, ap (λ r. r.1) e))

answer_check-state : (c : UrlCheck) (db : Database) → (answer_check c db).0 ≡ db
answer_check-state safe db = refl
answer_check-state lookup_failed db = refl
answer_check-state invalid_url db = refl
answer_check-state not_https db = refl
answer_check-state embeds_credentials db = refl
answer_check-state blocked_host db = refl
answer_check-state unresolved db = refl
answer_check-state blocked_address db = refl

-- A URL that an update gives is checked unless it is empty.
check_given-safe :
    (net : NetRuntime) (o : Option Text) (t : Text) (db s : Database) (b : Bool)
    → check_given net o db ≡ (s, done b)
    → o ≡ some t
    → t ≢ []
    → assert_safe_endpoint_url net t ≡ safe
check_given-safe net none t db s b e given full = absurd (ground arith)
check_given-safe net (some []) t db s b e given full = absurd (ground (arith, full))
check_given-safe net (some (c ∷ url)) t db s b e given full =
    subst (λ (u : Text). assert_safe_endpoint_url net u ≡ safe) (ground arith)
      (answer_check-safe (assert_safe_endpoint_url net (c ∷ url)) db s b e)

check_given-state :
    (net : NetRuntime) (o : Option Text) (db : Database) → (check_given net o db).0 ≡ db
check_given-state net none db = refl
check_given-state net (some []) db = refl
check_given-state net (some (c ∷ url)) db =
    answer_check-state (assert_safe_endpoint_url net (c ∷ url)) db

module _ (ok : Text → Bool) where
  store_created_kept :
      (db : Database) (row : EndpointRow)
      → ok row.url ≡ true
      → UrlsAll ok db
      → UrlsAll ok (store_created db (insert_endpoint db row)).0
  unfolding insert_endpoint
  store_created_kept db row fine h =
      ground (arith, all-append (λ e. ok e.url) db.endpoints (row ∷ []))

  patch_keeps :
      (p : EndpointPatch)
      → ((t : Text) → p.url ≡ some t → ok t ≡ true)
      → (e : EndpointRow) → ok e.url ≡ true
      → ok (patch_endpoint p e).url ≡ true
  unfolding patch_endpoint
  patch_keeps p fine e h = url_kept p.url fine
    where
      url_kept :
          (o : Option Text)
          → ((t : Text) → o ≡ some t → ok t ≡ true)
          → ok (or_default o e.url) ≡ true
      url_kept none fine = h
      url_kept (some t) fine = fine t refl

  store_patched_kept :
      (db : Database) (channel_id id : ℕ) (p : EndpointPatch)
      (w : Written (Option (Database × EndpointRow)))
      → update_endpoint db channel_id id p ≡ w
      → ((t : Text) → p.url ≡ some t → ok t ≡ true)
      → UrlsAll ok db
      → UrlsAll ok (store_patched db w).0
  store_patched_kept db channel_id id p (written none) e fine h = h
  store_patched_kept db channel_id id p (url_conflict url) e fine h = h
  store_patched_kept db channel_id id p (written (some (db', row))) e fine h =
      rw ((update_endpoint-Updated db channel_id id p db' row e).table) (
        all-update_where (λ e. ok e.url) (is_row channel_id id) (patch_endpoint p) db.endpoints
          (patch_keeps p fine) h)

  delete_kept :
      (db : Database) (channel_id id : ℕ)
      → UrlsAll ok db
      → UrlsAll ok (delete_endpoint db channel_id id).0
  unfolding delete_endpoint
  delete_kept db channel_id id h = ground (
    arith,
    all-filter (λ e. ok e.url) (λ e. not (e.channel_id == channel_id && e.id == id)) db.endpoints,
  )

module _ (parse_id : Text → Option ℕ) (ok : Text → Bool) where
  in_channel_kept :
      (c : Text) (db : Database) → UrlsAll ok db → UrlsAll ok (in_channel parse_id c db).0
  unfolding require_uuid_param require_channel
  in_channel_kept c db h =
      after_kept (UrlsAll ok) (require_uuid_param parse_id c db) _
        (require_kept (UrlsAll ok) 400 validation_failed (parse_id c) db h)
        (λ s id _ k.
          after_kept (UrlsAll ok) (require_channel (λ d. d) id s) _
            (require_kept (UrlsAll ok) 404 not_found (get_channel_by_id s id) s k) (λ _ _ _ j. j))

  in_endpoint_kept :
      (c e : Text) (db : Database) → UrlsAll ok db → UrlsAll ok (in_endpoint parse_id c e db).0
  unfolding require_uuid_param require_channel
  in_endpoint_kept c e db h =
      after_kept (UrlsAll ok) (require_uuid_param parse_id c db) _
        (require_kept (UrlsAll ok) 400 validation_failed (parse_id c) db h)
        (λ s id _ k.
          after_kept (UrlsAll ok) (require_uuid_param parse_id e s) _
            (require_kept (UrlsAll ok) 400 validation_failed (parse_id e) s k)
            (λ t _ _ j.
              after_kept (UrlsAll ok) (require_channel (λ d. d) id t) _
                (require_kept (UrlsAll ok) 404 not_found (get_channel_by_id t id) t j)
                (λ _ _ _ i. i)))

  pub create_kept :
      (net : NetRuntime) (id now : ℕ) (c : Text) (parsed : Option EndpointCreate) (db : Database)
      → Allows ok net
      → UrlsAll ok db
      → UrlsAll ok (create_endpoint parse_id net id now c parsed db).0
  unfolding create_endpoint require_valid created_row
  create_kept net id now c parsed db allows h =
      after_kept (UrlsAll ok) (in_channel parse_id c db) _ (in_channel_kept c db h)
        (λ s channel_id _ k.
          after_kept (UrlsAll ok) (require_valid parsed s) _
            (require_kept (UrlsAll ok) 400 validation_failed parsed s k)
            (λ t body _ j.
              after_kept (UrlsAll ok) (check_url net body.url t) _
                (subst (UrlsAll ok)
                  (sym (answer_check-state (assert_safe_endpoint_url net body.url) t)) j)
                (λ u b checked i.
                  after_kept (UrlsAll ok)
                    (store_created u (insert_endpoint u (created_row body channel_id id now))) _
                    (store_created_kept ok u (created_row body channel_id id now)
                      (allows body.url (answer_check-safe _ t u b checked)) i)
                    (λ _ _ _ g. g))))

  pub patch_kept :
      (net : NetRuntime) (now : ℕ) (c e : Text) (parsed : Option EndpointUpdate) (db : Database)
      → ok [] ≡ true
      → Allows ok net
      → UrlsAll ok db
      → UrlsAll ok (patch_endpoint_route parse_id net now c e parsed db).0
  unfolding patch_endpoint_route require_valid patch_of
  patch_kept net now c e parsed db empty allows h =
      after_kept (UrlsAll ok) (in_endpoint parse_id c e db) _ (in_endpoint_kept c e db h)
        (λ s ids _ k.
          after_kept (UrlsAll ok) (require_valid parsed s) _
            (require_kept (UrlsAll ok) 400 validation_failed parsed s k)
            (λ t body _ j.
              after_kept (UrlsAll ok) (check_given net body.url t) _
                (subst (UrlsAll ok) (sym (check_given-state net body.url t)) j)
                (λ u b checked i.
                  after_kept (UrlsAll ok)
                    (store_patched u (update_endpoint u (ids.0) (ids.1) (patch_of body now))) _
                    (store_patched_kept ok u (ids.0) (ids.1) (patch_of body now) _ refl
                      (λ url given. given_ok url (λ full.
                        allows url (check_given-safe net body.url url t u b checked given full)))
                      i)
                    (λ _ _ _ g. g))))
    where
      given_ok : (url : Text) → (url ≢ [] → ok url ≡ true) → ok url ≡ true
      given_ok [] fine = empty
      given_ok (x ∷ xs) fine = fine (λ same. absurd (ground (arith, same)))

  pub remove_kept :
      (c e : Text) (db : Database)
      → UrlsAll ok db
      → UrlsAll ok (delete_endpoint_route parse_id c e db).0
  unfolding delete_endpoint_route
  remove_kept c e db h =
      after_kept (UrlsAll ok) (in_endpoint parse_id c e db) _ (in_endpoint_kept c e db h)
        (λ s ids _ k. elim (Bool-cases (delete_endpoint s (ids.0) (ids.1)).1) [
          | inl gone ↦ rw gone (delete_kept ok s (ids.0) (ids.1) k)
          | inr absent ↦ rw absent (delete_kept ok s (ids.0) (ids.1) k)
        ])
