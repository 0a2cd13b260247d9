-- ===== src/Witnesses/Headers.antt =====
-- Headers at concrete inputs.
use webhook_broadcast.Base.{
  true, Option, none, some, List, [], ◌∷◌, Text, codes, text_eq, ◌≡◌, ◌≢◌, refl, get, IsObject,
  has_text, to_lower,
}
use webhook_broadcast.Store.Rows.{HeaderValue, one}
use webhook_broadcast.Headers.{
  filter_headers, merge_ingest_header_denylist, default_ingest_header_denylist,
  select_forwardable_headers, by_lowercase_name, attempt_headers,
}
use webhook_broadcast.Headers.Stored.{default_denylist_not_stored}
use webhook_broadcast.Headers.Outbound.{attempt_headers_precedence, authorization_not_relayed}
use webhook_broadcast.Witnesses.Data.{broadcast, channel, endpoint}

abbrev inbound : List (Text × Option HeaderValue)
inbound =
    (codes "X-Event", some (one (codes "paid")))
    ∷ (codes "Cookie", some (one (codes "s=1")))
    ∷ (codes "X-Gone", none)
    ∷ []

inbound-IsObject : IsObject inbound
unfolding get text_eq
inbound-IsObject = (refl, (refl, (refl, tt)))

cookie_denied : has_text (to_lower (codes "Cookie")) default_ingest_header_denylist ≡ true
unfolding has_text to_lower
cookie_denied = refl

default_denylist_not_stored_example :
    get (codes "Cookie") (
      filter_headers inbound
        (codes "cookie" ∷ [])
        (merge_ingest_header_denylist (codes "x-b" ∷ [])))
    ≡ none
default_denylist_not_stored_example =
    default_denylist_not_stored inbound (codes "cookie" ∷ []) (codes "x-b" ∷ []) (codes "Cookie")
      inbound-IsObject cookie_denied

stored-IsObject : IsObject broadcast.headers
unfolding get text_eq
stored-IsObject = (refl, (refl, tt))

attempt_headers_precedence_example :
    let sent =
      attempt_headers broadcast.headers channel.forward_headers endpoint.headers
        broadcast.content_type in
    (get (codes "content-type") sent ≡ some broadcast.content_type)
    × ((k value : Text)
        → k ≢ codes "content-type"
        → get k (by_lowercase_name endpoint.headers) ≡ some value
        → get k sent ≡ some value)
    × ((k : Text)
        → k ≢ codes "content-type"
        → get k (by_lowercase_name endpoint.headers) ≡ none
        → get k sent
          ≡ get k (
              by_lowercase_name
                (select_forwardable_headers broadcast.headers channel.forward_headers)))
    × ((k : Text) → to_lower k ≢ k → get k sent ≡ none)
attempt_headers_precedence_example =
    attempt_headers_precedence broadcast.headers channel.forward_headers endpoint.headers
      broadcast.content_type

authorization_not_relayed_example :
    get (codes "authorization") (
      attempt_headers broadcast.headers channel.forward_headers endpoint.headers
        broadcast.content_type)
    ≡ get (codes "authorization") (by_lowercase_name endpoint.headers)
authorization_not_relayed_example =
    authorization_not_relayed broadcast.headers channel.forward_headers endpoint.headers
      broadcast.content_type stored-IsObject
