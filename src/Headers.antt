-- ===== src/Headers.antt =====
-- Header names on both sides of the service: what ingest stores (apps/api/src/ingest/headers.ts),
-- what a worker relays (apps/api/src/worker/forwardHeaders.ts), and the headers of one Attempt.
-- Header names are ASCII, and none is spelled `__proto__`.
pub mod Stored
pub mod Outbound
use webhook_broadcast.Base.{
  ℕ, Bool, true, false, not, ◌&&◌, ◌||◌, Option, none, some, List, [], ◌∷◌, ◌++◌, map, Text, codes,
  text_eq, has_text, distinct_from, to_lower, trim, split, put, assign, filter, join, if◌then◌else◌,
}
use webhook_broadcast.Store.Rows.{HeaderValue, one, many}

abbrev pub default_ingest_header_denylist : List Text
default_ingest_header_denylist =
    codes "authorization"
    ∷ codes "cookie"
    ∷ codes "set-cookie"
    ∷ codes "proxy-authorization"
    ∷ codes "x-api-key"
    ∷ codes "x-auth-token"
    ∷ []

unfoldable pub merge_ingest_header_denylist : List Text → List Text
unfolding distinct_from
merge_ingest_header_denylist env = distinct_from [] (default_ingest_header_denylist ++ env)

abbrev pub is_nonempty : Text → Bool
is_nonempty [] = false
is_nonempty (c ∷ s) = true

unfoldable pub parse_header_list : Text → List Text
parse_header_list value = filter is_nonempty (map trim (split b',' value))

abbrev pub is_empty_list : List Text → Bool
is_empty_list [] = true
is_empty_list (s ∷ ss) = false

-- Whether `filterHeaders` keeps a name, `allow` and `deny` in lower case.
unfoldable pub is_stored : List Text → List Text → Text → Bool
is_stored allow deny key =
    not (has_text (to_lower key) deny) && (is_empty_list allow || has_text (to_lower key) allow)

-- One round of its loop; `none` is `undefined`.
filter_entry :
    List Text
    → List Text
    → Text
    → Option HeaderValue
    → List (Text × HeaderValue)
    → List (Text × HeaderValue)
filter_entry allow deny key none result = result
filter_entry allow deny key (some value) result =
    if is_stored allow deny key then put key value result else result

filter_from :
    List Text
    → List Text
    → List (Text × Option HeaderValue)
    → List (Text × HeaderValue)
    → List (Text × HeaderValue)
filter_from allow deny [] result = result
filter_from allow deny ((key, value) ∷ headers) result =
    filter_from allow deny headers (filter_entry allow deny key value result)

unfoldable pub filter_headers :
    List (Text × Option HeaderValue) → List Text → List Text → List (Text × HeaderValue)
unfolding filter_from filter_entry
filter_headers headers allowlist denylist =
    filter_from (map to_lower allowlist) (map to_lower denylist) headers []

abbrev pub never_forward : List Text
never_forward = codes "authorization" ∷ []

unfoldable pub normalize_forward_allowlist : List Text → List Text
normalize_forward_allowlist allowlist =
    filter (λ name. is_nonempty name && not (has_text name never_forward))
      (map (λ name. to_lower (trim name)) allowlist)

unfoldable pub header_text : HeaderValue → Text
header_text (one value) = value
header_text (many values) = join (codes ", ") values

unfoldable pub is_forwarded : List Text → Text → Bool
is_forwarded allow key =
    has_text (to_lower key) allow && not (has_text (to_lower key) never_forward)

select_from : List Text → List (Text × HeaderValue) → List (Text × Text) → List (Text × Text)
select_from allow [] result = result
select_from allow ((key, value) ∷ headers) result =
    select_from allow headers
      (if is_forwarded allow key then put key (header_text value) result else result)

unfoldable pub select_forwardable_headers :
    List (Text × HeaderValue) → List Text → List (Text × Text)
unfolding select_from
select_forwardable_headers headers allowlist =
    let allow = normalize_forward_allowlist allowlist in
    if is_empty_list allow then [] else select_from allow headers []

-- `byLowercaseName` of processDelivery.ts.
lower_from : List (Text × Text) → List (Text × Text) → List (Text × Text)
lower_from [] result = result
lower_from ((name, value) ∷ headers) result = lower_from headers (put (to_lower name) value result)

unfoldable pub by_lowercase_name : List (Text × Text) → List (Text × Text)
unfolding lower_from
by_lowercase_name headers = lower_from headers []

-- The headers of one Attempt: relayed ones, then the Endpoint's, then the content type.
unfoldable pub attempt_headers :
    List (Text × HeaderValue) → List Text → List (Text × Text) → Text → List (Text × Text)
attempt_headers stored allowlist endpoint_headers content_type =
    put (codes "content-type") content_type (
      assign (assign [] (by_lowercase_name (select_forwardable_headers stored allowlist)))
        (by_lowercase_name endpoint_headers))
