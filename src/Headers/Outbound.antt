-- ===== src/Headers/Outbound.antt =====
-- What a worker sends: the relayed headers, and how the three sources of a header combine.
use mathlib.Core.Option
use webhook_broadcast.Base.{
  false, none, some, List, [], ◌∷◌, ◌≡◌, refl, ◌≢◌, arith, Text, codes, text_eq, text_eq_iff,
  text_eq_refl, has_text, to_lower, to_lower_idem, get, put, assign, get-put, get-assign, or_else,
  IsObject, put-IsObject, if◌then◌else◌,
}
use webhook_broadcast.Store.Rows.{HeaderValue}
use webhook_broadcast.Headers.{
  header_text, is_forwarded, select_from, select_forwardable_headers, normalize_forward_allowlist,
  lower_from, by_lowercase_name, attempt_headers,
}

get-select_from :
    (allow : List Text) (k : Text) (headers : List (Text × HeaderValue))
    (result : List (Text × Text))
    → IsObject headers
    → get k (select_from allow headers result) ≡ (
        if is_forwarded allow k
        then or_else (Option.map header_text (get k headers)) (get k result)
        else get k result)
unfolding select_from get
get-select_from allow k [] result h = ground arith
get-select_from allow k ((key, value) ∷ headers) result h =
    let next = if is_forwarded allow key then put key (header_text value) result else result in
    ground (
      arith,
      get-select_from allow k headers next h.1,
      get-put k key (header_text value) result,
      text_eq_iff key k,
    )

is_forwarded_none : (k : Text) → is_forwarded [] k ≡ false
unfolding is_forwarded has_text
is_forwarded_none k = refl

-- A stored header is relayed, its values joined, where the Channel's allow-list names it in any case
-- and it is not `authorization`; nothing else is.
pub get-select_forwardable_headers :
    (headers : List (Text × HeaderValue)) (allowlist : List Text) (k : Text)
    → IsObject headers
    → get k (select_forwardable_headers headers allowlist) ≡ (
        if is_forwarded (normalize_forward_allowlist allowlist) k
        then Option.map header_text (get k headers)
        else none)
unfolding select_forwardable_headers get
get-select_forwardable_headers headers allowlist k h = ground (
  arith,
  get-select_from (normalize_forward_allowlist allowlist) k headers [] h,
  is_forwarded_none k,
)

lower_from-IsObject :
    (headers result : List (Text × Text)) → IsObject result → IsObject (lower_from headers result)
unfolding lower_from
lower_from-IsObject [] result h = h
lower_from-IsObject ((name, value) ∷ headers) result h =
    lower_from-IsObject headers (put (to_lower name) value result)
      (put-IsObject (to_lower name) value result h)

by_lowercase_name-IsObject : (headers : List (Text × Text)) → IsObject (by_lowercase_name headers)
unfolding by_lowercase_name
by_lowercase_name-IsObject headers = lower_from-IsObject headers [] tt

get-lower_from_other :
    (k : Text) (headers result : List (Text × Text))
    → to_lower k ≢ k
    → get k (lower_from headers result) ≡ get k result
unfolding lower_from
get-lower_from_other k [] result h = refl
get-lower_from_other k ((name, value) ∷ headers) result h = ground (
  arith,
  get-lower_from_other k headers (put (to_lower name) value result) h,
  get-put k (to_lower name) value result,
  text_eq_iff (to_lower name) k,
  to_lower_idem name,
)

-- Only names whose lower-case form is `k` can set `k`.
get-lower_from_absent :
    (k : Text) (headers result : List (Text × Text))
    → ((name : Text) → to_lower name ≡ k → get name headers ≡ none)
    → get k (lower_from headers result) ≡ get k result
unfolding lower_from get
get-lower_from_absent k [] result h = refl
get-lower_from_absent k ((name, value) ∷ headers) result h =
    let other : (j : Text) → to_lower j ≡ k → get j headers ≡ none =
      λ j e. ground (arith, h j e, text_eq_iff name j) in
    ground (
      arith,
      get-lower_from_absent k headers (put (to_lower name) value result) other,
      get-put k (to_lower name) value result,
      text_eq_iff (to_lower name) k,
      h name,
      text_eq_refl name,
    )

abbrev authorization : Text
authorization = codes "authorization"

abbrev content_type_name : Text
content_type_name = codes "content-type"

not_forwarded :
    (allow : List Text) (name : Text)
    → to_lower name ≡ authorization
    → is_forwarded allow name ≡ false
unfolding is_forwarded has_text
not_forwarded allow name e = ground (arith, text_eq_refl authorization)

-- What the loop over the relayed headers leaves at `authorization`.
relayed_authorization :
    (headers : List (Text × HeaderValue)) (allowlist : List Text)
    → IsObject headers
    → get authorization (by_lowercase_name (select_forwardable_headers headers allowlist)) ≡ none
unfolding by_lowercase_name get
relayed_authorization headers allowlist h =
    get-lower_from_absent authorization (select_forwardable_headers headers allowlist) [] λ name e.
      ground (
        arith,
        get-select_forwardable_headers headers allowlist name h,
        not_forwarded (normalize_forward_allowlist allowlist) name e,
      )

get-attempt_headers :
    (headers : List (Text × HeaderValue)) (allowlist : List Text) (own : List (Text × Text))
    (content_type k : Text)
    → get k (attempt_headers headers allowlist own content_type) ≡ (
        if text_eq content_type_name k
        then some content_type
        else or_else
            (get k (by_lowercase_name own))
            (get k (by_lowercase_name (select_forwardable_headers headers allowlist))))
unfolding attempt_headers get
get-attempt_headers headers allowlist own content_type k =
    let relayed = by_lowercase_name (select_forwardable_headers headers allowlist) in
    let mine = by_lowercase_name own in
    ground (
      arith,
      get-put k content_type_name content_type (assign (assign [] relayed) mine),
      get-assign k (assign [] relayed) mine (by_lowercase_name-IsObject own),
      get-assign k [] relayed
          (by_lowercase_name-IsObject (select_forwardable_headers headers allowlist)),
    )

to_lower-content_type_name : to_lower content_type_name ≡ content_type_name
unfolding to_lower
to_lower-content_type_name = refl

-- Precedence in the headers of one Attempt: the content type is the Broadcast's; any other name has
-- the Endpoint's value where it sets one, and else the relayed one; and a name that is not in lower
-- case is not sent, so that no second spelling of a name can be joined to it.
pub attempt_headers_precedence :
    (headers : List (Text × HeaderValue)) (allowlist : List Text) (own : List (Text × Text))
    (content_type : Text)
    → let sent = attempt_headers headers allowlist own content_type in
      (get content_type_name sent ≡ some content_type)
      × ((k value : Text)
          → k ≢ content_type_name
          → get k (by_lowercase_name own) ≡ some value
          → get k sent ≡ some value)
      × ((k : Text)
          → k ≢ content_type_name
          → get k (by_lowercase_name own) ≡ none
          → get k sent ≡ get k (by_lowercase_name (select_forwardable_headers headers allowlist)))
      × ((k : Text) → to_lower k ≢ k → get k sent ≡ none)
unfolding by_lowercase_name get
attempt_headers_precedence headers allowlist own content_type = (
  ground (
    arith,
    get-attempt_headers headers allowlist own content_type content_type_name,
    text_eq_refl content_type_name,
  ),
  λ k value other set. ground (
    arith,
    get-attempt_headers headers allowlist own content_type k,
    text_eq_iff content_type_name k,
  ),
  λ k other unset. ground (
    arith,
    get-attempt_headers headers allowlist own content_type k,
    text_eq_iff content_type_name k,
  ),
  λ k upper. ground (
    arith,
    get-attempt_headers headers allowlist own content_type k,
    get-lower_from_other k own [] upper,
    get-lower_from_other k (select_forwardable_headers headers allowlist) [] upper,
    text_eq_iff content_type_name k,
    to_lower-content_type_name,
    upper,
  ),
)

-- The Channel's ingest token never reaches an Endpoint: however the allow-list and the stored headers
-- spell it, `authorization` is sent only as the Endpoint's own headers set it.
pub authorization_not_relayed :
    (headers : List (Text × HeaderValue)) (allowlist : List Text) (own : List (Text × Text))
    (content_type : Text)
    → IsObject headers
    → get authorization (attempt_headers headers allowlist own content_type)
      ≡ get authorization (by_lowercase_name own)
authorization_not_relayed headers allowlist own content_type h = ground (
  arith,
  get-attempt_headers headers allowlist own content_type authorization,
  relayed_authorization headers allowlist h,
  text_eq_iff content_type_name authorization,
)
