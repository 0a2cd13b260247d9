-- ===== src/Headers/Stored.antt =====
-- What ingest keeps of the inbound headers.
use webhook_broadcast.Base.{
  true, ◌&&◌, Option, none, some, List, [], ◌∷◌, ◌++◌, map, ◌≡◌, arith, Text, text_eq, text_eq_iff,
  text_eq_refl, has_text, has_text-append, has_text-distinct_from, to_lower, to_lower_idem, get,
  get-put, IsObject, if◌then◌else◌,
}
use webhook_broadcast.Store.Rows.{HeaderValue}
use webhook_broadcast.Headers.{
  is_stored, filter_entry, filter_from, filter_headers, merge_ingest_header_denylist,
  default_ingest_header_denylist,
}

abbrev joined {ℓ} : {A : Type ℓ} → Option (Option A) → Option A
joined none = none
joined (some o) = o

abbrev first {ℓ} : {A : Type ℓ} → Option A → Option A → Option A
first none b = b
first (some a) b = some a

get-filter_entry :
    (allow deny : List Text) (k key : Text) (value : Option HeaderValue)
    (result : List (Text × HeaderValue))
    → get k (filter_entry allow deny key value result) ≡ (
        if text_eq key k && is_stored allow deny k
        then first value (get k result)
        else get k result)
unfolding filter_entry
get-filter_entry allow deny k key none result = ground arith
get-filter_entry allow deny k key (some value) result =
    ground (arith, get-put k key value result, text_eq_iff key k)

get-filter_from :
    (allow deny : List Text) (k : Text) (headers : List (Text × Option HeaderValue))
    (result : List (Text × HeaderValue))
    → IsObject headers
    → get k (filter_from allow deny headers result) ≡ (
        if is_stored allow deny k
        then first (joined (get k headers)) (get k result)
        else get k result)
unfolding filter_from get
get-filter_from allow deny k [] result h = ground arith
get-filter_from allow deny k ((key, value) ∷ headers) result h = ground (
  arith,
  get-filter_from allow deny k headers (filter_entry allow deny key value result) h.1,
  get-filter_entry allow deny k key value result,
  text_eq_iff key k,
)

-- A stored header is an inbound one with its exact value: it is kept where its name, in any case, is
-- not on the denylist and the allowlist is empty or names it, and is otherwise absent.
get-filter_headers :
    (headers : List (Text × Option HeaderValue)) (allowlist denylist : List Text) (k : Text)
    → IsObject headers
    → get k (filter_headers headers allowlist denylist) ≡ (
        if is_stored (map to_lower allowlist) (map to_lower denylist) k
        then joined (get k headers)
        else none)
unfolding filter_headers get
get-filter_headers headers allowlist denylist k h =
    ground (arith, get-filter_from (map to_lower allowlist) (map to_lower denylist) k headers [] h)

-- An entry of a denylist denies its name in any case.
has_text-map_lower :
    (s : Text) (xs : List Text)
    → has_text s xs ≡ true
    → has_text (to_lower s) (map to_lower xs) ≡ true
unfolding has_text
has_text-map_lower s [] h = ground arith
has_text-map_lower s (x ∷ xs) h =
    ground (arith, has_text-map_lower s xs, text_eq_iff x s, text_eq_refl (to_lower s))

-- Whatever the two configured lists say, and however the sender spells the name, a header of the
-- default denylist is not stored.
pub default_denylist_not_stored :
    (headers : List (Text × Option HeaderValue)) (allowlist env_denylist : List Text) (k : Text)
    → IsObject headers
    → has_text (to_lower k) default_ingest_header_denylist ≡ true
    → get k (filter_headers headers allowlist (merge_ingest_header_denylist env_denylist)) ≡ none
unfolding merge_ingest_header_denylist is_stored
default_denylist_not_stored headers allowlist env_denylist k h denied =
    let deny = merge_ingest_header_denylist env_denylist in
    ground (
      arith,
      get-filter_headers headers allowlist deny k h,
      has_text-map_lower (to_lower k) deny,
      has_text-distinct_from (to_lower k) [] (default_ingest_header_denylist ++ env_denylist),
      has_text-append (to_lower k) default_ingest_header_denylist env_denylist,
      to_lower_idem k,
    )
