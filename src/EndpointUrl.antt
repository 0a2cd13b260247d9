-- ===== src/EndpointUrl.antt =====
-- packages/contract/src/endpointUrl.ts: the URLs that an Endpoint may have. `new URL`, `isIP`, `lookup` and
-- `Number` are those of the runtime.
pub mod Ranges
pub mod Safe
use webhook_broadcast.Base.{
  ℕ, ◌+◌, Bool, true, false, not, ◌&&◌, ◌||◌, Option, none, some, List, [], ◌∷◌, Text, codes,
  text_eq, has_text, to_lower, split, starts_with, ends_with, drop, any, all, ◌==◌, leb,
  if◌then◌else◌,
}

-- The parts of a `URL` that the checks read.
pub record Url : Type 0 where
  pub protocol : Text
  pub username : Text
  pub password : Text
  pub hostname : Text

-- What the checks use of the runtime.
pub record NetRuntime : Type 0 where
  -- `none` where the constructor throws
  pub parse_url : Text → Option Url
  -- 4, 6, or 0 for what is no address
  pub is_ip : Text → ℕ
  -- `none` where the lookup throws
  pub lookup : Text → Option (List Text)
  -- `Number(text)`, where it is a whole number that is not negative
  pub number : Text → Option ℕ

abbrev blocked_hostnames : List Text
blocked_hostnames =
    codes "localhost"
    ∷ codes "metadata"
    ∷ codes "metadata.google.internal"
    ∷ codes "metadata.google"
    ∷ []

-- The four octets.
pub record Octets : Type 0 where
  pub first : ℕ
  pub second : ℕ
  pub third : ℕ
  pub fourth : ℕ

abbrev octet : Option ℕ → Option ℕ
octet none = none
octet (some n) = if leb n 255 then some n else none

abbrev four : Option ℕ → Option ℕ → Option ℕ → Option ℕ → Option Octets
four (some a) (some b) (some c) (some d) =
    some record { first = a; second = b; third = c; fourth = d }
four _ _ _ _ = none

octets_of : (Text → Option ℕ) → List Text → Option Octets
octets_of number (a ∷ b ∷ c ∷ d ∷ []) =
    four (octet (number a)) (octet (number b)) (octet (number c)) (octet (number d))
octets_of number _ = none

unfoldable pub parse_ipv4_octets : NetRuntime → Text → Option Octets
unfolding octets_of
parse_ipv4_octets net host = octets_of net.number (split b'.' host)

blocked_octets : Option Octets → Bool
blocked_octets none = false
blocked_octets (some o) =
    o.first == 10
    || o.first == 172 && leb 16 o.second && leb o.second 31
    || o.first == 192 && o.second == 168
    || o.first == 127
    || o.first == 169 && o.second == 254
    || o.first == 0
    || o.first == 100 && leb 64 o.second && leb o.second 127

unfoldable pub is_blocked_ipv4 : NetRuntime → Text → Bool
unfolding blocked_octets
is_blocked_ipv4 net host = blocked_octets (parse_ipv4_octets net host)

unfoldable pub is_blocked_ipv6 : NetRuntime → Text → Bool
is_blocked_ipv6 net host =
    let normalized = to_lower host in
    let mapped = drop 7 normalized in
    if text_eq normalized (codes "::1") || text_eq normalized (codes "0:0:0:0:0:0:0:1")
    then true
    else if starts_with normalized (codes "fe80:")
    then true
    else if starts_with normalized (codes "fc") || starts_with normalized (codes "fd")
    then true
    else if starts_with normalized (codes "::ffff:") && net.is_ip mapped == 4
    then is_blocked_ipv4 net mapped
    else false

-- `replace(/\.$/, "")`
unfoldable pub strip_final_dot : Text → Text
strip_final_dot [] = []
strip_final_dot (c ∷ []) = if c == b'.' then [] else c ∷ []
strip_final_dot (c ∷ d ∷ s) = c ∷ strip_final_dot (d ∷ s)

unfoldable pub is_blocked_host : NetRuntime → Text → Bool
is_blocked_host net host =
    let normalized = strip_final_dot (to_lower host) in
    if has_text normalized blocked_hostnames
    then true
    else if ends_with normalized (codes ".localhost") || ends_with normalized (codes ".local")
    then true
    else if net.is_ip normalized == 4
    then is_blocked_ipv4 net normalized
    else if net.is_ip normalized == 6
    then is_blocked_ipv6 net normalized
    else false

-- The messages of `UnsafeEndpointUrlError`, and the error of `lookup`.
pub data UrlCheck : Type 0 where
  safe invalid_url not_https embeds_credentials blocked_host unresolved blocked_address
        lookup_failed :
      UrlCheck

abbrev is_empty : Text → Bool
is_empty [] = true
is_empty (c ∷ s) = false

check_records : NetRuntime → Option (List Text) → UrlCheck
check_records net none = lookup_failed
check_records net (some []) = unresolved
check_records net (some (r ∷ rs)) =
    if any (is_blocked_host net) (r ∷ rs) then blocked_address else safe

unfoldable pub assert_allowed_protocol : Url → UrlCheck
assert_allowed_protocol url =
    if not (text_eq url.protocol (codes "https:"))
    then not_https
    else if not (is_empty url.username && is_empty url.password)
    then embeds_credentials
    else safe

check_resolved : NetRuntime → Url → UrlCheck
unfolding check_records
check_resolved net url =
    if is_blocked_host net url.hostname
    then blocked_host
    else if net.is_ip url.hostname == 0
    then check_records net (net.lookup url.hostname)
    else safe

-- An earlier check that throws decides.
abbrev and_then : UrlCheck → UrlCheck → UrlCheck
and_then safe following = following
and_then refusal _ = refusal

check_url : NetRuntime → Option Url → UrlCheck
unfolding check_resolved
check_url net none = invalid_url
check_url net (some url) = and_then (assert_allowed_protocol url) (check_resolved net url)

unfoldable pub assert_safe_endpoint_url : NetRuntime → Text → UrlCheck
unfolding check_url
assert_safe_endpoint_url net s = check_url net (net.parse_url s)
