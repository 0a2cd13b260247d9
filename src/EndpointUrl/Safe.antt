-- ===== src/EndpointUrl/Safe.antt =====
-- packages/contract/src/endpointUrl.ts: which URLs are let through.
use webhook_broadcast.Base.{
  ◌≡◌, ◌≢◌, ◌↔◌, ◌⊎◌, inl, inr, arith, refl, sym, subst, ◌∙◌, Bool, true, false, Option, none, some,
  List, [], ◌∷◌, Text, codes, text_eq, text_eq_iff, has_text, to_lower, any, ◌==◌, Bool-cases,
}
use webhook_broadcast.EndpointUrl.{
  Url, NetRuntime, Octets, safe, assert_safe_endpoint_url, assert_allowed_protocol, is_blocked_host,
  is_blocked_ipv4, strip_final_dot, check_url, check_resolved, check_records, is_empty,
}
use webhook_broadcast.EndpointUrl.Ranges.{
  IsIpv4, is_blocked_ipv4-ranges, in_range, address, private_ranges,
}

-- A name resolves to addresses of which none is blocked.
pub record ResolvesSafely (net : NetRuntime) (host : Text) : Type 0 where
  pub first_address : Text
  pub more_addresses : List Text
  pub looked_up : net.lookup host ≡ some (first_address ∷ more_addresses)
  pub none_blocked : any (is_blocked_host net) (first_address ∷ more_addresses) ≡ false

pub record IsSafe (net : NetRuntime) (s : Text) : Type 0 where
  pub url : Url
  pub parsed : net.parse_url s ≡ some url
  pub over_https : url.protocol ≡ codes "https:"
  pub no_username : url.username ≡ []
  pub no_password : url.password ≡ []
  pub host_allowed : is_blocked_host net url.hostname ≡ false
  pub resolves : (net.is_ip url.hostname ≢ 0) ⊎ ResolvesSafely net url.hostname

is_empty_iff : (s : Text) → (is_empty s ≡ true) ↔ (s ≡ [])
is_empty_iff [] = (λ _. refl, λ _. refl)
is_empty_iff (c ∷ s) = (λ h. ground arith, λ h. ground arith)

assert_allowed_protocol-safe :
    (url : Url)
    → assert_allowed_protocol url ≡ safe
    → (url.protocol ≡ codes "https:") × (url.username ≡ []) × (url.password ≡ [])
unfolding assert_allowed_protocol
assert_allowed_protocol-safe url h = (
  (text_eq_iff url.protocol (codes "https:")).0 (ground arith),
  (is_empty_iff url.username).0 (ground arith),
  (is_empty_iff url.password).0 (ground arith),
)

safe-assert_allowed_protocol :
    (url : Url)
    → url.protocol ≡ codes "https:"
    → url.username ≡ []
    → url.password ≡ []
    → assert_allowed_protocol url ≡ safe
unfolding assert_allowed_protocol
safe-assert_allowed_protocol url p u w =
    rw
      (
        (text_eq_iff url.protocol (codes "https:")).1 p,
        (is_empty_iff url.username).1 u,
        (is_empty_iff url.password).1 w,
      )
      refl

check_records-safe :
    (net : NetRuntime) (host : Text) (found : Option (List Text))
    → net.lookup host ≡ found
    → check_records net found ≡ safe
    → ResolvesSafely net host
unfolding check_records
check_records-safe net host none e h = absurd (ground arith)
check_records-safe net host (some []) e h = absurd (ground arith)
check_records-safe net host (some (r ∷ rs)) e h = record {
  first_address = r;
  more_addresses = rs;
  looked_up = e;
  none_blocked = ground arith;
}

safe-check_records :
    (net : NetRuntime) (host : Text)
    → ResolvesSafely net host
    → check_records net (net.lookup host) ≡ safe
unfolding check_records
safe-check_records net host r = rw (r.looked_up, r.none_blocked) refl

check_resolved-safe :
    (net : NetRuntime) (url : Url)
    → check_resolved net url ≡ safe
    → (is_blocked_host net url.hostname ≡ false)
      × ((net.is_ip url.hostname ≢ 0) ⊎ ResolvesSafely net url.hostname)
unfolding check_resolved
check_resolved-safe net url h = elim (Bool-cases (is_blocked_host net url.hostname)) [
  | inl blocked ↦ absurd (ground arith)
  | inr allowed ↦ (
    allowed,
    elim (Bool-cases (net.is_ip url.hostname == 0)) [
      | inl name ↦ inr (check_records-safe net url.hostname _ refl (ground arith))
      | inr literal ↦ inl (λ zero_kind. ground arith)
    ],
  )
]

safe-check_resolved :
    (net : NetRuntime) (url : Url)
    → is_blocked_host net url.hostname ≡ false
    → (net.is_ip url.hostname ≢ 0) ⊎ ResolvesSafely net url.hostname
    → check_resolved net url ≡ safe
unfolding check_resolved
safe-check_resolved net url allowed (inl literal) = ground arith
safe-check_resolved net url allowed (inr r) = ground (arith, safe-check_records net url.hostname r)

check_url-IsSafe :
    (net : NetRuntime) (s : Text) (found : Option Url)
    → net.parse_url s ≡ found
    → check_url net found ≡ safe
    → IsSafe net s
unfolding check_url
check_url-IsSafe net s none e h = absurd (ground arith)
check_url-IsSafe net s (some url) e h =
    let first : assert_allowed_protocol url ≡ safe = ground arith in
    let rest : check_resolved net url ≡ safe = ground arith in
    let parts = assert_allowed_protocol-safe url first in
    record {
      url = url;
      parsed = e;
      over_https = parts.0;
      no_username = parts.1;
      no_password = parts.2;
      host_allowed = (check_resolved-safe net url rest).0;
      resolves = (check_resolved-safe net url rest).1;
    }

-- A URL is let through exactly if it parses, is over https and without credentials, its host is not
-- blocked, and the host is a literal address or resolves to at least one address and to none that is
-- blocked.
pub assert_safe_endpoint_url_iff :
    (net : NetRuntime) (s : Text) → (assert_safe_endpoint_url net s ≡ safe) ↔ IsSafe net s
unfolding assert_safe_endpoint_url check_url
assert_safe_endpoint_url_iff net s = (
  check_url-IsSafe net s (net.parse_url s) refl,
  λ h. rw (h.parsed) (
      rw (safe-assert_allowed_protocol h.url h.over_https h.no_username h.no_password)
        (safe-check_resolved net h.url h.host_allowed h.resolves)),
)

has_text-any :
    (p : Text → Bool) (t : Text) (ts : List Text)
    → has_text t ts ≡ true
    → any p ts ≡ false
    → p t ≡ false
unfolding has_text
has_text-any p t [] member h = absurd (ground arith)
has_text-any p t (u ∷ us) member h = elim (Bool-cases (text_eq u t)) [
  | inl same ↦ subst (λ (x : Text). p x ≡ false) ((text_eq_iff u t).0 same) (ground arith)
  | inr other ↦ has_text-any p t us (ground arith) (ground arith)
]

-- The runtime takes the text for an IPv4 address with the octets `o`, and it has no capitals and no
-- final dot.
pub record PrintsIpv4 (net : NetRuntime) (host : Text) (o : Octets) : Type 0 where
  pub in_lower_case : to_lower host ≡ host
  pub no_final_dot : strip_final_dot host ≡ host
  pub is_ip_4 : net.is_ip host ≡ 4
  pub of_octets : IsIpv4 net host o

is_blocked_ipv4-host :
    (net : NetRuntime) (host : Text) (o : Octets)
    → PrintsIpv4 net host o
    → is_blocked_ipv4 net host ≡ true
    → is_blocked_host net host ≡ true
unfolding is_blocked_host
is_blocked_ipv4-host net host o h blocked =
    rw (h.in_lower_case, h.no_final_dot, h.is_ip_4, blocked) (ground arith)

-- A literal IPv4 address that is not blocked is in no private range.
allowed_ipv4 :
    (net : NetRuntime) (host : Text) (o : Octets)
    → PrintsIpv4 net host o
    → is_blocked_host net host ≡ false
    → any (in_range (address o)) private_ranges ≡ false
allowed_ipv4 net host o h allowed = elim (Bool-cases (is_blocked_ipv4 net host)) [
  | inl blocked ↦ absurd (cc (is_blocked_ipv4-host net host o h blocked, allowed))
  | inr public ↦ sym (is_blocked_ipv4-ranges net host o h.of_octets) ∙ public
]

-- The addresses that a request to the host may go to.
pub data Reaches (net : NetRuntime) (host : Text) : Text → Type 0 where
  literal : net.is_ip host ≢ 0 → Reaches net host host
  resolved :
      (a : Text) (addresses : List Text)
      → net.is_ip host ≡ 0
      → net.lookup host ≡ some addresses
      → has_text a addresses ≡ true
      → Reaches net host a

not_blocked-reached :
    (net : NetRuntime) (host a : Text)
    → is_blocked_host net host ≡ false
    → (net.is_ip host ≢ 0) ⊎ ResolvesSafely net host
    → Reaches net host a
    → is_blocked_host net a ≡ false
not_blocked-reached net host a allowed resolves (literal _) = allowed
not_blocked-reached net host a allowed (inl number) (resolved _ rs name found member) =
    absurd (number name)
not_blocked-reached net host a allowed (inr r) (resolved _ rs name found member) =
    has_text-any (is_blocked_host net) a (r.first_address ∷ r.more_addresses)
      (subst (λ (l : List Text). has_text a l ≡ true) same member) r.none_blocked
  where
    same : rs ≡ r.first_address ∷ r.more_addresses
    same = ground (arith, sym found ∙ r.looked_up)

-- No IPv4 address that the host of an accepted URL stands for, itself or by the lookup that was made, is
-- in a private range: loopback, link-local with the metadata service, private use or shared space.
pub safe_endpoint_addresses :
    (net : NetRuntime) (s : Text) (url : Url) (a : Text) (o : Octets)
    → net.parse_url s ≡ some url
    → assert_safe_endpoint_url net s ≡ safe
    → Reaches net url.hostname a
    → PrintsIpv4 net a o
    → any (in_range (address o)) private_ranges ≡ false
safe_endpoint_addresses net s url a o parsed accepted reaches h = allowed_ipv4 net a o h (
    not_blocked-reached net found.url.hostname a found.host_allowed found.resolves
      (subst (λ (u : Url). Reaches net u.hostname a) same reaches))
  where
    found : IsSafe net s
    found = (assert_safe_endpoint_url_iff net s).0 accepted

    same : url ≡ found.url
    same = ground (arith, sym parsed ∙ found.parsed)
