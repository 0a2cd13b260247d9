-- ===== src/Witnesses/Urls.antt =====
-- Endpoint URLs and chains of errors at concrete inputs.
use webhook_broadcast.Base.{
  ℕ, ◌+◌, ◌*◌, ◌-◌, ◌≡◌, ◌↔◌, refl, arith, false, Option, none, some, [], ◌∷◌, Text, codes, text_eq,
  has_text, to_lower, split, split_from, starts_with, ends_with, any, if◌then◌else◌,
}
use webhook_broadcast.EndpointUrl.{
  Url, NetRuntime, Octets, safe, parse_ipv4_octets, is_blocked_ipv4, is_blocked_host,
  strip_final_dot, assert_allowed_protocol, assert_safe_endpoint_url,
}
use webhook_broadcast.EndpointUrl.Ranges.{
  address, quad, in_range, private_ranges, IsIpv4, is_blocked_ipv4-ranges,
}
use webhook_broadcast.EndpointUrl.Safe.{
  IsSafe, PrintsIpv4, Reaches, resolved, assert_safe_endpoint_url_iff, safe_endpoint_addresses,
}
use webhook_broadcast.ErrorChain.{Value, reference, Heap, ErrorObject}

-- The number that decimal digits write, after `n`.
unfoldable pub number_from : ℕ → Text → Option ℕ
number_from n [] = some n
number_from n (c ∷ s) = number_from (n * 10 + (c - 48)) s

abbrev pub url : Url
url = record {
  protocol = codes "https:";
  username = [];
  password = [];
  hostname = codes "hooks.example";
}

-- One name, with one public address.
abbrev pub net : NetRuntime
net = record {
  parse_url = λ _. some url;
  is_ip = λ host. if text_eq host (codes "93.184.216.34") then 4 else 0;
  lookup = λ _. some (codes "93.184.216.34" ∷ []);
  number = number_from 0;
}

abbrev octets : Octets
octets = quad 93 184 216 34

is_ipv4 : IsIpv4 net (codes "93.184.216.34") octets
unfolding parse_ipv4_octets split split_from number_from
is_ipv4 = record {
  octets_read = refl;
  octets_fit = record {
    first-Fits = omega arith;
    second-Fits = omega arith;
    third-Fits = omega arith;
    fourth-Fits = omega arith;
  };
}

is_blocked_ipv4-ranges_example :
    is_blocked_ipv4 net (codes "93.184.216.34") ≡ any (in_range (address octets)) private_ranges
is_blocked_ipv4-ranges_example = is_blocked_ipv4-ranges net (codes "93.184.216.34") octets is_ipv4

assert_safe_endpoint_url_iff_example :
    (assert_safe_endpoint_url net (codes "https://hooks.example/in") ≡ safe)
    ↔ IsSafe net (codes "https://hooks.example/in")
assert_safe_endpoint_url_iff_example =
    assert_safe_endpoint_url_iff net (codes "https://hooks.example/in")

accepted : assert_safe_endpoint_url net (codes "https://hooks.example/in") ≡ safe
unfolding assert_safe_endpoint_url assert_allowed_protocol is_blocked_host to_lower has_text text_eq
    strip_final_dot ends_with starts_with is_blocked_ipv4 parse_ipv4_octets split split_from
    number_from
accepted = refl

prints : PrintsIpv4 net (codes "93.184.216.34") octets
unfolding to_lower strip_final_dot text_eq
prints = record { in_lower_case = refl; no_final_dot = refl; is_ip_4 = refl; of_octets = is_ipv4 }

reaches : Reaches net (codes "hooks.example") (codes "93.184.216.34")
unfolding has_text text_eq
reaches = resolved (codes "93.184.216.34") (codes "93.184.216.34" ∷ []) refl refl refl

safe_endpoint_addresses_example : any (in_range (address octets)) private_ranges ≡ false
safe_endpoint_addresses_example =
    safe_endpoint_addresses net (codes "https://hooks.example/in") url (codes "93.184.216.34")
      octets refl accepted reaches prints

abbrev error : Text → Value → ErrorObject
error message cause = record {
  is_function = false;
  message = some message;
  name = some (codes "Error");
  code = none;
  severity = none;
  detail = none;
  hint = none;
  cause = cause;
  errors = none;
  stringified = none;
}

-- Two errors, each the cause of the other.
heap : Heap
heap n =
    if text_eq (n ∷ []) (0 ∷ [])
    then error (codes "first") (reference 1)
    else error (codes "second") (reference 0)
