-- ===== src/EndpointUrl/Ranges.antt =====
-- packages/contract/src/endpointUrl.ts: the blocked IPv4 hosts as ranges of 32-bit addresses.
use webhook_broadcast.Base.{
  ℕ, ◌+◌, ◌*◌, ◌-◌, ◌^◌, ◌<◌, ◌≡◌, arith, Bool, ◌&&◌, some, List, [], ◌∷◌, Text, any, leb, ltb,
  ◌==◌,
}
use webhook_broadcast.EndpointUrl.{
  NetRuntime, Octets, parse_ipv4_octets, is_blocked_ipv4, blocked_octets,
}

-- The address range `base/length` of CIDR notation.
pub record Cidr : Type 0 where
  pub base : ℕ
  pub length : ℕ

-- The octets of an address as one number.
abbrev pub address : Octets → ℕ
address o = ((o.first * 256 + o.second) * 256 + o.third) * 256 + o.fourth

abbrev pub quad : ℕ → ℕ → ℕ → ℕ → Octets
quad a b c d = record { first = a; second = b; third = c; fourth = d }

unfoldable pub in_range : ℕ → Cidr → Bool
in_range n r = leb r.base n && ltb n (r.base + 2 ^ (32 - r.length))

abbrev range : ℕ → ℕ → ℕ → Cidr
range a b length = record { base = address (quad a b 0 0); length = length }

-- Private use, loopback, link-local, "this network" and shared address space.
abbrev pub private_ranges : List Cidr
private_ranges =
    range 10 0 8
    ∷ range 172 16 12
    ∷ range 192 168 16
    ∷ range 127 0 8
    ∷ range 169 254 16
    ∷ range 0 0 8
    ∷ range 100 64 10
    ∷ []

pub record AreOctets (o : Octets) : Type 0 where
  pub first-Fits : o.first < 256
  pub second-Fits : o.second < 256
  pub third-Fits : o.third < 256
  pub fourth-Fits : o.fourth < 256

module _ (a b c d : ℕ) (hb : b < 256) (hc : c < 256) (hd : d < 256) where
  -- A range of length 8 holds the addresses with its first octet.
  in_range_8 : (x : ℕ) → in_range (address (quad a b c d)) (range x 0 8) ≡ (a == x)
  unfolding in_range
  in_range_8 x = ground arith

  -- A range of length 16 holds the addresses with its first two octets.
  in_range_16 :
      (x y : ℕ) → y < 256 → in_range (address (quad a b c d)) (range x y 16) ≡ (a == x && b == y)
  unfolding in_range
  in_range_16 x y h = ground arith

  in_range_172 :
      in_range (address (quad a b c d)) (range 172 16 12) ≡ (a == 172 && leb 16 b && leb b 31)
  unfolding in_range
  in_range_172 = ground arith

  in_range_100 :
      in_range (address (quad a b c d)) (range 100 64 10) ≡ (a == 100 && leb 64 b && leb b 127)
  unfolding in_range
  in_range_100 = ground arith

  blocked_octets-ranges :
      blocked_octets (some (quad a b c d)) ≡ any (in_range (address (quad a b c d))) private_ranges
  unfolding blocked_octets
  blocked_octets-ranges =
      rw
        (
          in_range_8 10,
          in_range_172,
          in_range_16 192 168 (omega arith),
          in_range_8 127,
          in_range_16 169 254 (omega arith),
          in_range_8 0,
          in_range_100,
        )
        (ground arith)

-- The four parts of the host are numbers below 256 to the runtime.
pub record IsIpv4 (net : NetRuntime) (host : Text) (o : Octets) : Type 0 where
  pub octets_read : parse_ipv4_octets net host ≡ some o
  pub octets_fit : AreOctets o

-- A host of four octets is blocked exactly if its address is in one of the private ranges.
pub is_blocked_ipv4-ranges :
    (net : NetRuntime) (host : Text) (o : Octets)
    → IsIpv4 net host o
    → is_blocked_ipv4 net host ≡ any (in_range (address o)) private_ranges
unfolding is_blocked_ipv4
is_blocked_ipv4-ranges net host o h = rw (h.octets_read) (
    blocked_octets-ranges o.first o.second o.third o.fourth h.octets_fit.second-Fits
      h.octets_fit.third-Fits h.octets_fit.fourth-Fits)
