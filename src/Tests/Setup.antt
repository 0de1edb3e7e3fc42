-- ===== src/Tests/Setup.antt =====
-- Test data, and stand-ins for the libraries.
use powergslb.Base.{
  ℕ, ◌+◌, ◌-◌, ◌/◌, ◌^◌, Bool, ◌&&◌, ◌||◌, ◌==◌, ◌≡◌, refl, true, [], ◌∷◌, map, Option, none, some,
  arith, leb, if◌then◌else◌, Text, codes, text_eq, Result, ok, err, value_error,
}
use powergslb.Base.Bytes.{Bytes}
use powergslb.Base.Values.{Value, dict, str, end, field}
use powergslb.Client.{Version, v4, v6, IpAddress, IpNetwork, ClientContext}
use powergslb.Monitor.{StatusRegistry}
use powergslb.Random.{Draws}
use powergslb.Row.{Row}
use powergslb.Routing.Sticky.{width}
use powergslb.Server.PowerDns.{Setting, Chance}
use powergslb.View.{Netaddr, Casing, is_version}
use powergslb.View.Matching.{SpansFamily}

-- A digest of one byte.
abbrev pub digest : Bytes → Bytes
digest [] = []
digest (b ∷ []) = b ∷ []
digest (b ∷ c ∷ bytes) = digest (c ∷ bytes)

abbrev pub everywhere : Text
everywhere = codes "0.0.0.0/0 ::/0"

abbrev pub record_of : ℕ → ℕ → Text → Text → Text → Row
record_of id weight content policy_json rule = record {
  qname = codes "www";
  qtype = codes "A";
  ttl = 60;
  policy_json = policy_json;
  weight = weight;
  id = id;
  content = content;
  rule = rule;
}

abbrev pub east : Row
east = record_of 1 5 (codes "e") (codes "rr") everywhere

abbrev pub west : Row
west = record_of 2 7 (codes "w") (codes "rr") everywhere

abbrev pub inner : Row
inner = record_of 3 1 (codes "i") (codes "rr") (codes "10.0.0.0/8")

abbrev pub sticky : Row
sticky = record_of 4 1 (codes "s") (codes "sh") everywhere

abbrev pub address : ℕ → IpAddress
address value = record { version = v4; value = value }

abbrev pub network : Version → ℕ → ℕ → IpNetwork
network v value prefixlen = record {
  ip = record { version = v; value = value };
  prefixlen = prefixlen;
}

abbrev pub known_network : Text → Option IpNetwork
known_network token =
    if text_eq token (codes "0.0.0.0/0")
    then some (network v4 0 0)
    else if text_eq token (codes "::/0")
    then some (network v6 0 0)
    else if text_eq token (codes "10.0.0.0/8")
    then some (network v4 167772160 8)
    else none

abbrev pub contains : IpNetwork → IpAddress → Bool
contains n ip =
    let block = 2 ^ (width n.ip.version - n.prefixlen) in
    is_version n.ip.version ip.version
    && (n.prefixlen == 0 || n.ip.value / block == ip.value / block)

abbrev pub netaddr : Netaddr
netaddr = record { parse_network = known_network; contains = contains }

pub netaddr-SpansFamily : SpansFamily netaddr
netaddr-SpansFamily = record {
  holds = λ n ip e v. ground (arith, e, is_version_self n.ip.version, v);
}
  where
    is_version_self : (v : Version) → is_version v v ≡ true
    is_version_self v4 = refl
    is_version_self v6 = refl

abbrev pub casing : Casing
casing = record {
  lower = map (λ c. if leb b'A' c && leb c b'Z' then c + 32 else c);
  upper = map (λ c. if leb b'a' c && leb c b'z' then c - 32 else c);
}

abbrev pub round_robin_json : Value
round_robin_json = dict (field (codes "type") (str (codes "round-robin")) end)

abbrev pub sticky_json : Value
sticky_json = dict (field (codes "type") (str (codes "sticky-hash")) end)

abbrev pub loads : Text → Result Value
loads text =
    if text_eq text (codes "rr")
    then ok round_robin_json
    else if text_eq text (codes "sh")
    then ok sticky_json
    else err value_error

abbrev pub draws : Draws
draws n = n

abbrev pub chance : Chance
chance qtype = draws

-- The content id 3 is down.
abbrev pub registry : StatusRegistry
registry = record { status = 3 ∷ [] }

abbrev pub setting : Setting
setting = record {
  netaddr = netaddr;
  casing = casing;
  geoip = none;
  loads = loads;
  blake2b = digest;
  registry = registry;
}

abbrev pub client : ℕ → ℕ → ClientContext
client value prefixlen = record { geo = none; ip = address value; prefixlen = prefixlen }
