-- ===== src/View/Rule.antt =====
-- ViewRule (view/rule.py). `lru_cache` returns what the cached call returned, and a rule is immutable.
use powergslb.Base.{
  Bool, true, false, ◌&&◌, List, [], ◌∷◌, Option, none, some, ◌==◌, if◌then◌else◌, any, is_empty,
  Text, text_eq, Result, ok, err, value_error, ◌>>=◌,
}
use powergslb.Client.{Version, v4, v6, IpAddress, IpNetwork, ClientGeo, ClientContext}
use powergslb.View.Geo.{country, continent, GeoToken, Casing, parse_geo_token, GeoReader, lookup}
use powergslb.View.Split.{split}

-- netaddr: `IPNetwork(token)`, `none` where it raises `AddrFormatError`, and `ip in network`.
pub record Netaddr : Type 0 where
  pub parse_network : Text → Option IpNetwork
  pub contains : IpNetwork → IpAddress → Bool

pub record ViewRule : Type 0 where
  pub cidrs : List IpNetwork
  pub geos : List GeoToken
  pub matches_all : Bool

abbrev pub is_version : Version → Version → Bool
is_version v4 v4 = true
is_version v6 v6 = true
is_version v4 v6 = false
is_version v6 v4 = false

-- A network of that family with prefix length 0 is among the networks.
abbrev pub spans : Version → List IpNetwork → Bool
spans v = any (λ cidr. cidr.prefixlen == 0 && is_version v cidr.ip.version)

-- `ViewRule(cidrs, geos)` with `__post_init__`.
unfoldable pub view_rule : List IpNetwork → List GeoToken → ViewRule
view_rule cidrs geos = record {
  cidrs = cidrs;
  geos = geos;
  matches_all = spans v4 cidrs && spans v6 cidrs;
}

-- The networks and the selectors read so far.
abbrev pub Parsed : Type 0
Parsed = List IpNetwork × List GeoToken

-- The `except` clause of the loop: `AddrFormatError` becomes a `ValueError`.
abbrev pub network_or_raise : Option IpNetwork → Result IpNetwork
network_or_raise none = err value_error
network_or_raise (some network) = ok network

-- One token, by what it parses to as a selector and as a network, in front of those after it.
abbrev pub add_token : Result (Option GeoToken) → Option IpNetwork → Result Parsed → Result Parsed
add_token (err e) cidr later = err e
add_token (ok none) cidr later = do
  network ← network_or_raise cidr
  (cidrs, geos) ← later
  ok (network ∷ cidrs, geos)
add_token (ok (some geo)) cidr later = do (cidrs, geos) ← later; ok (cidrs, geo ∷ geos)

module _ (netaddr : Netaddr) (casing : Casing) where
  -- The loop over the tokens; the first bad one raises.
  unfoldable pub parse_tokens : List Text → Result Parsed
  parse_tokens [] = ok ([], [])
  parse_tokens (token ∷ tokens) =
      add_token (parse_geo_token casing token) (netaddr.parse_network token) (parse_tokens tokens)

  -- `ViewRule.resolve`
  unfoldable pub resolve : Text → Result ViewRule
  unfolding parse_tokens
  resolve rule =
      let tokens = split rule in
      let parsed = (do (cidrs, geos) ← parse_tokens tokens; ok (view_rule cidrs geos)) in
      if is_empty tokens then err value_error else parsed

-- `value == geo.country`
abbrev pub is_value : Text → Option Text → Bool
is_value value none = false
is_value value (some known) = text_eq value known

abbrev pub token_matches : ClientGeo → GeoToken → Bool
token_matches geo (country, value) = is_value value geo.country
token_matches geo (continent, value) = is_value value geo.continent

abbrev pub geo_matches : List GeoToken → Option ClientGeo → Bool
geo_matches geos none = false
geo_matches geos (some geo) = any (token_matches geo) geos

-- `context.geo` after it was resolved on demand.
abbrev pub resolved_geo : Option GeoReader → IpAddress → Option ClientGeo → Option ClientGeo
resolved_geo geoip ip (some geo) = some geo
resolved_geo none ip none = none
resolved_geo (some reader) ip none = some (lookup reader ip)

unfoldable pub resolve_geo : Option GeoReader → ClientContext → ClientContext
unfolding lookup
resolve_geo geoip context = record context { geo = resolved_geo geoip context.ip context.geo }

-- `ViewRule.matches`, with the context that it leaves.
unfoldable pub matches :
    Netaddr → Option GeoReader → ViewRule → ClientContext → Bool × ClientContext
unfolding resolve_geo
matches netaddr geoip rule context =
    let resolved = resolve_geo geoip context in
    if rule.matches_all
    then (true, context)
    else if any (λ cidr. netaddr.contains cidr context.ip) rule.cidrs
    then (true, context)
    else if is_empty rule.geos
    then (false, context)
    else (geo_matches rule.geos resolved.geo, resolved)
