-- ===== src/View/Matching.antt =====
-- `matches` against its specification: a client matches when one token admits it.
use powergslb.Base.{
  ◌≡◌, refl, Bool, true, ◌&&◌, ◌||◌, List, [], ◌∷◌, Option, arith, any, Bool-cases, inl, inr, ◌==◌,
}
use powergslb.Client.{Version, v4, v6, IpAddress, IpNetwork, ClientGeo, ClientContext}
use powergslb.View.Geo.{GeoToken, GeoReader}
use powergslb.View.Rule.{
  Netaddr, ViewRule, view_rule, spans, geo_matches, resolved_geo, matches, is_version,
}

-- What netaddr documents of a network with prefix length 0: it holds every address of its family.
pub record SpansFamily (netaddr : Netaddr) : Type 0 where
  pub holds :
      (network : IpNetwork) (ip : IpAddress)
      → network.prefixlen ≡ 0
      → network.ip.version ≡ ip.version
      → netaddr.contains network ip ≡ true

-- The client's geolocation, as it is known or would be looked up.
abbrev pub client_geo : Option GeoReader → ClientContext → Option ClientGeo
client_geo geoip context = resolved_geo geoip context.ip context.geo

-- Some CIDR holds the client, or some selector names its geolocation.
abbrev pub admits : Netaddr → Option GeoReader → ViewRule → ClientContext → Bool
admits netaddr geoip rule context =
    any (λ cidr. netaddr.contains cidr context.ip) rule.cidrs
    || geo_matches rule.geos (client_geo geoip context)

is_version→eq : (v w : Version) → is_version v w ≡ true → w ≡ v
is_version→eq v4 v4 h = refl
is_version→eq v4 v6 h = cc
is_version→eq v6 v4 h = cc
is_version→eq v6 v6 h = refl

spans-any :
    (netaddr : Netaddr) (cidrs : List IpNetwork) (ip : IpAddress)
    → SpansFamily netaddr
    → spans ip.version cidrs ≡ true
    → any (λ cidr. netaddr.contains cidr ip) cidrs ≡ true
spans-any netaddr [] ip laws h = cc
spans-any netaddr (cidr ∷ cidrs) ip laws h =
    elim (Bool-cases (cidr.prefixlen == 0 && is_version ip.version cidr.ip.version)) [
      | inl e ↦ ground (arith, laws.holds cidr ip, is_version→eq ip.version cidr.ip.version)
      | inr e ↦ ground (arith, spans-any netaddr cidrs ip laws)
    ]

spans_both :
    (v : Version) (cidrs : List IpNetwork)
    → (spans v4 cidrs && spans v6 cidrs) ≡ true
    → spans v cidrs ≡ true
spans_both v4 cidrs h = ground arith
spans_both v6 cidrs h = ground arith

-- The whole of `matches`, given that a network of prefix length 0 holds all addresses of its
-- family: its verdict is that of the tokens, whatever shortcut it takes, and the context
-- that it leaves has the same address and the same geolocation, known or yet to be looked up.
pub matches-eq-admits :
    (netaddr : Netaddr) (geoip : Option GeoReader) (cidrs : List IpNetwork) (geos : List GeoToken)
    (context : ClientContext)
    → SpansFamily netaddr
    → let rule = view_rule cidrs geos in
      let (verdict, after) = matches netaddr geoip rule context in
      (verdict ≡ admits netaddr geoip rule context)
      × (after.ip ≡ context.ip)
      × (after.prefixlen ≡ context.prefixlen)
      × (client_geo geoip after ≡ client_geo geoip context)
unfolding matches view_rule
matches-eq-admits netaddr geoip cidrs [] context laws =
    ground (arith, spans-any netaddr cidrs context.ip laws, spans_both context.ip.version cidrs)
matches-eq-admits netaddr geoip cidrs (g ∷ geos) context laws =
    ground (arith, spans-any netaddr cidrs context.ip laws, spans_both context.ip.version cidrs)
