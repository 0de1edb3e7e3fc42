-- ===== src/Tests/Views.antt =====
-- View rules at concrete clients.
use powergslb.Base.{◌≡◌, List, [], ◌∷◌, some, Option, codes, Text}
use powergslb.Client.{v4, IpNetwork}
use powergslb.View.{split, resolve, matches, view_rule, country, GeoToken, GeoReader, found}
use powergslb.View.Matching.{client_geo, admits, matches-eq-admits}
use powergslb.View.Accepting.{Accepts, resolve-Accepts}
use powergslb.Tests.Setup.{netaddr, netaddr-SpansFamily, casing, client, network}

abbrev geoip : Option GeoReader
geoip = some (some (λ ip. found (some (codes "FR")) (some (codes "EU"))))

abbrev cidrs : List IpNetwork
cidrs = network v4 167772160 8 ∷ []

abbrev geos : List GeoToken
geos = (country, codes "FR") ∷ []

matches-eq-admits_example :
    let rule = view_rule cidrs geos in
    let (verdict, after) = matches netaddr geoip rule (client 3232235776 24) in
    (verdict ≡ admits netaddr geoip rule (client 3232235776 24))
    × (after.ip ≡ (client 3232235776 24).ip)
    × (after.prefixlen ≡ (client 3232235776 24).prefixlen)
    × (client_geo geoip after ≡ client_geo geoip (client 3232235776 24))
matches-eq-admits_example =
    matches-eq-admits netaddr geoip cidrs geos (client 3232235776 24) netaddr-SpansFamily

abbrev rule : Text
rule = codes "10.0.0.0/8 country:fr"

resolve-Accepts_example : Accepts netaddr casing (split rule) (resolve netaddr casing rule)
resolve-Accepts_example = resolve-Accepts netaddr casing rule
