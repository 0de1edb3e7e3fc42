-- ===== src/Server/PowerDns/Views.antt =====
-- The view filter of `_select_records`, and the parting of what it keeps.
use powergslb.Base.{
  ◌≡◌, refl, sym, ◌∙◌, ap, subst, Bool, true, false, ◌&&◌, ◌||◌, not, List, [], ◌∷◌, arith, keep,
  is_empty, any, inl, inr, if◌then◌else◌, Text, Result, ok, err, value_error, Result-cases, Option,
}
use powergslb.Client.{IpNetwork, ClientContext}
use powergslb.Row.{Row}
use powergslb.Server.PowerDns.{Setting, rule_of, is_in_view, in_view, partition, matches_all_of}
use powergslb.View.{
  Netaddr, Casing, GeoToken, GeoReader, ViewRule, view_rule, resolve, split, geo_matches, matches,
}
use powergslb.View.Matching.{SpansFamily, client_geo, admits, matches-eq-admits}
use powergslb.View.Resolving.{resolve-eq, networks_of, selectors_of, all_good}

-- A view rule that `resolve` returns was made of networks and selectors.
abbrev Made : ViewRule → Type 0
Made rule = (cidrs : List IpNetwork) × (geos : List GeoToken) × (rule ≡ view_rule cidrs geos)

resolve-Made :
    (netaddr : Netaddr) (casing : Casing) (rule : Text) {r : ViewRule}
    → resolve netaddr casing rule ≡ ok r
    → Made r
resolve-Made netaddr casing rule {r} h =
    made (not (is_empty (split rule)) && all_good netaddr casing (split rule))
      (sym (resolve-eq netaddr casing rule) ∙ h)
  where
    made :
        (b : Bool)
        → (if b
            then ok (
                view_rule
                  (networks_of netaddr casing (split rule))
                  (selectors_of netaddr casing (split rule)))
            else err value_error)
          ≡ ok r
        → Made r
    made true e =
        (networks_of netaddr casing (split rule), selectors_of netaddr casing (split rule), cc)
    made false e = cc

-- The same client: what it is matched by.
pub record SameClient (geoip : Option GeoReader) (a b : ClientContext) : Type 0 where
  pub same_ip : a.ip ≡ b.ip
  pub same_prefixlen : a.prefixlen ≡ b.prefixlen
  pub same_geo : client_geo geoip a ≡ client_geo geoip b

module _ (setting : Setting) where
  open setting use {netaddr, casing, geoip}

  abbrev admits_by : Result ViewRule → ClientContext → Bool
  admits_by (err e) context = false
  admits_by (ok rule) context = admits netaddr geoip rule context

  -- The record's view rule is well-formed and admits the client.
  abbrev pub row_admits : ClientContext → Row → Bool
  row_admits context r = admits_by (rule_of setting r) context

  row_admits-SameClient :
      (a b : ClientContext) (r : Row) → SameClient geoip a b → row_admits a r ≡ row_admits b r
  row_admits-SameClient a b r h = elim (Result-cases (rule_of setting r)) [
    | inl (rule, e) ↦ rw e (admits-eq rule)
    | inr (x, e) ↦ rw e refl
  ]
    where
      admits-eq : (rule : ViewRule) → admits netaddr geoip rule a ≡ admits netaddr geoip rule b
      admits-eq rule =
          ap
            (λ ip.
              any (λ cidr. netaddr.contains cidr ip) rule.cidrs
              || geo_matches rule.geos (client_geo geoip a))
            h.same_ip
          ∙ ap (λ g. any (λ cidr. netaddr.contains cidr b.ip) rule.cidrs || geo_matches rule.geos g)
              h.same_geo

  abbrev Verdict : ViewRule → ClientContext → Type 0
  Verdict rule context =
      let (seen, after) = matches netaddr geoip rule context in
      (seen ≡ admits netaddr geoip rule context) × SameClient geoip after context

  is_in_view-eq :
      SpansFamily netaddr
      → (r : Row) (context : ClientContext)
      → let (seen, after) = is_in_view setting r context in
        (seen ≡ row_admits context r) × SameClient geoip after context
  unfolding is_in_view
  is_in_view-eq laws r context = elim (Result-cases (rule_of setting r)) [
    | inl (rule, e) ↦
        let (cidrs, geos, m) = resolve-Made netaddr casing r.rule e in
        let (verdict, ip, prefixlen, geo) =
          matches-eq-admits netaddr geoip cidrs geos context laws in
        let known : Verdict (view_rule cidrs geos) context =
          (verdict, record { same_ip = ip; same_prefixlen = prefixlen; same_geo = geo }) in
        rw e (subst (λ x. Verdict x context) (sym m) known)
    | inr (x, e) ↦ rw e (refl, record { same_ip = refl; same_prefixlen = refl; same_geo = refl })
  ]

  keep-row_admits :
      (a b : ClientContext) (group : List Row)
      → SameClient geoip a b
      → keep (row_admits a) group ≡ keep (row_admits b) group
  keep-row_admits a b [] h = refl
  keep-row_admits a b (r ∷ group) h =
      rw (row_admits-SameClient a b r h, keep-row_admits a b group h) refl

  SameClient-trans :
      {a b c : ClientContext} → SameClient geoip a b → SameClient geoip b c → SameClient geoip a c
  SameClient-trans h k = record {
    same_ip = h.same_ip ∙ k.same_ip;
    same_prefixlen = h.same_prefixlen ∙ k.same_prefixlen;
    same_geo = h.same_geo ∙ k.same_geo;
  }

  -- Given that a network of prefix length 0 holds all addresses of its family, the view filter
  -- keeps the records whose rule is well-formed and admits the client, in order, whatever
  -- geolocation the earlier records have looked up; the client stays the same.
  pub in_view-eq :
      SpansFamily netaddr
      → (group : List Row) (context : ClientContext)
      → let (seen, after) = in_view setting group context in
        (seen ≡ keep (row_admits context) group) × SameClient geoip after context
  unfolding in_view
  in_view-eq laws [] context =
      (refl, record { same_ip = refl; same_prefixlen = refl; same_geo = refl })
  in_view-eq laws (r ∷ group) context =
      let (here, same) = is_in_view-eq laws r context in
      let after = (is_in_view setting r context).1 in
      let (rest, same2) = in_view-eq laws group after in
      (rw (here, rest, keep-row_admits after context group same) refl, SameClient-trans same2 same)

  -- The record's view is a catch-all.
  abbrev pub is_catch_all : Row → Bool
  is_catch_all r = matches_all_of (rule_of setting r)

  -- The records in view have a rule, so parting them never raises.
  pub partition-eq :
      (context : ClientContext) (group : List Row)
      → let seen = keep (row_admits context) group in
        partition setting seen ≡ ok (keep (λ r. not (is_catch_all r)) seen, keep is_catch_all seen)
  unfolding partition
  partition-eq context [] = refl
  partition-eq context (r ∷ group) = elim (Result-cases (rule_of setting r)) [
    | inl (rule, e) ↦ ground (arith, e, partition-eq context group)
    | inr (x, e) ↦ rw e (partition-eq context group)
  ]
