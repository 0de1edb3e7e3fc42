-- ===== src/Tests/Replies.antt =====
-- Lookups at concrete records and clients: the record in `10.0.0.0/8` is down, two others serve everyone.
use powergslb.Base.{Option, some, codes, ◌≡◌, refl, not, List, [], ◌∷◌, keep, some, ok, arith}
use powergslb.Client.{ClientContext}
use powergslb.Row.{Row}
use powergslb.Server.PowerDns.{candidates, select_group, scope_prefix}
use powergslb.Server.PowerDns.Lookup.{get_lookup}
use powergslb.Server.PowerDns.Scope.{answers_in, select_group-eq_of_scope}
use powergslb.Server.PowerDns.Selection.{Chosen, select_group-Chosen}
use powergslb.Server.PowerDns.Tiers.{Lowest, tier_of, candidates-Lowest}
use powergslb.Server.PowerDns.Total.{Shapes, get_lookup-Replies}
use powergslb.View.{RawReply, replied, found, reader_of, raw_lookup, lookup}
use powergslb.Client.{IpAddress}
use powergslb.Server.PowerDns.Views.{is_catch_all}
use powergslb.Monitor.{is_down}
use powergslb.Routing.{select, network_prefix}
use powergslb.Routing.Create as Create
use powergslb.View.{resolve, split, parse_geo_token, matches, view_rule}
use powergslb.Tests.Setup.{
  east, west, inner, sticky, setting, registry, netaddr-SpansFamily, draws, chance, client,
}

abbrev group : List Row
group = inner ∷ east ∷ west ∷ []

abbrev inside : ClientContext
inside = client 167772161 24

candidates-Lowest_example : Lowest (tier_of registry (is_catch_all setting)) group (
    candidates registry
      (keep (λ r. not (is_catch_all setting r)) group)
      (keep (is_catch_all setting) group))
candidates-Lowest_example = candidates-Lowest registry (is_catch_all setting) group

select_group-concrete : select_group setting draws group inside ≡ ok (some (west ∷ []), inside)
unfolding select_group resolve split parse_geo_token matches view_rule Create.resolve select is_down
select_group-concrete = refl

select_group-Chosen_example : Chosen setting group inside (west ∷ [])
select_group-Chosen_example =
    select_group-Chosen setting netaddr-SpansFamily draws group inside inside (west ∷ [])
      select_group-concrete

scope_prefix-concrete : scope_prefix setting (sticky ∷ []) (client 167772161 32) ≡ ok 24
unfolding scope_prefix resolve split parse_geo_token view_rule Create.resolve network_prefix
scope_prefix-concrete = refl

select_group-eq_of_scope_example :
    answers_in (select_group setting draws (sticky ∷ []) (client 167772161 32))
    ≡ answers_in (select_group setting draws (sticky ∷ []) (client 167772200 28))
select_group-eq_of_scope_example =
    select_group-eq_of_scope setting sticky [] (client 167772161 32) (client 167772200 28) 24 draws
      refl scope_prefix-concrete (omega arith) (refl, omega arith)

-- Every address is in France.
abbrev raw : Option (IpAddress → RawReply)
raw = some (λ (ip : IpAddress). replied (found (some (codes "FR")) (some (codes "EU"))))

get_lookup-Replies_example :
    Shapes inside (
      get_lookup
        (record setting { geoip = some (reader_of raw (λ (ip : IpAddress). tt)) })
        chance
        (sticky ∷ group)
        inside)
    × ((ip : IpAddress)
        → raw_lookup raw ip ≡ ok (lookup (reader_of raw (λ (address : IpAddress). tt)) ip))
get_lookup-Replies_example =
    get_lookup-Replies setting raw (λ (ip : IpAddress). tt) netaddr-SpansFamily chance
      (sticky ∷ group) inside
