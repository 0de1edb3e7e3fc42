-- ===== src/Server/PowerDns.antt =====
-- PowerDNSRequestHandler (server/http/handler/powerdns.py): the lookup pipeline. A logged error is the
-- value it leaves; `draws` is what `random` yields while a query type's policy selects.
pub mod Tiers
pub mod Views
pub mod Selection
pub mod Scope
pub mod Lookup
pub mod Total
use powergslb.Base.{
  ℕ, Bool, true, false, ◌&&◌, ◌||◌, not, List, [], ◌∷◌, ◌++◌, map, Option, none, some, min, keep,
  all, is_empty, or_else, if◌then◌else◌, Text, codes, text_eq, Result, ok, err, index_error, ◌>>=◌,
}
use powergslb.Base.Bytes.{Bytes}
use powergslb.Base.Dict.{Dict, get, text_key}
use powergslb.Base.Values.{Value}
use powergslb.Client.{ClientContext}
use powergslb.Monitor.{StatusRegistry, is_down}
use powergslb.Random.{Draws}
use powergslb.Routing.Create as Create
use powergslb.Routing.{Policy, select, network_prefix}
use powergslb.Row.{Row}
use powergslb.View.{Casing, GeoReader, Netaddr, ViewRule, matches}
use powergslb.View as View

-- `_live`
unfoldable pub live : StatusRegistry → List Row → List Row
live registry records = keep (λ r. not (is_down registry r.id)) records

-- `_live(specific) or _live(catch_all) or specific or catch_all`
unfoldable pub candidates : StatusRegistry → List Row → List Row → List Row
unfolding live
candidates registry specific catch_all =
    or_else (live registry specific)
      (or_else (live registry catch_all) (or_else specific catch_all))

-- `qtype in _authority_qtypes`
abbrev pub is_authority : Text → Bool
is_authority qtype =
    text_eq qtype (codes "SOA") || text_eq qtype (codes "NS") || text_eq qtype (codes "DS")

-- `group[0]['policy_json']`
abbrev pub first_policy : List Row → Result Text
first_policy [] = err index_error
first_policy (r ∷ group) = ok r.policy_json

abbrev pub matches_all_of : Result ViewRule → Bool
matches_all_of (ok rule) = rule.matches_all
matches_all_of (err e) = false

abbrev pub capped : Option ℕ → ℕ → ℕ
capped none source_prefix = 0
capped (some prefix) source_prefix = min prefix source_prefix

-- The `except` clause, which names the first candidate in its log.
abbrev pub chosen_or_logged : Result (List Row) → List Row → Result (Option (List Row))
chosen_or_logged (ok answers) pool = ok (some answers)
chosen_or_logged (err e) (r ∷ pool) = ok none
chosen_or_logged (err e) [] = err index_error

-- `selected[qtype] = ...`: the keys of a `dict` are distinct, so each comes last.
abbrev pub add_selected : Text → Option (List Row) → Dict Text (List Row) → Dict Text (List Row)
add_selected qtype none rest = rest
add_selected qtype (some answers) rest = (qtype, answers) ∷ rest

-- What `random` yields for each query type.
abbrev pub Chance : Type 0
Chance = Text → Draws

-- The libraries behind the handler, and the health statuses.
pub record Setting : Type 0 where
  pub netaddr : Netaddr
  pub casing : Casing
  pub geoip : Option GeoReader
  pub loads : Text → Result Value
  pub blake2b : Bytes → Bytes
  pub registry : StatusRegistry

module _ (setting : Setting) where
  open setting use {netaddr, casing, geoip, loads, blake2b, registry}

  -- `ViewView.resolve(record['rule'])`
  abbrev pub rule_of : Row → Result ViewRule
  rule_of r = View.resolve netaddr casing r.rule

  abbrev in_view_of : Result ViewRule → ClientContext → Bool × ClientContext
  in_view_of (err e) context = (false, context)
  in_view_of (ok rule) context = matches netaddr geoip rule context

  -- `_is_in_view`, with the context that it leaves.
  unfoldable pub is_in_view : Row → ClientContext → Bool × ClientContext
  is_in_view r context = in_view_of (rule_of r) context

  -- The comprehension `in_view`, with the context that it leaves.
  unfoldable pub in_view : List Row → ClientContext → List Row × ClientContext
  unfolding is_in_view
  in_view [] context = ([], context)
  in_view (r ∷ group) context =
      let (seen, after) = is_in_view r context in
      let (rest, last) = in_view group after in (if seen then r ∷ rest else rest, last)

  -- The loop that parts the records in view into `specific` and `catch_all`.
  unfoldable pub partition : List Row → Result (List Row × List Row)
  partition [] = ok ([], [])
  partition (r ∷ records) = do
    rule ← rule_of r
    (specific, catch_all) ← partition records
    ok (if rule.matches_all then (specific, r ∷ catch_all) else (r ∷ specific, catch_all))

  -- `RoutingPolicy.resolve(group[0]['policy_json'])`
  abbrev pub policy_of : List Row → Result Policy
  policy_of group = do policy_json ← first_policy group; Create.resolve loads policy_json

  -- The body of the loop of `_select_records` after the view filter.
  unfoldable pub choose : Draws → List Row → List Row → ClientContext → Result (Option (List Row))
  unfolding partition candidates
  choose draws group seen context = do
    (specific, catch_all) ← partition seen
    let pool = candidates registry specific catch_all
    chosen_or_logged (do policy ← policy_of group; select blake2b policy pool context draws) pool

  -- One query type: the answers, if any, and the context.
  unfoldable pub select_group :
      Draws → List Row → ClientContext → Result (Option (List Row) × ClientContext)
  unfolding in_view choose
  select_group draws group context =
      let (seen, after) = in_view group context in
      let chosen = (do answers ← choose draws group seen after; ok (answers, after)) in
      if is_empty seen then ok (none, after) else chosen

  -- `_select_records`, with the context that it leaves.
  unfoldable pub select_records :
      Chance → Dict Text (List Row) → ClientContext → Result (Dict Text (List Row) × ClientContext)
  unfolding select_group
  select_records chance [] context = ok ([], context)
  select_records chance ((qtype, group) ∷ groups) context = do
    (answers, after) ← select_group (chance qtype) group context
    (rest, last) ← select_records chance groups after
    ok (add_selected qtype answers rest, last)

  -- `_scope_prefix`
  unfoldable pub scope_prefix : List Row → ClientContext → Result ℕ
  scope_prefix [] context = ok 0
  scope_prefix (r ∷ group) context =
      let global = (do
        policy ← policy_of (r ∷ group)
        ok (capped (network_prefix policy context) context.prefixlen)) in
      if is_authority r.qtype
      then ok 0
      else if all (λ s. matches_all_of (rule_of s)) (r ∷ group)
      then global
      else ok context.prefixlen
