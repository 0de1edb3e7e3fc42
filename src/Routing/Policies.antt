-- ===== src/Routing/Policies.antt =====
-- The three policies as one type, `select` and `network_prefix` by policy (routing/base.py).
use powergslb.Base.{ℕ, List, Option, none, some, leb, if◌then◌else◌, length, Result, ok}
use powergslb.Base.Bytes.{Bytes}
use powergslb.Client.{ClientContext}
use powergslb.Random.{Draws, sample}
use powergslb.Row.{Row}
use powergslb.Routing.Tiers.{highest_tier}
use powergslb.Routing.Weighted.{weighted_select}
use powergslb.Routing.Sticky.{sticky_select, sticky_prefix}

pub data Policy : Type 0 where
  round_robin : ℕ → Policy
  sticky_hash : ℕ → ℕ → ℕ → Policy
  weighted_random : ℕ → Policy

-- `RoundRobin.select`
unfoldable pub round_robin_select : ℕ → List Row → Draws → Result (List Row)
unfolding highest_tier sample
round_robin_select max_answers candidates draws =
    let tier = highest_tier candidates in
    if leb (length tier) max_answers then ok tier else sample tier max_answers draws

-- `policy.select(candidates, context)`
unfoldable pub select :
    (Bytes → Bytes) → Policy → List Row → ClientContext → Draws → Result (List Row)
unfolding round_robin_select weighted_select sticky_select
select blake2b (round_robin max_answers) candidates context draws =
    round_robin_select max_answers candidates draws
select blake2b (sticky_hash max_answers ipv4_prefix ipv6_prefix) candidates context draws =
    sticky_select blake2b max_answers ipv4_prefix ipv6_prefix candidates context
select blake2b (weighted_random max_answers) candidates context draws =
    weighted_select max_answers candidates draws

-- `policy.network_prefix(context)`; `None` is the base class's answer.
unfoldable pub network_prefix : Policy → ClientContext → Option ℕ
unfolding sticky_prefix
network_prefix (round_robin m) context = none
network_prefix (sticky_hash m ipv4_prefix ipv6_prefix) context =
    some (sticky_prefix ipv4_prefix ipv6_prefix context)
network_prefix (weighted_random m) context = none
