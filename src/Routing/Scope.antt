-- ===== src/Routing/Scope.antt =====
-- The scope that a policy announces bounds what its answers depend on.
use powergslb.Base.{ℕ, ◌-◌, ◌/◌, ◌^◌, ◌≡◌, refl, List, Option, none, some}
use powergslb.Base.Bytes.{Bytes}
use powergslb.Client.{IpAddress, ClientContext}
use powergslb.Random.{Draws}
use powergslb.Row.{Row}
use powergslb.Routing.Policies.{
  Policy, round_robin, sticky_hash, weighted_random, select, network_prefix,
}
use powergslb.Routing.Sticky.{width}
use powergslb.Routing.Sticky.Stickiness.{sticky_select-eq}

-- Two clients that a resolver may serve from one cached answer of that scope.
abbrev pub SameScope : Option ℕ → IpAddress → IpAddress → Type 0
SameScope none a b = Unit {0}
SameScope (some prefix) a b =
    (a.version ≡ b.version)
    × (a.value / 2 ^ (width a.version - prefix) ≡ b.value / 2 ^ (width a.version - prefix))

-- Two clients in one scope of a policy get the same answers, for the same random draws: none of them
-- is told apart where the policy announces no prefix.
pub select-eq_of_scope :
    (blake2b : Bytes → Bytes) (policy : Policy) (candidates : List Row) (a b : ClientContext)
    (draws : Draws)
    → SameScope (network_prefix policy a) a.ip b.ip
    → select blake2b policy candidates a draws ≡ select blake2b policy candidates b draws
unfolding select network_prefix
select-eq_of_scope blake2b (round_robin m) candidates a b draws h = refl
select-eq_of_scope blake2b (sticky_hash m p q) candidates a b draws h =
    sticky_select-eq blake2b m p q candidates a b h
select-eq_of_scope blake2b (weighted_random m) candidates a b draws h = refl
