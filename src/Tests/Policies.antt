-- ===== src/Tests/Policies.antt =====
-- The routing policies at concrete candidates.
use powergslb.Base.{◌≡◌, ◌↔◌, ◌≢◌, refl, List, [], ◌∷◌, map, ok, arith}
use powergslb.Base.{text_leb}
use powergslb.Base.Sort.{sort, by_key}
use powergslb.Base.Bytes.{Bytes}
use powergslb.Base.Dict.{text_key}
use powergslb.Routing.{round_robin, sticky_hash, select, network_prefix}
use powergslb.Routing.Weighted.{weighted_select}
use powergslb.Routing.Weighted.Answers.{Drawn, weighted_select-Drawn}
use powergslb.Routing.Sticky.{masked_network, hash_buffer, sticky_pick, sticky_select}
use powergslb.Routing.Sticky.Network.{SameNetwork, masked_network-eq_iff}
use powergslb.Routing.Sticky.Buffer.{hash_buffer-injective}
use powergslb.Routing.Sticky.Ranking.{sticky_pick-drop}
use powergslb.Routing.Bounds.{Bounded, select-Bounded}
use powergslb.Routing.Scope.{select-eq_of_scope}
use powergslb.Routing.Create.{Spec, create}
use powergslb.Routing.Create.Validity.{IsValid, create-IsValid}
use powergslb.Routing.Create.Json.{spec_of, create-spec_of}
use powergslb.Row.{Row}
use powergslb.Tests.Setup.{east, west, digest, draws, client, address}

abbrev both : List Row
both = east ∷ west ∷ []

weighted_select-Drawn_example :
    (answers : List Row) × (weighted_select 1 both draws ≡ ok answers)
    × Drawn 1 draws (sort (by_key (λ (r : Row). r.content) text_leb) both) both answers
weighted_select-Drawn_example = weighted_select-Drawn 1 both draws

sticky_select-west : sticky_select digest 1 24 64 both (client 167772161 24) ≡ ok (west ∷ [])
unfolding sticky_select
sticky_select-west = refl

sticky_pick-both : sticky_pick digest both (10 ∷ []) 1 ≡ ok (west ∷ [])
unfolding sticky_pick
sticky_pick-both = refl

sticky_pick-swapped : sticky_pick digest (west ∷ east ∷ []) (10 ∷ []) 1 ≡ ok (west ∷ [])
unfolding sticky_pick
sticky_pick-swapped = refl

sticky_pick-west : sticky_pick digest (west ∷ []) (10 ∷ []) 1 ≡ ok (west ∷ [])
unfolding sticky_pick
sticky_pick-west = refl

sticky_pick-drop_example : map (λ r. r.content) (west ∷ []) ≡ map (λ r. r.content) (west ∷ [])
sticky_pick-drop_example =
    sticky_pick-drop digest (10 ∷ []) [] (west ∷ []) east 1 (west ∷ []) (west ∷ []) sticky_pick-both
      sticky_pick-west (w-ne-e, tt)
  where
    w-ne-e : west.content ≢ east.content
    w-ne-e h = ground (arith, h)

masked_network-concrete : masked_network (address 167772161) 24 64 ≡ ok (10 ∷ 0 ∷ 0 ∷ 0 ∷ [])
unfolding masked_network
masked_network-concrete = refl

masked_network-eq_iff_example :
    (masked_network (address 167772200) 24 64 ≡ ok (10 ∷ 0 ∷ 0 ∷ 0 ∷ []))
    ↔ SameNetwork (address 167772161) (address 167772200) 24 64
masked_network-eq_iff_example =
    masked_network-eq_iff (address 167772161) (address 167772200) 24 64 (10 ∷ 0 ∷ 0 ∷ 0 ∷ [])
      masked_network-concrete

abbrev prefix : Bytes
prefix = 1 ∷ 2 ∷ []

abbrev suffix : Bytes
suffix = 3 ∷ []

hash_buffer-concrete : hash_buffer prefix suffix ≡ ok (0 ∷ 2 ∷ 1 ∷ 2 ∷ 0 ∷ 0 ∷ 0 ∷ 1 ∷ 3 ∷ [])
unfolding hash_buffer
hash_buffer-concrete = refl

hash_buffer-injective_example : (prefix ≡ prefix) × (suffix ≡ suffix)
hash_buffer-injective_example =
    hash_buffer-injective prefix suffix prefix suffix (0 ∷ 2 ∷ 1 ∷ 2 ∷ 0 ∷ 0 ∷ 0 ∷ 1 ∷ 3 ∷ [])
      hash_buffer-concrete hash_buffer-concrete

select-west : select digest (round_robin 8) both (client 167772161 24) draws ≡ ok (west ∷ [])
unfolding select
select-west = refl

select-Bounded_example : Bounded 8 both (west ∷ [])
select-Bounded_example =
    select-Bounded digest (round_robin 8) east (west ∷ []) (client 167772161 24) draws (west ∷ [])
      (omega arith) select-west

select-eq_of_scope_example :
    select digest (sticky_hash 1 24 64) both (client 167772161 32) draws
    ≡ select digest (sticky_hash 1 24 64) both (client 167772200 32) draws
unfolding network_prefix
select-eq_of_scope_example =
    select-eq_of_scope digest (sticky_hash 1 24 64) both (client 167772161 32) (client 167772200 32)
      draws (refl, omega arith)

abbrev spec : Spec
spec = spec_of (sticky_hash 2 20 56)

create-concrete : create spec ≡ ok (sticky_hash 2 20 56)
unfolding create
create-concrete = refl

create-IsValid_example : IsValid (sticky_hash 2 20 56)
create-IsValid_example = create-IsValid spec create-concrete

create-spec_of_example : create spec ≡ ok (sticky_hash 2 20 56)
create-spec_of_example =
    create-spec_of (sticky_hash 2 20 56) (omega arith, omega arith, omega arith)
