-- ===== src/Routing/Sticky/Stickiness.antt =====
-- The answers of sticky-hash: a part of the highest tier, the same for a whole client network.
use powergslb.Base.{
  ℕ, ◌≡◌, ap, subst, List, [], ◌∷◌, min, length, is_empty, Result, ok, arith, >>=-eq-ok,
  if◌then◌else◌, ◌>>=◌,
}
use powergslb.Base.Bytes.{Bytes}
use powergslb.Base.Perms.{Picked, Picked-nil}
use powergslb.Client.{ClientContext}
use powergslb.Row.{Row}
use powergslb.Routing.Tiers.{highest_tier, max_weight, with_weight, highest_tier-eq-with_weight}
use powergslb.Routing.Sticky.{masked_network, sticky_pick, sticky_select}
use powergslb.Routing.Sticky.Network.{SameNetwork, masked_network-eq}
use powergslb.Routing.Sticky.Ranking.{sticky_pick-Picked}

module _ (blake2b : Bytes → Bytes) (max_answers p q : ℕ) (candidates : List Row) where
  -- Clients in one network get the same answers.
  pub sticky_select-eq :
      (a b : ClientContext)
      → SameNetwork a.ip b.ip p q
      → sticky_select blake2b max_answers p q candidates a
        ≡ sticky_select blake2b max_answers p q candidates b
  unfolding sticky_select
  sticky_select-eq a b same =
      let tier = highest_tier candidates in
      ap
        (λ (r : Result Bytes).
          if is_empty tier
          then ok []
          else (r >>= λ network. sticky_pick blake2b tier network max_answers))
        (masked_network-eq a.ip b.ip p q same)

  pick_tier-Picked :
      (tier : List Row) (network : Result Bytes) {answers : List Row}
      → (if is_empty tier
          then ok []
          else (network >>= λ bytes. sticky_pick blake2b tier bytes max_answers))
        ≡ ok answers
      → (length answers ≡ min max_answers (length tier)) × Picked answers tier
  pick_tier-Picked [] network {answers} h =
      let none_left : [] ≡ answers = cc in
      subst (λ ys. (length ys ≡ min max_answers 0) × Picked ys []) none_left
        (omega arith, Picked-nil [])
  pick_tier-Picked (c ∷ cs) network {answers} h =
      let (bytes, e, f) = >>=-eq-ok {B = List Row} network _ h in
      sticky_pick-Picked blake2b bytes (c ∷ cs) max_answers f

  -- The answers are `min(max_answers, len(tier))` records of the tier of the greatest weight.
  pub sticky_select-Picked :
      (context : ClientContext) (answers : List Row)
      → sticky_select blake2b max_answers p q candidates context ≡ ok answers
      → let tier = with_weight (max_weight candidates) candidates in
        (length answers ≡ min max_answers (length tier)) × Picked answers tier
  unfolding sticky_select
  sticky_select-Picked context answers h =
      subst (λ t. (length answers ≡ min max_answers (length t)) × Picked answers t)
        (highest_tier-eq-with_weight candidates)
        (pick_tier-Picked (highest_tier candidates) (masked_network context.ip p q) h)
