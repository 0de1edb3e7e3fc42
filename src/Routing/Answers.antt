-- ===== src/Routing/Answers.antt =====
-- What each policy answers: a bounded part of the candidates, never nothing where there are some.
use powergslb.Base.{
  ℕ, ◌<◌, ◌≡◌, subst, List, [], ◌∷◌, arith, leb, min, length, Result, ok, Bool-cases, inl, inr,
  if◌then◌else◌,
}
use powergslb.Base.Perms.{Picked, Picked-self}
use powergslb.Random.{Draws, sample, sample-Samples}
use powergslb.Row.{Row}
use powergslb.Routing.Tiers.{highest_tier, max_weight, with_weight, highest_tier-eq-with_weight}
use powergslb.Routing.Policies.{round_robin_select}

-- A bounded part of a tier: all of it, or as many as may be answered.
abbrev pub Answers : ℕ → List Row → Result (List Row) → Type 0
Answers max_answers tier r =
    (ys : List Row) × (r ≡ ok ys) × (length ys ≡ min max_answers (length tier)) × Picked ys tier

tier-Answers :
    (max_answers : ℕ) (tier : List Row) (draws : Draws)
    → Answers max_answers tier
        (if leb (length tier) max_answers then ok tier else sample tier max_answers draws)
tier-Answers max_answers tier draws = elim (Bool-cases (leb (length tier) max_answers)) [
  | inl e ↦ (tier, rw e, ground arith, Picked-self tier)
  | inr e ↦
      let (ys, s, drawn) = sample-Samples tier max_answers draws (ground arith) in
      let n : length ys ≡ min max_answers (length tier) = ground (arith, drawn.0) in
      (ys, rw e s, n, drawn.1)
]

-- `RoundRobin.select` never raises. It answers `min(max_answers, len(tier))` records of the tier of
-- the greatest weight, each as often as it is there.
pub round_robin_select-Answers :
    (max_answers : ℕ) (candidates : List Row) (draws : Draws)
    → Answers max_answers
        (with_weight (max_weight candidates) candidates)
        (round_robin_select max_answers candidates draws)
unfolding round_robin_select
round_robin_select-Answers max_answers candidates draws =
    subst (λ t. Answers max_answers t (round_robin_select max_answers candidates draws))
      (highest_tier-eq-with_weight candidates)
      (tier-Answers max_answers (highest_tier candidates) draws)

-- Where there are candidates, their greatest weight is carried by one at least.
pub with_weight-pos :
    (c : Row) (cs : List Row) → 0 < length (with_weight (max_weight (c ∷ cs)) (c ∷ cs))
with_weight-pos c [] = ground arith
with_weight-pos c (d ∷ cs) = ground (arith, with_weight-pos d cs)
