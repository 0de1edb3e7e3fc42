-- ===== src/Routing/Bounds.antt =====
-- What every policy promises of its answers, for the candidates that the handler gives it.
use powergslb.Base.{ℕ, ◌≤◌, ◌<◌, ◌≡◌, subst, sym, ◌∙◌, List, ◌∷◌, arith, min, length, ok, ◌==◌}
use powergslb.Base.Bytes.{Bytes}
use powergslb.Base.Perms.{Picked, Picked-trans, Picked-keep, Picked-append}
use powergslb.Client.{ClientContext}
use powergslb.Random.{Draws}
use powergslb.Row.{Row}
use powergslb.Routing.Answers.{round_robin_select-Answers, with_weight-pos}
use powergslb.Routing.Create.Validity.{IsValid, ok-inj}
use powergslb.Routing.Policies.{Policy, round_robin, sticky_hash, weighted_random, select}
use powergslb.Routing.Sticky.Stickiness.{sticky_select-Picked}
use powergslb.Routing.Tiers.{max_weight, with_weight}
use powergslb.Routing.Weighted.Answers.{weighted_select-Drawn}

abbrev pub max_answers_of : Policy → ℕ
max_answers_of (round_robin m) = m
max_answers_of (sticky_hash m p q) = m
max_answers_of (weighted_random m) = m

-- Between one record and as many as the policy may answer, each as often as it is a candidate.
abbrev pub Bounded : ℕ → List Row → List Row → Type 0
Bounded max_answers pool answers =
    (1 ≤ length answers) × (length answers ≤ max_answers) × Picked answers pool

-- As many as the policy may answer, of the tier of the greatest weight.
abbrev InTier : ℕ → List Row → List Row → Type 0
InTier m pool answers =
    let tier = with_weight (max_weight pool) pool in
    (length answers ≡ min m (length tier)) × Picked answers tier

in_tier :
    (m : ℕ) (c : Row) (cs answers : List Row)
    → 1 ≤ m
    → InTier m (c ∷ cs) answers
    → Bounded m (c ∷ cs) answers
in_tier m c cs answers le (size, part) =
    let w = max_weight (c ∷ cs) in
    let tier = with_weight w (c ∷ cs) in
    let some_there : 0 < length tier = with_weight-pos c cs in
    (
      omega arith,
      omega arith,
      Picked-trans answers tier part (Picked-keep (λ r. r.weight == w) (c ∷ cs)),
    )

-- Where a policy whose parameters are in range answers a pool that is not empty, it answers with at least
-- one record and at most `max_answers`, each of them from the pool and as often as it is there.
pub select-Bounded :
    (blake2b : Bytes → Bytes) (policy : Policy) (c : Row) (cs : List Row) (context : ClientContext)
    (draws : Draws) (answers : List Row)
    → IsValid policy
    → select blake2b policy (c ∷ cs) context draws ≡ ok answers
    → Bounded (max_answers_of policy) (c ∷ cs) answers
unfolding select
select-Bounded blake2b (round_robin m) c cs context draws answers valid h =
    let (ys, e, size, part) = round_robin_select-Answers m (c ∷ cs) draws in
    in_tier m c cs answers valid (subst (InTier m (c ∷ cs)) (ok-inj (sym e ∙ h)) (size, part))
select-Bounded blake2b (sticky_hash m p q) c cs context draws answers valid h =
    in_tier m c cs answers valid.0 (sticky_select-Picked blake2b m p q (c ∷ cs) context answers h)
select-Bounded blake2b (weighted_random m) c cs context draws answers valid h =
    let (ys, e, d) = weighted_select-Drawn m (c ∷ cs) draws in
    let bounded : Bounded m (c ∷ cs) ys = (
      omega (arith, d.size, valid),
      omega (arith, d.size),
      subst (λ l. Picked l (c ∷ cs)) (sym d.split)
          (Picked-append d.weighted d.equal d.parts d.fill),
    ) in
    subst (Bounded m (c ∷ cs)) (ok-inj (sym e ∙ h)) bounded
