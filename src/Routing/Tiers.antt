-- ===== src/Routing/Tiers.antt =====
-- `RoutingPolicy.highest_tier` (routing/base.py): a `defaultdict(list)` of weight tiers.
use mathlib.Core.List.{append-nil, append_assoc}
use powergslb.Base.{
  ℕ, ◌≡◌, refl, sym, ap, ◌∙◌, List, [], ◌∷◌, ◌++◌, arith, ◌==◌, if◌then◌else◌, max, keep, ◌≤◌, All,
}
use powergslb.Row.{Row}

abbrev pub Tiers : Type 0
Tiers = List (ℕ × List Row)

-- `tiers[weight]`, `[]` for a new weight
unfoldable pub tier : Tiers → ℕ → List Row
tier [] w = []
tier ((v, rows) ∷ tiers) w = if v == w then rows else tier tiers w

-- `tiers[candidate['weight']].append(candidate)`
unfoldable pub append_to_tier : Row → Tiers → Tiers
append_to_tier c [] = (c.weight, c ∷ []) ∷ []
append_to_tier c ((v, rows) ∷ tiers) =
    if v == c.weight then (v, rows ++ c ∷ []) ∷ tiers else (v, rows) ∷ append_to_tier c tiers

-- The loop over the candidates.
unfoldable pub group_by_weight : Tiers → List Row → Tiers
unfolding append_to_tier
group_by_weight tiers [] = tiers
group_by_weight tiers (c ∷ cs) = group_by_weight (append_to_tier c tiers) cs

-- `max(tiers)`
unfoldable pub max_key : Tiers → ℕ
max_key [] = 0
max_key ((v, rows) ∷ tiers) = max v (max_key tiers)

unfoldable pub highest_tier : List Row → List Row
unfolding tier group_by_weight max_key
highest_tier [] = []
highest_tier (c ∷ cs) = let tiers = group_by_weight [] (c ∷ cs) in tier tiers (max_key tiers)

-- The independent description: the greatest weight, and the candidates that carry it, in order.
abbrev pub max_weight : List Row → ℕ
max_weight [] = 0
max_weight (c ∷ cs) = max c.weight (max_weight cs)

abbrev pub with_weight : ℕ → List Row → List Row
with_weight w = keep (λ c. c.weight == w)

tier-append :
    (c : Row) (tiers : Tiers) (w : ℕ)
    → tier (append_to_tier c tiers) w ≡ tier tiers w ++ with_weight w (c ∷ [])
unfolding tier append_to_tier
tier-append c [] w = ground arith
tier-append c ((v, rows) ∷ tiers) w =
    ground (arith, tier-append c tiers w, append-nil rows, append-nil (tier tiers w))

tier-group :
    (tiers : Tiers) (cs : List Row) (w : ℕ)
    → tier (group_by_weight tiers cs) w ≡ tier tiers w ++ with_weight w cs
unfolding group_by_weight
tier-group tiers [] w = sym (append-nil (tier tiers w))
tier-group tiers (c ∷ cs) w =
    tier-group (append_to_tier c tiers) cs w
    ∙ ground (
      arith,
      tier-append c tiers w,
      append_assoc (tier tiers w) (c ∷ []) (with_weight w cs),
      append-nil (tier tiers w),
    )

max_key-append :
    (c : Row) (tiers : Tiers) → max_key (append_to_tier c tiers) ≡ max (max_key tiers) c.weight
unfolding max_key append_to_tier
max_key-append c [] = omega arith
max_key-append c ((v, rows) ∷ tiers) = ground (arith, max_key-append c tiers)

max_key-group :
    (tiers : Tiers) (cs : List Row)
    → max_key (group_by_weight tiers cs) ≡ max (max_key tiers) (max_weight cs)
unfolding group_by_weight
max_key-group tiers [] = omega arith
max_key-group tiers (c ∷ cs) =
    omega (arith, max_key-append c tiers, max_key-group (append_to_tier c tiers) cs)

-- The tier that `highest_tier` answers is the candidates of the greatest weight, in their order.
pub highest_tier-eq-with_weight : (cs : List Row) → highest_tier cs ≡ with_weight (max_weight cs) cs
unfolding highest_tier
highest_tier-eq-with_weight [] = refl
highest_tier-eq-with_weight (c ∷ cs) =
    ap (tier (group_by_weight [] (c ∷ cs))) (omega (arith, max_key-group [] (c ∷ cs)))
    ∙ tier-group [] (c ∷ cs) (max_weight (c ∷ cs))

-- A weight that is in reach is carried by some candidate.
weight-le-max : (cs : List Row) → All (λ c. c.weight ≤ max_weight cs) cs
weight-le-max cs = below cs (max_weight cs) (omega arith)
  where
    below : (cs : List Row) (n : ℕ) → max_weight cs ≤ n → All (λ c. c.weight ≤ n) cs
    below [] n h = tt
    below (c ∷ cs) n h = (omega arith, below cs n (omega arith))
