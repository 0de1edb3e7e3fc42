-- ===== src/Routing/Weighted/Bucket.antt =====
-- Which record `_weighted_pick` chooses.
use powergslb.Base.{
  ℕ, ◌+◌, ◌≤◌, ◌<◌, ◌≡◌, refl, ap, List, [], ◌∷◌, ◌++◌, some, arith, ltb, ok, Bool-cases, inl, inr,
}
use powergslb.Row.{Row, Holds}
use powergslb.Routing.Weighted.{total_weight, walk, weighted_pick}

-- The record stands in the list, and the draw lies in its bucket: at or above the weights before it,
-- and below those with its own.
pub record Bucket (candidates : List Row) (draw : ℕ) (chosen : Row) : Type 0 where
  pub before : List Row
  pub after : List Row
  pub place : candidates ≡ before ++ chosen ∷ after
  pub low : total_weight before ≤ draw
  pub high : draw < total_weight before + chosen.weight

abbrev WalksTo : ℕ → List Row → ℕ → Type 0
WalksTo cumulative cs draw =
    (c : Row) × (before : List Row) × (after : List Row) × (walk cumulative cs draw ≡ some c)
    × (cs ≡ before ++ c ∷ after)
    × (cumulative + total_weight before ≤ draw)
    × (draw < cumulative + total_weight before + c.weight)

walk-WalksTo :
    (cumulative : ℕ) (cs : List Row) (draw : ℕ)
    → cumulative ≤ draw
    → draw < cumulative + total_weight cs
    → WalksTo cumulative cs draw
unfolding walk
walk-WalksTo cumulative [] draw h k = absurd (omega arith)
walk-WalksTo cumulative (c ∷ cs) draw h k = elim (Bool-cases (ltb draw (cumulative + c.weight))) [
  | inl e ↦ (c, [], cs, rw e, refl, omega arith, ground arith)
  | inr e ↦
      let (d, before, after, w, p, low, high) =
        walk-WalksTo (cumulative + c.weight) cs draw (ground arith) (omega arith) in
      (d, c ∷ before, after, rw e w, ap (◌∷◌ c) p, omega arith, omega arith)
]

-- A draw below the total weight picks the record whose bucket it falls in.
pub weighted_pick-Bucket :
    (candidates : List Row) (draw : ℕ)
    → draw < total_weight candidates
    → (chosen : Row) × (weighted_pick candidates draw ≡ ok chosen) × Bucket candidates draw chosen
unfolding weighted_pick
weighted_pick-Bucket candidates draw h =
    let (c, before, after, w, p, low, high) =
      walk-WalksTo 0 candidates draw (omega arith) (omega arith) in
    (
      c,
      rw (w, weighted_pick),
      record { before = before; after = after; place = p; low = omega arith; high = omega arith },
    )

Holds-middle : (before after : List Row) (c : Row) → Holds c (before ++ c ∷ after)
Holds-middle [] after c = inl refl
Holds-middle (d ∷ before) after c = inr (Holds-middle before after c)

pub Bucket-Holds : {cs : List Row} {draw : ℕ} {c : Row} → Bucket cs draw c → Holds c cs
Bucket-Holds {c = c} b = rw b.place (Holds-middle b.before b.after c)
