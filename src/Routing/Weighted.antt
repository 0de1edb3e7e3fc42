-- ===== src/Routing/Weighted.antt =====
-- weighted-random (routing/weighted_random.py).
pub mod Bucket
pub mod Answers
use powergslb.Base.{
  ℕ, zero, suc, ◌+◌, ◌≤◌, ◌<◌, ◌≡◌, refl, Bool, List, [], ◌∷◌, ◌++◌, Option, none, some, arith, ltb,
  ◌==◌, if◌then◌else◌, min, length, Result, ok, err, ◌>>=◌, index_error, text_leb, Option-cases,
  inl, inr, ◌⊎◌, All,
}
use powergslb.Base.Sort.{sort, by_key, sort-perm}
use powergslb.Row.{Row, remove, Holds, Removes, remove-Removes}
use powergslb.Random.{Draws, later, randrange, sample}

-- `sum(candidate['weight'] for candidate in rows)`
abbrev pub total_weight : List Row → ℕ
total_weight [] = 0
total_weight (c ∷ cs) = c.weight + total_weight cs

-- The loop of `_weighted_pick`; `none` when it falls through.
unfoldable pub walk : ℕ → List Row → ℕ → Option Row
walk cumulative [] draw = none
walk cumulative (c ∷ cs) draw =
    let rest = walk (cumulative + c.weight) cs draw in
    if ltb draw (cumulative + c.weight) then some c else rest

-- `rows[-1]`
unfoldable pub last : List Row → Result Row
last [] = err index_error
last (c ∷ []) = ok c
last (c ∷ d ∷ cs) = last (d ∷ cs)

unfoldable pub weighted_pick : List Row → ℕ → Result Row
unfolding walk last
weighted_pick candidates draw = elim (walk 0 candidates draw) [
  | some c ↦ ok c
  | none ↦ last candidates
]

-- The `while` loop of `select`, by the answers that are still to be drawn.
unfoldable pub draw_answers : ℕ → List Row → List Row → Draws → Result (List Row)
unfolding weighted_pick randrange sample remove
draw_answers zero selected remaining draws = ok selected
draw_answers (suc left) selected remaining draws =
    let fill = (do extra ← sample remaining (suc left) draws; ok (selected ++ extra)) in
    let step = (do
      draw ← randrange (total_weight remaining) draws
      chosen ← weighted_pick remaining draw
      rest ← remove chosen remaining
      draw_answers left (selected ++ chosen ∷ []) rest (later draws)) in
    if total_weight remaining == 0 then fill else step

-- `WeightedRandom.select`
unfoldable pub weighted_select : ℕ → List Row → Draws → Result (List Row)
unfolding draw_answers sort
weighted_select max_answers candidates draws =
    draw_answers (min max_answers (length candidates)) []
      (sort (by_key (λ r. r.content) text_leb) candidates) draws
