-- ===== src/Routing/Weighted/Answers.antt =====
-- What `WeightedRandom.select` answers.
use mathlib.Core.List.{Perm, append_assoc, append-nil}
use mathlib.Core.List.Perm
use powergslb.Base.{
  ℕ, zero, suc, ◌≤◌, ◌<◌, ◌≡◌, refl, ap, sym, true, false, List, [], ◌∷◌, ◌++◌, arith, ◌==◌, min,
  length, ok, Bool-cases, inl, inr, ◌⊎◌, All, text_leb, ◌%◌,
}
use powergslb.Base.Perms.{Picked, Picked-nil}
use powergslb.Base.Sort.{by_key, sort, sort-perm, length-sort}
use powergslb.Row.{Row, remove, remove-Removes}
use powergslb.Random.{Draws, later, sample-Samples}
use powergslb.Routing.Weighted.{total_weight, weighted_pick, draw_answers, weighted_select}
use powergslb.Routing.Weighted.Bucket.{Bucket, weighted_pick-Bucket, Bucket-Holds}

-- Each record is drawn by weight among those that remain: the draw below their total weight falls in the
-- bucket of the record, which is as wide as its weight, and the record is removed. Then some remain.
pub data Weighed : List Row → Draws → List Row → List Row → Type 0 where
  no_more : (remaining : List Row) (draws : Draws) → Weighed remaining draws [] remaining
  then_one :
      {remaining others weighted rest : List Row} {draws : Draws} {chosen : Row}
      → 0 < total_weight remaining
      → Bucket remaining (draws 0 % total_weight remaining) chosen
      → remove chosen remaining ≡ ok others
      → Weighed others (later draws) weighted rest
      → Weighed remaining draws (chosen ∷ weighted) rest

-- The answers are records drawn by weight, each once, and then, only where no weight is left among the
-- others, some of those. The candidates are drawn from in one order.
pub record Drawn (count : ℕ) (draws : Draws) (order candidates answers : List Row) : Type 0 where
  pub weighted : List Row
  pub equal : List Row
  pub rest : List Row
  pub split : answers ≡ weighted ++ equal
  pub size : length answers ≡ count
  pub by_weight : Weighed order draws weighted rest
  pub parts : Perm (weighted ++ rest) candidates
  pub positive : All (λ c. 0 < c.weight) weighted
  pub fill : Picked equal rest
  pub exhausted : (equal ≡ []) ⊎ (total_weight rest ≡ 0)

abbrev DrawsOk : ℕ → List Row → List Row → Draws → Type 0
DrawsOk left selected remaining draws =
    (ys : List Row) × (draw_answers left selected remaining draws ≡ ok (selected ++ ys))
    × Drawn left draws remaining remaining ys

-- One round of the loop, where a weight is left.
draw_round :
    (left : ℕ) (selected remaining : List Row) (draws : Draws) (c : Row) (rest ys : List Row)
    → (total_weight remaining == 0) ≡ false
    → weighted_pick remaining (draws 0 % total_weight remaining) ≡ ok c
    → remove c remaining ≡ ok rest
    → draw_answers left (selected ++ c ∷ []) rest (later draws) ≡ ok ((selected ++ c ∷ []) ++ ys)
    → draw_answers (suc left) selected remaining draws ≡ ok (selected ++ c ∷ ys)
unfolding draw_answers
draw_round left selected remaining draws c rest ys e f g k =
    ground (arith, append_assoc selected (c ∷ []) ys)

no_round : (selected remaining : List Row) (draws : Draws) → DrawsOk 0 selected remaining draws
unfolding draw_answers
no_round selected remaining draws = (
  [],
  ap ok (sym (append-nil selected)),
  record {
    weighted = [];
    equal = [];
    rest = remaining;
    split = refl;
    size = refl;
    by_weight = no_more remaining draws;
    parts = Perm.refl remaining;
    positive = tt;
    fill = Picked-nil remaining;
    exhausted = inl refl;
  },
)

-- The last round, where no weight is left: an equal sample.
equal_round :
    (left : ℕ) (selected remaining : List Row) (draws : Draws)
    → suc left ≤ length remaining
    → (total_weight remaining == 0) ≡ true
    → DrawsOk (suc left) selected remaining draws
unfolding draw_answers
equal_round left selected remaining draws h e =
    let (ys, s, drawn) = sample-Samples remaining (suc left) draws h in
    (
      ys,
      rw e (ground (arith, s)),
      record {
        weighted = [];
        equal = ys;
        rest = remaining;
        split = refl;
        size = drawn.0;
        by_weight = no_more remaining draws;
        parts = Perm.refl remaining;
        positive = tt;
        fill = drawn.1;
        exhausted = inr (ground arith);
      },
    )

draw_answers-Drawn :
    (left : ℕ) (selected remaining : List Row) (draws : Draws)
    → left ≤ length remaining
    → DrawsOk left selected remaining draws
draw_answers-Drawn zero selected remaining draws h = no_round selected remaining draws
draw_answers-Drawn (suc left) selected remaining draws h =
    elim (Bool-cases (total_weight remaining == 0)) [
      | inl e ↦ equal_round left selected remaining draws h e
      | inr e ↦
          let draw = draws 0 % total_weight remaining in
          let (c, f, b) = weighted_pick-Bucket remaining draw (grind arith) in
          let (rest, g, l, p) = remove-Removes c remaining (Bucket-Holds b) in
          let (ys, k, d) =
            draw_answers-Drawn left (selected ++ c ∷ []) rest (later draws) (omega arith) in
          (
            c ∷ ys,
            draw_round left selected remaining draws c rest ys e f g k,
            record {
              weighted = c ∷ d.weighted;
              equal = d.equal;
              rest = d.rest;
              split = ap (◌∷◌ c) d.split;
              size = ap suc d.size;
              by_weight = then_one (grind arith) b g d.by_weight;
              parts = Perm.trans (Perm.cons c d.parts) p;
              positive = (omega (arith, b.low, b.high), d.positive);
              fill = d.fill;
              exhausted = d.exhausted;
            },
          )
    ]

-- `select` never raises. It answers `min(max_answers, len(candidates))` of the candidates, each as
-- often as it is there. The first are drawn by weight, one after another, from the candidates in the order of
-- their contents without those drawn before: a draw below the total weight left chooses the record in whose
-- bucket it falls, which is as wide as the record's weight. Records of weight zero are answered
-- only when no other weight is left.
pub weighted_select-Drawn :
    (max_answers : ℕ) (candidates : List Row) (draws : Draws)
    → (answers : List Row) × (weighted_select max_answers candidates draws ≡ ok answers)
      × Drawn
          (min max_answers (length candidates))
          draws
          (sort (by_key (λ (r : Row). r.content) text_leb) candidates)
          candidates
          answers
unfolding weighted_select
weighted_select-Drawn max_answers candidates draws =
    let order = by_key (λ (r : Row). r.content) text_leb in
    let (ys, e, d) =
      draw_answers-Drawn (min max_answers (length candidates)) [] (sort order candidates) draws
        (omega (arith, length-sort order candidates)) in
    (
      ys,
      e,
      record {
        weighted = d.weighted;
        equal = d.equal;
        rest = d.rest;
        split = d.split;
        size = d.size;
        by_weight = d.by_weight;
        parts = Perm.trans d.parts (sort-perm order candidates);
        positive = d.positive;
        fill = d.fill;
        exhausted = d.exhausted;
      },
    )
