-- ===== src/Random.antt =====
-- What the policies use of Python's `random`: a stream of raw draws, reduced below each bound.
use mathlib.Core.List.Perm
use mathlib.Core.List.{Perm}
use powergslb.Base.{
  ℕ, zero, suc, ◌%◌, ◌≤◌, ◌<◌, ◌≡◌, refl, ap, List, [], ◌∷◌, Option, none, some, arith, ltb, ◌==◌,
  if◌then◌else◌, length, Result, ok, err, value_error,
}
use powergslb.Base.Perms.{Picked, Picked-nil}

abbrev pub Draws : Type 0
Draws = ℕ → ℕ

-- The draws after the first.
abbrev pub later : Draws → Draws
later d n = d (suc n)

-- `random.randrange(n)`
unfoldable pub randrange : ℕ → Draws → Result ℕ
randrange n d = if n == 0 then err value_error else ok (d 0 % n)

module _ {A : Type 0} where
  -- An entry by its index, and the others.
  unfoldable pub pick_at : ℕ → List A → Option (A × List A)
  pick_at i [] = none
  pick_at zero (x ∷ xs) = some (x, xs)
  pick_at (suc i) (x ∷ xs) = elim (pick_at i xs) [
    | none ↦ none
    | some (a, rest) ↦ some (a, x ∷ rest)
  ]

  unfoldable pub sample_draws : List A → ℕ → Draws → List A
  sample_draws xs zero d = []
  sample_draws xs (suc k) d = elim (pick_at (d 0 % length xs) xs) [
    | none ↦ []
    | some (a, rest) ↦ a ∷ sample_draws rest k (later d)
  ]

  -- `random.sample(xs, k)`: `k` entries without replacement, in the order drawn.
  unfoldable pub sample : List A → ℕ → Draws → Result (List A)
  unfolding sample_draws pick_at
  sample xs k d = if ltb (length xs) k then err value_error else ok (sample_draws xs k d)

  abbrev PicksOne : List A → Option (A × List A) → Type 0
  PicksOne xs o =
      (a : A) × (rest : List A) × (o ≡ some (a, rest))
      × (length xs ≡ suc (length rest))
      × Perm (a ∷ rest) xs

  pick_at-PicksOne : (i : ℕ) (xs : List A) → i < length xs → PicksOne xs (pick_at i xs)
  unfolding pick_at
  pick_at-PicksOne i [] h = elim h [ ]
  pick_at-PicksOne zero (x ∷ xs) h = (x, xs, refl, refl, Perm.refl (x ∷ xs))
  pick_at-PicksOne (suc i) (x ∷ xs) h =
      let (a, rest, e, l, p) = pick_at-PicksOne i xs (omega arith) in
      (a, x ∷ rest, ground arith, omega arith, Perm.trans (Perm.swap x a rest) (Perm.cons x p))

  abbrev pub Samples : List A → ℕ → List A → Type 0
  Samples xs k ys = (length ys ≡ k) × Picked ys xs

  sample_draws-Samples :
      (xs : List A) (k : ℕ) (d : Draws) → k ≤ length xs → Samples xs k (sample_draws xs k d)
  unfolding sample_draws
  sample_draws-Samples xs zero d h = (refl, Picked-nil xs)
  sample_draws-Samples xs (suc k) d h =
      let (a, rest, e, l, p) = pick_at-PicksOne (d 0 % length xs) xs (grind arith) in
      let (n, picked) = sample_draws-Samples rest k (later d) (omega arith) in
      rw (e, sample_draws) (ap suc n, (picked.0, Perm.trans (Perm.cons a picked.1) p))

  -- A sample no larger than the population succeeds, with as many of its entries as were asked for.
  pub sample-Samples :
      (xs : List A) (k : ℕ) (d : Draws)
      → k ≤ length xs
      → (ys : List A) × (sample xs k d ≡ ok ys) × Samples xs k ys
  unfolding sample
  sample-Samples xs k d h = (sample_draws xs k d, ground arith, sample_draws-Samples xs k d h)
