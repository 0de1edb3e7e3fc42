-- ===== src/Server/PowerDns/Tiers.antt =====
-- The fallback chain of `_select_records`: the candidates are the first tier that has a record.
use powergslb.Base.{
  ℕ, suc, ◌≤◌, ◌≡◌, refl, sym, Bool, true, false, not, List, [], ◌∷◌, arith, keep, is_empty,
  or_else, All, Bool-cases, inl, inr, ◌==◌,
}
use powergslb.Monitor.{StatusRegistry, is_down}
use powergslb.Row.{Row}
use powergslb.Server.PowerDns.{live, candidates}

-- Live before down, and a specific view before a catch-all one.
abbrev pub rank : Bool → Bool → ℕ
rank true false = 0
rank true true = 1
rank false false = 2
rank false true = 3

-- The tier of a record, by a test for catch-all views.
abbrev pub tier_of : StatusRegistry → (Row → Bool) → Row → ℕ
tier_of registry is_catch_all r = rank (not (is_down registry r.id)) (is_catch_all r)

-- The candidates among the records: exactly those of the lowest tier that has one.
abbrev pub Lowest : (Row → ℕ) → List Row → List Row → Type 0
Lowest tier records pool =
    (t : ℕ) × (pool ≡ keep (λ r. tier r == t) records)
    × All (λ r. t ≤ tier r) records
    × (is_empty pool ≡ is_empty records)

module _ (f : Row → ℕ) where
  -- Where no record has tier `t`, all that reach it lie above.
  raise :
      (t : ℕ) (records : List Row)
      → All (λ r. t ≤ f r) records
      → keep (λ r. f r == t) records ≡ []
      → All (λ r. suc t ≤ f r) records
  raise t [] h none_there = tt
  raise t (r ∷ records) h none_there = elim (Bool-cases (f r == t)) [
    | inl e ↦ absurd (ground (arith, none_there))
    | inr e ↦ (ground arith, raise t records h.1 (ground (arith, none_there)))
  ]

  from_zero : (records : List Row) → All (λ r. 0 ≤ f r) records
  from_zero [] = tt
  from_zero (r ∷ records) = (omega arith, from_zero records)

  kept_some :
      (t : ℕ) (records : List Row) {x : Row} {xs : List Row}
      → x ∷ xs ≡ keep (λ r. f r == t) records
      → is_empty records ≡ false
  kept_some t [] h = cc
  kept_some t (r ∷ records) h = refl

  -- One link of the chain: its own tier where that has a record, else what the later links find.
  link :
      (t : ℕ) (records xs rest : List Row)
      → All (λ r. t ≤ f r) records
      → xs ≡ keep (λ r. f r == t) records
      → (All (λ r. suc t ≤ f r) records → Lowest f records rest)
      → Lowest f records (or_else xs rest)
  link t records [] rest h e k = k (raise t records h (sym e))
  link t records (x ∷ xs) rest h e k = (t, e, h, sym (kept_some t records e))

  last_link :
      (records xs : List Row)
      → All (λ r. (3 ≤ f r) × (f r ≤ 3)) records
      → xs ≡ keep (λ r. f r == 3) records
      → is_empty xs ≡ is_empty records
  last_link [] xs h e = ground (arith, e)
  last_link (r ∷ records) xs h e = rw e (ground arith)

module _ (registry : StatusRegistry) (is_catch_all : Row → Bool) where
  abbrev pub specific : List Row → List Row
  specific = keep (λ r. not (is_catch_all r))

  abbrev pub catch_all : List Row → List Row
  catch_all = keep is_catch_all

  live-specific :
      (records : List Row)
      → live registry (specific records) ≡ keep (λ r. tier_of registry is_catch_all r == 0) records
  unfolding live
  live-specific [] = refl
  live-specific (r ∷ records) = ground (arith, live-specific records)

  live-catch_all :
      (records : List Row)
      → live registry (catch_all records) ≡ keep (λ r. tier_of registry is_catch_all r == 1) records
  unfolding live
  live-catch_all [] = refl
  live-catch_all (r ∷ records) = ground (arith, live-catch_all records)

  specific-eq_of_down :
      (records : List Row)
      → All (λ r. 2 ≤ tier_of registry is_catch_all r) records
      → specific records ≡ keep (λ r. tier_of registry is_catch_all r == 2) records
  specific-eq_of_down [] h = refl
  specific-eq_of_down (r ∷ records) h = ground (arith, specific-eq_of_down records h.1)

  catch_all-eq_of_down :
      (records : List Row)
      → All (λ r. 3 ≤ tier_of registry is_catch_all r) records
      → catch_all records ≡ keep (λ r. tier_of registry is_catch_all r == 3) records
  catch_all-eq_of_down [] h = refl
  catch_all-eq_of_down (r ∷ records) h = ground (arith, catch_all-eq_of_down records h.1)

  rank-le :
      (records : List Row)
      → All (λ r. 3 ≤ tier_of registry is_catch_all r) records
      → All
          (λ r. (3 ≤ tier_of registry is_catch_all r) × (tier_of registry is_catch_all r ≤ 3))
          records
  rank-le [] h = tt
  rank-le (r ∷ records) h = (ground arith, rank-le records h.1)

  -- Of the records in view, parted by whether their view is a catch-all, the candidates are exactly those
  -- of the lowest tier that has one: live specific, live catch-all, down specific, down catch-all. There
  -- are none only where no record is in view: with all of them down, all count as up.
  pub candidates-Lowest :
      (records : List Row)
      → Lowest
          (tier_of registry is_catch_all)
          records
          (candidates registry (specific records) (catch_all records))
  unfolding candidates
  candidates-Lowest records =
      let f = tier_of registry is_catch_all in
      link f 0 records (live registry (specific records)) _ (from_zero f records)
        (live-specific records)
        (λ h1.
          link f 1 records (live registry (catch_all records)) _ h1 (live-catch_all records) (λ h2.
            link f 2 records (specific records) _ h2 (specific-eq_of_down records h2) (λ h3.
              let e = catch_all-eq_of_down records h3 in
              (3, e, h3, last_link f records (catch_all records) (rank-le records h3) e))))
