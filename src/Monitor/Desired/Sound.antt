-- ===== src/Monitor/Desired/Sound.antt =====
-- What reconciliation is given: sound checks that are to run, one to a content id.
use powergslb.Base.{
  ℕ, ◌≡◌, refl, false, List, [], ◌∷◌, Bool-cases, inl, inr, ◌==◌, Text, Result, ok, err, >>=-eq-ok,
  All,
}
use powergslb.Base.Dict.{Dict, put, IsDict, put-IsDict, nat_eq}
use powergslb.Base.Values.{Value}
use powergslb.Monitor.Check.{Check, skip}
use powergslb.Monitor.Create.{Libraries}
use powergslb.Monitor.Create.Sound.{IsSound, create-IsSound}
use powergslb.Monitor.Desired.{RawCheck, parse, build_check, add_desired, desired_onto}

-- The check may run.
abbrev pub Runs : Check → Type 0
Runs check = IsSound check × (skip check ≡ false)

-- One check to a content id, each of which may run.
pub record AreDesired (desired : Dict ℕ Check) : Type 0 where
  pub unique : IsDict desired
  pub run : All (λ d. Runs d.1) desired

All-put :
    (id : ℕ) (check : Check) (desired : Dict ℕ Check)
    → Runs check
    → All (λ d. Runs d.1) desired
    → All (λ d. Runs d.1) (put id check desired)
unfolding put
All-put id check [] h k = (h, tt)
All-put id check ((j, c) ∷ desired) h k = elim (Bool-cases (j == id)) [
  | inl e ↦ rw e (h, k.1)
  | inr e ↦ rw e (k.0, All-put id check desired h k.1)
]

module _ (libraries : Libraries) (loads : Text → Result Value) where
  build_check-IsSound :
      (raw : RawCheck) {check : Check} → build_check libraries loads raw ≡ ok check → IsSound check
  unfolding build_check
  build_check-IsSound raw h =
      let (spec, e, f) = >>=-eq-ok {B = Check} (parse libraries loads raw) _ h in
      create-IsSound libraries spec f

  add_desired-AreDesired :
      (id : ℕ) (r : Result Check) (desired : Dict ℕ Check)
      → ((check : Check) → r ≡ ok check → IsSound check)
      → AreDesired desired
      → AreDesired (add_desired libraries loads id r desired)
  add_desired-AreDesired id (err e) desired sound h = h
  add_desired-AreDesired id (ok check) desired sound h = elim (Bool-cases (skip check)) [
    | inl e ↦ rw e h
    | inr e ↦ rw e (record {
      unique = put-IsDict id check desired h.unique;
      run = All-put id check desired (sound check refl, e) h.run;
    })
  ]

  -- Whatever rows the database has, malformed ones included, the desired checks are sound, none is of the
  -- type that is never run, and no content id has two: what reconciliation asks for.
  pub desired_onto-AreDesired :
      (raw_checks : List RawCheck) (desired : Dict ℕ Check)
      → AreDesired desired
      → AreDesired (desired_onto libraries loads desired raw_checks)
  unfolding desired_onto
  desired_onto-AreDesired [] desired h = h
  desired_onto-AreDesired (raw ∷ raw_checks) desired h =
      desired_onto-AreDesired raw_checks
        (add_desired libraries loads raw.id (build_check libraries loads raw) desired)
        (add_desired-AreDesired raw.id (build_check libraries loads raw) desired
          (λ check e. build_check-IsSound raw e) h)
