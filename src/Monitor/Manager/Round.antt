-- ===== src/Monitor/Manager/Round.antt =====
-- One round of the monitor, from the rows of the database to the running threads.
use powergslb.Base.{
  ℕ, ◌≡◌, refl, ap, ◌∙◌, Bool, ◌&&◌, Bool-cases, inl, inr, ◌==◌, if◌then◌else◌, List, [], ◌∷◌,
  Option, none, some, Text, Result, ok, err,
}
use powergslb.Base.Dict.{Dict, get, get-put, is_some, nat_eq}
use powergslb.Base.Values.{Value}
use powergslb.Monitor.Check.{Check, skip}
use powergslb.Monitor.CheckThread.{CheckThread}
use powergslb.Monitor.Create.{Libraries}
use powergslb.Monitor.Desired.{RawCheck, build_check, add_desired, desired_onto}
use powergslb.Monitor.Desired.Sound.{desired_onto-AreDesired}
use powergslb.Monitor.Manager.{Manager, Exits, task_round}
use powergslb.Monitor.Reconcile.Planned.{AreThreads}
use powergslb.Monitor.Reconcile.Refinement.{wanted, reconcile-wanted, reconcile-AreThreads}
use powergslb.Monitor.Status.{is_down}

module _ (libraries : Libraries) (loads : Text → Result Value) (exits : Exits) where
  -- What a row asks for: its check, where it builds one that is to run.
  abbrev runnable : Result Check → Option Check
  runnable (err e) = none
  runnable (ok check) = if skip check then none else some check

  abbrev later_or : Option Check → Option Check → Option Check
  later_or none earlier = earlier
  later_or (some check) earlier = some check

  -- What the rows of a content id ask for: the check of the last that asks for one.
  abbrev pub asked_for : ℕ → List RawCheck → Option Check
  asked_for id [] = none
  asked_for id (raw ∷ raw_checks) =
      later_or (asked_for id raw_checks)
        (if raw.id == id then runnable (build_check libraries loads raw) else none)

  add_desired-get :
      (id other : ℕ) (r : Result Check) (desired : Dict ℕ Check)
      → get id (add_desired libraries loads other r desired)
        ≡ later_or (if other == id then runnable r else none) (get id desired)
  add_desired-get id other (err e) desired = elim (Bool-cases (other == id)) [
    | inl f ↦ rw f refl
    | inr f ↦ rw f refl
  ]
  add_desired-get id other (ok check) desired = elim (Bool-cases (skip check)) [
    | inl e ↦ elim (Bool-cases (other == id)) [ inl f ↦ rw (e, f) refl | inr f ↦ rw (e, f) refl ]
    | inr e ↦ elim (Bool-cases (other == id)) [
      | inl f ↦ rw e (get-put other id check desired ∙ (rw f refl))
      | inr f ↦ rw e (get-put other id check desired ∙ (rw f refl))
    ]
  ]

  later_or_later : (a b c : Option Check) → later_or a (later_or b c) ≡ later_or (later_or a b) c
  later_or_later none b c = refl
  later_or_later (some check) b c = refl

  -- The desired checks are those that the rows ask for.
  desired_onto-asked_for :
      (id : ℕ) (raw_checks : List RawCheck) (desired : Dict ℕ Check)
      → get id (desired_onto libraries loads desired raw_checks)
        ≡ later_or (asked_for id raw_checks) (get id desired)
  unfolding desired_onto
  desired_onto-asked_for id [] desired = refl
  desired_onto-asked_for id (raw ∷ raw_checks) desired =
      desired_onto-asked_for id raw_checks
        (add_desired libraries loads raw.id (build_check libraries loads raw) desired)
      ∙ ap (later_or (asked_for id raw_checks))
          (add_desired-get id raw.id (build_check libraries loads raw) desired)
      ∙ later_or_later (asked_for id raw_checks) _ (get id desired)

  asked_at_first :
      (id : ℕ) (raw_checks : List RawCheck)
      → get id (desired_onto libraries loads [] raw_checks) ≡ asked_for id raw_checks
  unfolding get
  asked_at_first id raw_checks =
      desired_onto-asked_for id raw_checks [] ∙ nothing_later (asked_for id raw_checks)
    where
      nothing_later : (o : Option Check) → later_or o none ≡ o
      nothing_later none = refl
      nothing_later (some check) = refl

  -- The thread and the status of a content id after a round.
  abbrev pub thread_after : Option (List RawCheck) → Manager → ℕ → Option CheckThread
  thread_after none manager id = get id manager.threads
  thread_after (some raw_checks) manager id =
      wanted id (asked_for id raw_checks) (get id manager.threads)

  abbrev pub down_after : Option (List RawCheck) → Manager → ℕ → Bool
  down_after none manager id = is_down manager.registry id
  down_after (some raw_checks) manager id =
      is_some (asked_for id raw_checks) && is_down manager.registry id

  -- Where there is one thread to a content id, each under its own, a round keeps it so. With the database
  -- available, every content id has exactly the thread that its rows ask for: that of the last of them that
  -- builds a check which is to run, where the thread that is there runs another check or has died, else the one
  -- that is there; and none where no row asks for one. Only contents that a row asks for can still be
  -- down. Without the database nothing changes.
  pub task_round-wanted :
      (raw_checks : Option (List RawCheck)) (manager : Manager) (id : ℕ)
      → AreThreads manager.threads
      → let (after, stopped) = task_round libraries loads exits raw_checks manager in
        AreThreads after.threads
        × (get id after.threads ≡ thread_after raw_checks manager id)
        × (is_down after.registry id ≡ down_after raw_checks manager id)
  unfolding task_round
  task_round-wanted none manager id h = (h, refl, refl)
  task_round-wanted (some raw_checks) manager id h =
      let desired = desired_onto libraries loads [] raw_checks in
      let sound =
        desired_onto-AreDesired libraries loads raw_checks [] (record { unique = tt; run = tt }) in
      let (kept, down) = reconcile-AreThreads manager.threads manager.registry desired id h in
      let asked = asked_at_first id raw_checks in
      (
        kept,
        (reconcile-wanted manager.threads desired h sound.unique manager.registry id).0
            ∙ ap (λ o. wanted id o (get id manager.threads)) asked,
        down ∙ ap (λ o. is_some o && is_down manager.registry id) asked,
      )
