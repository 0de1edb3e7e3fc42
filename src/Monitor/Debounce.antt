-- ===== src/Monitor/Debounce.antt =====
-- The debounce as a function of the history of outcomes, newest first.
use powergslb.Base.{
  ℕ, suc, ◌≡◌, ◌≤◌, ◌≢◌, refl, Bool, true, false, List, [], ◌∷◌, arith, leb, if◌then◌else◌,
}
use powergslb.Monitor.Check.{Check}
use powergslb.Monitor.CheckThread.{
  CheckThread, new_thread, Outcome, returned, raised, check_fall, check_rise, task,
}
use powergslb.Monitor.Status.{
  StatusRegistry, StatusWriter, is_down, set_down, set_up, writer_is_down, is_down-add,
  is_down-remove,
}

abbrev pub State : Type 0
State = CheckThread × StatusRegistry

-- The state after the outcomes, the newest of which stands first.
unfoldable pub run : List Outcome → State → State
run [] state = state
run (o ∷ history) state = let (thread, registry) = run history state in task o thread registry

abbrev pub is_success : Outcome → Bool
is_success (returned b) = b
is_success raised = false

-- The length of the run of successes, and of failures, that the history ends in.
abbrev pub successes : List Outcome → ℕ
successes [] = 0
successes (o ∷ history) = let n = successes history in if is_success o then suc n else 0

abbrev pub failures : List Outcome → ℕ
failures [] = 0
failures (o ∷ history) = let n = failures history in if is_success o then 0 else suc n

-- Down from the `fall`-th failure in a row on, up from the `rise`-th success in a row on, and else as
-- before the last outcome.
abbrev pub debounced : ℕ → ℕ → Bool → List Outcome → Bool
debounced fall rise initially [] = initially
debounced fall rise initially (o ∷ history) =
    let before = debounced fall rise initially history in
    if leb fall (failures (o ∷ history))
    then true
    else if leb rise (successes (o ∷ history))
    then false
    else before

-- What is kept along a run that began with a new thread.
pub record Tracks (check : Check) (id : ℕ) (registry : StatusRegistry) (history : List Outcome)
    (state : State) : Type 0 where
  pub check_kept : state.0.check ≡ check
  pub id_kept : state.0.status_writer.content_id ≡ id
  pub fall_counts : state.0.fall ≡ failures history
  pub rise_counts : state.0.rise ≡ successes history
  pub own : is_down state.1 id ≡ debounced check.fall check.rise (is_down registry id) history
  pub others : (j : ℕ) → j ≢ id → is_down state.1 j ≡ is_down registry j

-- Both branches of a step, seen from the registry: it is left alone, or the thread's own id is set.
module _ (check : Check) (id : ℕ) (registry : StatusRegistry) (history : List Outcome)
    (state : State) (falls : 1 ≤ check.fall) (rises : 1 ≤ check.rise)
    (t : Tracks check id registry history state) where
  fall-Tracks :
      (o : Outcome)
      → is_success o ≡ false
      → Tracks check id registry (o ∷ history) (check_fall state.0 state.1)
  unfolding check_fall set_down writer_is_down
  fall-Tracks o failed = record {
    check_kept = ground arith;
    id_kept = ground arith;
    fall_counts = ground arith;
    rise_counts = ground arith;
    own = ground (arith, is_down-add state.1 state.0.status_writer.content_id id);
    others = λ j ne.
        ground (arith, is_down-add state.1 state.0.status_writer.content_id j, t.others j ne);
  }

  rise-Tracks :
      (o : Outcome)
      → is_success o ≡ true
      → Tracks check id registry (o ∷ history) (check_rise state.0 state.1)
  unfolding check_rise set_up writer_is_down
  rise-Tracks o succeeded = record {
    check_kept = ground arith;
    id_kept = ground arith;
    fall_counts = ground arith;
    rise_counts = ground arith;
    own = ground (arith, is_down-remove state.1 state.0.status_writer.content_id id);
    others = λ j ne.
        ground (arith, is_down-remove state.1 state.0.status_writer.content_id j, t.others j ne);
  }

  task-Tracks : (o : Outcome) → Tracks check id registry (o ∷ history) (task o state.0 state.1)
  unfolding task
  task-Tracks (returned true) = rise-Tracks (returned true) refl
  task-Tracks (returned false) = fall-Tracks (returned false) refl
  task-Tracks raised = fall-Tracks raised refl

-- A thread that is started with positive thresholds has its content marked down exactly when the
-- debounced history says so, and touches no other content; its counters are the lengths of the last
-- runs of failures and of successes. An exception counts as a failure.
pub run-Tracks :
    (check : Check) (writer : StatusWriter) (registry : StatusRegistry) (history : List Outcome)
    → 1 ≤ check.fall
    → 1 ≤ check.rise
    → Tracks check writer.content_id registry history
        (run history (new_thread check writer, registry))
unfolding run new_thread
run-Tracks check writer registry [] f r = record {
  check_kept = refl;
  id_kept = refl;
  fall_counts = refl;
  rise_counts = refl;
  own = refl;
  others = λ j ne. refl;
}
run-Tracks check writer registry (o ∷ history) f r =
    task-Tracks check writer.content_id registry history
      (run history (new_thread check writer, registry)) f r
      (run-Tracks check writer registry history f r) o
