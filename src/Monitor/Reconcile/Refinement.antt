-- ===== src/Monitor/Reconcile/Refinement.antt =====
-- `_reconcile` against its specification, for every content id.
use powergslb.Base.{
  ℕ, ◌≡◌, refl, Bool, true, false, ◌&&◌, not, [], ◌∷◌, map, Option, none, some, arith,
  if◌then◌else◌,
}
use powergslb.Base.Dict.{Dict, get, has, IsDict, nat_eq}
use powergslb.Monitor.Check.{Check, check_eq}
use powergslb.Monitor.CheckThread.{CheckThread, new_thread}
use powergslb.Monitor.Status.{StatusRegistry, member, get_writer, is_down, is_down-retain}
use powergslb.Monitor.Reconcile.{
  Threads, decision, no_plan, make_plan, drop_threads, reconcile, plan_running,
}
use powergslb.Monitor.Reconcile.Planned.{
  AreThreads, drop_threads-AreThreads, start_threads-AreThreads, ids, decided, started, stopped,
  to_start-plan_running, to_stop-plan_running, get-plan_missing, make_plan-IsDict, get-drop_threads,
  get-start_threads,
}

-- The thread that a content id is to have: the one it has, with its counters, if that is alive and runs
-- the desired check; else a new one; and none where no check is desired.
abbrev pub wanted : ℕ → Option Check → Option CheckThread → Option CheckThread
wanted id none running = none
wanted id (some check) none = some (new_thread check (get_writer id))
wanted id (some check) (some thread) =
    if thread.alive && check_eq thread.check check
    then some thread
    else some (new_thread check (get_writer id))

member-keys : (j : ℕ) (desired : Dict ℕ Check) → member j (map (λ d. d.0) desired) ≡ has j desired
unfolding get
member-keys j [] = refl
member-keys j ((id, check) ∷ desired) = ground (arith, member-keys j desired)

-- A thread that does not stay.
abbrev pub superseded : Option Check → Option CheckThread → Bool
superseded desired none = false
superseded none (some thread) = true
superseded (some check) (some thread) = not (thread.alive && check_eq thread.check check)

module _ (threads : Threads) (desired : Dict ℕ Check) (running : AreThreads threads)
    (desired_unique : IsDict desired) where
  to_start-make_plan :
      (j : ℕ)
      → get j (make_plan threads desired).to_start ≡ (
          if has j threads then started (decided desired j (get j threads)) none else get j desired)
  unfolding make_plan get
  to_start-make_plan j = ground (
    arith,
    get-plan_missing threads (plan_running desired no_plan threads).to_start desired j
        desired_unique,
    to_start-plan_running desired no_plan threads j running.unique,
  )

  to_stop-make_plan :
      (j : ℕ)
      → member j (ids (make_plan threads desired).to_stop)
        ≡ stopped (decided desired j (get j threads))
  unfolding make_plan
  to_stop-make_plan j = to_stop-plan_running desired no_plan threads j running.unique running.keyed

  -- After reconciliation every content id has exactly the wanted thread; the threads that are stopped are
  -- those whose check is no longer desired, that died, or whose check changed.
  pub reconcile-wanted :
      (registry : StatusRegistry) (j : ℕ)
      → let (threads', registry', to_stop) = reconcile threads registry desired in
        (get j threads' ≡ wanted j (get j desired) (get j threads))
        × (member j (ids to_stop) ≡ superseded (get j desired) (get j threads))
  unfolding reconcile decision
  reconcile-wanted registry j =
      let plan = make_plan threads desired in
      ground (
        arith,
        get-start_threads plan.to_start (drop_threads plan.to_stop threads) j
            (make_plan-IsDict threads desired),
        get-drop_threads plan.to_stop threads j,
        to_start-make_plan j,
        to_stop-make_plan j,
      )

-- The threads that `_reconcile` leaves are again one to a content id, each under its own, and a content
-- is down after it exactly when it was down before and its check is still desired.
pub reconcile-AreThreads :
    (threads : Threads) (registry : StatusRegistry) (desired : Dict ℕ Check) (j : ℕ)
    → AreThreads threads
    → let (threads', registry', to_stop) = reconcile threads registry desired in
      AreThreads threads' × (is_down registry' j ≡ (has j desired && is_down registry j))
unfolding reconcile
reconcile-AreThreads threads registry desired j running =
    let plan = make_plan threads desired in
    (
      start_threads-AreThreads plan.to_start (drop_threads plan.to_stop threads)
          (drop_threads-AreThreads plan.to_stop threads running),
      ground (arith, is_down-retain registry (map (λ d. d.0) desired) j, member-keys j desired),
    )
