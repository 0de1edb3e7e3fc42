-- ===== src/Monitor/Reconcile.antt =====
-- MonitorManager._reconcile (monitor/monitor.py): one check thread for each desired content id.
pub mod Planned
pub mod Refinement
use powergslb.Base.{
  ℕ, Bool, true, false, ◌&&◌, not, List, [], ◌∷◌, ◌++◌, map, Option, none, some, if◌then◌else◌,
}
use powergslb.Base.Dict.{Dict, get, put, pop, has, nat_eq}
use powergslb.Monitor.Check.{Check, check_eq}
use powergslb.Monitor.CheckThread.{CheckThread, new_thread}
use powergslb.Monitor.Status.{StatusRegistry, get_writer, retain}

abbrev pub Threads : Type 0
Threads = Dict ℕ CheckThread

-- What is to become of a running thread.
pub data Decision : Type 0 where
  leave : Decision
  stop : Decision
  replace : Check → Decision

unfoldable pub decision : Option Check → CheckThread → Decision
decision none thread = stop
decision (some check) thread =
    if not thread.alive
    then replace check
    else if not (check_eq thread.check check)
    then replace check
    else leave

-- `to_stop` and `to_start`
pub record Plan : Type 0 where
  pub to_stop : List CheckThread
  pub to_start : Dict ℕ Check

abbrev pub no_plan : Plan
no_plan = record { to_stop = []; to_start = [] }

unfoldable pub decide_on : Decision → ℕ → CheckThread → Plan → Plan
decide_on leave content_id thread plan = plan
decide_on stop content_id thread plan = record plan { to_stop = plan.to_stop ++ thread ∷ [] }
decide_on (replace check) content_id thread plan = record {
  to_stop = plan.to_stop ++ thread ∷ [];
  to_start = put content_id check plan.to_start;
}

-- The first loop, over the threads.
unfoldable pub plan_running : Dict ℕ Check → Plan → Threads → Plan
plan_running desired plan [] = plan
plan_running desired plan ((content_id, thread) ∷ threads) =
    plan_running desired
      (decide_on (decision (get content_id desired) thread) content_id thread plan) threads

-- The second loop, over the desired checks.
unfoldable pub plan_missing : Threads → Dict ℕ Check → Dict ℕ Check → Dict ℕ Check
plan_missing threads to_start [] = to_start
plan_missing threads to_start ((content_id, check) ∷ desired) =
    plan_missing threads
      (if has content_id threads then to_start else put content_id check to_start) desired

unfoldable pub make_plan : Threads → Dict ℕ Check → Plan
make_plan threads desired =
    let plan = plan_running desired no_plan threads in
    record plan { to_start = plan_missing threads plan.to_start desired }

-- `for thread in to_stop: self._threads.pop(thread.content_id, None)`
unfoldable pub drop_threads : List CheckThread → Threads → Threads
drop_threads [] threads = threads
drop_threads (thread ∷ to_stop) threads =
    drop_threads to_stop (pop thread.status_writer.content_id threads)

-- `_start_thread` for each entry of `to_start`
unfoldable pub start_threads : Dict ℕ Check → Threads → Threads
start_threads [] threads = threads
start_threads ((content_id, check) ∷ to_start) threads =
    start_threads to_start (put content_id (new_thread check (get_writer content_id)) threads)

-- The running threads, the registry, and the threads that `_stop_threads` was given.
unfoldable pub reconcile :
    Threads → StatusRegistry → Dict ℕ Check → Threads × StatusRegistry × List CheckThread
reconcile threads registry desired =
    let plan = make_plan threads desired in
    (
      start_threads plan.to_start (drop_threads plan.to_stop threads),
      (retain registry (map (λ d. d.0) desired)).0,
      plan.to_stop,
    )
