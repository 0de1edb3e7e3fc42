-- ===== src/Monitor/Manager.antt =====
-- MonitorManager (monitor/monitor.py): one round of the monitor, and how threads are stopped. Which threads
-- exit in time is a parameter, a function of the thread.
pub mod Round
use powergslb.Base.{
  ℕ, ◌*◌, max, Bool, not, List, [], ◌∷◌, map, Option, none, some, keep, Text, Result,
}
use powergslb.Base.Dict.{Dict}
use powergslb.Base.Values.{Value}
use powergslb.Monitor.Check.{Check}
use powergslb.Monitor.CheckThread.{CheckThread}
use powergslb.Monitor.Create.{Libraries}
use powergslb.Monitor.Desired.{RawCheck, desired_checks}
use powergslb.Monitor.Reconcile.{Threads, reconcile}
use powergslb.Monitor.Status.{StatusRegistry, new_registry}

pub record Manager : Type 0 where
  pub threads : Threads
  pub registry : StatusRegistry

-- `MonitorManager(...)`
abbrev pub new_manager : Manager
new_manager = record { threads = []; registry = new_registry }

-- What `_stop_threads` does to the outside: the threads that are signalled, the seconds that they have
-- together, and those of them that are abandoned.
pub record Stopped : Type 0 where
  pub signalled : List CheckThread
  pub budget : ℕ
  pub abandoned : List CheckThread

-- `shutdown_timeout`, the greatest timeout of the checks
abbrev pub longest_timeout : List CheckThread → ℕ
longest_timeout [] = 0
longest_timeout (thread ∷ threads) = max thread.check.timeout (longest_timeout threads)

-- Whether a signalled thread exits in time.
abbrev pub Exits : Type 0
Exits = CheckThread → Bool

unfoldable pub stop_threads : Exits → List CheckThread → Stopped
stop_threads exits threads =
    let alive_threads = keep (λ t. t.alive) threads in
    record {
      signalled = alive_threads;
      budget = 2 * longest_timeout alive_threads;
      abandoned = keep (λ t. not (exits t)) alive_threads;
    }

module _ (libraries : Libraries) (loads : Text → Result Value) (exits : Exits) where
  abbrev reconciled : Manager → Option (Dict ℕ Check) → Manager × Option Stopped
  reconciled manager none = (manager, none)
  reconciled manager (some desired) =
      let (threads, registry, to_stop) = reconcile manager.threads manager.registry desired in
      (record { threads = threads; registry = registry }, some (stop_threads exits to_stop))

  -- `task`, from the rows of the database, if it is available.
  unfoldable pub task_round : Option (List RawCheck) → Manager → Manager × Option Stopped
  unfolding desired_checks reconcile stop_threads
  task_round raw_checks manager = reconciled manager (desired_checks libraries loads raw_checks)

-- `shutdown`: all threads are signalled, and the manager stops.
unfoldable pub shutdown : Manager → List CheckThread
shutdown manager = map (λ t. t.1) manager.threads
