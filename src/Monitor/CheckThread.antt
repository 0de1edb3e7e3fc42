-- ===== src/Monitor/CheckThread.antt =====
-- CheckThread (monitor/check/thread.py): one check, its rise/fall counters and its status writer.
use powergslb.Base.{ℕ, suc, Bool, true, false, ◌&&◌, not, leb, if◌then◌else◌}
use powergslb.Monitor.Check.{Check}
use powergslb.Monitor.Status.{StatusRegistry, StatusWriter, set_down, set_up, writer_is_down}

pub record CheckThread : Type 0 where
  pub fall : ℕ
  pub rise : ℕ
  pub check : Check
  pub status_writer : StatusWriter
  -- what `is_alive()` answers
  pub alive : Bool

-- `CheckThread(check, status_writer)`, started
unfoldable pub new_thread : Check → StatusWriter → CheckThread
new_thread check writer = record {
  fall = 0;
  rise = 0;
  check = check;
  status_writer = writer;
  alive = true;
}

-- What `check.execute()` did.
pub data Outcome : Type 0 where
  returned : Bool → Outcome
  raised : Outcome

unfoldable pub check_fall : CheckThread → StatusRegistry → CheckThread × StatusRegistry
check_fall thread registry =
    let counted = record thread { fall = suc thread.fall; rise = 0 } in
    if leb thread.check.fall counted.fall && not (writer_is_down thread.status_writer registry)
    then (counted, set_down thread.status_writer registry)
    else (counted, registry)

unfoldable pub check_rise : CheckThread → StatusRegistry → CheckThread × StatusRegistry
check_rise thread registry =
    let counted = record thread { fall = 0; rise = suc thread.rise } in
    if leb thread.check.rise counted.rise && writer_is_down thread.status_writer registry
    then (counted, set_up thread.status_writer registry)
    else (counted, registry)

-- `CheckThread.task`, by what the check did
unfoldable pub task : Outcome → CheckThread → StatusRegistry → CheckThread × StatusRegistry
unfolding check_fall check_rise
task (returned true) thread registry = check_rise thread registry
task (returned false) thread registry = check_fall thread registry
task raised thread registry = check_fall thread registry
