-- ===== src/Tests/Monitoring.antt =====
-- Health checks at a concrete history, and reconciliation at concrete threads.
use powergslb.Base.{
  some, ℕ, ◌≡◌, refl, true, false, List, [], ◌∷◌, arith, codes, Text, text_eq, if◌then◌else◌,
  Result, ok, err, value_error,
}
use powergslb.Base.Dict.{Dict, get, IsDict, nat_eq}
use powergslb.Monitor.{member, is_down, get_writer, new_thread, Outcome, returned, raised}
use powergslb.Monitor.Check.{Check, icmp, tcp}
use powergslb.Monitor.Debounce.{Tracks, run, run-Tracks}
use powergslb.Monitor.Reconcile.{Threads, reconcile}
use powergslb.Monitor.Reconcile.Planned.{AreThreads, ids}
use powergslb.Monitor.Reconcile.Refinement.{wanted, superseded, reconcile-wanted}
use powergslb.Base.Values.{Value, Fields, dict, str, int, pos, field, end, entries}
use powergslb.Monitor.Create.{Libraries}
use powergslb.Monitor.Create as Create
use powergslb.Monitor.Create.Sound.{IsSound, create-IsSound}
use powergslb.Monitor.Desired.{RawCheck, desired_onto}
use powergslb.Monitor.Desired.Sound.{AreDesired, desired_onto-AreDesired}
use powergslb.Monitor.Manager.{Manager, Exits, task_round}
use powergslb.Monitor.Manager.Round.{thread_after, down_after, task_round-wanted}
use powergslb.Tests.Setup.{registry}

abbrev ping : ℕ → Check
ping fall = record {
  interval = 3;
  timeout = 1;
  fall = fall;
  rise = 2;
  kind = icmp (codes "10.0.0.1");
}

-- The newest outcome stands first.
abbrev history : List Outcome
history = raised ∷ returned false ∷ returned true ∷ []

run-Tracks_example :
    Tracks (ping 2) 7 registry history (run history (new_thread (ping 2) (get_writer 7), registry))
unfolding get_writer
run-Tracks_example = run-Tracks (ping 2) (get_writer 7) registry history (omega arith) (omega arith)

abbrev threads : Threads
threads = (7, new_thread (ping 2) (get_writer 7)) ∷ (8, new_thread (ping 2) (get_writer 8)) ∷ []

abbrev desired : Dict ℕ Check
desired = (7, ping 3) ∷ (9, ping 2) ∷ []

threads-AreThreads : AreThreads threads
unfolding get get_writer new_thread
threads-AreThreads = record { unique = (refl, (refl, tt)); keyed = (refl, (refl, tt)) }

desired-IsDict : IsDict desired
unfolding get
desired-IsDict = (refl, (refl, tt))

reconcile-wanted_example :
    let (threads', registry', to_stop) = reconcile threads registry desired in
    (get 7 threads' ≡ wanted 7 (get 7 desired) (get 7 threads))
    × (member 7 (ids to_stop) ≡ superseded (get 7 desired) (get 7 threads))
reconcile-wanted_example =
    reconcile-wanted threads desired threads-AreThreads desired-IsDict registry 7

abbrev libraries : Libraries
libraries = record {
  is_address = λ text. true;
  is_regex = λ text. true;
  urlsplit = λ url. ok (codes "http", url);
}

abbrev tcp_fields : Fields
tcp_fields = field (codes "type") (str (codes "tcp")) (
    field (codes "ip") (str (codes "${content}"))
      (field (codes "port") (int (pos 53)) (field (codes "timeout") (int (pos 9)) end)))

abbrev tcp_check : Check
tcp_check = record {
  interval = 3;
  timeout = 3;
  fall = 3;
  rise = 5;
  kind = tcp (codes "${content}") 53;
}

create-concrete : Create.create libraries (entries tcp_fields) ≡ ok tcp_check
unfolding Create.create
create-concrete = refl

create-IsSound_example : IsSound tcp_check
create-IsSound_example = create-IsSound libraries (entries tcp_fields) create-concrete

-- The second text is no check.
abbrev loads : Text → Result Value
loads text = if text_eq text (codes "tcp") then ok (dict tcp_fields) else err value_error

abbrev raw_checks : List RawCheck
raw_checks =
    record { id = 5; content = codes "10.0.0.5"; monitor_json = codes "tcp" }
    ∷ record { id = 6; content = codes "10.0.0.6"; monitor_json = codes "?" }
    ∷ []

desired_onto-AreDesired_example : AreDesired (desired_onto libraries loads [] raw_checks)
desired_onto-AreDesired_example =
    desired_onto-AreDesired libraries loads raw_checks [] (record { unique = tt; run = tt })

abbrev no_exit : Exits
no_exit thread = false

abbrev manager : Manager
manager = record { threads = threads; registry = registry }

task_round-wanted_example :
    let (after, stopped) = task_round libraries loads no_exit (some raw_checks) manager in
    AreThreads after.threads
    × (get 5 after.threads ≡ thread_after libraries loads no_exit (some raw_checks) manager 5)
    × (is_down after.registry 5 ≡ down_after libraries loads no_exit (some raw_checks) manager 5)
task_round-wanted_example =
    task_round-wanted libraries loads no_exit (some raw_checks) manager 5 threads-AreThreads
