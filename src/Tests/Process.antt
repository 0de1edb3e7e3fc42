-- ===== src/Tests/Process.antt =====
-- The supervision of the threads, an HTTP server's life, and the configuration.
use powergslb.Base.{
  ◌≢◌, refl, ◌≤◌, ℕ, leb, true, [], ◌∷◌, Option, none, Text, codes, Returns, arith,
}
use powergslb.Base.Dict.{Dict, get, text_key}
use powergslb.Base.Values.{pos, int, null}
use powergslb.System.Config.{Sections, configured, get_option}
use powergslb.System.Config.Types.{SameType, get_option-SameType}
use powergslb.System.Service.{Look, is_threads_alive}
use powergslb.System.Service.Stops.{Stopped, start-Stops}
use powergslb.Server.Manager.{
  Manager, bound, ready, idle, initial, enter, mark, bind, wrap, lock, call, Run, here, next,
}
use powergslb.Server.Manager.Stopping.{GoesOnOrEnds, shutdown-Ends}
use powergslb.Tests.Setup.{casing}

-- The second thread is dead at the third look.
abbrev looks : ℕ → Look Text
looks n = record { received = none; alive = λ (name : Text). leb n 1; total = 3 }

start-Stops_example :
    Stopped (λ (name : Text). name) true (codes "monitor" ∷ codes "server" ∷ []) looks (looks 2) 2 5
unfolding is_threads_alive
start-Stops_example =
    start-Stops (λ (name : Text). name) true (codes "monitor" ∷ codes "server" ∷ []) looks (looks 2)
      2 5 refl (omega arith) (λ n e. e)

abbrev sections : Sections
sections = (codes "mysql", (codes "port", int (pos 3306)) ∷ []) ∷ []

abbrev environ : Dict Text Text
environ = (codes "POWERGSLB_MYSQL_PORT", codes "3307") ∷ []

abbrev to_float : Text → Option Text
to_float text = none

has_port : configured casing to_float sections (codes "mysql") (codes "port") null ≢ null
unfolding configured get
has_port e = cc

get_option-SameType_example :
    Returns
      (SameType (configured casing to_float sections (codes "mysql") (codes "port") null))
      (get_option casing to_float sections environ (codes "mysql") (codes "port") null)
get_option-SameType_example =
    get_option-SameType casing to_float sections environ (codes "mysql") (codes "port") null
      has_port

-- `shutdown` comes while the server has not entered its loop.
abbrev called_early : Manager
called_early = mark (record initial { stage = ready })

until_called : Run initial 3 called_early
until_called =
    next (next (next here (bind initial refl)) (wrap (record initial { stage = bound }) refl))
      (call (record initial { stage = ready }) refl)

after_called : Run called_early 1 (enter called_early)
unfolding mark
after_called = next here (lock called_early refl)

called_early-called : called_early.caller ≢ idle
unfolding mark
called_early-called e = cc

shutdown-Ends_example : (1 ≤ 8) × GoesOnOrEnds (enter called_early)
shutdown-Ends_example = shutdown-Ends until_called called_early-called after_called
