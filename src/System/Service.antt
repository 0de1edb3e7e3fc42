-- ===== src/System/Service.antt =====
-- The supervision of the service threads (system/service.py). What the supervisor reads of the process, each
-- time that it looks, is a stream; what it does is the list of its calls.
pub mod Stops
use powergslb.Base.{
  ℕ, zero, suc, Bool, true, false, ◌&&◌, not, List, [], ◌∷◌, ◌++◌, map, Option, none, some,
  if◌then◌else◌, all, keep, length, Text,
}

-- What `start` reads at one time: the signal that was received, the threads that are alive, and
-- `threading.active_count()`.
pub record Look (Thread : Type 0) : Type 0 where
  pub received : Option ℕ
  pub alive : Thread → Bool
  pub total : ℕ

-- The texts that are sent to systemd.
pub data Status : Type 0 where
  ready : Status
  watchdog : ℕ → ℕ → Status
  stopping : Status

pub data Call (Thread : Type 0) : Type 0 where
  on_signal : ℕ → Call Thread
  start_thread : Thread → Call Thread
  notify : Status → Call Thread
  wait : Call Thread
  shutdown : Thread → Call Thread
  log_received : ℕ → Call Thread
  log_died : List Text → Call Thread

-- The calls of a run that has ended, and its exit code.
pub record Exit (Thread : Type 0) : Type 0 where
  pub calls : List (Call Thread)
  pub code : ℕ

-- `self._shutdown.is_set()`
abbrev pub is_set : Option ℕ → Bool
is_set none = false
is_set (some signum) = true

module _ {Thread : Type 0} (name : Thread → Text) (booted : Bool) where
  -- `systemd_notify`
  abbrev pub systemd_notify : Status → List (Call Thread)
  systemd_notify status = if booted then notify status ∷ [] else []

  -- `_is_threads_alive`
  unfoldable pub is_threads_alive : List Thread → Look Thread → Bool
  is_threads_alive threads now = all now.alive threads

  -- The condition of the loop.
  abbrev pub goes_on : List Thread → Look Thread → Bool
  goes_on threads now = not (is_set now.received) && is_threads_alive threads now

  -- One round of the loop.
  abbrev pub round : List Thread → Look Thread → List (Call Thread)
  round threads now = systemd_notify (watchdog now.total (length threads)) ++ (wait ∷ [])

  abbrev dead_threads : List Thread → Look Thread → List Text
  dead_threads threads now = map name (keep (λ thread. not (now.alive thread)) threads)

  abbrev pub ended : List Thread → Look Thread → Option ℕ → Exit Thread
  ended threads last (some signum) = record { calls = log_received signum ∷ []; code = 0 }
  ended threads last none = record { calls = log_died (dead_threads threads last) ∷ []; code = 1 }

  abbrev pub before : List (Call Thread) → Exit Thread → Exit Thread
  before calls exit = record { calls = calls ++ exit.calls; code = exit.code }

  -- What follows the loop, on the last look at the process.
  unfoldable pub stop : List Thread → Look Thread → Exit Thread
  stop threads last =
      before (systemd_notify stopping ++ map shutdown threads) (ended threads last last.received)

  abbrev pub and_then : List (Call Thread) → Option (Exit Thread) → Option (Exit Thread)
  and_then calls none = none
  and_then calls (some exit) = some (before calls exit)

  -- The loop from a round on and what follows it; `none` where the fuel does not reach.
  unfoldable pub supervise :
      List Thread → (ℕ → Look Thread) → Look Thread → ℕ → ℕ → Option (Exit Thread)
  unfolding is_threads_alive stop
  supervise threads looks last zero n = none
  supervise threads looks last (suc fuel) n =
      let rest = and_then (round threads (looks n)) (supervise threads looks last fuel (suc n)) in
      if goes_on threads (looks n) then rest else some (stop threads last)

  -- `SystemService.start`
  unfoldable pub start : List Thread → (ℕ → Look Thread) → Look Thread → ℕ → Option (Exit Thread)
  unfolding supervise
  start threads looks last fuel =
      and_then (on_signal 15 ∷ on_signal 2 ∷ map start_thread threads ++ systemd_notify ready)
        (supervise threads looks last fuel 0)
