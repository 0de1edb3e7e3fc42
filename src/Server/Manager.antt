-- ===== src/Server/Manager.antt =====
-- The life of an HTTP server (server/http/server.py): the thread that runs it and the one that shuts it down,
-- as a step relation on what they share. A request that is served changes nothing here.
pub mod Stopping
use powergslb.Base.{◌≡◌, ℕ, zero, suc, Bool, true, false, if◌then◌else◌}

-- Where `run` is: before the socket is bound, before TLS, before its section under the lock, before
-- `serve_forever`, in its loop, or returned.
pub data Stage : Type 0 where
  unbound bound ready entering serving closed : Stage

-- Where `shutdown` is: not called; past its section under the lock, in which it has read a server or none; in
-- the server's own `shutdown`, which waits for the end of `serve_forever`; in `join`; returned.
pub data Caller : Type 0 where
  idle : Caller
  marked : Bool → Caller
  waiting joining returned : Caller

-- With `_stopping`, whether `_server` is set, and whether that server was asked to shut down.
pub record Manager : Type 0 where
  pub stage : Stage
  pub caller : Caller
  pub stopping : Bool
  pub published : Bool
  pub requested : Bool

-- The state that `__init__` leaves.
abbrev pub initial : Manager
initial = record {
  stage = unbound;
  caller = idle;
  stopping = false;
  published = false;
  requested = false;
}

-- `run`, under the lock.
unfoldable pub enter : Manager → Manager
enter m =
    if m.stopping
    then record m { stage = closed }
    else record m { stage = entering; published = true }

-- `shutdown`, under the lock.
unfoldable pub mark : Manager → Manager
mark m = record m { stopping = true; caller = marked m.published }

-- The steps of the two threads. The loop of `serve_forever` ends at a request, also at one that came before
-- it began, and then forgets it. A `join` ends with the thread, or with its timeout.
pub data Step : Manager → Manager → Type 0 where
  bind : (m : Manager) → m.stage ≡ unbound → Step m (record m { stage = bound })
  fail_to_bind : (m : Manager) → m.stage ≡ unbound → Step m (record m { stage = closed })
  wrap : (m : Manager) → m.stage ≡ bound → Step m (record m { stage = ready })
  fail_to_wrap : (m : Manager) → m.stage ≡ bound → Step m (record m { stage = closed })
  lock : (m : Manager) → m.stage ≡ ready → Step m (enter m)
  serve : (m : Manager) → m.stage ≡ entering → Step m (record m { stage = serving })
  leave :
      (m : Manager)
      → m.stage ≡ serving
      → m.requested ≡ true
      → Step m (record m { stage = closed; requested = false })
  call : (m : Manager) → m.caller ≡ idle → Step m (mark m)
  ask :
      (m : Manager)
      → m.caller ≡ marked true
      → Step m (record m { caller = waiting; requested = true })
  pass_by : (m : Manager) → m.caller ≡ marked false → Step m (record m { caller = joining })
  served :
      (m : Manager) → m.caller ≡ waiting → m.stage ≡ closed → Step m (record m { caller = joining })
  join :
      (m : Manager)
      → m.caller ≡ joining
      → m.stage ≡ closed
      → Step m (record m { caller = returned })
  time_out : (m : Manager) → m.caller ≡ joining → Step m (record m { caller = returned })

-- So many steps.
pub data Run (s : Manager) : ℕ → Manager → Type 0 where
  here : Run s zero s
  next : {n : ℕ} {t u : Manager} → Run s n t → Step t u → Run s (suc n) u
