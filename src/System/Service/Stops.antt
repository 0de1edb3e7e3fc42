-- ===== src/System/Service/Stops.antt =====
-- The supervision ends (system/service.py).
use powergslb.Base.{
  ◌≡◌, refl, sym, ap, subst, ◌⊎◌, ℕ, zero, suc, ◌+◌, ◌<◌, ◌≤◌, arith, Bool, true, false, ◌&&◌, not,
  List, [], ◌∷◌, ◌++◌, map, Option, none, some, Bool-cases, inl, inr, Text,
}
use mathlib.Core.List.{append_assoc}
use powergslb.System.Service.{
  Look, Call, Exit, is_set, systemd_notify, is_threads_alive, goes_on, round, ended, before, stop,
  supervise, start, ready, stopping, on_signal, start_thread, shutdown,
}

module _ {Thread : Type 0} (name : Thread → Text) (booted : Bool) where
  -- The calls of `count` rounds from the round `n` on.
  abbrev pub rounds : List Thread → (ℕ → Look Thread) → ℕ → ℕ → List (Call Thread)
  rounds threads looks n zero = []
  rounds threads looks n (suc count) =
      round name booted threads (looks n) ++ rounds threads looks (suc n) count

  -- Each of `count` rounds from the round `n` on finds no signal, and all threads alive.
  abbrev pub Healthy : List Thread → (ℕ → Look Thread) → ℕ → ℕ → Type 0
  Healthy threads looks n zero = Unit
  Healthy threads looks n (suc count) =
      (goes_on name booted threads (looks n) ≡ true) × Healthy threads looks (suc n) count

  abbrev pub EndsAfter : List Thread → (ℕ → Look Thread) → Look Thread → ℕ → ℕ → ℕ → Type 0
  EndsAfter threads looks last n fuel count =
      Healthy threads looks n count
      × (goes_on name booted threads (looks (n + count)) ≡ false)
      × (supervise name booted threads looks last fuel n
          ≡ some
              (before name booted (rounds threads looks n count) (stop name booted threads last)))

  before_before :
      (a b : List (Call Thread)) (exit : Exit Thread)
      → before name booted a (before name booted b exit) ≡ before name booted (a ++ b) exit
  before_before a b exit =
      ap (λ calls. record { calls = calls; code = exit.code }) (sym (append_assoc a b exit.calls))

  more :
      (threads : List Thread) (looks : ℕ → Look Thread) (last : Look Thread) (k n fuel : ℕ)
      → goes_on name booted threads (looks n) ≡ true
      → (count : ℕ) × (count ≤ k) × EndsAfter threads looks last (suc n) fuel count
      → (count : ℕ) × (count ≤ suc k) × EndsAfter threads looks last n (suc fuel) count
  unfolding supervise
  more threads looks last k n fuel e (count, less, (healthy, over, runs)) = (
    suc count,
    omega arith,
    (
      (e, healthy),
      subst (λ m. goes_on name booted threads (looks m) ≡ false) {x = suc n + count}
          {y = n + suc count} (omega arith) over,
      rw (e, runs)
          (ap some (
            before_before (round name booted threads (looks n)) (rounds threads looks (suc n) count)
              (stop name booted threads last))),
    ),
  )

  at_once :
      (threads : List Thread) (looks : ℕ → Look Thread) (last : Look Thread) (k n fuel : ℕ)
      → goes_on name booted threads (looks n) ≡ false
      → (count : ℕ) × (count ≤ k) × EndsAfter threads looks last n (suc fuel) count
  unfolding supervise
  at_once threads looks last k n fuel e = (
    0,
    omega arith,
    (
      tt,
      subst (λ m. goes_on name booted threads (looks m) ≡ false) {x = n} {y = n + 0} (omega arith)
          e,
      rw e refl,
    ),
  )

  supervise-EndsAfter :
      (threads : List Thread) (looks : ℕ → Look Thread) (last : Look Thread) (k n fuel : ℕ)
      → goes_on name booted threads (looks (n + k)) ≡ false
      → k < fuel
      → (count : ℕ) × (count ≤ k) × EndsAfter threads looks last n fuel count
  supervise-EndsAfter threads looks last k n zero h less = absurd (omega arith)
  supervise-EndsAfter threads looks last zero n (suc fuel) h less =
      at_once threads looks last 0 n fuel (
        subst (λ m. goes_on name booted threads (looks m) ≡ false) {x = n + 0} {y = n} (omega arith)
          h)
  supervise-EndsAfter threads looks last (suc k) n (suc fuel) h less =
      elim (Bool-cases (goes_on name booted threads (looks n))) [
        | inl e ↦ more threads looks last k n fuel e (
            supervise-EndsAfter threads looks last k (suc n) fuel
              (subst (λ m. goes_on name booted threads (looks m) ≡ false) {x = n + suc k}
                {y = suc n + k} (omega arith) h)
              (omega arith))
        | inr e ↦ at_once threads looks last (suc k) n fuel e
      ]

  -- All the calls up to the last look.
  abbrev pub supervised : List Thread → (ℕ → Look Thread) → ℕ → List (Call Thread)
  supervised threads looks count =
      (on_signal 15 ∷ on_signal 2 ∷ map start_thread threads ++ systemd_notify name booted ready)
      ++ rounds threads looks 0 count
      ++ systemd_notify name booted stopping
      ++ map shutdown threads

  -- The code is 0 where a signal was received, and 1 where a thread had died and none was.
  abbrev pub Explained : List Thread → Look Thread → Look Thread → ℕ → Type 0
  Explained threads seen last code =
      ((code ≡ 0) × (is_set last.received ≡ true))
      ⊎ ((code ≡ 1)
          × (is_set last.received ≡ false)
          × (is_threads_alive name booted threads seen ≡ false))

  quiet :
      (received : Option ℕ) (all_alive : Bool)
      → (not (is_set received) && all_alive) ≡ false
      → is_set received ≡ false
      → all_alive ≡ false
  quiet none all_alive h calm = h
  quiet (some signum) all_alive h calm = cc

  explained :
      (threads : List Thread) (seen last : Look Thread) (received : Option ℕ)
      → received ≡ last.received
      → goes_on name booted threads seen ≡ false
      → (is_set seen.received ≡ true → is_set last.received ≡ true)
      → Explained threads seen last (ended name booted threads last received).code
  explained threads seen last (some signum) e h stays = inl (refl, ap is_set (sym e))
  explained threads seen last none e h stays = inr (
    refl,
    ap is_set (sym e),
    elim (Bool-cases (is_set seen.received)) [
      | inl f ↦ cc (stays f, ap is_set e)
      | inr f ↦ quiet seen.received (is_threads_alive name booted threads seen) h f
    ],
  )

  -- `start` ends after at most `k` rounds, with the calls of these rounds.
  abbrev pub Stopped : List Thread → (ℕ → Look Thread) → Look Thread → ℕ → ℕ → Type 0
  Stopped threads looks last k fuel =
      (count : ℕ) × (exit : Exit Thread) × (count ≤ k)
      × Healthy threads looks 0 count
      × (goes_on name booted threads (looks count) ≡ false)
      × (start name booted threads looks last fuel ≡ some exit)
      × (exit.calls
          ≡ supervised threads looks count ++ (ended name booted threads last last.received).calls)
      × Explained threads (looks count) last exit.code

  abbrev outcome : List Thread → (ℕ → Look Thread) → Look Thread → ℕ → Exit Thread
  outcome threads looks last count =
      before name booted
        (on_signal 15 ∷ on_signal 2 ∷ map start_thread threads ++ systemd_notify name booted ready)
        (before name booted (rounds threads looks 0 count) (stop name booted threads last))

  -- Once a signal was received or a thread has died, the supervision ends, whatever else happens: the fuel
  -- that reaches the round `k` where this is seen is enough. It ends after the first such round, and up to it
  -- has set the handlers of the two signals, started each thread in order, told systemd that it is ready, and
  -- for each earlier round sent a watchdog message and waited; then it has told systemd that it stops, shut
  -- down each thread in order, and logged the reason. What is told to systemd is told only where systemd
  -- booted the system. If a signal that the loop can see is still there afterwards, the exit code is 0
  -- where a signal was received, and 1 where none was and the loop saw a dead thread.
  pub start-Stops :
      (threads : List Thread) (looks : ℕ → Look Thread) (last : Look Thread) (k fuel : ℕ)
      → goes_on name booted threads (looks k) ≡ false
      → k < fuel
      → ((n : ℕ) → is_set (looks n).received ≡ true → is_set last.received ≡ true)
      → Stopped threads looks last k fuel
  unfolding start stop
  start-Stops threads looks last k fuel h less stays = finish (
      supervise-EndsAfter threads looks last k 0 fuel
        (subst (λ m. goes_on name booted threads (looks m) ≡ false) {x = k} {y = 0 + k}
          (omega arith) h)
        less)
    where
      finish :
          (count : ℕ) × (count ≤ k) × EndsAfter threads looks last 0 fuel count
          → Stopped threads looks last k fuel
      finish (count, below, (healthy, over, runs)) =
          let over' : goes_on name booted threads (looks count) ≡ false =
            subst (λ m. goes_on name booted threads (looks m) ≡ false) {x = 0 + count} {y = count}
              (omega arith) over in
          (
            count,
            outcome threads looks last count,
            below,
            healthy,
            over',
            rw runs refl,
            simp append_assoc refl,
            explained threads (looks count) last last.received refl over' (stays count),
          )
