-- ===== src/Server/Manager/Stopping.antt =====
-- A server that is shut down stops (server/http/server.py).
use powergslb.Base.{◌≡◌, ◌≢◌, ◌⊎◌, inl, inr, refl, ℕ, suc, ◌+◌, ◌≤◌, arith, Bool, true, false}
use powergslb.Server.Manager.{
  Stage, unbound, bound, ready, entering, serving, closed, Caller, idle, marked, waiting, joining,
  returned, Manager, initial, enter, mark, Step, bind, fail_to_bind, wrap, fail_to_wrap, lock,
  serve, leave, call, ask, pass_by, served, join, time_out, Run, here, next,
}

-- A server that is entered is published.
abbrev IsEntered : Stage → Bool → Type 0
IsEntered entering published = published ≡ true
IsEntered serving published = published ≡ true
IsEntered stage published = Unit

abbrev IsCalled : Caller → Manager → Type 0
IsCalled idle m = Unit
IsCalled (marked b) m = (m.stopping ≡ true) × (b ≡ m.published)
IsCalled waiting m = (m.stopping ≡ true) × ((m.requested ≡ true) ⊎ (m.stage ≡ closed))
IsCalled joining m = (m.stopping ≡ true) × ((m.published ≡ false) ⊎ (m.stage ≡ closed))
IsCalled returned m = (m.stopping ≡ true) × ((m.published ≡ false) ⊎ (m.stage ≡ closed))

abbrev IsCoherent : Manager → Type 0
IsCoherent m = IsEntered m.stage m.published × IsCalled m.caller m

Step-IsCoherent : {m n : Manager} → Step m n → IsCoherent m → IsCoherent n
unfolding enter mark
Step-IsCoherent (bind m e) h = ground arith
Step-IsCoherent (fail_to_bind m e) h = ground arith
Step-IsCoherent (wrap m e) h = ground arith
Step-IsCoherent (fail_to_wrap m e) h = ground arith
Step-IsCoherent (lock m e) h = ground arith
Step-IsCoherent (serve m e) h = ground arith
Step-IsCoherent (leave m e f) h = ground arith
Step-IsCoherent (call m e) h = ground arith
Step-IsCoherent (ask m e) h = ground arith
Step-IsCoherent (pass_by m e) h = ground arith
Step-IsCoherent (served m e f) h = ground arith
Step-IsCoherent (join m e f) h = ground arith
Step-IsCoherent (time_out m e) h = ground arith

abbrev stage_left : Stage → ℕ
stage_left unbound = 5
stage_left bound = 4
stage_left ready = 3
stage_left entering = 2
stage_left serving = 1
stage_left closed = 0

abbrev caller_left : Caller → ℕ
caller_left idle = 4
caller_left (marked b) = 3
caller_left waiting = 2
caller_left joining = 1
caller_left returned = 0

-- The steps that may be left.
abbrev steps_left : Manager → ℕ
steps_left m = stage_left m.stage + caller_left m.caller

Step-steps_left : {m n : Manager} → Step m n → suc (steps_left n) ≤ steps_left m
unfolding enter mark
Step-steps_left (bind m e) = ground arith
Step-steps_left (fail_to_bind m e) = ground arith
Step-steps_left (wrap m e) = ground arith
Step-steps_left (fail_to_wrap m e) = ground arith
Step-steps_left (lock m e) = ground arith
Step-steps_left (serve m e) = ground arith
Step-steps_left (leave m e f) = ground arith
Step-steps_left (call m e) = ground arith
Step-steps_left (ask m e) = ground arith
Step-steps_left (pass_by m e) = ground arith
Step-steps_left (served m e f) = ground arith
Step-steps_left (join m e f) = ground arith
Step-steps_left (time_out m e) = ground arith

Run-steps_left : {s t : Manager} {n : ℕ} → Run s n t → n + steps_left t ≤ steps_left s
Run-steps_left here = omega arith
Run-steps_left (next run step) = omega (arith, Run-steps_left run, Step-steps_left step)

Run-IsCoherent : {s t : Manager} {n : ℕ} → Run s n t → IsCoherent s → IsCoherent t
Run-IsCoherent here h = h
Run-IsCoherent (next run step) h = Step-IsCoherent step (Run-IsCoherent run h)

-- A state in which neither thread has a step left has ended well.
abbrev pub GoesOnOrEnds : Manager → Type 0
GoesOnOrEnds m = ((n : Manager) × Step m n) ⊎ ((m.stage ≡ closed) × (m.caller ≡ returned))

called_closed :
    (m : Manager) (caller : Caller)
    → m.caller ≡ caller
    → caller ≢ idle
    → m.stage ≡ closed
    → GoesOnOrEnds m
called_closed m idle e f g = absurd (f refl)
called_closed m (marked true) e f g = inl (record m { caller = waiting; requested = true }, ask m e)
called_closed m (marked false) e f g = inl (record m { caller = joining }, pass_by m e)
called_closed m waiting e f g = inl (record m { caller = joining }, served m e g)
called_closed m joining e f g = inl (record m { caller = returned }, time_out m e)
called_closed m returned e f g = inr (g, e)

called_serving :
    (m : Manager) (caller : Caller)
    → m.caller ≡ caller
    → caller ≢ idle
    → m.stage ≡ serving
    → IsCoherent m
    → GoesOnOrEnds m
called_serving m idle e f g h = absurd (f refl)
called_serving m (marked true) e f g h =
    inl (record m { caller = waiting; requested = true }, ask m e)
called_serving m (marked false) e f g h = inl (record m { caller = joining }, pass_by m e)
called_serving m waiting e f g h =
    inl (record m { stage = closed; requested = false }, leave m g (ground arith))
called_serving m joining e f g h = inl (record m { caller = returned }, time_out m e)
called_serving m returned e f g h = absurd (ground arith)

progress :
    (m : Manager) (stage : Stage)
    → m.stage ≡ stage
    → m.caller ≢ idle
    → IsCoherent m
    → GoesOnOrEnds m
progress m unbound e f h = inl (record m { stage = bound }, bind m e)
progress m bound e f h = inl (record m { stage = ready }, wrap m e)
progress m ready e f h = inl (enter m, lock m e)
progress m entering e f h = inl (record m { stage = serving }, serve m e)
progress m serving e f h = called_serving m m.caller refl f e h
progress m closed e f h = called_closed m m.caller refl f e

Step-called : {m n : Manager} → Step m n → m.caller ≢ idle → n.caller ≢ idle
unfolding enter mark
Step-called (bind m e) h = h
Step-called (fail_to_bind m e) h = h
Step-called (wrap m e) h = h
Step-called (fail_to_wrap m e) h = h
Step-called (lock m e) h = ground arith
Step-called (serve m e) h = h
Step-called (leave m e f) h = h
Step-called (call m e) h = ground arith
Step-called (ask m e) h = ground arith
Step-called (pass_by m e) h = ground arith
Step-called (served m e f) h = ground arith
Step-called (join m e f) h = ground arith
Step-called (time_out m e) h = ground arith

Run-called : {s t : Manager} {n : ℕ} → Run s n t → s.caller ≢ idle → t.caller ≢ idle
Run-called here h = h
Run-called (next run step) h = Step-called step (Run-called run h)

called-steps_left : (m : Manager) → m.caller ≢ idle → steps_left m ≤ 8
called-steps_left m h = ground arith

-- However the two threads interleave, and wherever the server's start has got to when `shutdown` passes its
-- section under the lock, they take at most 8 steps from there. A state from which none is left has the
-- server's thread ended, its socket closed, and `shutdown` returned: neither waits for the other, and no
-- server is left serving.
pub shutdown-Ends :
    {s t : Manager} {k n : ℕ}
    → Run initial k s
    → s.caller ≢ idle
    → Run s n t
    → (n ≤ 8) × GoesOnOrEnds t
shutdown-Ends {s = s} {t = t} before h after = (
  omega (arith, Run-steps_left after, called-steps_left s h),
  progress t t.stage refl (Run-called after h)
      (Run-IsCoherent after (Run-IsCoherent before (tt, tt))),
)
