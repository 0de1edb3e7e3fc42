-- ===== src/Monitor/Reconcile/Planned.antt =====
-- What the loops of `_reconcile` compute, key by key.
use powergslb.Base.{
  ℕ, ◌≡◌, refl, sym, ap, Bool, true, false, ◌&&◌, ◌||◌, List, [], ◌∷◌, ◌++◌, map, Option, none,
  some, arith, if◌then◌else◌, ◌==◌, ==_iff, All, Bool-cases, inl, inr,
}
use powergslb.Base.Dict.{
  Dict, get, put, pop, has, IsDict, get-put, get-pop, put-IsDict, pop-IsDict, nat_eq,
}
use powergslb.Monitor.Check.{Check}
use powergslb.Monitor.CheckThread.{CheckThread, new_thread}
use powergslb.Monitor.Status.{member, get_writer}
use powergslb.Monitor.Reconcile.{
  Threads, Decision, leave, stop, replace, decision, Plan, decide_on, plan_running, plan_missing,
  drop_threads, start_threads, make_plan, no_plan,
}

abbrev pub started : Option Decision → Option Check → Option Check
started (some (replace check)) before = some check
started _ before = before

abbrev pub stopped : Option Decision → Bool
stopped none = false
stopped (some leave) = false
stopped (some stop) = true
stopped (some (replace check)) = true

-- The decision on the thread of a key, if it has one.
abbrev pub decided : Dict ℕ Check → ℕ → Option CheckThread → Option Decision
decided desired id none = none
decided desired id (some thread) = some (decision (get id desired) thread)

abbrev pub ids : List CheckThread → List ℕ
ids = map (λ t. t.status_writer.content_id)

abbrev pub IsKeyed : Threads → Type 0
IsKeyed = All (λ t. t.1.status_writer.content_id ≡ t.0)

to_start-decide_on :
    (d : Decision) (id : ℕ) (thread : CheckThread) (plan : Plan) (j : ℕ)
    → get j (decide_on d id thread plan).to_start
      ≡ (if id == j then started (some d) (get j plan.to_start) else get j plan.to_start)
unfolding decide_on
to_start-decide_on leave id thread plan j = ground arith
to_start-decide_on stop id thread plan j = ground arith
to_start-decide_on (replace check) id thread plan j = get-put id j check plan.to_start

pub to_start-plan_running :
    (desired : Dict ℕ Check) (plan : Plan) (threads : Threads) (j : ℕ)
    → IsDict threads
    → get j (plan_running desired plan threads).to_start
      ≡ started (decided desired j (get j threads)) (get j plan.to_start)
unfolding plan_running get
to_start-plan_running desired plan [] j h = refl
to_start-plan_running desired plan ((id, thread) ∷ threads) j h =
    let d = decision (get id desired) thread in
    let plan' = decide_on d id thread plan in
    let rest = to_start-plan_running desired plan' threads j h.1 in
    elim (Bool-cases (id == j)) [
      | inl e ↦
          let same = (==_iff id j).0 e in
          let key = ap (λ i. get i threads) same in
          let check = ap (λ i. get i desired) same in
          ground (arith, rest, to_start-decide_on d id thread plan j, h.0, key, check)
      | inr e ↦ ground (arith, rest, to_start-decide_on d id thread plan j)
    ]

member-append : (j : ℕ) (xs ys : List ℕ) → member j (xs ++ ys) ≡ (member j xs || member j ys)
member-append j [] ys = refl
member-append j (x ∷ xs) ys = ground (arith, member-append j xs ys)

ids-append :
    (xs : List CheckThread) (t : CheckThread)
    → ids (xs ++ t ∷ []) ≡ ids xs ++ t.status_writer.content_id ∷ []
ids-append [] t = refl
ids-append (x ∷ xs) t = ap (◌∷◌ x.status_writer.content_id) (ids-append xs t)

to_stop-decide_on :
    (d : Decision) (id : ℕ) (thread : CheckThread) (plan : Plan) (j : ℕ)
    → member j (ids (decide_on d id thread plan).to_stop)
      ≡ (member j (ids plan.to_stop) || stopped (some d) && thread.status_writer.content_id == j)
unfolding decide_on
to_stop-decide_on leave id thread plan j = ground arith
to_stop-decide_on stop id thread plan j = ground (
  arith,
  ids-append plan.to_stop thread,
  member-append j (ids plan.to_stop) (thread.status_writer.content_id ∷ []),
)
to_stop-decide_on (replace check) id thread plan j = ground (
  arith,
  ids-append plan.to_stop thread,
  member-append j (ids plan.to_stop) (thread.status_writer.content_id ∷ []),
)

pub to_stop-plan_running :
    (desired : Dict ℕ Check) (plan : Plan) (threads : Threads) (j : ℕ)
    → IsDict threads
    → IsKeyed threads
    → member j (ids (plan_running desired plan threads).to_stop)
      ≡ (member j (ids plan.to_stop) || stopped (decided desired j (get j threads)))
unfolding plan_running get
to_stop-plan_running desired plan [] j h k = ground arith
to_stop-plan_running desired plan ((id, thread) ∷ threads) j h k =
    let d = decision (get id desired) thread in
    let plan' = decide_on d id thread plan in
    let rest = to_stop-plan_running desired plan' threads j h.1 k.1 in
    elim (Bool-cases (id == j)) [
      | inl e ↦
          let same = (==_iff id j).0 e in
          let key = ap (λ i. get i threads) same in
          let check = ap (λ i. get i desired) same in
          ground (arith, rest, to_stop-decide_on d id thread plan j, h.0, k.0, key, check)
      | inr e ↦ ground (arith, rest, to_stop-decide_on d id thread plan j, k.0)
    ]

abbrev pub or_before : Option Check → Option Check → Option Check
or_before (some check) before = some check
or_before none before = before

pub get-plan_missing :
    (threads : Threads) (to_start desired : Dict ℕ Check) (j : ℕ)
    → IsDict desired
    → get j (plan_missing threads to_start desired)
      ≡ (if has j threads then get j to_start else or_before (get j desired) (get j to_start))
unfolding plan_missing get
get-plan_missing threads to_start [] j h = ground arith
get-plan_missing threads to_start ((id, check) ∷ desired) j h =
    let next = if has id threads then to_start else put id check to_start in
    let rest = get-plan_missing threads next desired j h.1 in
    elim (Bool-cases (id == j)) [
      | inl e ↦
          let same = (==_iff id j).0 e in
          let key = ap (λ i. get i desired) same in
          let thread = ap (λ i. has i threads) same in
          ground (arith, rest, get-put id j check to_start, h.0, key, thread)
      | inr e ↦ ground (arith, rest, get-put id j check to_start)
    ]

plan_missing-IsDict :
    (threads : Threads) (to_start desired : Dict ℕ Check)
    → IsDict to_start
    → IsDict (plan_missing threads to_start desired)
unfolding plan_missing
plan_missing-IsDict threads to_start [] h = h
plan_missing-IsDict threads to_start ((id, check) ∷ desired) h =
    plan_missing-IsDict threads (if has id threads then to_start else put id check to_start) desired
      (elim (Bool-cases (has id threads)) [
        | inl e ↦ rw e h
        | inr e ↦ rw e (put-IsDict id check to_start h)
      ])

decide_on-IsDict :
    (d : Decision) (id : ℕ) (thread : CheckThread) (plan : Plan)
    → IsDict plan.to_start
    → IsDict (decide_on d id thread plan).to_start
unfolding decide_on
decide_on-IsDict leave id thread plan h = h
decide_on-IsDict stop id thread plan h = h
decide_on-IsDict (replace check) id thread plan h = put-IsDict id check plan.to_start h

plan_running-IsDict :
    (desired : Dict ℕ Check) (plan : Plan) (threads : Threads)
    → IsDict plan.to_start
    → IsDict (plan_running desired plan threads).to_start
unfolding plan_running
plan_running-IsDict desired plan [] h = h
plan_running-IsDict desired plan ((id, thread) ∷ threads) h =
    let d = decision (get id desired) thread in
    plan_running-IsDict desired (decide_on d id thread plan) threads
      (decide_on-IsDict d id thread plan h)

pub make_plan-IsDict :
    (threads : Threads) (desired : Dict ℕ Check) → IsDict (make_plan threads desired).to_start
unfolding make_plan
make_plan-IsDict threads desired =
    plan_missing-IsDict threads _ desired (plan_running-IsDict desired no_plan threads tt)

pub get-drop_threads :
    (to_stop : List CheckThread) (threads : Threads) (j : ℕ)
    → get j (drop_threads to_stop threads)
      ≡ (if member j (ids to_stop) then none else get j threads)
unfolding drop_threads
get-drop_threads [] threads j = refl
get-drop_threads (t ∷ to_stop) threads j = ground (
  arith,
  get-drop_threads to_stop (pop t.status_writer.content_id threads) j,
  get-pop t.status_writer.content_id j threads,
)

abbrev pub fresh_or : ℕ → Option Check → Option CheckThread → Option CheckThread
fresh_or id (some check) before = some (new_thread check (get_writer id))
fresh_or id none before = before

pub get-start_threads :
    (to_start : Dict ℕ Check) (threads : Threads) (j : ℕ)
    → IsDict to_start
    → get j (start_threads to_start threads) ≡ fresh_or j (get j to_start) (get j threads)
unfolding start_threads get
get-start_threads [] threads j h = refl
get-start_threads ((id, check) ∷ to_start) threads j h =
    let thread = new_thread check (get_writer id) in
    let rest = get-start_threads to_start (put id thread threads) j h.1 in
    elim (Bool-cases (id == j)) [
      | inl e ↦
          let same = (==_iff id j).0 e in
          let key = ap (λ i. get i to_start) same in
          let writer = ap (λ i. get_writer i) same in
          ground (arith, rest, get-put id j thread threads, h.0, key, writer)
      | inr e ↦ ground (arith, rest, get-put id j thread threads)
    ]

pop-IsKeyed : (id : ℕ) (threads : Threads) → IsKeyed threads → IsKeyed (pop id threads)
unfolding pop
pop-IsKeyed id [] h = h
pop-IsKeyed id ((j, thread) ∷ threads) h = elim (Bool-cases (j == id)) [
  | inl e ↦ rw e (pop-IsKeyed id threads h.1)
  | inr e ↦ rw e (h.0, pop-IsKeyed id threads h.1)
]

put-IsKeyed :
    (id : ℕ) (check : Check) (threads : Threads)
    → IsKeyed threads
    → IsKeyed (put id (new_thread check (get_writer id)) threads)
unfolding put new_thread get_writer
put-IsKeyed id check [] h = (refl, tt)
put-IsKeyed id check ((j, thread) ∷ threads) h = elim (Bool-cases (j == id)) [
  | inl e ↦ rw e (sym ((==_iff j id).0 e), h.1)
  | inr e ↦ rw e (h.0, put-IsKeyed id check threads h.1)
]

-- The threads as `_reconcile` keeps them: one to a content id, each under its own.
pub record AreThreads (threads : Threads) : Type 0 where
  pub unique : IsDict threads
  pub keyed : IsKeyed threads

pub drop_threads-AreThreads :
    (to_stop : List CheckThread) (threads : Threads)
    → AreThreads threads
    → AreThreads (drop_threads to_stop threads)
unfolding drop_threads
drop_threads-AreThreads [] threads h = h
drop_threads-AreThreads (t ∷ to_stop) threads h =
    drop_threads-AreThreads to_stop (pop t.status_writer.content_id threads) (record {
      unique = pop-IsDict t.status_writer.content_id threads h.unique;
      keyed = pop-IsKeyed t.status_writer.content_id threads h.keyed;
    })

pub start_threads-AreThreads :
    (to_start : Dict ℕ Check) (threads : Threads)
    → AreThreads threads
    → AreThreads (start_threads to_start threads)
unfolding start_threads
start_threads-AreThreads [] threads h = h
start_threads-AreThreads ((id, check) ∷ to_start) threads h =
    start_threads-AreThreads to_start (put id (new_thread check (get_writer id)) threads) (record {
      unique = put-IsDict id (new_thread check (get_writer id)) threads h.unique;
      keyed = put-IsKeyed id check threads h.keyed;
    })
