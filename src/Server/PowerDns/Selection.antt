-- ===== src/Server/PowerDns/Selection.antt =====
-- What `_select_records` chooses for one query type.
use powergslb.Base.{
  ◌≡◌, refl, sym, ◌∙◌, ap, Bool, true, false, not, List, [], ◌∷◌, keep, is_empty, Bool-cases, inl,
  inr, if◌then◌else◌, Option, none, some, Result, ok, err, ◌>>=◌, >>=-eq-ok,
}
use powergslb.Base.Bytes.{Bytes}
use powergslb.Client.{ClientContext}
use powergslb.Random.{Draws}
use powergslb.Routing.{Policy, round_robin, sticky_hash, weighted_random, select}
use powergslb.Routing.Bounds.{Bounded, max_answers_of, select-Bounded}
use powergslb.Routing.Create.Validity.{IsValid, resolve-IsValid, ok-inj}
use powergslb.Routing.Sticky.{sticky_select}
use powergslb.Row.{Row}
use powergslb.Server.PowerDns.{
  Setting, candidates, policy_of, first_policy, chosen_or_logged, choose, in_view, select_group,
}
use powergslb.Server.PowerDns.Tiers.{Lowest, tier_of, candidates-Lowest}
use powergslb.Server.PowerDns.Views.{SameClient, row_admits, is_catch_all, in_view-eq, partition-eq}
use powergslb.View.Matching.{SpansFamily}

select-eq_of_ip :
    (blake2b : Bytes → Bytes) (policy : Policy) (pool : List Row) (a b : ClientContext)
    (draws : Draws)
    → a.ip ≡ b.ip
    → select blake2b policy pool a draws ≡ select blake2b policy pool b draws
unfolding select sticky_select
select-eq_of_ip blake2b (round_robin m) pool a b draws h = refl
select-eq_of_ip blake2b (sticky_hash m p q) pool a b draws h = rw h refl
select-eq_of_ip blake2b (weighted_random m) pool a b draws h = refl

-- An exception of the policy drops the query type.
abbrev pub answer_of : Result (List Row) → Option (List Row)
answer_of (ok answers) = some answers
answer_of (err e) = none

chosen_or_logged-eq :
    (r : Result (List Row)) (pool : List Row)
    → is_empty pool ≡ false
    → chosen_or_logged r pool ≡ ok (answer_of r)
chosen_or_logged-eq (ok answers) pool h = refl
chosen_or_logged-eq (err e) [] h = cc
chosen_or_logged-eq (err e) (r ∷ pool) h = refl

module _ (setting : Setting) where
  open setting use {netaddr, casing, geoip, loads, blake2b, registry}

  -- The records in view, and the candidates among them.
  abbrev pub seen_by : ClientContext → List Row → List Row
  seen_by context = keep (row_admits setting context)

  abbrev pub pool_of : List Row → List Row
  pool_of seen =
      candidates registry (keep (λ r. not (is_catch_all setting r)) seen)
        (keep (is_catch_all setting) seen)

  abbrev pub policy_answer : Draws → List Row → ClientContext → Result (List Row)
  policy_answer draws group context = do
    policy ← policy_of setting group
    select blake2b policy (pool_of (seen_by context group)) context draws

  abbrev pub reply_of : Draws → List Row → ClientContext → Option (List Row)
  reply_of draws group context =
      if is_empty (seen_by context group)
      then none
      else answer_of (policy_answer draws group context)

  policy_answer-eq :
      (draws : Draws) (p : Result Policy) (pool : List Row) (a b : ClientContext)
      → a.ip ≡ b.ip
      → (p >>= λ policy. select blake2b policy pool a draws)
        ≡ (p >>= λ policy. select blake2b policy pool b draws)
  policy_answer-eq draws (ok policy) pool a b h = select-eq_of_ip blake2b policy pool a b draws h
  policy_answer-eq draws (err e) pool a b h = refl

  choose-eq :
      (draws : Draws) (group : List Row) (context after : ClientContext)
      → is_empty (seen_by context group) ≡ false
      → after.ip ≡ context.ip
      → choose setting draws group (seen_by context group) after
        ≡ ok (answer_of (policy_answer draws group context))
  unfolding choose
  choose-eq draws group context after some_there same =
      let seen = seen_by context group in
      let (t, e, all_above, empty) = candidates-Lowest registry (is_catch_all setting) seen in
      rw
        (
          partition-eq setting context group,
          policy_answer-eq draws (policy_of setting group) (pool_of seen) after context same,
        )
        (chosen_or_logged-eq (policy_answer draws group context) (pool_of seen)
          (empty ∙ some_there))

  -- Selecting for one query type never raises, given that a network of prefix length 0 holds
  -- all addresses of its family. It answers what the policy of the group's first record
  -- selects from the candidates among the records in view; the type is dropped exactly where no record is
  -- in view or the policy fails. The client stays the same for the next type.
  pub select_group-eq :
      SpansFamily netaddr
      → (draws : Draws) (group : List Row) (context : ClientContext)
      → (after : ClientContext) × SameClient geoip after context
        × (select_group setting draws group context ≡ ok (reply_of draws group context, after))
  unfolding select_group
  select_group-eq laws draws group context =
      let (seen, same) = in_view-eq setting laws group context in
      let after = (in_view setting group context).1 in
      (
        after,
        same,
        elim (Bool-cases (is_empty (seen_by context group))) [
          | inl e ↦ rw (seen, e) refl
          | inr e ↦ rw (seen, e, choose-eq draws group context after e same.same_ip) refl
        ],
      )

pub answered :
    (r : Result (List Row)) {answers : List Row} → answer_of r ≡ some answers → r ≡ ok answers
answered (ok answers) h = cc
answered (err e) h = cc

pub replied :
    (b : Bool) (o : Option (List Row)) {answers : List Row}
    → (if b then none else o) ≡ some answers
    → (b ≡ false) × (o ≡ some answers)
replied true o h = cc
replied false o h = (refl, h)

fst-ok :
    {o p : Option (List Row)} {a b : ClientContext}
    → ◌≡◌ {A = Result (Option (List Row) × ClientContext)} (ok (o, a)) (ok (p, b))
    → o ≡ p
fst-ok h = ap (λ x. x.0) (ok-inj h)

module _ (setting : Setting) where
  open setting use {netaddr, casing, geoip, loads, blake2b, registry}

  -- The candidates, the policy, and the answers within the candidates.
  abbrev pub Chosen : List Row → ClientContext → List Row → Type 0
  Chosen group context answers =
      (pool : List Row) × (policy : Policy) × Lowest (tier_of registry (is_catch_all setting))
        (seen_by setting context group) pool
      × (policy_of setting group ≡ ok policy)
      × Bounded (max_answers_of policy) pool answers

  pool-Bounded :
      (policy : Policy) (pool : List Row) (context : ClientContext) (draws : Draws)
      {answers : List Row}
      → is_empty pool ≡ false
      → IsValid policy
      → select blake2b policy pool context draws ≡ ok answers
      → Bounded (max_answers_of policy) pool answers
  pool-Bounded policy [] context draws some_there valid h = cc
  pool-Bounded policy (c ∷ cs) context draws {answers} some_there valid h =
      select-Bounded blake2b policy c cs context draws answers valid h

  policy_of-IsValid :
      (group : List Row) {policy : Policy} → policy_of setting group ≡ ok policy → IsValid policy
  policy_of-IsValid group h =
      let (policy_json, e, f) = >>=-eq-ok {B = Policy} (first_policy group) _ h in
      resolve-IsValid loads policy_json f

  -- Where a query type is answered, given that a network of prefix length 0 holds all
  -- addresses of its family, it is with at least one record and at most `max_answers` of its policy.
  -- Each is in view of the client, is as often among the answers as in the group at most, and is of the
  -- lowest tier that a record in view has: a weight never outranks a tier.
  pub select_group-Chosen :
      SpansFamily netaddr
      → (draws : Draws) (group : List Row) (context after : ClientContext) (answers : List Row)
      → select_group setting draws group context ≡ ok (some answers, after)
      → Chosen group context answers
  select_group-Chosen laws draws group context after answers h =
      let (last, same, e) = select_group-eq setting laws draws group context in
      let seen = seen_by setting context group in
      let (some_there, f) = replied (is_empty seen) _ (fst-ok (sym e ∙ h)) in
      let (policy, g, k) =
        >>=-eq-ok {B = List Row} (policy_of setting group) _
          (answered (policy_answer setting draws group context) f) in
      let (t, lowest, above, empty) = candidates-Lowest registry (is_catch_all setting) seen in
      (
        pool_of setting seen,
        policy,
        (t, lowest, above, empty),
        g,
        pool-Bounded policy (pool_of setting seen) context draws (empty ∙ some_there)
            (policy_of-IsValid group g) k,
      )
