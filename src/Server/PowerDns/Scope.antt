-- ===== src/Server/PowerDns/Scope.antt =====
-- `_scope_prefix` against the selection: how far one cached answer may be shared.
use powergslb.Base.{
  ℕ, ◌≤◌, ◌<◌, ◌≡◌, refl, sym, subst, ◌∙◌, ap, Bool, true, false, List, [], ◌∷◌, arith, all,
  is_empty, inl, inr, if◌then◌else◌, Option, none, some, Result, ok, err, Result-cases, ◌>>=◌,
}
use powergslb.Client.{ClientContext}
use powergslb.Random.{Draws}
use powergslb.Routing.{Policy, select, network_prefix}
use powergslb.Routing.Create.Validity.{ok-inj}
use powergslb.Routing.Scope.{SameScope, select-eq_of_scope}
use powergslb.Row.{Row}
use powergslb.Server.PowerDns.{
  Setting, candidates, policy_of, chosen_or_logged, choose, in_view, is_in_view, partition,
  select_group, scope_prefix, matches_all_of, rule_of, is_authority, capped,
}
use powergslb.View.{matches}

capped-le : (o : Option ℕ) (source : ℕ) → capped o source ≤ source
capped-le none source = omega arith
capped-le (some prefix) source = omega arith

-- The answers, without the context.
abbrev pub answers_in : Result (Option (List Row) × ClientContext) → Result (Option (List Row))
answers_in r = do (answers, after) ← r; ok answers

module _ (setting : Setting) where
  open setting use {netaddr, casing, geoip, loads, blake2b, registry}

  -- The view of each record matches all clients.
  abbrev pub match_all : List Row → Bool
  match_all = all (λ s. matches_all_of (rule_of setting s))

  is_in_view-match_all :
      (r : Row) (context : ClientContext)
      → matches_all_of (rule_of setting r) ≡ true
      → is_in_view setting r context ≡ (true, context)
  unfolding is_in_view matches
  is_in_view-match_all r context h = elim (Result-cases (rule_of setting r)) [
    | inl (rule, e) ↦ ground (arith, e)
    | inr (x, e) ↦ ground (arith, e)
  ]

  in_view-match_all :
      (group : List Row) (context : ClientContext)
      → match_all group ≡ true
      → in_view setting group context ≡ (group, context)
  unfolding in_view
  in_view-match_all [] context h = refl
  in_view-match_all (r ∷ group) context h =
      rw
        (
          is_in_view-match_all r context (ground arith),
          in_view-match_all group context (ground arith),
        )
        refl

  partition-match_all :
      (group : List Row) → match_all group ≡ true → partition setting group ≡ ok ([], group)
  unfolding partition
  partition-match_all [] h = refl
  partition-match_all (r ∷ group) h = elim (Result-cases (rule_of setting r)) [
    | inl (rule, e) ↦ ground (arith, e, partition-match_all group)
    | inr (x, e) ↦ ground (arith, e)
  ]

  policy_select-eq :
      (p : Result Policy) (pool : List Row) (a b : ClientContext) (draws : Draws)
      → ((policy : Policy) → p ≡ ok policy → SameScope (network_prefix policy a) a.ip b.ip)
      → (p >>= λ policy. select blake2b policy pool a draws)
        ≡ (p >>= λ policy. select blake2b policy pool b draws)
  policy_select-eq (ok policy) pool a b draws h =
      select-eq_of_scope blake2b policy pool a b draws (h policy refl)
  policy_select-eq (err e) pool a b draws h = refl

  choose-eq_of_scope :
      (group : List Row) (a b : ClientContext) (draws : Draws)
      → match_all group ≡ true
      → ((policy : Policy)
          → policy_of setting group ≡ ok policy
          → SameScope (network_prefix policy a) a.ip b.ip)
      → choose setting draws group group a ≡ choose setting draws group group b
  unfolding choose
  choose-eq_of_scope group a b draws h k = rw (partition-match_all group h) (
      ap (λ r. chosen_or_logged r (candidates registry [] group))
        (policy_select-eq (policy_of setting group) (candidates registry [] group) a b draws k))

  abbrev Shared : ClientContext → ℕ → Bool → Result Policy → Type 0
  Shared a s m p =
      (m ≡ true)
      × ((policy : Policy) → p ≡ ok policy → capped (network_prefix policy a) a.prefixlen ≡ s)

  -- The scope of a type that is none of SOA, NS and DS.
  abbrev pub at_scope : ClientContext → Bool → Result Policy → Result ℕ
  at_scope a m p =
      let global = (do policy ← p; ok (capped (network_prefix policy a) a.prefixlen)) in
      if m then global else ok a.prefixlen

  branches :
      (a : ClientContext) (s : ℕ) (m : Bool) (p : Result Policy)
      → at_scope a m p ≡ ok s
      → s < a.prefixlen
      → Shared a s m p
  branches a s true (ok policy) h short =
      (refl, λ q e. ap (λ x. capped (network_prefix x a) a.prefixlen) (sym (ok-inj e)) ∙ ok-inj h)
  branches a s true (err e) h short = cc
  branches a s false p h short = absurd (omega (arith, ok-inj h))

  -- Where the scope is shorter than the source prefix, every view matches all clients, and the policy's prefix is in the scope.
  short_scope :
      (r : Row) (group : List Row) (a : ClientContext) (s : ℕ)
      → is_authority r.qtype ≡ false
      → scope_prefix setting (r ∷ group) a ≡ ok s
      → s < a.prefixlen
      → Shared a s (match_all (r ∷ group)) (policy_of setting (r ∷ group))
  unfolding scope_prefix
  short_scope r group a s common h short =
      let all_match = match_all (r ∷ group) in
      let policy = policy_of setting (r ∷ group) in
      branches a s all_match policy
        (subst (λ x. (if x then ok 0 else at_scope a all_match policy) ≡ ok s) common h) short

  prefix-SameScope :
      (o : Option ℕ) (a b : ClientContext) (s : ℕ)
      → capped o a.prefixlen ≡ s
      → s < a.prefixlen
      → SameScope (some s) a.ip b.ip
      → SameScope o a.ip b.ip
  prefix-SameScope none a b s e short same = tt
  prefix-SameScope (some p) a b s e short same =
      subst (λ n. SameScope (some n) a.ip b.ip) {x = s} {y = p} (omega (arith, e)) same

  select_group-match_all :
      (group : List Row) (a : ClientContext) (draws : Draws)
      → match_all group ≡ true
      → answers_in (select_group setting draws group a)
        ≡ (if is_empty group then ok none else choose setting draws group group a)
  unfolding select_group
  select_group-match_all group a draws h =
      rw (in_view-match_all group a h)
        (finish (is_empty group) (choose setting draws group group a))
    where
      finish :
          (e : Bool) (r : Result (Option (List Row)))
          → answers_in (if e then ok (none, a) else (do x ← r; ok (x, a)))
            ≡ (if e then ok none else r)
      finish true r = refl
      finish false (ok x) = refl
      finish false (err x) = refl

  -- Caching is sound: where the scope that is announced for a client is shorter than its source prefix, and
  -- the type is none of SOA, NS and DS, every client that agrees with it up to the scope gets the same
  -- answers of this type, for the same random draws, whatever its own source prefix and geolocation.
  pub select_group-eq_of_scope :
      (r : Row) (group : List Row) (a b : ClientContext) (s : ℕ) (draws : Draws)
      → is_authority r.qtype ≡ false
      → scope_prefix setting (r ∷ group) a ≡ ok s
      → s < a.prefixlen
      → SameScope (some s) a.ip b.ip
      → answers_in (select_group setting draws (r ∷ group) a)
        ≡ answers_in (select_group setting draws (r ∷ group) b)
  select_group-eq_of_scope r group a b s draws common h short same =
      let (all_match, k) = short_scope r group a s common h short in
      select_group-match_all (r ∷ group) a draws all_match
      ∙ choose-eq_of_scope (r ∷ group) a b draws all_match
          (λ policy e. prefix-SameScope (network_prefix policy a) a b s (k policy e) short same)
      ∙ sym (select_group-match_all (r ∷ group) b draws all_match)

  -- The scope is never longer than the client's source prefix, so an opt-out, source prefix 0, has scope 0.
  pub scope_prefix-le :
      (group : List Row) (context : ClientContext) (s : ℕ)
      → scope_prefix setting group context ≡ ok s
      → s ≤ context.prefixlen
  unfolding scope_prefix
  scope_prefix-le [] context s h = omega (arith, ok-inj h)
  scope_prefix-le (r ∷ group) context s h =
      bounded (is_authority r.qtype) (match_all (r ∷ group)) (policy_of setting (r ∷ group)) h
    where
      bounded :
          (b m : Bool) (p : Result Policy)
          → (if b then ok 0 else at_scope context m p) ≡ ok s
          → s ≤ context.prefixlen
      bounded true m p h = omega (arith, ok-inj h)
      bounded false false p h = omega (arith, ok-inj h)
      bounded false true (ok policy) h =
          omega (arith, ok-inj h, capped-le (network_prefix policy context) context.prefixlen)
      bounded false true (err e) h = cc
