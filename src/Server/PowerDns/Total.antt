-- ===== src/Server/PowerDns/Total.antt =====
-- A lookup always replies: no rule, policy, weight or record makes it raise.
use powergslb.Base.{
  ℕ, ◌≤◌, ◌≡◌, refl, ◌∙◌, subst, Bool, true, false, List, [], ◌∷◌, ◌++◌, map, arith, is_empty,
  Bool-cases, inl, inr, if◌then◌else◌, Option, none, some, Result, ok, >>=-eq-ok, All, All-append,
  All-of, All-map, Text, text_eq, text_eq→eq, text_eq_sym,
}
use powergslb.Base.Dict.{Dict, IsDict, IsDict-All, get, text_key}
use powergslb.Client.{ClientContext}
use powergslb.Random.{Draws}
use powergslb.Routing.{Policy, network_prefix}
use powergslb.Row.{Row}
use powergslb.Server.PowerDns.{
  Setting, Chance, policy_of, select_records, scope_prefix, is_authority, capped, add_selected,
}
use powergslb.View.{RawReply, AlwaysReplies, reader_of, raw_lookup, lookup, raw_lookup-reader_of}
use powergslb.Client.{IpAddress}
use powergslb.Server.PowerDns.Lookup.{Answer, answer, append, group_by_qtype, shape, get_lookup}
use powergslb.Server.PowerDns.Scope.{match_all, at_scope, scope_prefix-le}
use powergslb.Server.PowerDns.Selection.{
  select_group-eq, reply_of, answered, replied, policy_answer, seen_by,
}
use powergslb.View.Matching.{SpansFamily}

get-append :
    (key q : Text) (r : Row) (groups : Dict Text (List Row))
    → get key groups ≡ none
    → text_eq q key ≡ false
    → get key (append q r groups) ≡ none
unfolding get append
get-append key q r [] h other = rw other refl
get-append key q r ((k, group) ∷ groups) h other =
    ground (arith, get-append key q r groups, text_eq→eq k q, other)

not_sym : (a b : Text) → text_eq b a ≡ false → text_eq a b ≡ false
not_sym a b h = elim (Bool-cases (text_eq a b)) [
  | inl e ↦ absurd (ground (arith, text_eq_sym a b e))
  | inr e ↦ e
]

append-IsDict :
    (q : Text) (r : Row) (groups : Dict Text (List Row))
    → IsDict groups
    → IsDict (append q r groups)
unfolding get append
append-IsDict q r [] h = (refl, tt)
append-IsDict q r ((k, group) ∷ groups) h = elim (Bool-cases (text_eq k q)) [
  | inl e ↦ rw e h
  | inr e ↦ rw e (get-append k q r groups h.0 (not_sym q k e), append-IsDict q r groups h.1)
]

-- Keying the records by type gives a `dict`.
group_by_qtype-IsDict :
    (groups : Dict Text (List Row)) (records : List Row)
    → IsDict groups
    → IsDict (group_by_qtype groups records)
unfolding group_by_qtype
group_by_qtype-IsDict groups [] h = h
group_by_qtype-IsDict groups (r ∷ records) h =
    group_by_qtype-IsDict (append r.qtype r groups) records (append-IsDict r.qtype r groups h)

-- A reply whose scopes are no longer than the client's source prefix.
abbrev pub Shapes : ClientContext → Result (List Answer) → Type 0
Shapes context r =
    (answers : List Answer) × (r ≡ ok answers) × All (λ a. a.scope_mask ≤ context.prefixlen) answers

module _ (setting : Setting) where
  open setting use {netaddr, casing, geoip, loads, blake2b, registry}

  -- An entry of the selection has its group among all the records, with a policy that resolves.
  abbrev Backed : Dict Text (List Row) → Text × List Row → Type 0
  Backed all_records entry =
      (group : List Row) × (policy : Policy) × (get entry.0 all_records ≡ some group)
      × (policy_of setting group ≡ ok policy)

  reply-Backed :
      (all_records : Dict Text (List Row)) (q : Text) (group : List Row) (draws : Draws)
      (context : ClientContext) (rest : Dict Text (List Row)) (o : Option (List Row))
      → get q all_records ≡ some group
      → reply_of setting draws group context ≡ o
      → All (Backed all_records) rest
      → All (Backed all_records) (add_selected q o rest)
  reply-Backed all_records q group draws context rest none there e h = h
  reply-Backed all_records q group draws context rest (some answers) there e h =
      let (some_there, f) = replied (is_empty (seen_by setting context group)) _ e in
      let (policy, g, k) =
        >>=-eq-ok {B = List Row} (policy_of setting group) _
          (answered (policy_answer setting draws group context) f) in
      ((group, policy, there, g), h)

  abbrev Selects :
      Dict Text (List Row) → ClientContext → Result (Dict Text (List Row) × ClientContext) → Type 0
  Selects all_records context r =
      (selected : Dict Text (List Row)) × (last : ClientContext) × (r ≡ ok (selected, last))
      × (last.prefixlen ≡ context.prefixlen)
      × All (Backed all_records) selected

  select_records-Selects :
      SpansFamily netaddr
      → (chance : Chance) (all_records groups : Dict Text (List Row)) (context : ClientContext)
      → All (λ p. get p.0 all_records ≡ some p.1) groups
      → Selects all_records context (select_records setting chance groups context)
  unfolding select_records
  select_records-Selects laws chance all_records [] context h = ([], context, refl, refl, tt)
  select_records-Selects laws chance all_records ((q, group) ∷ groups) context (there, h) =
      let (after, same, e) = select_group-eq setting laws (chance q) group context in
      let (selected, last, f, prefixlen, backed) =
        select_records-Selects laws chance all_records groups after h in
      let reply = reply_of setting (chance q) group context in
      (
        add_selected q reply selected,
        last,
        rw (e, f) refl,
        prefixlen ∙ same.same_prefixlen,
        reply-Backed all_records q group (chance q) context selected reply there refl backed,
      )

  -- Where the policy resolves, so does the scope.
  scope_prefix-ok :
      (group : List Row) (context : ClientContext) {policy : Policy}
      → policy_of setting group ≡ ok policy
      → (s : ℕ) × (scope_prefix setting group context ≡ ok s)
  unfolding scope_prefix
  scope_prefix-ok [] context h = (0, refl)
  scope_prefix-ok (r ∷ group) context {policy} h =
      scoped (is_authority r.qtype) (match_all setting (r ∷ group)) h
    where
      scoped :
          {p : Result Policy} (b m : Bool)
          → p ≡ ok policy
          → (s : ℕ) × ((if b then ok 0 else at_scope setting context m p) ≡ ok s)
      scoped true m e = (0, refl)
      scoped false false e = (context.prefixlen, refl)
      scoped false true e = (capped (network_prefix policy context) context.prefixlen, rw e refl)

  shape-Shapes :
      (all_records selected : Dict Text (List Row)) (context : ClientContext)
      → All (Backed all_records) selected
      → Shapes context (shape setting all_records context selected)
  unfolding shape
  shape-Shapes all_records [] context h = ([], refl, tt)
  shape-Shapes all_records ((q, rows) ∷ selected) context ((group, policy, there, e), h) =
      let (s, f) = scope_prefix-ok group context e in
      let (rest, g, bounds) = shape-Shapes all_records selected context h in
      (
        map (answer s) rows ++ rest,
        rw (there, f, g) refl,
        All-append (λ a. a.scope_mask ≤ context.prefixlen) (map (answer s) rows) rest
            (All-map (λ a. a.scope_mask ≤ context.prefixlen) (answer s) rows
              (All-of (λ r. s ≤ context.prefixlen) rows
                (λ r. scope_prefix-le setting group context s f)))
            bounds,
      )

  -- A lookup replies, with a reader of the GeoIP database that lets no exception through.
  get_lookup-Shapes :
      SpansFamily netaddr
      → (chance : Chance) (records : List Row) (context : ClientContext)
      → Shapes context (get_lookup setting chance records context)
  unfolding get_lookup
  get_lookup-Shapes laws chance records context =
      let all_records = group_by_qtype [] records in
      let there = IsDict-All all_records (group_by_qtype-IsDict [] records tt) in
      let (selected, last, e, prefixlen, backed) =
        select_records-Selects laws chance all_records all_records context there in
      let (answers, f, bounds) = shape-Shapes all_records selected last backed in
      (answers, rw e f, subst (λ n. All (λ a. a.scope_mask ≤ n) answers) prefixlen bounds)

-- Given that a network of prefix length 0 holds all addresses of its family, and that no read of the GeoIP
-- database lets an exception through, a lookup replies for every client, whatever the rules, policies and
-- weights of its records are. An exception of the reads that is no `ValueError`, such as
-- `InvalidDatabaseError`, and a record whose `country` or `continent` is no dict, are what is excluded. The
-- scope of each answer is no longer than the client's source prefix.
pub get_lookup-Replies :
    (setting : Setting) (raw : Option (IpAddress → RawReply)) (replies : AlwaysReplies raw)
    → SpansFamily setting.netaddr
    → (chance : Chance) (records : List Row) (context : ClientContext)
    → Shapes context (
        get_lookup (record setting { geoip = some (reader_of raw replies) }) chance records context)
      × ((ip : IpAddress) → raw_lookup raw ip ≡ ok (lookup (reader_of raw replies) ip))
get_lookup-Replies setting raw replies laws chance records context = (
  get_lookup-Shapes (record setting { geoip = some (reader_of raw replies) }) laws chance records
      context,
  raw_lookup-reader_of raw replies,
)
