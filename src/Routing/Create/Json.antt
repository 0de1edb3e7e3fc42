-- ===== src/Routing/Create/Json.antt =====
-- `RoutingPolicy.create` against the JSON form of each policy: reading it back, and its keys.
use powergslb.Base.{
  ◌≡◌, refl, Bool, true, false, not, List, [], ◌∷◌, some, arith, le→leb, none, keep, Text, codes,
  text_eq, text_eq→eq, text_eq_sym, subst, ap, ◌∙◌, Option, ok, value_error, guard, >>=-eq-ok,
  Bool-cases, inl, inr, ◌>>=◌, ◌>>◌,
}
use powergslb.Base.Dict.{get, text_key}
use powergslb.Base.Values.{pos, Value, null, bool, int, float, str, list, dict}
use powergslb.Routing.Policies.{Policy, round_robin, sticky_hash, weighted_random}
use powergslb.Routing.Create.{
  validate_positive, validate_ipv4_prefix, validate_ipv6_prefix, Spec, is_expected,
  build_round_robin, build_sticky_hash, build_weighted_random, build, create, type_of, int_field,
}
use powergslb.Routing.Create.Validity.{IsValid, ok-inj}

-- `policy_type` and the fields of each dataclass.
abbrev pub type_name : Policy → Text
type_name (round_robin m) = codes "round-robin"
type_name (sticky_hash m p q) = codes "sticky-hash"
type_name (weighted_random m) = codes "weighted-random"

abbrev pub field_names : Policy → List Text
field_names (sticky_hash m p q) =
    codes "max_answers" ∷ codes "ipv4_prefix" ∷ codes "ipv6_prefix" ∷ []
field_names _ = codes "max_answers" ∷ []

-- The JSON object that names the policy with all its fields.
abbrev pub spec_of : Policy → Spec
spec_of (round_robin m) =
    (codes "type", str (codes "round-robin")) ∷ (codes "max_answers", int (pos m)) ∷ []
spec_of (sticky_hash m p q) =
    (codes "type", str (codes "sticky-hash"))
    ∷ (codes "max_answers", int (pos m))
    ∷ (codes "ipv4_prefix", int (pos p))
    ∷ (codes "ipv6_prefix", int (pos q))
    ∷ []
spec_of (weighted_random m) =
    (codes "max_answers", int (pos m)) ∷ (codes "type", str (codes "weighted-random")) ∷ []

-- Reading the JSON form of a policy whose parameters are in range gives that policy.
pub create-spec_of : (policy : Policy) → IsValid policy → create (spec_of policy) ≡ ok policy
unfolding create build build_round_robin build_sticky_hash build_weighted_random validate_positive
    validate_ipv4_prefix validate_ipv6_prefix get
create-spec_of (round_robin m) h = rw (le→leb 1 m h) refl
create-spec_of (sticky_hash m p q) (h, i, j) = rw (le→leb 1 m h, le→leb p 32 i, le→leb q 128 j) refl
create-spec_of (weighted_random m) h = rw (le→leb 1 m h) refl

-- What the lemmas show of each chain: the policy's type and its keys.
abbrev Known : Text → Spec → Policy → Type 0
Known t params policy = (t ≡ type_name policy) × (is_expected (field_names policy) params ≡ true)

guarded : (b : Bool) {x : Unit {0}} → guard b value_error ≡ ok x → b ≡ true
guarded true h = refl
guarded false h = cc

build_round_robin-Known :
    (params : Spec) {policy : Policy}
    → build_round_robin params ≡ ok policy
    → Known (codes "round-robin") params policy
unfolding build_round_robin
build_round_robin-Known params h =
    let expected = is_expected (codes "max_answers" ∷ []) params in
    let given = get (codes "max_answers") params in
    let (x, e, f) = >>=-eq-ok {B = Policy} (guard expected value_error) _ h in
    let (m, e2, f2) = >>=-eq-ok {B = Policy} (int_field validate_positive 8 given) _ f in
    subst (Known (codes "round-robin") params) {x = round_robin m} (ok-inj f2)
      (refl, guarded expected e)

build_weighted_random-Known :
    (params : Spec) {policy : Policy}
    → build_weighted_random params ≡ ok policy
    → Known (codes "weighted-random") params policy
unfolding build_weighted_random
build_weighted_random-Known params h =
    let expected = is_expected (codes "max_answers" ∷ []) params in
    let given = get (codes "max_answers") params in
    let (x, e, f) = >>=-eq-ok {B = Policy} (guard expected value_error) _ h in
    let (m, e2, f2) = >>=-eq-ok {B = Policy} (int_field validate_positive 1 given) _ f in
    subst (Known (codes "weighted-random") params) {x = weighted_random m} (ok-inj f2)
      (refl, guarded expected e)

sticky_fields-Known :
    (params : Spec) (o p q : Option Value) {policy : Policy}
    → (do
      guard
          (is_expected
            (codes "max_answers" ∷ codes "ipv4_prefix" ∷ codes "ipv6_prefix" ∷ [])
            params)
          value_error
      max_answers ← int_field validate_positive 1 o
      ipv4_prefix ← int_field validate_ipv4_prefix 24 p
      ipv6_prefix ← int_field validate_ipv6_prefix 64 q
      ok (sticky_hash max_answers ipv4_prefix ipv6_prefix))
      ≡ ok policy
    → Known (codes "sticky-hash") params policy
sticky_fields-Known params o p q h =
    let fields = codes "max_answers" ∷ codes "ipv4_prefix" ∷ codes "ipv6_prefix" ∷ [] in
    let expected = is_expected fields params in
    let (x, e, f) = >>=-eq-ok {B = Policy} (guard expected value_error) _ h in
    let (m, e2, f2) = >>=-eq-ok {B = Policy} (int_field validate_positive 1 o) _ f in
    let (i, e3, f3) = >>=-eq-ok {B = Policy} (int_field validate_ipv4_prefix 24 p) _ f2 in
    let (j, e4, f4) = >>=-eq-ok {B = Policy} (int_field validate_ipv6_prefix 64 q) _ f3 in
    subst (Known (codes "sticky-hash") params) {x = sticky_hash m i j} (ok-inj f4)
      (refl, guarded expected e)

build_sticky_hash-Known :
    (params : Spec) {policy : Policy}
    → build_sticky_hash params ≡ ok policy
    → Known (codes "sticky-hash") params policy
unfolding build_sticky_hash
build_sticky_hash-Known params h =
    sticky_fields-Known params (get (codes "max_answers") params) (get (codes "ipv4_prefix") params)
      (get (codes "ipv6_prefix") params) h

build-Known :
    (t : Text) (params : Spec) {policy : Policy}
    → build t params ≡ ok policy
    → Known t params policy
unfolding build
build-Known t params h = ground (
  arith,
  build_round_robin-Known params,
  build_sticky_hash-Known params,
  build_weighted_random-Known params,
  text_eq→eq t (codes "round-robin"),
  text_eq→eq t (codes "sticky-hash"),
  text_eq→eq t (codes "weighted-random"),
)

-- The keys but the type's are fields, so all are the type's or fields.
is_expected-keep :
    (fields : List Text) (spec : Spec)
    → is_expected fields (keep (λ p. not (text_eq p.0 (codes "type"))) spec) ≡ true
    → is_expected (codes "type" ∷ fields) spec ≡ true
is_expected-keep fields [] h = refl
is_expected-keep fields ((key, value) ∷ spec) h =
    let ih = is_expected-keep fields spec in
    elim (Bool-cases (text_eq key (codes "type"))) [
      | inl e ↦ ground (arith, ih, text_eq_sym key (codes "type") e)
      | inr e ↦ ground (arith, ih)
    ]

-- A policy that `RoutingPolicy.create` returns has the type that the JSON names, and each key of the
-- JSON is the type's or the name of a field of that policy: an unknown parameter is never ignored.
create-known :
    (spec : Spec) {policy : Policy}
    → create spec ≡ ok policy
    → (get (codes "type") spec ≡ some (str (type_name policy)))
      × (is_expected (codes "type" ∷ field_names policy) spec ≡ true)
unfolding create
create-known spec {policy} h =
    let (t, e, f) = >>=-eq-ok {B = Policy} (type_of (get (codes "type") spec)) _ h in
    let (g, k) = build-Known t (keep (λ p. not (text_eq p.0 (codes "type"))) spec) f in
    (named (get (codes "type") spec) (e ∙ ap ok g), is_expected-keep (field_names policy) spec k)
  where
    named : (o : Option Value) {t : Text} → type_of o ≡ ok t → o ≡ some (str t)
    named none h = cc
    named (some null) h = cc
    named (some (bool b)) h = cc
    named (some (int z)) h = cc
    named (some (float f)) h = cc
    named (some (str s)) h = ap (λ t. some (str t)) (ok-inj h)
    named (some (list l)) h = cc
    named (some (dict d)) h = cc
