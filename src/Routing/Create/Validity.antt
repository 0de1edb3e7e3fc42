-- ===== src/Routing/Create/Validity.antt =====
-- What `RoutingPolicy.create` lets through: parameters in range, known fields, a known type.
use powergslb.Base.{
  ℕ, ◌≡◌, ◌≤◌, Bool, not, [], ◌∷◌, Option, none, some, arith, subst, leb→le, keep, Text, codes,
  text_eq, Result, ok, value_error, ◌>>=◌, ◌>>◌, guard, >>=-eq-ok,
}
use powergslb.Base.Dict.{get, text_key}
use powergslb.Base.Values.{ℤ, pos, negsuc, Value, null, bool, int, float, str, list, dict}
use powergslb.Routing.Policies.{Policy, round_robin, sticky_hash, weighted_random}
use powergslb.Routing.Create.{
  validate_positive, validate_ipv4_prefix, validate_ipv6_prefix, Spec, int_field, checked_int,
  is_expected, build_round_robin, build_sticky_hash, build_weighted_random, build, create, type_of,
  resolve, object_of,
}

-- The ranges that the validators promise.
abbrev pub IsValid : Policy → Type 0
IsValid (round_robin max_answers) = 1 ≤ max_answers
IsValid (sticky_hash max_answers ipv4_prefix ipv6_prefix) =
    (1 ≤ max_answers) × (ipv4_prefix ≤ 32) × (ipv6_prefix ≤ 128)
IsValid (weighted_random max_answers) = 1 ≤ max_answers

validate_positive-le : (z : ℤ) (n : ℕ) → validate_positive z ≡ ok n → 1 ≤ n
unfolding validate_positive
validate_positive-le (pos m) n h = ground (arith, leb→le 1 m)
validate_positive-le (negsuc m) n h = cc

validate_ipv4_prefix-le : (z : ℤ) (n : ℕ) → validate_ipv4_prefix z ≡ ok n → n ≤ 32
unfolding validate_ipv4_prefix
validate_ipv4_prefix-le (pos m) n h = ground (arith, leb→le m 32)
validate_ipv4_prefix-le (negsuc m) n h = cc

validate_ipv6_prefix-le : (z : ℤ) (n : ℕ) → validate_ipv6_prefix z ≡ ok n → n ≤ 128
unfolding validate_ipv6_prefix
validate_ipv6_prefix-le (pos m) n h = ground (arith, leb→le m 128)
validate_ipv6_prefix-le (negsuc m) n h = cc

module _ {ℓ} (P : ℕ → Type ℓ) (validate : ℤ → Result ℕ)
    (sound : (z : ℤ) (n : ℕ) → validate z ≡ ok n → P n) where
  checked_int-sound : (value : Value) {n : ℕ} → checked_int validate value ≡ ok n → P n
  checked_int-sound (int z) h = sound z _ h
  checked_int-sound null h = cc
  checked_int-sound (bool b) h = cc
  checked_int-sound (float f) h = cc
  checked_int-sound (str s) h = cc
  checked_int-sound (list l) h = cc
  checked_int-sound (dict d) h = cc

  int_field-sound : (d : ℕ) (o : Option Value) {n : ℕ} → P d → int_field validate d o ≡ ok n → P n
  int_field-sound d none {n} p h = subst P (ground arith) p
  int_field-sound d (some value) p h = checked_int-sound value h

pub ok-inj : {A : Type 0} {x y : A} → ok x ≡ ok y → x ≡ y
ok-inj h = cc

pub at_least_one :
    (d : ℕ) (o : Option Value) (m : ℕ) → 1 ≤ d → int_field validate_positive d o ≡ ok m → 1 ≤ m
at_least_one d o m le h =
    int_field-sound (λ n. 1 ≤ n) validate_positive validate_positive-le d o le h

build_round_robin-IsValid :
    (params : Spec) {policy : Policy} → build_round_robin params ≡ ok policy → IsValid policy
unfolding build_round_robin
build_round_robin-IsValid params h =
    let expected = is_expected (codes "max_answers" ∷ []) params in
    let given = get (codes "max_answers") params in
    let (x, e, f) = >>=-eq-ok {B = Policy} (guard expected value_error) _ h in
    let (m, e2, f2) = >>=-eq-ok {B = Policy} (int_field validate_positive 8 given) _ f in
    subst IsValid (ok-inj f2) (at_least_one 8 given m (omega arith) e2)

build_weighted_random-IsValid :
    (params : Spec) {policy : Policy} → build_weighted_random params ≡ ok policy → IsValid policy
unfolding build_weighted_random
build_weighted_random-IsValid params h =
    let expected = is_expected (codes "max_answers" ∷ []) params in
    let given = get (codes "max_answers") params in
    let (x, e, f) = >>=-eq-ok {B = Policy} (guard expected value_error) _ h in
    let (m, e2, f2) = >>=-eq-ok {B = Policy} (int_field validate_positive 1 given) _ f in
    subst IsValid (ok-inj f2) (at_least_one 1 given m (omega arith) e2)

-- The chain of the sticky policy, whatever the guard and the parameters are.
sticky_fields-IsValid :
    (expected : Bool) (o p q : Option Value) {policy : Policy}
    → (do
      guard expected value_error
      max_answers ← int_field validate_positive 1 o
      ipv4_prefix ← int_field validate_ipv4_prefix 24 p
      ipv6_prefix ← int_field validate_ipv6_prefix 64 q
      ok (sticky_hash max_answers ipv4_prefix ipv6_prefix))
      ≡ ok policy
    → IsValid policy
sticky_fields-IsValid expected o p q h =
    let (x, e, f) = >>=-eq-ok {B = Policy} (guard expected value_error) _ h in
    let (m, e2, f2) = >>=-eq-ok {B = Policy} (int_field validate_positive 1 o) _ f in
    let (i, e3, f3) = >>=-eq-ok {B = Policy} (int_field validate_ipv4_prefix 24 p) _ f2 in
    let (j, e4, f4) = >>=-eq-ok {B = Policy} (int_field validate_ipv6_prefix 64 q) _ f3 in
    let valid : IsValid (sticky_hash m i j) = (
      at_least_one 1 o m (omega arith) e2,
      int_field-sound (λ n. n ≤ 32) validate_ipv4_prefix validate_ipv4_prefix-le 24 p (omega arith)
          e3,
      int_field-sound (λ n. n ≤ 128) validate_ipv6_prefix validate_ipv6_prefix-le 64 q (omega arith)
          e4,
    ) in
    subst IsValid (ok-inj f4) valid

build_sticky_hash-IsValid :
    (params : Spec) {policy : Policy} → build_sticky_hash params ≡ ok policy → IsValid policy
unfolding build_sticky_hash
build_sticky_hash-IsValid params h =
    let fields = codes "max_answers" ∷ codes "ipv4_prefix" ∷ codes "ipv6_prefix" ∷ [] in
    sticky_fields-IsValid (is_expected fields params) (get (codes "max_answers") params)
      (get (codes "ipv4_prefix") params) (get (codes "ipv6_prefix") params) h

build-IsValid :
    (t : Text) (params : Spec) {policy : Policy} → build t params ≡ ok policy → IsValid policy
unfolding build
build-IsValid t params h = ground (
  arith,
  build_round_robin-IsValid params,
  build_sticky_hash-IsValid params,
  build_weighted_random-IsValid params,
)

-- A policy that `RoutingPolicy.create` returns has all its parameters in the ranges that the
-- validators state, whether they come from the JSON or are defaults.
pub create-IsValid : (spec : Spec) {policy : Policy} → create spec ≡ ok policy → IsValid policy
unfolding create
create-IsValid spec h =
    let (t, e, f) = >>=-eq-ok {B = Policy} (type_of (get (codes "type") spec)) _ h in
    build-IsValid t (keep (λ p. not (text_eq p.0 (codes "type"))) spec) f

pub resolve-IsValid :
    (loads : Text → Result Value) (policy_json : Text) {policy : Policy}
    → resolve loads policy_json ≡ ok policy
    → IsValid policy
unfolding resolve
resolve-IsValid loads policy_json h =
    let (value, e, f) = >>=-eq-ok {B = Policy} (loads policy_json) _ h in
    let (spec, g, k) = >>=-eq-ok {B = Policy} (object_of value) _ f in create-IsValid spec k
