-- ===== src/Routing/Create.antt =====
-- Building a policy from its JSON (routing/base.py): `create`, `resolve`, and the field validators.
-- `json.loads` is a parameter; `lru_cache` returns what the cached call returned.
pub mod Validity
pub mod Json
use powergslb.Base.{
  ℕ, ◌≡◌, ◌≤◌, refl, Bool, true, false, ◌&&◌, not, List, [], ◌∷◌, map, Option, none, some, leb, all,
  any, keep, if◌then◌else◌, Text, codes, text_eq, Result, ok, err, value_error, ◌>>=◌, ◌>>◌, guard,
  >>=-eq-ok,
}
use powergslb.Base.Dict.{Dict, get, text_key}
use powergslb.Base.Values.{ℤ, pos, negsuc, Value, int, str, dict, entries}
use powergslb.Routing.Policies.{Policy, round_robin, sticky_hash, weighted_random}

unfoldable pub validate_ipv4_prefix : ℤ → Result ℕ
validate_ipv4_prefix (pos n) = if leb n 32 then ok n else err value_error
validate_ipv4_prefix (negsuc n) = err value_error

unfoldable pub validate_ipv6_prefix : ℤ → Result ℕ
validate_ipv6_prefix (pos n) = if leb n 128 then ok n else err value_error
validate_ipv6_prefix (negsuc n) = err value_error

unfoldable pub validate_positive : ℤ → Result ℕ
validate_positive (pos n) = if leb 1 n then ok n else err value_error
validate_positive (negsuc n) = err value_error

abbrev pub Spec : Type 0
Spec = Dict Text Value

-- A value that must be an `int` and no `bool`, and pass the validator.
abbrev pub checked_int : (ℤ → Result ℕ) → Value → Result ℕ
checked_int validate (int n) = validate n
checked_int validate _ = err value_error

-- One field of the dataclass: the parameter, checked as `__post_init__` does, or the default, which passes.
abbrev pub int_field : (ℤ → Result ℕ) → ℕ → Option Value → Result ℕ
int_field validate default none = ok default
int_field validate default (some value) = checked_int validate value

-- `unexpected = params.keys() - all_fields`
abbrev pub is_expected : List Text → Spec → Bool
is_expected fields params = all (λ p. any (λ f. text_eq f p.0) fields) params

-- `RoundRobin(**params)`, `StickyHash(**params)`, `WeightedRandom(**params)`
unfoldable pub build_round_robin : Spec → Result Policy
unfolding validate_positive get
build_round_robin params = do
  guard (is_expected (codes "max_answers" ∷ []) params) value_error
  max_answers ← int_field validate_positive 8 (get (codes "max_answers") params)
  ok (round_robin max_answers)

unfoldable pub build_sticky_hash : Spec → Result Policy
unfolding validate_positive validate_ipv4_prefix validate_ipv6_prefix get
build_sticky_hash params = do
  guard (is_expected (codes "max_answers" ∷ codes "ipv4_prefix" ∷ codes "ipv6_prefix" ∷ []) params)
      value_error
  max_answers ← int_field validate_positive 1 (get (codes "max_answers") params)
  ipv4_prefix ← int_field validate_ipv4_prefix 24 (get (codes "ipv4_prefix") params)
  ipv6_prefix ← int_field validate_ipv6_prefix 64 (get (codes "ipv6_prefix") params)
  ok (sticky_hash max_answers ipv4_prefix ipv6_prefix)

unfoldable pub build_weighted_random : Spec → Result Policy
unfolding validate_positive get
build_weighted_random params = do
  guard (is_expected (codes "max_answers" ∷ []) params) value_error
  max_answers ← int_field validate_positive 1 (get (codes "max_answers") params)
  ok (weighted_random max_answers)

-- `cls._registry.get(policy_type)`
unfoldable pub build : Text → Spec → Result Policy
unfolding build_round_robin build_sticky_hash build_weighted_random
build policy_type params =
    if text_eq policy_type (codes "round-robin")
    then build_round_robin params
    else if text_eq policy_type (codes "sticky-hash")
    then build_sticky_hash params
    else if text_eq policy_type (codes "weighted-random")
    then build_weighted_random params
    else err value_error

abbrev pub type_of : Option Value → Result Text
type_of (some (str policy_type)) = ok policy_type
type_of _ = err value_error

-- `RoutingPolicy.create`
unfoldable pub create : Spec → Result Policy
unfolding build get
create policy_spec = do
  policy_type ← type_of (get (codes "type") policy_spec)
  build policy_type (keep (λ p. not (text_eq p.0 (codes "type"))) policy_spec)

abbrev pub object_of : Value → Result Spec
object_of (dict fields) = ok (entries fields)
object_of _ = err value_error

-- `RoutingPolicy.resolve`
unfoldable pub resolve : (Text → Result Value) → Text → Result Policy
unfolding create
resolve loads policy_json = do
  value ← loads policy_json
  policy_spec ← object_of value
  create policy_spec
