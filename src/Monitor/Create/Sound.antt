-- ===== src/Monitor/Create/Sound.antt =====
-- What `Check.create` lets through.
use powergslb.Base.{
  ◌≡◌, ◌≤◌, refl, subst, not, Option, min, arith, keep, codes, text_eq, ok, ◌>>=◌, >>=-eq-ok,
}
use powergslb.Base.Dict.{get, text_key}
use powergslb.Base.Values.{Value}
use powergslb.Monitor.Check.{Check, CheckKind}
use powergslb.Monitor.Create.{Libraries, post_init, kind_of, create}
use powergslb.Routing.Create.{Spec, validate_positive, int_field, type_of}
use powergslb.Routing.Create.Validity.{at_least_one, ok-inj}

-- The ranges of the shared fields.
pub record IsSound (check : Check) : Type 0 where
  pub positive_interval : 1 ≤ check.interval
  pub positive_timeout : 1 ≤ check.timeout
  pub capped : check.timeout ≤ check.interval
  pub positive_fall : 1 ≤ check.fall
  pub positive_rise : 1 ≤ check.rise

fields-IsSound :
    (o p q r : Option Value) (kind : CheckKind) {check : Check}
    → (do
      interval ← int_field validate_positive 3 o
      timeout ← int_field validate_positive 1 p
      fall ← int_field validate_positive 3 q
      rise ← int_field validate_positive 5 r
      ok (record {
        interval = interval;
        timeout = min timeout interval;
        fall = fall;
        rise = rise;
        kind = kind;
      }))
      ≡ ok check
    → IsSound check × (check.kind ≡ kind)
fields-IsSound o p q r kind h =
    let (i, e, f) = >>=-eq-ok {B = Check} (int_field validate_positive 3 o) _ h in
    let (t, e2, f2) = >>=-eq-ok {B = Check} (int_field validate_positive 1 p) _ f in
    let (d, e3, f3) = >>=-eq-ok {B = Check} (int_field validate_positive 3 q) _ f2 in
    let (u, e4, f4) = >>=-eq-ok {B = Check} (int_field validate_positive 5 r) _ f3 in
    let i_pos : 1 ≤ i = at_least_one 3 o i (omega arith) e in
    let t_pos : 1 ≤ t = at_least_one 1 p t (omega arith) e2 in
    let built : Check = record {
      interval = i;
      timeout = min t i;
      fall = d;
      rise = u;
      kind = kind;
    } in
    let sound : IsSound built = record {
      positive_interval = i_pos;
      positive_timeout = omega arith;
      capped = omega arith;
      positive_fall = at_least_one 3 q d (omega arith) e3;
      positive_rise = at_least_one 5 r u (omega arith) e4;
    } in
    subst (λ c. IsSound c × (c.kind ≡ kind)) {x = built} (ok-inj f4) (sound, refl)

post_init-IsSound :
    (params : Spec) (kind : CheckKind) {check : Check}
    → post_init params kind ≡ ok check
    → IsSound check × (check.kind ≡ kind)
unfolding post_init
post_init-IsSound params kind h =
    fields-IsSound (get (codes "interval") params) (get (codes "timeout") params)
      (get (codes "fall") params) (get (codes "rise") params) kind h

-- A check that `Check.create` returns has a positive interval and timeout, a timeout of at most its
-- interval, and thresholds of at least one, as the debounce needs them.
pub create-IsSound :
    (libraries : Libraries) (check_spec : Spec) {check : Check}
    → create libraries check_spec ≡ ok check
    → IsSound check
unfolding create
create-IsSound libraries check_spec h =
    let params = keep (λ p. not (text_eq p.0 (codes "type"))) check_spec in
    let (t, e, f) = >>=-eq-ok {B = Check} (type_of (get (codes "type") check_spec)) _ h in
    let (kind, e2, f2) = >>=-eq-ok {B = Check} (kind_of libraries t params) _ f in
    (post_init-IsSound params kind f2).0
