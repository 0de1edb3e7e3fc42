-- ===== src/Monitor/Create.antt =====
-- Building a check from its JSON (monitor/check/*.py): `Check.create` and the `__post_init__` methods.
-- netaddr, `re.compile` and `urlsplit` are parameters: whether they accept a text.
pub mod Sound
use powergslb.Base.{
  ℕ, ◌≡◌, Bool, true, false, ◌&&◌, ◌||◌, not, List, [], ◌∷◌, ◌++◌, Option, none, some, min, leb,
  ltb, all, keep, is_empty, if◌then◌else◌, Text, codes, text_eq, Result, ok, err, value_error,
  guard, ◌>>=◌, ◌>>◌,
}
use powergslb.Base.Dict.{Dict, get, has, text_key}
use powergslb.Base.Values.{
  ℤ, pos, negsuc, Value, Values, nil, cons, null, bool, int, float, str, list, dict,
}
use powergslb.Monitor.Check.{Check, CheckKind, exec, http, icmp, nothing, tcp, tls}
use powergslb.Numerals.{int_of, strip, split_on}
use powergslb.Routing.Create.{Spec, validate_positive, int_field, is_expected, type_of}
use powergslb.View as View

-- `netaddr.IPAddress`, `re.compile` accept the text; the scheme and the netloc of `urlsplit`.
pub record Libraries : Type 0 where
  pub is_address : Text → Bool
  pub is_regex : Text → Bool
  pub urlsplit : Text → Result (Text × Text)

-- `_validate_port`
unfoldable pub validate_port : ℤ → Result ℕ
validate_port (pos n) = if leb 1 n && leb n 65535 then ok n else err value_error
validate_port (negsuc n) = err value_error

-- `0 <= self.expected_code <= 255`
unfoldable pub validate_code : ℤ → Result ℕ
validate_code (pos n) = if leb n 255 then ok n else err value_error
validate_code (negsuc n) = err value_error

-- A required field: the key is there.
abbrev pub required : Option Value → Result Value
required none = err value_error
required (some value) = ok value

abbrev pub checked_text : (Text → Bool) → Value → Result Text
checked_text valid (str text) = if valid text then ok text else err value_error
checked_text valid _ = err value_error

abbrev pub text_field : (Text → Bool) → Text → Option Value → Result Text
text_field valid default none = ok default
text_field valid default (some value) = checked_text valid value

abbrev pub checked_bool : Value → Result Bool
checked_bool (bool b) = ok b
checked_bool _ = err value_error

abbrev pub bool_field : Bool → Option Value → Result Bool
bool_field default none = ok default
bool_field default (some value) = checked_bool value

abbrev pub checked_port : Value → Result ℕ
checked_port (int z) = validate_port z
checked_port _ = err value_error

-- `all(isinstance(arg, str) for arg in self.args)`
abbrev pub texts_of : Values → Result (List Text)
texts_of nil = ok []
texts_of (cons (str text) values) = do texts ← texts_of values; ok (text ∷ texts)
texts_of (cons _ values) = err value_error

abbrev pub checked_args : Value → Result (List Text)
checked_args (list values) = do
  texts ← texts_of values
  guard (not (is_empty texts)) value_error
  ok texts
checked_args _ = err value_error

abbrev any_text : Text → Bool
any_text text = true

-- One token of `_parse_status_spec`: its bounds, both included.
abbrev bounds_of : Option ℤ → Option ℤ → Result (ℕ × ℕ)
bounds_of (some (pos low)) (some (pos high)) =
    if leb low high && leb 100 low && leb high 599 then ok (low, high) else err value_error
bounds_of _ _ = err value_error

abbrev token_bounds : Text → Option (Text × Text) → Result (ℕ × ℕ)
token_bounds token none = bounds_of (int_of token) (int_of token)
token_bounds token (some (low, high)) = bounds_of (int_of low) (int_of high)

abbrev status_tokens : List Text → Result (List (ℕ × ℕ))
status_tokens [] = ok []
status_tokens (token ∷ tokens) = do
  bounds ← token_bounds (strip token) (View.partition b'-' (strip token))
  rest ← status_tokens tokens
  ok (bounds ∷ rest)

-- `_parse_status_spec`: the ranges whose union it returns.
unfoldable pub parse_status_spec : Text → Result (List (ℕ × ℕ))
unfolding int_of strip split_on View.partition
parse_status_spec spec = status_tokens (split_on b',' spec)

-- The fields that all checks share, and the type's own.
abbrev pub known : List Text → List Text
known own = codes "interval" ∷ codes "timeout" ∷ codes "fall" ∷ codes "rise" ∷ own

-- `Check.__post_init__` on the shared fields; a timeout above the interval is cut to it.
unfoldable pub post_init : Spec → CheckKind → Result Check
unfolding validate_positive get
post_init params kind = do
  interval ← int_field validate_positive 3 (get (codes "interval") params)
  timeout ← int_field validate_positive 1 (get (codes "timeout") params)
  fall ← int_field validate_positive 3 (get (codes "fall") params)
  rise ← int_field validate_positive 5 (get (codes "rise") params)
  ok (record {
    interval = interval;
    timeout = min timeout interval;
    fall = fall;
    rise = rise;
    kind = kind;
  })

-- `isinstance(self.expected_code, int)` and its range.
abbrev code_field : Option Value → Result ℕ
code_field value = int_field validate_code 0 value

abbrev is_web : Text × Text → Bool
is_web (scheme, netloc) =
    (text_eq scheme (codes "http") || text_eq scheme (codes "https")) && not (is_empty netloc)

module _ (libraries : Libraries) where
  open libraries use {is_address, is_regex, urlsplit}

  -- The dataclasses, by their own fields.
  unfoldable pub exec_kind : Spec → Result CheckKind
  unfolding validate_code get
  exec_kind params = do
    guard
        (is_expected
          (known (
            codes "args"
            ∷ codes "expected_code"
            ∷ codes "output_match"
            ∷ codes "redirect_error"
            ∷ []))
          params)
        value_error
    value ← required (get (codes "args") params)
    args ← checked_args value
    expected_code ← code_field (get (codes "expected_code") params)
    output_match ← text_field is_regex [] (get (codes "output_match") params)
    redirect_error ← bool_field true (get (codes "redirect_error") params)
    ok (exec args expected_code output_match redirect_error)

  unfoldable pub http_kind : Spec → Result CheckKind
  unfolding parse_status_spec get
  http_kind params = do
    guard
        (is_expected
          (known (
            codes "url"
            ∷ codes "method"
            ∷ codes "expected_status"
            ∷ codes "body_match"
            ∷ codes "tls_verify"
            ∷ codes "host"
            ∷ []))
          params)
        value_error
    value ← required (get (codes "url") params)
    url ← checked_text any_text value
    method ← text_field any_text (codes "GET") (get (codes "method") params)
    expected_status ← text_field any_text (codes "200-399") (get (codes "expected_status") params)
    body_match ← text_field is_regex [] (get (codes "body_match") params)
    tls_verify ← bool_field true (get (codes "tls_verify") params)
    host ← text_field any_text [] (get (codes "host") params)
    parts ← urlsplit url
    guard (is_web parts) value_error
    statuses ← parse_status_spec expected_status
    guard (text_eq method (codes "GET") || text_eq method (codes "HEAD")) value_error
    guard (not (text_eq method (codes "HEAD") && not (is_empty body_match))) value_error
    ok (http url method expected_status body_match tls_verify host)

  unfoldable pub icmp_kind : Spec → Result CheckKind
  unfolding get
  icmp_kind params = do
    guard (is_expected (known (codes "ip" ∷ [])) params) value_error
    value ← required (get (codes "ip") params)
    ip ← checked_text is_address value
    ok (icmp ip)

  unfoldable pub tcp_kind : Spec → Result CheckKind
  unfolding validate_port get
  tcp_kind params = do
    guard (is_expected (known (codes "ip" ∷ codes "port" ∷ [])) params) value_error
    value ← required (get (codes "ip") params)
    ip ← checked_text is_address value
    number ← required (get (codes "port") params)
    port ← checked_port number
    ok (tcp ip port)

  unfoldable pub tls_kind : Spec → Result CheckKind
  unfolding validate_port get
  tls_kind params = do
    guard
        (is_expected (known (codes "ip" ∷ codes "port" ∷ codes "tls_verify" ∷ codes "host" ∷ []))
          params)
        value_error
    value ← required (get (codes "ip") params)
    ip ← checked_text is_address value
    number ← required (get (codes "port") params)
    port ← checked_port number
    tls_verify ← bool_field true (get (codes "tls_verify") params)
    host ← text_field any_text [] (get (codes "host") params)
    ok (tls ip port tls_verify host)

  unfoldable pub none_kind : Spec → Result CheckKind
  none_kind params = do guard (is_expected (known []) params) value_error; ok nothing

  -- `cls._registry.get(monitor_type)`
  unfoldable pub kind_of : Text → Spec → Result CheckKind
  unfolding exec_kind http_kind icmp_kind none_kind tcp_kind tls_kind
  kind_of monitor_type params =
      if text_eq monitor_type (codes "exec")
      then exec_kind params
      else if text_eq monitor_type (codes "http")
      then http_kind params
      else if text_eq monitor_type (codes "icmp")
      then icmp_kind params
      else if text_eq monitor_type (codes "none")
      then none_kind params
      else if text_eq monitor_type (codes "tcp")
      then tcp_kind params
      else if text_eq monitor_type (codes "tls")
      then tls_kind params
      else err value_error

  -- `Check.create`
  unfoldable pub create : Spec → Result Check
  unfolding kind_of post_init get
  create check_spec = do
    monitor_type ← type_of (get (codes "type") check_spec)
    let params = keep (λ p. not (text_eq p.0 (codes "type"))) check_spec
    kind ← kind_of monitor_type params
    post_init params kind
