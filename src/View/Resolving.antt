-- ===== src/View/Resolving.antt =====
-- `resolve` by the meanings of its tokens, as they are parsed one by one (view/rule.py).
use powergslb.Base.{
  ◌≡◌, refl, Bool, true, false, ◌&&◌, not, List, [], ◌∷◌, Option, none, some, arith, all, is_empty,
  Result-cases, inl, inr, if◌then◌else◌, Text, Result, ok, err, value_error, Error, collect,
}
use powergslb.Client.{IpNetwork}
use powergslb.View.Geo.{GeoToken, Casing, parse_geo_token}
use powergslb.View.Rule.{Netaddr, view_rule, parse_tokens, resolve}
use powergslb.View.Split.{split}

-- What one token stands for.
pub data Meaning : Type 0 where
  selector : GeoToken → Meaning
  network : IpNetwork → Meaning
  malformed : Meaning

module _ (netaddr : Netaddr) (casing : Casing) where
  abbrev network_meaning : Option IpNetwork → Meaning
  network_meaning none = malformed
  network_meaning (some n) = network n

  abbrev meaning_of : Result (Option GeoToken) → Option IpNetwork → Meaning
  meaning_of (ok (some geo)) cidr = selector geo
  meaning_of (ok none) cidr = network_meaning cidr
  meaning_of (err e) cidr = malformed

  abbrev pub meaning : Text → Meaning
  meaning token = meaning_of (parse_geo_token casing token) (netaddr.parse_network token)

abbrev pub is_good : Meaning → Bool
is_good malformed = false
is_good _ = true

abbrev pub as_network : Meaning → Option IpNetwork
as_network (network n) = some n
as_network _ = none

abbrev pub as_selector : Meaning → Option GeoToken
as_selector (selector geo) = some geo
as_selector _ = none

parse_geo_token-error :
    (casing : Casing) (token : Text) (e : Error)
    → parse_geo_token casing token ≡ err e
    → e ≡ value_error
unfolding parse_geo_token
parse_geo_token-error casing token e h = ground arith

module _ (netaddr : Netaddr) (casing : Casing) where
  abbrev pub networks_of : List Text → List IpNetwork
  networks_of = collect (λ t. as_network (meaning netaddr casing t))

  abbrev pub selectors_of : List Text → List GeoToken
  selectors_of = collect (λ t. as_selector (meaning netaddr casing t))

  abbrev pub all_good : List Text → Bool
  all_good = all (λ t. is_good (meaning netaddr casing t))

  parse_tokens-eq :
      (tokens : List Text)
      → parse_tokens netaddr casing tokens ≡ (
          if all_good tokens then ok (networks_of tokens, selectors_of tokens) else err value_error)
  unfolding parse_tokens
  parse_tokens-eq [] = refl
  parse_tokens-eq (token ∷ tokens) = elim (Result-cases (parse_geo_token casing token)) [
    | inl (found, p) ↦ ground (arith, p, parse_tokens-eq tokens)
    | inr (e, p) ↦ ground (arith, p, parse_geo_token-error casing token e p, parse_tokens-eq tokens)
  ]

  -- `resolve`, by the meanings of the tokens.
  pub resolve-eq :
      (rule : Text)
      → resolve netaddr casing rule ≡ (
          if not (is_empty (split rule)) && all_good (split rule)
          then ok (view_rule (networks_of (split rule)) (selectors_of (split rule)))
          else err value_error)
  unfolding resolve
  resolve-eq rule = ground (arith, parse_tokens-eq (split rule))
