-- ===== src/View/Accepting.antt =====
-- Which rules `resolve` accepts (view/rule.py, view/geoip.py): the grammar of the tokens, apart from how they
-- are parsed.
use powergslb.Base.{
  ◌≡◌, refl, sym, ap, ◌∙◌, ◌⊎◌, inl, inr, true, false, List, [], ◌∷◌, Option, none, some,
  Option-cases, Bool-cases, is_empty, Text, codes, text_eq, text_eq→eq, Result, ok, err,
  value_error, text_eq_self, collect, subst, and-eq-true,
}
use powergslb.Client.{IpNetwork}
use powergslb.View.Codes.{continent_codes, country_codes}
use powergslb.View.Geo.{GeoKind, GeoToken, country, continent, Casing, is_code, parse_geo_token}
use powergslb.View.Resolving.{
  Meaning, selector, network, malformed, meaning, is_good, as_network, as_selector, networks_of,
  selectors_of, all_good, resolve-eq,
}
use powergslb.View.Rule.{Netaddr, ViewRule, view_rule, resolve}
use powergslb.View.Split.{partition, split}

abbrev pub keyword : GeoKind → Text
keyword country = codes "country"
keyword continent = codes "continent"

abbrev pub known_codes : GeoKind → List Text
known_codes country = country_codes
known_codes continent = continent_codes

text_ne : (a b : Text) → text_eq a b ≡ false → a ≡ b → ⊥
text_ne a b f e = clash (sym f ∙ ap (λ t. text_eq t b) e ∙ text_eq_self b)
  where
    clash : false ≡ true → ⊥
    clash h = cc

collect-some :
    {A B : Type 0} (f : A → Option B) (x : A) (xs : List A) {y : B}
    → f x ≡ some y
    → collect f (x ∷ xs) ≡ y ∷ collect f xs
collect-some f x xs e = rw (e, collect) refl

collect-none :
    {A B : Type 0} (f : A → Option B) (x : A) (xs : List A)
    → f x ≡ none
    → collect f (x ∷ xs) ≡ collect f xs
collect-none f x xs e = rw (e, collect) refl

module _ (netaddr : Netaddr) (casing : Casing) where
  -- The token is a keyword, in any case, a colon and a text.
  abbrev pub HasKeyword : Text → GeoKind → Text → Type 0
  HasKeyword token kind value =
      (prefix : Text) × (partition b':' token ≡ some (prefix, value))
      × (casing.lower prefix ≡ keyword kind)

  -- A geo selector: the text after the keyword is one of its codes, in any case.
  abbrev pub Selects : Text → GeoToken → Type 0
  Selects token (kind, code) =
      (value : Text) × HasKeyword token kind value
      × (casing.upper value ≡ code)
      × (is_code (known_codes kind) code ≡ true)

  abbrev pub HasNoKeyword : Text → Type 0
  HasNoKeyword token = ¬ ((kind : GeoKind) × (value : Text) × HasKeyword token kind value)

  -- A CIDR, which has no keyword.
  abbrev pub IsCidr : Text → IpNetwork → Type 0
  IsCidr token n = HasNoKeyword token × (netaddr.parse_network token ≡ some n)

  -- The token has a keyword and no code of it, or is no CIDR.
  abbrev pub IsRefused : Text → Type 0
  IsRefused token =
      ((kind : GeoKind) × (value : Text) × HasKeyword token kind value
        × (is_code (known_codes kind) (casing.upper value) ≡ false))
      ⊎ (HasNoKeyword token × (netaddr.parse_network token ≡ none))

  -- What a meaning says of its token.
  abbrev Means : Text → Meaning → Type 0
  Means token (selector geo) = Selects token geo
  Means token (network n) = IsCidr token n
  Means token malformed = IsRefused token

  -- The tokens are read in order: each is a selector or a CIDR.
  abbrev pub Reads : List Text → List IpNetwork → List GeoToken → Type 0
  Reads [] networks selectors = (networks ≡ []) × (selectors ≡ [])
  Reads (token ∷ tokens) networks selectors =
      ((geo : GeoToken) × (later : List GeoToken) × Selects token geo
        × (selectors ≡ geo ∷ later)
        × Reads tokens networks later)
      ⊎ ((n : IpNetwork) × (later : List IpNetwork) × IsCidr token n
          × (networks ≡ n ∷ later)
          × Reads tokens later selectors)

  abbrev pub SomeIsRefused : List Text → Type 0
  SomeIsRefused [] = ⊥
  SomeIsRefused (token ∷ tokens) = IsRefused token ⊎ SomeIsRefused tokens

  -- A rule of these tokens, or an error.
  abbrev pub Accepts : List Text → Result ViewRule → Type 0
  Accepts tokens (ok rule) =
      (is_empty tokens ≡ false)
      × (networks : List IpNetwork) × (selectors : List GeoToken) × Reads tokens networks selectors
      × (rule ≡ view_rule networks selectors)
  Accepts tokens (err e) = (e ≡ value_error) × ((is_empty tokens ≡ true) ⊎ SomeIsRefused tokens)

  Uncut : (token : Text) → partition b':' token ≡ none → HasNoKeyword token
  Uncut token e (kind, value, (prefix, f, g)) = apart (sym e ∙ f)
    where
      apart : {p : Text × Text} → ◌≡◌ {A = Option (Text × Text)} none (some p) → ⊥
      apart h = cc

  -- Of a token that is cut at its colon, the keyword is the text before.
  keyword_of :
      (token prefix value : Text) (kind : GeoKind) (rest : Text)
      → partition b':' token ≡ some (prefix, value)
      → HasKeyword token kind rest
      → casing.lower prefix ≡ keyword kind
  keyword_of token prefix value kind rest e (before, f, g) =
      ap (λ p. casing.lower (first p)) (sym e ∙ f) ∙ g
    where
      first : Option (Text × Text) → Text
      first none = []
      first (some p) = p.0

  no_keyword :
      (token prefix value : Text)
      → partition b':' token ≡ some (prefix, value)
      → text_eq (casing.lower prefix) (codes "country") ≡ false
      → text_eq (casing.lower prefix) (codes "continent") ≡ false
      → HasNoKeyword token
  no_keyword token prefix value e f g (country, rest, h) = absurd (
      text_ne (casing.lower prefix) (codes "country") f
        (keyword_of token prefix value country rest e h))
  no_keyword token prefix value e f g (continent, rest, h) = absurd (
      text_ne (casing.lower prefix) (codes "continent") g
        (keyword_of token prefix value continent rest e h))

  token-Means :
      (token : Text) (o : Option (Text × Text))
      → partition b':' token ≡ o
      → Means token (meaning netaddr casing token)
  unfolding parse_geo_token
  token-Means token none e = elim (Option-cases (netaddr.parse_network token)) [
    | inl f ↦ rw (e, f) (inr (Uncut token e, f))
    | inr (n, f) ↦ rw (e, f) (Uncut token e, f)
  ]
  token-Means token (some (prefix, value)) e =
      elim (Bool-cases (text_eq (casing.lower prefix) (codes "country"))) [
        | inl f ↦ elim (Bool-cases (is_code country_codes (casing.upper value))) [
          | inl g ↦
              rw (e, f, g)
                (value, (prefix, e, text_eq→eq (casing.lower prefix) (codes "country") f), refl, g)
          | inr g ↦
              rw (e, f, g)
                (inl (
                  country,
                  value,
                  (prefix, e, text_eq→eq (casing.lower prefix) (codes "country") f),
                  g,
                ))
        ]
        | inr f ↦ elim (Bool-cases (text_eq (casing.lower prefix) (codes "continent"))) [
          | inl k ↦ elim (Bool-cases (is_code continent_codes (casing.upper value))) [
            | inl g ↦
                rw (e, f, k, g)
                  (
                    value,
                    (prefix, e, text_eq→eq (casing.lower prefix) (codes "continent") k),
                    refl,
                    g,
                  )
            | inr g ↦
                rw (e, f, k, g)
                  (inl (
                    continent,
                    value,
                    (prefix, e, text_eq→eq (casing.lower prefix) (codes "continent") k),
                    g,
                  ))
          ]
          | inr k ↦ elim (Option-cases (netaddr.parse_network token)) [
            | inl g ↦ rw (e, f, k, g) (inr (no_keyword token prefix value e f k, g))
            | inr (n, g) ↦ rw (e, f, k, g) (no_keyword token prefix value e f k, g)
          ]
        ]
      ]

  one_Reads :
      (token : Text) (tokens : List Text) (m : Meaning)
      → meaning netaddr casing token ≡ m
      → Means token m
      → is_good m ≡ true
      → Reads tokens (networks_of netaddr casing tokens) (selectors_of netaddr casing tokens)
      → Reads
          (token ∷ tokens)
          (networks_of netaddr casing (token ∷ tokens))
          (selectors_of netaddr casing (token ∷ tokens))
  one_Reads token tokens (selector geo) e h good later = inl (
    geo,
    selectors_of netaddr casing tokens,
    h,
    collect-some (λ t. as_selector (meaning netaddr casing t)) token tokens (ap as_selector e),
    subst (λ l. Reads tokens l (selectors_of netaddr casing tokens))
        (sym (
          collect-none (λ t. as_network (meaning netaddr casing t)) token tokens (ap as_network e)))
        later,
  )
  one_Reads token tokens (network n) e h good later = inr (
    n,
    networks_of netaddr casing tokens,
    h,
    collect-some (λ t. as_network (meaning netaddr casing t)) token tokens (ap as_network e),
    subst (Reads tokens (networks_of netaddr casing tokens))
        (sym (
          collect-none (λ t. as_selector (meaning netaddr casing t)) token tokens
            (ap as_selector e)))
        later,
  )
  one_Reads token tokens malformed e h good later = absurd (clash good)
    where
      clash : false ≡ true → ⊥
      clash f = cc

  all_good-Reads :
      (tokens : List Text)
      → all_good netaddr casing tokens ≡ true
      → Reads tokens (networks_of netaddr casing tokens) (selectors_of netaddr casing tokens)
  all_good-Reads [] h = (refl, refl)
  all_good-Reads (token ∷ tokens) h =
      let (good, later) =
        and-eq-true (is_good (meaning netaddr casing token)) (all_good netaddr casing tokens) h in
      one_Reads token tokens (meaning netaddr casing token) refl
        (token-Means token (partition b':' token) refl) good (all_good-Reads tokens later)

  one-IsRefused : (token : Text) (m : Meaning) → Means token m → is_good m ≡ false → IsRefused token
  one-IsRefused token (selector geo) h bad = cc
  one-IsRefused token (network n) h bad = cc
  one-IsRefused token malformed h bad = h

  not_good-SomeIsRefused :
      (tokens : List Text) → all_good netaddr casing tokens ≡ false → SomeIsRefused tokens
  not_good-SomeIsRefused [] h = absurd (clash h)
    where
      clash : true ≡ false → ⊥
      clash f = cc
  not_good-SomeIsRefused (token ∷ tokens) h =
      elim (Bool-cases (is_good (meaning netaddr casing token))) [
        | inl e ↦ inr (not_good-SomeIsRefused tokens (rw e at h))
        | inr e ↦ inl (
            one-IsRefused token (meaning netaddr casing token)
              (token-Means token (partition b':' token) refl) e)
      ]

  -- `resolve` accepts a rule exactly where it has tokens and each is a geo selector or a CIDR. The rule then
  -- holds their networks and selectors, in order. Else it raises a `ValueError`. A token is a selector where
  -- the text before its first colon is `country` or `continent` and the text after it is a code of that
  -- list, both in any case; with another text after it is refused, and not tried as a CIDR.
  pub resolve-Accepts : (rule : Text) → Accepts (split rule) (resolve netaddr casing rule)
  resolve-Accepts rule = elim (Bool-cases (is_empty (split rule))) [
    | inl e ↦ rw (resolve-eq netaddr casing rule, e) (refl, inl e)
    | inr e ↦ elim (Bool-cases (all_good netaddr casing (split rule))) [
      | inl g ↦
          rw (resolve-eq netaddr casing rule, e, g)
            (
              e,
              networks_of netaddr casing (split rule),
              selectors_of netaddr casing (split rule),
              all_good-Reads (split rule) g,
              refl,
            )
      | inr g ↦
          rw (resolve-eq netaddr casing rule, e, g)
            (refl, inr (not_good-SomeIsRefused (split rule) g))
    ]
  ]
