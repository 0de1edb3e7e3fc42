-- ===== src/Database/Records/Owner.antt =====
-- The rows of `gslb_records` are rows of the name that was asked for.
use powergslb.Base.{
  ℕ, map, length-map, ◌-◌, ◌≡◌, refl, sym, ap, ◌∙◌, subst, ◌⊎◌, inl, inr, Bool, true, false, ◌&&◌,
  ◌||◌, not, List, [], ◌∷◌, ◌++◌, Option, none, some, Option-cases, if◌then◌else◌, ◌==◌, ltb, arith,
  any, keep, length, length-append, take, All, All-map, All-imp, All-keep, Bool-cases, Text, codes,
  text_eq, text_eq→eq, text_eq_self, and-eq-true, ==_iff,
}
use powergslb.Database.Names.{zone_suffixes, zone_suffixes-eq, after_dots}
use powergslb.Database.Records.{
  Joined, Tables, rstrip_dots, longest, longer, relative_name, full_name, row_of, owning_zone,
  is_answer, rows_in, gslb_records,
}
use powergslb.Row.{Row}

some-inj : {a b : Text} → some a ≡ some b → a ≡ b
some-inj h = cc

true-ne-false : true ≡ false → ⊥
true-ne-false h = cc

longest-All :
    (P : Text → Type 0) (domains : List Text) {zone : Text}
    → All P domains
    → longest domains ≡ some zone
    → P zone
unfolding longest
longest-All P [] h e = cc
longest-All P (d ∷ domains) {zone} h e = elim (Option-cases (longest domains)) [
  | inl f ↦ subst P (some-inj (subst (λ o. longer d o ≡ some zone) f e)) h.0
  | inr (other, f) ↦
      chosen (ltb (length d) (length other)) (longest-All P domains h.1 f)
        (subst (λ o. longer d o ≡ some zone) f e)
]
  where
    chosen :
        {other : Text} (b : Bool)
        → P other
        → (if b then some other else some d) ≡ some zone
        → P zone
    chosen true k g = subst P (some-inj g) k
    chosen false k g = subst P (some-inj g) h.0

take-append : (label rest : Text) → take (length label) (label ++ rest) ≡ label
take-append [] rest = refl
take-append (c ∷ label) rest = ap (◌∷◌ c) (take-append label rest)

-- The relative name of a name below the zone is its label.
relative-label :
    (label zone : Text)
    → take (length (label ++ b'.' ∷ zone) - length zone - 1) (label ++ b'.' ∷ zone) ≡ label
relative-label label zone =
    ap (λ n. take n (label ++ b'.' ∷ zone)) (omega (arith, length-append label (b'.' ∷ zone)))
    ∙ take-append label (b'.' ∷ zone)

map-append : {A B : Type 0} (f : A → B) (xs ys : List A) → map f (xs ++ ys) ≡ map f xs ++ map f ys
map-append f [] ys = refl
map-append f (x ∷ xs) ys = ap (◌∷◌ (f x)) (map-append f xs ys)

-- A collation that compares the characters one by one, each by what it folds to, such as its lower case.
abbrev pub folded_eq : (ℕ → ℕ) → Text → Text → Bool
folded_eq fold a b = text_eq (map fold a) (map fold b)

-- The name has a label in front that the server takes for `@`, which stands for the zone's own name in the table.
abbrev pub begins_at : (ℕ → ℕ) → Text → Bool
begins_at fold [] = false
begins_at fold (c ∷ []) = false
begins_at fold (c ∷ d ∷ text) = fold c == fold b'@' && d == b'.'

module _ (fold : ℕ → ℕ) where
  -- Equal to the server.
  abbrev pub Same : Text → Text → Type 0
  Same a b = map fold a ≡ map fold b

  same→Same : (a b : Text) → folded_eq fold a b ≡ true → Same a b
  same→Same a b h = text_eq→eq (map fold a) (map fold b) h

  Same→same : (a b : Text) → Same a b → folded_eq fold a b ≡ true
  Same→same a b h = rw h (text_eq_self (map fold b))

  -- The zone is the name itself, or what follows one of its dots.
  abbrev Owns : Text → Text → Type 0
  Owns qname zone =
      Same zone qname
      ⊎ ((label : Text) × (rest : Text) × (qname ≡ label ++ b'.' ∷ rest) × Same zone rest)

  abbrev Cut : Text → Text → Type 0
  Cut text zone = (label : Text) × (rest : Text) × (text ≡ label ++ b'.' ∷ rest) × Same zone rest

  after_dots-Cut :
      (text zone : Text) → any (λ s. folded_eq fold zone s) (after_dots text) ≡ true → Cut text zone
  after_dots-Cut [] zone h = cc
  after_dots-Cut (c ∷ text) zone h = elim (Bool-cases (c == b'.')) [
    | inl dot ↦ elim (Bool-cases (folded_eq fold zone text)) [
      | inl e ↦ ([], text, ap (λ d. d ∷ text) ((==_iff c b'.').0 dot), same→Same zone text e)
      | inr e ↦ longer_label (after_dots-Cut text zone (ground (arith, e, dot)))
    ]
    | inr other ↦ longer_label (after_dots-Cut text zone (ground (arith, other)))
  ]
    where
      longer_label : Cut text zone → Cut (c ∷ text) zone
      longer_label (label, rest, f, g) = (c ∷ label, rest, ap (◌∷◌ c) f, g)

  suffix-Owns :
      (qname zone : Text)
      → any (λ s. folded_eq fold zone s) (zone_suffixes qname) ≡ true
      → Owns qname zone
  suffix-Owns qname zone h = elim (Bool-cases (folded_eq fold zone qname)) [
    | inl e ↦ inl (same→Same zone qname e)
    | inr e ↦ inr (
        after_dots-Cut qname zone (
          ground (
            arith,
            e,
            subst (λ l. any (λ s. folded_eq fold zone s) l ≡ true) (zone_suffixes-eq qname) h,
          )))
  ]

  Same-length : (a b : Text) → Same a b → length a ≡ length b
  Same-length a b h = sym (length-map fold a) ∙ ap length h ∙ length-map fold b

  -- A label that is the same as `@` is one such character.
  at_label :
      (label rest : Text) → Same label (codes "@") → begins_at fold (label ++ b'.' ∷ rest) ≡ true
  at_label [] rest h = cc
  at_label (c ∷ []) rest h = ground (arith, one h)
    where
      one : ◌≡◌ {A = List ℕ} (fold c ∷ []) (fold b'@' ∷ []) → (fold c == fold b'@') ≡ true
      one e = (==_iff (fold c) (fold b'@')).1 (cc)
  at_label (c ∷ d ∷ label) rest h = cc

  -- The name of an answer, from what the `WHERE` clause holds it to.
  full_name-Same :
      (qname zone : Text) (j : Joined)
      → begins_at fold qname ≡ false
      → Owns qname zone
      → Same j.domain zone
      → Same j.name (relative_name (folded_eq fold) qname j.domain)
      → Same (full_name (folded_eq fold) j) qname
  full_name-Same qname zone j plain owns d n = elim (Bool-cases (folded_eq fold qname j.domain)) [
    | inl e ↦
        let apex : Same j.name (codes "@") = n ∙ (rw e refl) in
        rw (Same→same j.name (codes "@") apex) (sym (same→Same qname j.domain e))
    | inr e ↦ below_zone owns e (n ∙ (rw e refl))
  ]
    where
      below_zone :
          Owns qname zone
          → folded_eq fold qname j.domain ≡ false
          → Same j.name (take (length qname - length j.domain - 1) qname)
          → Same (full_name (folded_eq fold) j) qname
      below_zone (inl whole) e m =
          absurd (true-ne-false (sym (Same→same qname j.domain (sym (d ∙ whole))) ∙ e))
      below_zone (inr (label, rest, f, g)) e m =
          let long = Same-length j.domain rest (d ∙ g) in
          let cut : Same j.name label =
            m
            ∙ ap (λ k. map fold (take (length qname - k - 1) qname)) long
            ∙ ap (λ q. map fold (take (length q - length rest - 1) q)) f
            ∙ ap (map fold) (relative-label label rest) in
          elim (Bool-cases (folded_eq fold j.name (codes "@"))) [
            | inl at ↦
                let front = at_label label rest (sym cut ∙ same→Same j.name (codes "@") at) in
                absurd (true-ne-false (sym front ∙ ap (begins_at fold) (sym f) ∙ plain))
            | inr other ↦ rw other (
                map-append fold j.name (b'.' ∷ j.domain)
                ∙ ap (λ l. l ++ fold b'.' ∷ map fold j.domain) cut
                ∙ ap (λ t. map fold label ++ fold b'.' ∷ t) (d ∙ g)
                ∙ sym (map-append fold label (b'.' ∷ rest))
                ∙ ap (map fold) (sym f))
          ]

  all_Own :
      (qname : Text) (domains : List Text)
      → All (Owns qname) (keep (λ d. any (λ s. folded_eq fold d s) (zone_suffixes qname)) domains)
  all_Own qname domains =
      All-imp (keep (λ d. any (λ s. folded_eq fold d s) (zone_suffixes qname)) domains)
        (λ d h. suffix-Owns qname d h)
        (All-keep (λ d. any (λ s. folded_eq fold d s) (zone_suffixes qname)) domains)

  -- The rows are of the name, as the server compares names.
  abbrev pub AnswersTo : Text → List Row → Type 0
  AnswersTo qname rows = All (λ r. Same r.qname qname) rows

  rows_in-AnswersTo :
      (tables : Tables) (qname qtype : Text) (o : Option Text)
      → begins_at fold qname ≡ false
      → ((zone : Text) → o ≡ some zone → Owns qname zone)
      → AnswersTo qname (rows_in (folded_eq fold) tables qname qtype o)
  rows_in-AnswersTo tables qname qtype none plain owns = tt
  rows_in-AnswersTo tables qname qtype (some zone) plain owns =
      let same = folded_eq fold in
      let held = keep (is_answer same tables qname qtype zone) tables.joined in
      All-map (λ r. Same r.qname qname) (row_of same) held
        (All-imp held
          (λ j h.
            let here = same j.domain zone in
            let named = same j.name (relative_name same qname j.domain) in
            let typed = text_eq qtype (codes "ANY") || same j.qtype qtype in
            let (most, live) = and-eq-true (here && named && typed) (not j.disabled) h in
            let (both, t) = and-eq-true (here && named) typed most in
            let (d, n) = and-eq-true here named both in
            full_name-Same qname zone j plain (owns zone refl) (same→Same j.domain zone d)
              (same→Same j.name (relative_name same qname j.domain) n))
          (All-keep (is_answer same tables qname qtype zone) tables.joined))

  -- Every row of `gslb_records` has the name that was asked for, without its trailing dots, as the server
  -- compares names, though the name is taken apart at the zone and put together again by the query. The server
  -- compares texts character by character, each by what it folds to, so it may take no notice of case; and it does
  -- not take the first label of the name for `@`.
  pub gslb_records-AnswersTo :
      (tables : Tables) (qname qtype : Text)
      → begins_at fold (rstrip_dots qname) ≡ false
      → AnswersTo (rstrip_dots qname) (gslb_records (folded_eq fold) tables qname qtype)
  unfolding gslb_records owning_zone
  gslb_records-AnswersTo tables qname qtype plain =
      let name = rstrip_dots qname in
      let suffixed =
        keep (λ d. any (λ s. folded_eq fold d s) (zone_suffixes name)) tables.domains in
      rows_in-AnswersTo tables name qtype (owning_zone (folded_eq fold) tables name) plain
        (λ zone e. longest-All (Owns name) suffixed (all_Own name tables.domains) e)
