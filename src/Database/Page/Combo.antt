-- ===== src/Database/Page/Combo.antt =====
-- A combo's flat search against the grid's list of clauses.
use powergslb.Base.{◌≡◌, refl, ◌∷◌, [], some, if◌then◌else◌, Text, codes, Bool-cases, inl, inr, ℕ}
use powergslb.Base.Dict.{get, text_key}
use powergslb.Base.Values.{Value, str, list, dict, cons, nil, field, end}
use powergslb.Database.Page.{or_null, is_wildcard, search_clause, searches}
use powergslb.Routing.Create.{Spec}

-- The query of a grid with one clause: that a field contains a text.
abbrev pub grid_query : Value → Text → Spec
grid_query field_value text =
    (
      codes "search",
      list (
          cons
            (dict (
              field (codes "field") field_value (
                field (codes "type") (str (codes "text")) (
                  field (codes "operator") (str (codes "contains"))
                    (field (codes "value") (str text) end)))))
            nil),
    )
    ∷ []

-- A combo that posts a text searches as a grid does that posts one clause: that the combo's field contains
-- the text. A single wildcard character searches for nothing, and so lists everything.
pub searches-combo :
    (query : Spec) (c : ℕ) (text : Text)
    → get (codes "search") query ≡ some (str (c ∷ text))
    → searches query ≡ (
        if is_wildcard (c ∷ text)
        then []
        else searches (grid_query (or_null (get (codes "field") query)) (c ∷ text)))
unfolding searches search_clause get
searches-combo query c text h = elim (Bool-cases (is_wildcard (c ∷ text))) [
  | inl e ↦ rw (h, e) refl
  | inr e ↦ rw (h, e) refl
]
