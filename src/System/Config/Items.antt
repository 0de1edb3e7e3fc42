-- ===== src/System/Config/Items.antt =====
-- A whole section of the configuration (system/config.py).
use powergslb.Base.{
  ◌≡◌, ap, sym, ◌∙◌, subst, Bool-cases, List, [], ◌∷◌, ◌++◌, Option, none, some, inl, inr,
  if◌then◌else◌, any, Text, codes, text_eq, text_eq→eq, Result, ok, ok_inj, ◌>>=◌, >>=-eq-ok, map,
  ◌==◌,
}
use powergslb.Base.Dict.{Dict, get, pop, text_key}
use powergslb.Base.Values.{Value, null}
use powergslb.Routing.Create.{Spec}
use powergslb.System.Config.{Sections, or_nothing, get_option}
use powergslb.View.{Casing}

-- `text[len(prefix):]` where the text starts with the prefix
unfoldable pub without_prefix : Text → Text → Option Text
without_prefix [] text = some text
without_prefix (p ∷ prefix) [] = none
without_prefix (p ∷ prefix) (c ∷ text) =
    let rest = without_prefix prefix text in if p == c then rest else none

-- A set of options, in the order in which they come.
abbrev pub include : Text → List Text → List Text
include option options = if any (text_eq option) options then options else option ∷ options

some_inj : {a b : Value} → some a ≡ some b → a ≡ b
some_inj e = cc

nothing : {a : Value} → ◌≡◌ {A = Option Value} none (some a) → ⊥
nothing e = cc

module _ (casing : Casing) (to_float : Text → Option Text) where
  abbrev pub include_key : Option Text → List Text → List Text
  include_key none options = options
  include_key (some rest) options = include (casing.lower rest) options

  -- The options that the environment has.
  unfoldable pub environment_options : Text → Dict Text Text → List Text → List Text
  unfolding without_prefix
  environment_options prefix [] options = options
  environment_options prefix ((key, text) ∷ environ) options =
      environment_options prefix environ (include_key (without_prefix prefix key) options)

  unfoldable pub options_of : Sections → Dict Text Text → Text → List Text
  unfolding environment_options get
  options_of merged environ section =
      environment_options (casing.upper (codes "POWERGSLB_" ++ section ++ codes "_")) environ
        (map (λ item. item.0) (or_nothing (get section merged)))

  unfoldable pub items_of_options : Sections → Dict Text Text → Text → List Text → Result Spec
  unfolding get_option
  items_of_options merged environ section [] = ok []
  items_of_options merged environ section (option ∷ options) = do
    value ← get_option casing to_float merged environ section option null
    rest ← items_of_options merged environ section options
    ok ((option, value) ∷ rest)

  -- `Config.items`
  unfoldable pub items : Sections → Dict Text Text → Text → Result Spec
  unfolding options_of items_of_options
  items merged environ section =
      items_of_options merged environ section (options_of merged environ section)

  -- `_Section.pop`: the value of the configuration, and the section without the option.
  unfoldable pub pop_option :
      Sections → Dict Text Text → Text → Text → Value → Spec → Result (Value × Spec)
  unfolding get_option pop
  pop_option merged environ section option default options = do
    value ← get_option casing to_float merged environ section option default
    ok (value, pop option options)

  one_item :
      (merged : Sections) (environ : Dict Text Text) (section first option : Text)
      (found value : Value) (rest : Spec)
      → get_option casing to_float merged environ section first null ≡ ok found
      → (get option rest ≡ some value
          → get_option casing to_float merged environ section option null ≡ ok value)
      → get option ((first, found) ∷ rest) ≡ some value
      → get_option casing to_float merged environ section option null ≡ ok value
  unfolding get
  one_item merged environ section first option found value rest e ih g =
      elim (Bool-cases (text_eq first option)) [
        | inl t ↦
            subst (λ o. get_option casing to_float merged environ section o null ≡ ok value)
              (text_eq→eq first option t) (e ∙ ap ok (some_inj (rw t at g)))
        | inr t ↦ ih (rw t at g)
      ]

  -- A value of a section that is read as a whole is the value that reading its option alone gives.
  items_of_options-get :
      (merged : Sections) (environ : Dict Text Text) (section : Text) (options : List Text)
      (spec : Spec) (option : Text) (value : Value)
      → items_of_options merged environ section options ≡ ok spec
      → get option spec ≡ some value
      → get_option casing to_float merged environ section option null ≡ ok value
  unfolding items_of_options get
  items_of_options-get merged environ section [] spec option value h g =
      absurd (nothing (subst (λ s. get option s ≡ some value) (sym (ok_inj h)) g))
  items_of_options-get merged environ section (o ∷ options) spec option value h g =
      let (v, e, f) =
        >>=-eq-ok (get_option casing to_float merged environ section o null)
          (λ v. items_of_options merged environ section options >>= λ rest. ok ((o, v) ∷ rest)) h in
      let (rest, e2, f2) =
        >>=-eq-ok (items_of_options merged environ section options) (λ rest. ok ((o, v) ∷ rest))
          f in
      one_item merged environ section o option v value rest e
        (items_of_options-get merged environ section options rest option value e2)
        (subst (λ s. get option s ≡ some value) (sym (ok_inj f2)) g)

  items-get :
      (merged : Sections) (environ : Dict Text Text) (section : Text) (spec : Spec) (option : Text)
      (value : Value)
      → items merged environ section ≡ ok spec
      → get option spec ≡ some value
      → get_option casing to_float merged environ section option null ≡ ok value
  unfolding items
  items-get merged environ section spec option value h g =
      items_of_options-get merged environ section (options_of merged environ section) spec option
        value h g
