-- ===== src/Database/Table/Search/Like.antt =====
-- The LIKE patterns of the text searches (database/mysql/tables.py, `_escape_like`, `_like_patterns`),
-- read as MySQL documents a pattern.
use powergslb.Base.{
  ℕ, ◌≡◌, refl, sym, ap, ◌∙◌, Bool, true, false, ◌||◌, List, [], ◌∷◌, ◌++◌, map, if◌then◌else◌,
  ◌==◌, Text, codes, text_eq, Bool-cases, inl, inr, arith,
}
use powergslb.Database.Table.Search.{escape_like, like_pattern}
use mathlib.Core.List.{append-nil}

-- What a character of a pattern stands for: itself, any text, or any character.
pub data Token : Type 0 where
  literal : ℕ → Token
  any_text any_character : Token

-- The pattern, after a backslash or not.
abbrev pub tokens_from : Bool → Text → List Token
tokens_from false [] = []
tokens_from true [] = literal b'\\' ∷ []
tokens_from false (c ∷ text) =
    let escaped = tokens_from true text in
    let rest = tokens_from false text in
    if c == b'\\'
    then escaped
    else if c == b'%'
    then any_text ∷ rest
    else if c == b'_'
    then any_character ∷ rest
    else literal c ∷ rest
tokens_from true (c ∷ text) = literal c ∷ tokens_from false text

abbrev pub tokens : Text → List Token
tokens text = tokens_from false text

abbrev is_special : ℕ → Bool
is_special c = c == b'\\' || c == b'%' || c == b'_'

-- The escapes, one character at a time.
escape_like-cons :
    (c : ℕ) (text : Text)
    → escape_like (c ∷ text)
      ≡ (if is_special c then b'\\' ∷ c ∷ escape_like text else c ∷ escape_like text)
unfolding escape_like
escape_like-cons c text = ground arith

unescaped :
    (c : ℕ) (text : Text) → is_special c ≡ false → tokens (c ∷ text) ≡ literal c ∷ tokens text
unescaped c text e = ground arith

tokens-escape_like :
    (value rest : Text) → tokens (escape_like value ++ rest) ≡ map literal value ++ tokens rest
unfolding escape_like
tokens-escape_like [] rest = refl
tokens-escape_like (c ∷ value) rest = elim (Bool-cases (is_special c)) [
  | inl e ↦ rw (escape_like-cons c value, e) (ap (◌∷◌ (literal c)) (tokens-escape_like value rest))
  | inr e ↦
      rw (escape_like-cons c value, e)
        (unescaped c (escape_like value ++ rest) e
          ∙ ap (◌∷◌ (literal c)) (tokens-escape_like value rest))
]

-- The tokens of the value, and nothing after them.
tokens-escape_like_end : (value : Text) → tokens (escape_like value) ≡ map literal value
tokens-escape_like_end value =
    ap tokens (sym (append-nil (escape_like value)))
    ∙ tokens-escape_like value []
    ∙ append-nil (map literal value)

-- What each operator asks for.
abbrev pub asked : Text → Text → List Token
asked operator value =
    if text_eq operator (codes "begins")
    then map literal value ++ any_text ∷ []
    else if text_eq operator (codes "contains")
    then any_text ∷ map literal value ++ any_text ∷ []
    else any_text ∷ map literal value

-- The pattern of a text search stands for its value character by character, whatever wildcards and
-- backslashes the value has: at the start of any text for `begins`, anywhere in it for `contains`, and at
-- its end for any other operator.
pub like_pattern-asked :
    (operator value : Text)
    → tokens (like_pattern operator (escape_like value)) ≡ asked operator value
like_pattern-asked operator value = elim (Bool-cases (text_eq operator (codes "begins"))) [
  | inl e ↦ rw e (tokens-escape_like value (codes "%"))
  | inr e ↦ elim (Bool-cases (text_eq operator (codes "contains"))) [
    | inl f ↦ rw (e, f) (ap (◌∷◌ any_text) (tokens-escape_like value (codes "%")))
    | inr f ↦ rw (e, f) (ap (◌∷◌ any_text) (tokens-escape_like_end value))
  ]
]
