-- ===== src/Server/QueryParser/Ends.antt =====
-- The recursion on a query's key ends (server/http/handler/queryparser.py, `_parser_helper`).
use mathlib.Core.Option
use powergslb.Base.{
  if◌then◌else◌, ℕ, zero, suc, ◌-◌, ◌≤◌, ◌<◌, ◌≡◌, ◌≢◌, true, false, [], ◌∷◌, Option, none, some,
  Text, arith, Bool-cases, inl, inr, length, drop, ◌==◌, subst,
}
use powergslb.Server.QueryParser.{
  Digits, or_nothing, is_positive, is_there, from_next, pair, value_of, last_pair, Key, name,
  Parsed, parsed, malformed, not_an_int, exhausted, find, from, has_variable_name,
  more_than_one_index, after_bracket, from_bracket, before_bracket, extend, extended, key_of,
  get_key, parse_leaf, parser_helper,
}

-- A text from a character on is no longer than the text, and shorter behind the first character.
length-from : (c : ℕ) (text : Text) → length (or_nothing (from c text)) ≤ length text
unfolding from
length-from c [] = omega arith
length-from c (x ∷ text) = ground (arith, length-from c text)

false-true : false ≡ true → ⊥
false-true h = cc

shorter_variable :
    (key : Text) → has_variable_name key ≡ true → length (from_bracket key) < length key
unfolding has_variable_name from_bracket from find
shorter_variable [] h = cc
shorter_variable (x ∷ key) h = elim (Bool-cases (x == b'[')) [
  | inl e ↦ absurd (
      false-true (
        subst (λ t. is_positive (if t then some 0 else Option.map suc (find b'[' key)) ≡ true) e h))
  | inr e ↦ rw e (omega (arith, length-from b'[' key))
]

length-tail : (text : Text) → length (drop 1 text) ≡ length text - 1
length-tail [] = omega arith
length-tail (x ∷ text) = omega arith

shorter_index :
    (key : Text) → more_than_one_index key ≡ true → length (after_bracket key) < length key
unfolding more_than_one_index after_bracket from from_next
shorter_index [] h = cc
shorter_index (x ∷ key) h =
    omega (arith, length-tail (or_nothing (from b']' (x ∷ key))), length-from b']' (x ∷ key))

extend-exhausted : (key : Key) (rest : Parsed) → rest ≢ exhausted → extend key rest ≢ exhausted
extend-exhausted key (parsed branch) h = λ e. cc
extend-exhausted key malformed h = λ e. cc
extend-exhausted key not_an_int h = λ e. cc
extend-exhausted key exhausted h = h

extended-exhausted :
    (digits : Digits) (key : Option Key) (rest : Parsed)
    → rest ≢ exhausted
    → extended digits key rest ≢ exhausted
extended-exhausted digits none rest h = λ e. cc
extended-exhausted digits (some key) rest h = extend-exhausted key rest h

pair-exhausted : (digits : Digits) (key val : Option Key) → pair digits key val ≢ exhausted
pair-exhausted digits none val = λ e. cc
pair-exhausted digits (some key) none = λ e. cc
pair-exhausted digits (some key) (some val) = λ e. cc

parse_leaf-exhausted : (digits : Digits) (key val : Text) → parse_leaf digits key val ≢ exhausted
unfolding parse_leaf last_pair
parse_leaf-exhausted digits key val =
    of_key (if is_there (from b'[' key) then get_key key else some key)
  where
    of_key : (new_key : Option Text) → last_pair digits key new_key val ≢ exhausted
    of_key none = λ e. cc
    of_key (some new_key) = pair-exhausted digits (key_of digits new_key) (value_of digits key val)

-- The recursion on a key ends: each call is on a shorter text, so as much fuel as the key is long, and one
-- more, gives a branch, a `QueryParserError` or the `ValueError` of an `int`, whatever brackets the key has.
pub parser_helper-ends :
    (digits : Digits) (fuel : ℕ) (key val : Text)
    → length key < fuel
    → parser_helper digits fuel key val ≢ exhausted
unfolding parser_helper
parser_helper-ends digits zero key val h = absurd (omega (arith, h))
parser_helper-ends digits (suc fuel) key val h = elim (Bool-cases (has_variable_name key)) [
  | inl e ↦ rw e (
      extend-exhausted (name (before_bracket key))
        (parser_helper digits fuel (from_bracket key) val)
        (parser_helper-ends digits fuel (from_bracket key) val
          (omega (arith, h, shorter_variable key e))))
  | inr e ↦ elim (Bool-cases (more_than_one_index key)) [
    | inl f ↦
        rw (e, f)
          (extended-exhausted digits (key_of digits (or_nothing (get_key key)))
            (parser_helper digits fuel (after_bracket key) val)
            (parser_helper-ends digits fuel (after_bracket key) val
              (omega (arith, h, shorter_index key f))))
    | inr f ↦ rw (e, f) (parse_leaf-exhausted digits key val)
  ]
]
