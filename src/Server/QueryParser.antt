-- ===== src/Server/QueryParser.antt =====
-- The keys of a w2ui query (server/http/handler/queryparser.py): `_parser_helper` and what it calls. A
-- nested `dict` with one entry at each level is a branch; the recursion takes fuel.
pub mod Ends
pub mod Nested
use powergslb.Base.{
  ℕ, zero, suc, ◌+◌, ◌-◌, Bool, true, false, ◌&&◌, ◌||◌, not, List, [], ◌∷◌, Option, none, some,
  if◌then◌else◌, ◌==◌, Text, codes, text_eq, is_empty, all, length, take, drop, get_elem?,
}
use powergslb.Base.Values.{ℤ}
use mathlib.Core.Option

-- `str.isdigit` of one character, and `int` of a text, `none` where it raises.
pub record Digits : Type 0 where
  pub isdigit : ℕ → Bool
  pub to_int : Text → Option ℤ

-- A key or a value, which is an integer where it reads as one.
pub data Key : Type 0 where
  name : Text → Key
  index : ℤ → Key

-- `{key: value}`, or `{key: branch}`
pub data Branch : Type 0 where
  leaf : Key → Key → Branch
  under : Key → Branch → Branch

-- What parsing gives: a branch, a `QueryParserError`, the `ValueError` of an `int`, or no fuel.
pub data Parsed : Type 0 where
  parsed : Branch → Parsed
  malformed not_an_int exhausted : Parsed

-- `s.find(c)`
unfoldable pub find : ℕ → Text → Option ℕ
find c [] = none
find c (x ∷ text) = let rest = Option.map suc (find c text) in if x == c then some 0 else rest

-- The text from the first `c` on.
unfoldable pub from : ℕ → Text → Option Text
from c [] = none
from c (x ∷ text) = let rest = from c text in if x == c then some (x ∷ text) else rest

abbrev is_quote : Option ℕ → Bool
is_quote none = false
is_quote (some c) = c == b'\''

-- The text between brackets at these positions, without quotes.
abbrev between : Text → ℕ → ℕ → Text
between s start last =
    let first = if is_quote (get_elem? s (start + 1)) then start + 2 else start + 1 in
    let end_at = if is_quote (get_elem? s (last - 1)) then last - 1 else last in
    take (end_at - first) (drop first s)

abbrev bracketed : Text → Option ℕ → Option ℕ → Option Text
bracketed s (some start) (some last) = some (between s start last)
bracketed s start last = none

-- `_get_key`
unfoldable pub get_key : Text → Option Text
unfolding find
get_key s = bracketed s (find b'[' s) (find b']' s)

abbrev pub is_positive : Option ℕ → Bool
is_positive none = false
is_positive (some zero) = false
is_positive (some (suc n)) = true

-- `_has_variable_name`
unfoldable pub has_variable_name : Text → Bool
unfolding find
has_variable_name s = is_positive (find b'[' s)

unfoldable pub from_next : ℕ → Option Text → Option Text
unfolding from
from_next c none = none
from_next c (some text) = from c text

abbrev pub is_there : Option Text → Bool
is_there none = false
is_there (some text) = true

-- `_more_than_one_index`: two pairs of brackets
unfoldable pub more_than_one_index : Text → Bool
unfolding from from_next
more_than_one_index s = is_there (from_next b']' (from_next b'[' (from_next b']' (from b'[' s))))

abbrev pub or_nothing : Option Text → Text
or_nothing none = []
or_nothing (some text) = text

-- `key[end_bracket + 1:]`
unfoldable pub after_bracket : Text → Text
unfolding from
after_bracket key = drop 1 (or_nothing (from b']' key))

abbrev position : Option ℕ → ℕ
position none = 0
position (some n) = n

-- `key[:start_bracket]`
unfoldable pub before_bracket : Text → Text
unfolding find
before_bracket key = take (position (find b'[' key)) key

-- `key[start_bracket:]`
unfoldable pub from_bracket : Text → Text
unfolding from
from_bracket key = or_nothing (from b'[' key)

abbrev pub extend : Key → Parsed → Parsed
extend key (parsed branch) = parsed (under key branch)
extend key failure = failure

module _ (digits : Digits) where
  abbrev all_digits : Text → Bool
  all_digits text = not (is_empty text) && all digits.isdigit text

  -- `_is_number`
  unfoldable pub is_number : Text → Bool
  is_number [] = false
  is_number (c ∷ text) = if c == b'-' || c == b'+' then all_digits text else all_digits (c ∷ text)

  abbrev as_index : Option ℤ → Option Key
  as_index none = none
  as_index (some z) = some (index z)

  -- `int(text) if _is_number(text) else text`, `none` where `int` raises.
  unfoldable pub key_of : Text → Option Key
  unfolding is_number
  key_of text = if is_number text then as_index (digits.to_int text) else some (name text)

  abbrev pub extended : Option Key → Parsed → Parsed
  extended none rest = not_an_int
  extended (some key) rest = extend key rest

  abbrev pub pair : Option Key → Option Key → Parsed
  pair (some key) (some val) = parsed (leaf key val)
  pair key val = not_an_int

  -- The value, which `[]` alone makes an integer.
  unfoldable pub value_of : Text → Text → Option Key
  unfolding key_of
  value_of key val = if text_eq key (codes "[]") then key_of val else some (name val)

  unfoldable pub last_pair : Text → Option Text → Text → Parsed
  unfolding key_of value_of
  last_pair key none val = malformed
  last_pair key (some new_key) val = pair (key_of new_key) (value_of key val)

  -- `key = val` or `['key'] = val`
  unfoldable pub parse_leaf : Text → Text → Parsed
  unfolding get_key last_pair from
  parse_leaf key val =
      last_pair key (if is_there (from b'[' key) then get_key key else some key) val

  -- `_parser_helper`
  unfoldable pub parser_helper : ℕ → Text → Text → Parsed
  unfolding has_variable_name more_than_one_index parse_leaf key_of get_key after_bracket
      before_bracket from_bracket
  parser_helper zero key val = exhausted
  parser_helper (suc fuel) key val =
      let nested = parser_helper fuel (from_bracket key) val in
      let rest = parser_helper fuel (after_bracket key) val in
      if has_variable_name key
      then extend (name (before_bracket key)) nested
      else if more_than_one_index key
      then extended (key_of (or_nothing (get_key key))) rest
      else parse_leaf key val
