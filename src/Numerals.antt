-- ===== src/Numerals.antt =====
-- Python's `int(text)`, `str.strip()` and `str.split(sep)`.
use powergslb.Base.{
  ℕ, zero, suc, ◌+◌, ◌-◌, ◌*◌, Bool, true, false, ◌&&◌, List, [], ◌∷◌, Option, none, some,
  if◌then◌else◌, leb, ◌==◌, Text,
}
use powergslb.Base.Values.{ℤ, pos, negsuc}
use powergslb.View.{is_space}
use mathlib.Core.Option
use mathlib.Core.List.{reverse}

abbrev is_digit : ℕ → Bool
is_digit c = leb b'0' c && leb c b'9'

-- Digits, with single underscores between them, as `int` reads them (ASCII).
unfoldable pub digits : ℕ → Bool → Text → Option ℕ
digits value after_digit [] = if after_digit then some value else none
digits value after_digit (c ∷ cs) =
    let more = digits (value * 10 + (c - b'0')) true cs in
    let skipped = digits value false cs in
    if is_digit c then more else if after_digit && c == b'_' then skipped else none

abbrev negated : ℕ → ℤ
negated zero = pos 0
negated (suc n) = negsuc n

-- `int(text)` of a text without surrounding whitespace
unfoldable pub parse_int : Text → Option ℤ
unfolding digits
parse_int [] = none
parse_int (c ∷ cs) =
    if c == b'-'
    then Option.map negated (digits 0 false cs)
    else if c == b'+'
    then Option.map pos (digits 0 false cs)
    else Option.map pos (digits 0 false (c ∷ cs))

abbrev pub drop_spaces : Text → Text
drop_spaces [] = []
drop_spaces (c ∷ text) = if is_space c then drop_spaces text else c ∷ text

-- `text.strip()`
unfoldable pub strip : Text → Text
unfolding is_space
strip text = reverse (drop_spaces (reverse (drop_spaces text)))

-- `int(text)`
unfoldable pub int_of : Text → Option ℤ
unfolding parse_int strip
int_of text = parse_int (strip text)

abbrev pub onto_first : ℕ → List Text → List Text
onto_first c [] = (c ∷ []) ∷ []
onto_first c (word ∷ words) = (c ∷ word) ∷ words

-- `text.split(separator)`, for a separator of one character
unfoldable pub split_on : ℕ → Text → List Text
split_on separator [] = [] ∷ []
split_on separator (c ∷ text) =
    let words = split_on separator text in if c == separator then [] ∷ words else onto_first c words
