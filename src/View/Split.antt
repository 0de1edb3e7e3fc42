-- ===== src/View/Split.antt =====
-- Python's `str.split()` and `str.partition(sep)`.
use powergslb.Base.{
  ℕ, Bool, ◌&&◌, ◌||◌, List, [], ◌∷◌, ◌++◌, Option, none, some, leb, ◌==◌, if◌then◌else◌, Text,
}

-- `str.isspace` of one code point.
unfoldable pub is_space : ℕ → Bool
is_space c =
    leb 9 c && leb c 13
    || leb 28 c && leb c 32
    || c == 0x85
    || c == 0xa0
    || c == 0x1680
    || leb 0x2000 c && leb c 0x200a
    || c == 0x2028
    || c == 0x2029
    || c == 0x202f
    || c == 0x205f
    || c == 0x3000

-- A word that is being read, if any, goes in front of the others.
abbrev end_word : Text → List Text → List Text
end_word [] words = words
end_word (c ∷ word) words = (c ∷ word) ∷ words

unfoldable pub split_onto : Text → Text → List Text
unfolding is_space
split_onto word [] = end_word word []
split_onto word (c ∷ text) =
    let space = end_word word (split_onto [] text) in
    let char = split_onto (word ++ c ∷ []) text in if is_space c then space else char

-- `text.split()`
unfoldable pub split : Text → List Text
unfolding split_onto
split text = split_onto [] text

-- `text.partition(sep)` for one character: the part before it and the part after, or `none` where the
-- separator is missing.
unfoldable pub partition : ℕ → Text → Option (Text × Text)
partition sep [] = none
partition sep (c ∷ text) =
    let rest : Option (Text × Text) = elim (partition sep text) [
      | none ↦ none
      | some (before, after) ↦ some (c ∷ before, after)
    ] in
    if c == sep then some ([], text) else rest
