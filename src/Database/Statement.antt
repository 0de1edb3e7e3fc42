-- ===== src/Database/Statement.antt =====
-- The text and the parameters of a statement (database/mysql/database.py, database/mysql/masked.py):
-- `join_operation` and `_unwrap_params`.
use powergslb.Base.{
  ℕ, ◌≡◌, refl, Bool, false, ◌||◌, ◌&&◌, not, List, [], ◌∷◌, ◌++◌, map, keep, is_empty,
  if◌then◌else◌, leb, ◌==◌, Text, All, All-append, All-imp, All-map, All-keep_of_All, Bool-cases,
  inl, inr, codes,
}
use powergslb.Base.Values.{Value, str}
use powergslb.Numerals.{strip, drop_spaces, onto_first}
use powergslb.View.{is_space}
use mathlib.Core.List.{reverse, reverse_aux}

-- Where `str.splitlines` ends a line; a carriage return before a newline gives an empty line, which is dropped.
abbrev pub is_line_break : ℕ → Bool
is_line_break c =
    leb 10 c && leb c 13 || leb 28 c && leb c 30 || c == 0x85 || c == 0x2028 || c == 0x2029

unfoldable pub splitlines : Text → List Text
splitlines [] = [] ∷ []
splitlines (c ∷ text) =
    let lines = splitlines text in if is_line_break c then [] ∷ lines else onto_first c lines

-- `' '.join(lines)`
abbrev pub join_spaced : List Text → Text
join_spaced [] = []
join_spaced (line ∷ []) = line
join_spaced (line ∷ next ∷ lines) = line ++ b' ' ∷ join_spaced (next ∷ lines)

-- `join_operation`
unfoldable pub join_operation : Text → Text
unfolding splitlines strip
join_operation operation =
    join_spaced (keep (λ l. not (is_empty l)) (map strip (splitlines operation)))

-- A parameter, or `Masked(parameter)`.
pub data Param : Type 0 where
  plain : Value → Param
  masked : Value → Param

-- `_unwrap_params`
abbrev unwrap : Param → Value
unwrap (plain value) = value
unwrap (masked value) = value

unfoldable pub unwrap_params : List Param → List Value
unwrap_params params = map unwrap params

-- `MASK`, and the parameter as it is logged.
abbrev pub logged_param : Param → Value
logged_param (plain value) = value
logged_param (masked value) = str (codes "*****")

-- No line ends in the text.
abbrev pub IsOneLine : Text → Type 0
IsOneLine text = All (λ c. is_line_break c ≡ false) text

splitlines-IsOneLine : (text : Text) → All IsOneLine (splitlines text)
unfolding splitlines
splitlines-IsOneLine [] = (tt, tt)
splitlines-IsOneLine (c ∷ text) = elim (Bool-cases (is_line_break c)) [
  | inl e ↦ rw e (tt, splitlines-IsOneLine text)
  | inr e ↦ rw e (onto (splitlines text) e (splitlines-IsOneLine text))
]
  where
    onto :
        (lines : List Text)
        → is_line_break c ≡ false
        → All IsOneLine lines
        → All IsOneLine (onto_first c lines)
    onto [] e h = ((e, tt), tt)
    onto (line ∷ lines) e h = ((e, h.0), h.1)

module _ (P : ℕ → Type 0) where
  All-drop_spaces : (text : Text) → All P text → All P (drop_spaces text)
  All-drop_spaces [] h = tt
  All-drop_spaces (c ∷ text) h = elim (Bool-cases (is_space c)) [
    | inl e ↦ rw e (All-drop_spaces text h.1)
    | inr e ↦ rw e h
  ]

  All-reverse_aux : (text onto : Text) → All P text → All P onto → All P (reverse_aux text onto)
  All-reverse_aux [] onto h k = k
  All-reverse_aux (c ∷ text) onto h k = All-reverse_aux text (c ∷ onto) h.1 (h.0, k)

  All-strip : (text : Text) → All P text → All P (strip text)
  unfolding strip
  All-strip text h =
      All-reverse_aux (drop_spaces (reverse (drop_spaces text))) []
        (All-drop_spaces (reverse (drop_spaces text))
          (All-reverse_aux (drop_spaces text) [] (All-drop_spaces text h) tt))
        tt

join_spaced-IsOneLine : (lines : List Text) → All IsOneLine lines → IsOneLine (join_spaced lines)
join_spaced-IsOneLine [] h = tt
join_spaced-IsOneLine (line ∷ []) h = h.0
join_spaced-IsOneLine (line ∷ next ∷ lines) h =
    All-append (λ c. is_line_break c ≡ false) line (b' ' ∷ join_spaced (next ∷ lines)) h.0
      (refl, join_spaced-IsOneLine (next ∷ lines) h.1)

-- The statement that is sent and logged is one line, whatever lines its text had.
join_operation-IsOneLine : (operation : Text) → IsOneLine (join_operation operation)
unfolding join_operation
join_operation-IsOneLine operation =
    join_spaced-IsOneLine (keep (λ l. not (is_empty l)) (map strip (splitlines operation))) (
      All-keep_of_All IsOneLine (λ l. not (is_empty l)) (map strip (splitlines operation))
        (All-map IsOneLine strip (splitlines operation) (
          All-imp (splitlines operation) (λ l h. All-strip (λ c. is_line_break c ≡ false) l h)
            (splitlines-IsOneLine operation))))
