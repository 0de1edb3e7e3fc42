-- ===== src/Server/Admin/Encoding.antt =====
-- The encodings of a response (server/http/handler/admin.py): `_accepted_encodings` and `_encode_body`.
-- Whether `float` of a quality is above 0 is a parameter: false where it raises. The compressors are left
-- out.
use powergslb.Base.{
  ℕ, Bool, true, ◌&&◌, List, [], ◌∷◌, Option, none, some, if◌then◌else◌, ltb, Text, codes, text_eq,
  is_empty, any, ◌==◌,
}
use powergslb.Numerals.{split_on, strip}
use powergslb.View.{Casing}

-- `param.startswith('q=')`, and what stands behind it
abbrev quality_of : Text → Option Text
quality_of (c ∷ d ∷ text) = if c == b'q' && d == b'=' then some text else none
quality_of _ = none

module _ (casing : Casing) (is_positive : Text → Bool) where
  abbrev judged : Bool → Option Text → Bool
  judged wanted none = wanted
  judged wanted (some text) = is_positive text

  -- `quality > 0` after the parameters, of which the last one counts.
  unfoldable pub wants : Bool → List Text → Bool
  unfolding strip
  wants wanted [] = wanted
  wants wanted (param ∷ params) = wants (judged wanted (quality_of (strip param))) params

  -- The coding of a part of the header, if it is accepted.
  abbrev accepted_part : List Text → List Text → List Text
  unfolding strip wants
  accepted_part [] others = others
  accepted_part (token ∷ params) others =
      let coding = casing.lower (strip token) in
      if is_empty coding then others else if wants true params then coding ∷ others else others

  abbrev accepted_parts : List Text → List Text
  unfolding split_on accepted_part
  accepted_parts [] = []
  accepted_parts (part ∷ parts) = accepted_part (split_on b';' part) (accepted_parts parts)

  -- `_accepted_encodings`
  unfoldable pub accepted_encodings : Text → List Text
  unfolding split_on accepted_parts
  accepted_encodings header = accepted_parts (split_on b',' header)

  abbrev accepts : List Text → Text → Bool
  accepts accepted encoding = any (λ e. text_eq e encoding) accepted

  -- `_encode_body`: the encoding of a body, by its size.
  unfoldable pub body_encoding : ℕ → Text → Option Text
  unfolding accepted_encodings
  body_encoding size header =
      let accepted = accepted_encodings header in
      if ltb size 256
      then none
      else if accepts accepted (codes "br")
      then some (codes "br")
      else if accepts accepted (codes "gzip")
      then some (codes "gzip")
      else none
