-- ===== src/Database/Names.antt =====
-- The names that `gslb_records` looks for (database/mysql/powerdns.py): `zone_suffixes`.
use powergslb.Base.{
  ℕ, ◌≡◌, refl, sym, ap, ◌∙◌, List, [], ◌∷◌, ◌++◌, if◌then◌else◌, ◌==◌, Bool-cases, inl, inr, Text,
  ==_iff,
}
use powergslb.Numerals.{split_on, onto_first}

-- `'.'.join(labels)`
abbrev pub join : List Text → Text
join [] = []
join (label ∷ []) = label
join (label ∷ next ∷ labels) = label ++ b'.' ∷ join (next ∷ labels)

-- `'.'.join(labels[index:])` for each index
abbrev pub joined_tails : List Text → List Text
joined_tails [] = []
joined_tails (label ∷ labels) = join (label ∷ labels) ∷ joined_tails labels

-- `zone_suffixes`
unfoldable pub zone_suffixes : Text → List Text
unfolding split_on
zone_suffixes qname = joined_tails (split_on b'.' qname)

-- What follows each dot of a name, from left to right.
abbrev pub after_dots : Text → List Text
after_dots [] = []
after_dots (c ∷ text) = let rest = after_dots text in if c == b'.' then text ∷ rest else rest

joined_tails-onto_first :
    (c : ℕ) (text : Text) (words : List Text)
    → joined_tails words ≡ text ∷ after_dots text
    → joined_tails (onto_first c words) ≡ (c ∷ text) ∷ after_dots text
joined_tails-onto_first c text [] h = cc
joined_tails-onto_first c text (w ∷ []) h = ap (onto_first c) h
joined_tails-onto_first c text (w ∷ v ∷ words) h = ap (onto_first c) h

-- A name and its parents, with a dot in front of the name.
abbrev dotted : List Text → List Text
dotted [] = []
dotted (name ∷ names) = (b'.' ∷ name) ∷ name ∷ names

joined_tails-dot :
    (text : Text) (words : List Text)
    → joined_tails words ≡ text ∷ after_dots text
    → joined_tails ([] ∷ words) ≡ (b'.' ∷ text) ∷ text ∷ after_dots text
joined_tails-dot text [] h = cc
joined_tails-dot text (w ∷ words) h = ap dotted h

-- The candidates for the owning zone are the name itself and then what follows each of its dots, from left
-- to right: each parent at a label boundary, and nothing else.
pub zone_suffixes-eq : (qname : Text) → zone_suffixes qname ≡ qname ∷ after_dots qname
unfolding zone_suffixes
zone_suffixes-eq [] = refl
zone_suffixes-eq (c ∷ text) = elim (Bool-cases (c == b'.')) [
  | inl e ↦ rw e (
      joined_tails-dot text (split_on b'.' text) (zone_suffixes-eq text)
      ∙ ap (λ d. (d ∷ text) ∷ text ∷ after_dots text) (sym ((==_iff c b'.').0 e)))
  | inr e ↦ rw e (joined_tails-onto_first c text (split_on b'.' text) (zone_suffixes-eq text))
]
