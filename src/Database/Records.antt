-- ===== src/Database/Records.antt =====
-- `gslb_records` (database/mysql/powerdns.py): which records a name and a type have. The joined tables are
-- a list; the server's comparison of texts is a parameter, since it depends on the collation.
pub mod Owner
use powergslb.Base.{
  ℕ, ◌-◌, Bool, true, false, ◌&&◌, ◌||◌, not, List, [], ◌∷◌, ◌++◌, map, Option, none, some,
  if◌then◌else◌, ◌==◌, ltb, any, keep, length, take, Text, codes, text_eq, collect,
}
use powergslb.Database.Names.{zone_suffixes}
use powergslb.Row.{Row}
use mathlib.Core.List.{reverse}

-- A row of the join of `domains`, `rrsets`, `types`, `routings`, `records` and `views`.
pub record Joined : Type 0 where
  pub domain : Text
  pub name : Text
  pub qtype : Text
  pub ttl : ℕ
  pub policy_json : Text
  pub weight : ℕ
  pub id : ℕ
  pub content : Text
  pub rule : Text
  pub disabled : Bool

pub record Tables : Type 0 where
  pub domains : List Text
  pub joined : List Joined

abbrev drop_dots : Text → Text
drop_dots [] = []
drop_dots (c ∷ text) = if c == b'.' then drop_dots text else c ∷ text

-- `qname.rstrip('.')`
unfoldable pub rstrip_dots : Text → Text
rstrip_dots qname = reverse (drop_dots (reverse qname))

abbrev pub longer : Text → Option Text → Option Text
longer domain none = some domain
longer domain (some other) = if ltb (length domain) (length other) then some other else some domain

-- `ORDER BY CHAR_LENGTH(domain) DESC LIMIT 1`
unfoldable pub longest : List Text → Option Text
longest [] = none
longest (domain ∷ domains) = longer domain (longest domains)

-- `CASE WHEN qname = domain THEN '@' ELSE SUBSTRING(...)`
abbrev pub relative_name : (Text → Text → Bool) → Text → Text → Text
relative_name same qname domain =
    if same qname domain then codes "@" else take (length qname - length domain - 1) qname

-- `CASE WHEN name = '@' THEN domain ELSE CONCAT(name, '.', domain)`
abbrev pub full_name : (Text → Text → Bool) → Joined → Text
full_name same j = if same j.name (codes "@") then j.domain else j.name ++ b'.' ∷ j.domain

abbrev pub row_of : (Text → Text → Bool) → Joined → Row
row_of same j = record {
  qname = full_name same j;
  qtype = j.qtype;
  ttl = j.ttl;
  policy_json = j.policy_json;
  weight = j.weight;
  id = j.id;
  content = j.content;
  rule = j.rule;
}

module _ (same : Text → Text → Bool) (tables : Tables) where
  -- The subquery: the longest domain among the suffixes.
  unfoldable pub owning_zone : Text → Option Text
  unfolding zone_suffixes longest
  owning_zone qname = longest (keep (λ d. any (λ s. same d s) (zone_suffixes qname)) tables.domains)

  -- The `WHERE` clause, for a zone that was found.
  abbrev pub is_answer : Text → Text → Text → Joined → Bool
  is_answer qname qtype zone j =
      same j.domain zone
      && same j.name (relative_name same qname j.domain)
      && (text_eq qtype (codes "ANY") || same j.qtype qtype)
      && not j.disabled

  abbrev pub rows_in : Text → Text → Option Text → List Row
  rows_in qname qtype none = []
  rows_in qname qtype (some zone) =
      map (row_of same) (keep (is_answer qname qtype zone) tables.joined)

  -- `gslb_records`
  unfoldable pub gslb_records : Text → Text → List Row
  unfolding owning_zone rstrip_dots
  gslb_records qname qtype = rows_in (rstrip_dots qname) qtype (owning_zone (rstrip_dots qname))
