-- ===== src/Row.antt =====
-- A row of `gslb_records` (database/mysql/powerdns.py): one DNS record with its rrset, policy and view.
use powergslb.Base.{
  ℕ, ◌≡◌, Bool, true, ◌&&◌, List, [], ◌∷◌, Text, text_eq, text_eq→eq, text_eq_self, arith, ◌==◌,
  if◌then◌else◌, Result, ok, err, ◌>>=◌, value_error, length, suc, Bool-cases, inl, inr, refl,
  false, subst, sym, ◌⊎◌,
}
use mathlib.Core.List.{Perm}
use mathlib.Core.List.Perm

pub record Row : Type 0 where
  pub qname : Text
  pub qtype : Text
  pub ttl : ℕ
  pub policy_json : Text
  pub weight : ℕ
  pub id : ℕ
  pub content : Text
  pub rule : Text

-- Two `dict`s are equal where all their values are.
unfoldable pub row_eq : Row → Row → Bool
row_eq r s =
    text_eq r.qname s.qname
    && text_eq r.qtype s.qtype
    && r.ttl == s.ttl
    && text_eq r.policy_json s.policy_json
    && r.weight == s.weight
    && r.id == s.id
    && text_eq r.content s.content
    && text_eq r.rule s.rule

pub row_eq→eq : (r s : Row) → row_eq r s ≡ true → r ≡ s
unfolding row_eq
row_eq→eq r s h = ground (
  arith,
  text_eq→eq r.qname s.qname,
  text_eq→eq r.qtype s.qtype,
  text_eq→eq r.policy_json s.policy_json,
  text_eq→eq r.content s.content,
  text_eq→eq r.rule s.rule,
)

pub row_eq_self : (r : Row) → row_eq r r ≡ true
unfolding row_eq
row_eq_self r = ground (
  arith,
  text_eq_self r.qname,
  text_eq_self r.qtype,
  text_eq_self r.policy_json,
  text_eq_self r.content,
  text_eq_self r.rule,
)

-- `rows.remove(row)`: the first entry equal to `row`; a `ValueError` where there is none.
unfoldable pub remove : Row → List Row → Result (List Row)
unfolding row_eq
remove r [] = err value_error
remove r (s ∷ rows) =
    let others = (do rest ← remove r rows; ok (s ∷ rest)) in if row_eq s r then ok rows else others

abbrev pub Removes : Row → List Row → Result (List Row) → Type 0
Removes r rows o =
    (rest : List Row) × (o ≡ ok rest) × (length rows ≡ suc (length rest)) × Perm (r ∷ rest) rows

-- The row stands in the list.
abbrev pub Holds : Row → List Row → Type 0
Holds r [] = ⊥
Holds r (s ∷ rows) = (s ≡ r) ⊎ Holds r rows

pub remove-Removes : (r : Row) (rows : List Row) → Holds r rows → Removes r rows (remove r rows)
unfolding remove
remove-Removes r [] h = absurd h
remove-Removes r (s ∷ rows) h = elim (Bool-cases (row_eq s r)) [
  | inl e ↦ (rows, rw e, refl, rw (row_eq→eq s r e) (Perm.refl (r ∷ rows)))
  | inr e ↦
      let (rest, f, l, p) = remove-Removes r rows (later_holds e h) in
      (s ∷ rest, rw (e, f), omega arith, Perm.trans (Perm.swap s r rest) (Perm.cons s p))
]
  where
    later_holds : row_eq s r ≡ false → (s ≡ r) ⊎ Holds r rows → Holds r rows
    later_holds e (inl same) =
        absurd (ground (arith, subst (λ t. row_eq t r ≡ true) (sym same) (row_eq_self r)))
    later_holds e (inr there) = there
