-- ===== src/Routing/Sticky/Ranking.antt =====
-- The rendezvous ranking: it depends on the contents alone, and dropping a record that was not
-- answered changes no answer.
use mathlib.Core.List.{Perm, perm_middle}
use mathlib.Core.List.Perm
use powergslb.Base.{
  ℕ, zero, suc, ◌≡◌, ◌≢◌, refl, ap, sym, ◌∙◌, List, [], ◌∷◌, ◌++◌, map, arith, length, take, min,
  All, All-map, All-of_All-map, subst, text_leb_total, text_leb_antisymm, text_leb_trans, Result,
  ok, err, Result-cases, >>=-eq-ok, inl, inr, map-take, length-map, length-take, Bool-cases,
}
use powergslb.Base.Bytes.{Bytes}
use powergslb.Base.Perms.{Picked, Picked-take, Picked-perm}
use powergslb.Base.Sort.{
  sort, insert, by_key, IsLinear, sort-perm, length-sort, map-sort, sort-eq_of_perm,
}
use powergslb.Row.{Row}
use powergslb.Routing.Sticky.{Key, key_geb, Ranked, rank_key, stable_hash, ranks, sticky_pick}

key_geb-IsLinear : IsLinear key_geb
key_geb-IsLinear = record {
  total = λ (h, s) (k, t) e. ground (arith, text_leb_total t s);
  antisymm = λ (h, s) (k, t) e f. ground (arith, text_leb_antisymm s t);
  trans = λ (h, s) (k, t) (l, u) e f. ground (arith, text_leb_trans u t s);
}

Key-set : IsSet Key
Key-set = hlevel

-- The hash, or 0 where the content cannot be encoded.
abbrev hash_or_zero : Result ℕ → ℕ
hash_or_zero (ok h) = h
hash_or_zero (err e) = 0

ok-injective {ℓ} : {A : Type ℓ} {b c : A} → ok b ≡ ok c → b ≡ c
ok-injective e = cc

-- An entry that is not among the first can be left out before they are taken.
take-insert :
    (n : ℕ) (k : Key) (ks : List Key)
    → All (λ q. q.1 ≢ k.1) (take n (insert key_geb k ks))
    → take n (insert key_geb k ks) ≡ take n ks
unfolding insert
take-insert zero k ks h = refl
take-insert (suc n) k [] h = absurd (h.0 refl)
take-insert (suc n) k (q ∷ ks) h = elim (Bool-cases (key_geb k q)) [
  | inl e ↦ absurd ((rw e at h).0 refl)
  | inr e ↦ rw e (ap (◌∷◌ q) (take-insert n k ks (rw e at h).1))
]

module _ (blake2b : Bytes → Bytes) (network : Bytes) where
  key_of : Row → Key
  key_of r = (hash_or_zero (stable_hash blake2b network r.content), r.content)

  ranked : Row → Ranked
  ranked r = (hash_or_zero (stable_hash blake2b network r.content), r)

  ranks-eq-map :
      (rows : List Row) {rs : List Ranked}
      → ranks blake2b network rows ≡ ok rs
      → rs ≡ map ranked rows
  unfolding ranks ranked
  ranks-eq-map [] h = cc
  ranks-eq-map (r ∷ rows) {rs} h = elim (Result-cases (ranks blake2b network rows)) [
    | inl (qs, e) ↦ ground (arith, e, ranks-eq-map rows e)
    | inr (x, e) ↦ ground (arith, e)
  ]

  -- The ranked keys of some records, best first.
  sorted_keys : List Row → List Key
  sorted_keys rows = sort key_geb (map key_of rows)

  keys-eq : (rows : List Row) → map rank_key (map ranked rows) ≡ map key_of rows
  unfolding ranked key_of
  keys-eq [] = refl
  keys-eq (r ∷ rows) = ap (◌∷◌ (key_of r)) (keys-eq rows)

  records-eq : (rows : List Row) → map (λ d. d.1) (map ranked rows) ≡ rows
  unfolding ranked
  records-eq [] = refl
  records-eq (r ∷ rows) = ap (◌∷◌ r) (records-eq rows)

  contents-eq :
      (ds : List Ranked)
      → map (λ r. r.content) (map (λ d. d.1) ds) ≡ map (λ k. k.1) (map rank_key ds)
  contents-eq [] = refl
  contents-eq (d ∷ ds) = ap (◌∷◌ (d.1.content)) (contents-eq ds)

  abbrev Answered : List Row → ℕ → List Row → Type 0
  Answered rows count answers =
      (ds : List Ranked) × (ds ≡ map ranked rows)
      × (answers ≡ take count (map (λ d. d.1) (sort (by_key rank_key key_geb) ds)))

  sticky_pick-Answered :
      (rows : List Row) (count : ℕ) {answers : List Row}
      → sticky_pick blake2b rows network count ≡ ok answers
      → Answered rows count answers
  unfolding sticky_pick
  sticky_pick-Answered rows count {answers} h =
      let (ds, e, f) = >>=-eq-ok {B = List Row} (ranks blake2b network rows) _ h in
      (ds, ranks-eq-map rows e, sym (ok-injective f))

  -- The contents that are answered are the first of the sorted keys.
  sticky_pick-contents :
      (rows : List Row) (count : ℕ) {answers : List Row}
      → sticky_pick blake2b rows network count ≡ ok answers
      → map (λ r. r.content) answers ≡ map (λ k. k.1) (take count (sorted_keys rows))
  unfolding sorted_keys
  sticky_pick-contents rows count {answers} h =
      let (ds, e, f) = sticky_pick-Answered rows count h in
      let sorted = sort (by_key rank_key key_geb) ds in
      let keys : map rank_key sorted ≡ sort key_geb (map key_of rows) =
        map-sort rank_key key_geb ds ∙ ap (sort key_geb) (ap (map rank_key) e ∙ keys-eq rows) in
      ap (map (λ r. r.content)) f
      ∙ map-take (λ r. r.content) count (map (λ d. d.1) sorted)
      ∙ ap (take count) (contents-eq sorted ∙ ap (map (λ k. k.1)) keys)
      ∙ sym (map-take (λ k. k.1) count (sort key_geb (map key_of rows)))

  sorted_keys-eq_of_perm : {xs ys : List Row} → Perm xs ys → sorted_keys xs ≡ sorted_keys ys
  unfolding sorted_keys
  sorted_keys-eq_of_perm p = sort-eq_of_perm key_geb key_geb-IsLinear Key-set (Perm.map key_of p)

  -- The contents of the answers do not depend on the order in which the database returns the rows.
  sticky_pick-perm :
      (xs ys : List Row) (count : ℕ) (answers answers' : List Row)
      → Perm xs ys
      → sticky_pick blake2b xs network count ≡ ok answers
      → sticky_pick blake2b ys network count ≡ ok answers'
      → map (λ r. r.content) answers ≡ map (λ r. r.content) answers'
  sticky_pick-perm xs ys count answers answers' p h k =
      sticky_pick-contents xs count h
      ∙ ap (λ ks. map (λ (q : Key). q.1) (take count ks)) (sorted_keys-eq_of_perm p)
      ∙ sym (sticky_pick-contents ys count k)

  sorted_keys-insert :
      (before after : List Row) (dropped : Row)
      → sorted_keys (before ++ dropped ∷ after)
        ≡ insert key_geb (key_of dropped) (sorted_keys (before ++ after))
  unfolding sorted_keys sort
  sorted_keys-insert before after dropped = sorted_keys-eq_of_perm (perm_middle before after)

  -- Without a record whose content is not among the answers, the answers have the same contents as
  -- with it.
  pub sticky_pick-drop :
      (before after : List Row) (dropped : Row) (count : ℕ) (answers answers' : List Row)
      → sticky_pick blake2b (before ++ dropped ∷ after) network count ≡ ok answers
      → sticky_pick blake2b (before ++ after) network count ≡ ok answers'
      → All (λ r. r.content ≢ dropped.content) answers
      → map (λ r. r.content) answers' ≡ map (λ r. r.content) answers
  sticky_pick-drop before after dropped count answers answers' h k others =
      let whole = sticky_pick-contents (before ++ dropped ∷ after) count h in
      let kept = sorted_keys (before ++ after) in
      let same = sorted_keys-insert before after dropped in
      let keys : All (λ q. q.1 ≢ dropped.content)
          (take count (insert key_geb (key_of dropped) kept)) =
        subst (λ ks. All (λ q. q.1 ≢ dropped.content) (take count ks)) same
          (All-of_All-map (λ t. t ≢ dropped.content) (λ (q : Key). q.1) _
            (subst (All (λ t. t ≢ dropped.content)) whole
              (All-map (λ t. t ≢ dropped.content) (λ (r : Row). r.content) answers others))) in
      sticky_pick-contents (before ++ after) count k
      ∙ ap (map (λ q. q.1)) (sym (take-insert count (key_of dropped) kept (unfold key_of in keys)))
      ∙ ap (λ ks. map (λ (q : Key). q.1) (take count ks)) (sym same)
      ∙ sym whole

  pub sticky_pick-Picked :
      (rows : List Row) (count : ℕ) {answers : List Row}
      → sticky_pick blake2b rows network count ≡ ok answers
      → (length answers ≡ min count (length rows)) × Picked answers rows
  sticky_pick-Picked rows count {answers} h =
      let (ds, e, f) = sticky_pick-Answered rows count h in
      let sorted = sort (by_key rank_key key_geb) ds in
      let records : map (λ d. d.1) ds ≡ rows = ap (map (λ d. d.1)) e ∙ records-eq rows in
      let order : Perm (map (λ d. d.1) sorted) rows =
        subst (Perm (map (λ d. d.1) sorted)) records
          (Perm.map (λ (d : Ranked). d.1) (sort-perm (by_key rank_key key_geb) ds)) in
      (
        omega (
          arith,
          ap length f,
          length-take count (map (λ d. d.1) sorted),
          length-map (λ (d : Ranked). d.1) sorted,
          length-sort (by_key rank_key key_geb) ds,
          length-map (λ (d : Ranked). d.1) ds,
          ap length records,
        ),
        subst (λ ys. Picked ys rows) (sym f)
            (Picked-perm _ (Picked-take count (map (λ d. d.1) sorted)) order),
      )
