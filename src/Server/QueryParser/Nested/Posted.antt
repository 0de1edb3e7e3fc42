-- ===== src/Server/QueryParser/Nested/Posted.antt =====
-- A posted value is in the query (server/http/handler/queryparser.py).
use powergslb.Base.{
  ◌≡◌, refl, ap, subst, ℕ, zero, suc, ◌<◌, arith, true, Bool-cases, Option, none, some, inl, inr,
  ltb→lt, text_eq_self, Result, ok, err, ◌>>=◌, >>=-eq-ok, ok_inj,
}
use powergslb.Base.Values.{pos, negsuc}
use powergslb.Database.Table.Keys.{int_eq_iff}
use powergslb.Server.QueryParser.{Key, name, index, Branch, leaf, under}
use powergslb.Server.QueryParser.Nested.{
  Tree, scalar, list, dict, Trees, nil, cons, Entries, one, entry, key_eq, find_key, set_key, count,
  item, set_item, append, is_item, position_of, or_out_of_range, assign, alter, in_dict, inside,
  tree_of, add, insert,
}

abbrev at_position : Result ℕ → Trees → Option Tree
at_position (err e) trees = none
at_position (ok n) trees = item n trees

-- What stands at a key: in a dict, or at an index of a list.
abbrev pub at : Key → Tree → Option Tree
at key (scalar value) = none
at key (dict entries) = find_key key entries
at key (list trees) = at_position (position_of (count trees) key) trees

key_eq_self : (key : Key) → key_eq key key ≡ true
unfolding key_eq
key_eq_self (name text) = text_eq_self text
key_eq_self (index z) = (int_eq_iff z z).1 refl

find_key-set_key :
    (key : Key) (tree : Tree) (entries : Entries)
    → find_key key (set_key key tree entries) ≡ some tree
unfolding find_key set_key
find_key-set_key key tree (one k old) = ground (arith, key_eq_self key)
find_key-set_key key tree (entry k old entries) =
    ground (arith, key_eq_self key, find_key-set_key key tree entries)

count-set_item : (n : ℕ) (tree : Tree) (trees : Trees) → count (set_item n tree trees) ≡ count trees
unfolding count set_item
count-set_item n tree nil = refl
count-set_item zero tree (cons t trees) = refl
count-set_item (suc n) tree (cons t trees) = ap suc (count-set_item n tree trees)

item-set_item :
    (n : ℕ) (tree : Tree) (trees : Trees)
    → n < count trees
    → item n (set_item n tree trees) ≡ some tree
unfolding count set_item item
item-set_item n tree nil h = absurd (omega arith)
item-set_item zero tree (cons t trees) h = refl
item-set_item (suc n) tree (cons t trees) h = item-set_item n tree trees (omega arith)

position_of-lt : (n m : ℕ) (key : Key) → position_of n key ≡ ok m → m < n
unfolding position_of
position_of-lt n m (name text) h = cc
position_of-lt n m (index (pos p)) h = ground (arith, ltb→lt p n)
position_of-lt n m (index (negsuc p)) h = ground (arith, ltb→lt p n)

-- Something with this property stands at a key.
abbrev pub Stands : (Tree → Type 0) → Key → Tree → Type 0
Stands P key tree = (found : Tree) × (at key tree ≡ some found) × P found

Stands-set_item :
    (P : Tree → Type 0) (key : Key) (n : ℕ) (new : Tree) (trees : Trees)
    → position_of (count trees) key ≡ ok n
    → P new
    → Stands P key (list (set_item n new trees))
Stands-set_item P key n new trees h p = (
  new,
  rw (count-set_item n new trees, h)
      (item-set_item n new trees (position_of-lt (count trees) n key h)),
  p,
)

assign-Stands :
    (P : Tree → Type 0) (key : Key) (new : Tree) (trees : Trees) (tree : Tree)
    → P new
    → assign key new trees ≡ ok tree
    → Stands P key tree
unfolding assign
assign-Stands P key new trees tree p h =
    let (n, e, f) =
      >>=-eq-ok (position_of (count trees) key) (λ n. ok (list (set_item n new trees))) h in
    subst (Stands P key) (ok_inj f) (Stands-set_item P key n new trees e p)

module _ (P : Tree → Type 0) (change : Tree → Result Tree) where
  alter-Stands :
      (key : Key) (trees : Trees) (tree : Tree)
      → ((old new : Tree) → change old ≡ ok new → P new)
      → alter key change trees ≡ ok tree
      → Stands P key tree
  unfolding alter
  alter-Stands key trees tree p h =
      let (n, e, f) =
        >>=-eq-ok (position_of (count trees) key)
          (λ n. or_out_of_range (item n trees) >>= λ old.
            change old >>= λ new. ok (list (set_item n new trees)))
          h in
      let (old, e2, f2) =
        >>=-eq-ok (or_out_of_range (item n trees))
          (λ old. change old >>= λ new. ok (list (set_item n new trees))) f in
      let (new, e3, f3) = >>=-eq-ok (change old) (λ new. ok (list (set_item n new trees))) f2 in
      subst (Stands P key) (ok_inj f3) (Stands-set_item P key n new trees e (p old new e3))

  in_dict-Stands :
      (key : Key) (fresh : Tree) (entries : Entries) (o : Option Tree) (tree : Tree)
      → P fresh
      → ((old new : Tree) → change old ≡ ok new → P new)
      → in_dict key fresh change entries o ≡ ok tree
      → Stands P key tree
  in_dict-Stands key fresh entries none tree q p h =
      subst (Stands P key) (ok_inj h) (fresh, find_key-set_key key fresh entries, q)
  in_dict-Stands key fresh entries (some old) tree q p h =
      let (new, e, f) = >>=-eq-ok (change old) (λ new. ok (dict (set_key key new entries))) h in
      subst (Stands P key) (ok_inj f) (new, find_key-set_key key new entries, p old new e)

  inside-Stands :
      (key : Key) (fresh : Tree) (tree final : Tree)
      → P fresh
      → ((old new : Tree) → change old ≡ ok new → P new)
      → inside key fresh change tree ≡ ok final
      → Stands P key final
  unfolding inside
  inside-Stands key fresh (scalar value) final q p h = cc
  inside-Stands key fresh (dict entries) final q p h =
      in_dict-Stands key fresh entries (find_key key entries) final q p h
  inside-Stands key fresh (list trees) final q p h = elim (Bool-cases (is_item key trees)) [
    | inl e ↦ alter-Stands key trees final p (rw e at h)
    | inr e ↦ assign-Stands P key fresh trees final q (rw e at h)
  ]

abbrev last : Trees → Option Tree
last nil = none
last (cons tree nil) = some tree
last (cons tree (cons next trees)) = last (cons next trees)

-- The value itself, or a list that ends with it.
abbrev pub IsPosted : Key → Tree → Type 0
IsPosted value (scalar found) = found ≡ value
IsPosted value (list trees) = last trees ≡ some (scalar value)
IsPosted value (dict entries) = ⊥

last-append : (trees : Trees) (tree : Tree) → last (append trees tree) ≡ some tree
unfolding append
last-append nil tree = refl
last-append (cons t nil) tree = refl
last-append (cons t (cons u trees)) tree = last-append (cons u trees) tree

add-IsPosted : (value : Key) (old new : Tree) → add value old ≡ ok new → IsPosted value new
unfolding add
add-IsPosted value (scalar found) new h = subst (IsPosted value) (ok_inj h) refl
add-IsPosted value (dict entries) new h = subst (IsPosted value) (ok_inj h) refl
add-IsPosted value (list trees) new h =
    subst (IsPosted value) (ok_inj h) (last-append trees (scalar value))

-- Along the keys of a branch stands its value.
abbrev pub Holds : Branch → Tree → Type 0
Holds (leaf key value) = Stands (IsPosted value) key
Holds (under key branch) = Stands (Holds branch) key

tree_of-Holds : (branch : Branch) → Holds branch (tree_of branch)
unfolding tree_of find_key
tree_of-Holds (leaf key value) = (scalar value, rw (key_eq_self key) refl, refl)
tree_of-Holds (under key branch) = (tree_of branch, rw (key_eq_self key) refl, tree_of-Holds branch)

-- Where the insertion of a pair does not raise, the pair is in the query, whatever the query held: along its
-- keys, through the dicts and the lists that are there, stands its value, or a list that ends with it.
pub insert-Holds :
    (branch : Branch) (tree final : Tree) → insert branch tree ≡ ok final → Holds branch final
unfolding insert
insert-Holds (leaf key value) tree final h =
    inside-Stands (IsPosted value) (add value) key (scalar value) tree final refl
      (add-IsPosted value) h
insert-Holds (under key branch) tree final h =
    inside-Stands (Holds branch) (insert branch) key (tree_of branch) tree final
      (tree_of-Holds branch) (insert-Holds branch) h
