-- ===== src/Server/QueryParser/Nested.antt =====
-- The query of a w2ui request (server/http/handler/queryparser.py): `parse_query`, of the pairs that
-- `parse_qsl` yields, and `_normalize`.
pub mod Posted
use powergslb.Base.{
  ℕ, zero, suc, ◌+◌, ◌-◌, Bool, true, false, ◌||◌, List, [], ◌∷◌, Option, none, some, if◌then◌else◌,
  ltb, ◌==◌, Text, text_eq, length, Result, ok, err, ◌>>=◌, Error, type_error, index_error,
  value_error,
}
use powergslb.Base.Values.{ℤ, pos, negsuc}
use powergslb.Database.Table.Keys.{int_eq}
use powergslb.Server.QueryParser.{
  Digits, Key, name, index, Branch, leaf, under, Parsed, parsed, malformed, not_an_int, exhausted,
  parser_helper,
}

-- A value of the nested dict. Its dicts are made with one entry and lose none, so they have a first one.
mutual
  pub data Tree : Type 0 where
    scalar : Key → Tree
    list : Trees → Tree
    dict : Entries → Tree

  pub data Trees : Type 0 where
    nil : Trees
    cons : Tree → Trees → Trees

  pub data Entries : Type 0 where
    one : Key → Tree → Entries
    entry : Key → Tree → Entries → Entries

unfoldable pub key_eq : Key → Key → Bool
key_eq (name s) (name t) = text_eq s t
key_eq (index y) (index z) = int_eq y z
key_eq _ _ = false

-- `entries.get(key)`
unfoldable pub find_key : Key → Entries → Option Tree
unfolding key_eq
find_key key (one k tree) = if key_eq k key then some tree else none
find_key key (entry k tree entries) =
    let rest = find_key key entries in if key_eq k key then some tree else rest

-- `entries[key] = tree`
unfoldable pub set_key : Key → Tree → Entries → Entries
unfolding key_eq
set_key key tree (one k old) = if key_eq k key then one k tree else entry k old (one key tree)
set_key key tree (entry k old entries) =
    let rest = set_key key tree entries in
    if key_eq k key then entry k tree entries else entry k old rest

unfoldable pub count : Trees → ℕ
count nil = 0
count (cons tree trees) = suc (count trees)

unfoldable pub item : ℕ → Trees → Option Tree
item n nil = none
item zero (cons tree trees) = some tree
item (suc n) (cons tree trees) = item n trees

unfoldable pub set_item : ℕ → Tree → Trees → Trees
set_item n new nil = nil
set_item zero new (cons tree trees) = cons new trees
set_item (suc n) new (cons tree trees) = cons tree (set_item n new trees)

-- `trees.append(tree)`
unfoldable pub append : Trees → Tree → Trees
append nil new = cons new nil
append (cons tree trees) new = cons tree (append trees new)

abbrev is_scalar : Key → Tree → Bool
is_scalar key (scalar value) = key_eq value key
is_scalar key (list trees) = false
is_scalar key (dict entries) = false

-- `key in trees`
unfoldable pub is_item : Key → Trees → Bool
unfolding key_eq
is_item key nil = false
is_item key (cons tree trees) = is_scalar key tree || is_item key trees

-- The position that an index of a list of `n` items means, a negative one from the end.
unfoldable pub position_of : ℕ → Key → Result ℕ
position_of n (name text) = err type_error
position_of n (index (pos m)) = if ltb m n then ok m else err index_error
position_of n (index (negsuc m)) = if ltb m n then ok (n - suc m) else err index_error

abbrev pub or_out_of_range : Option Tree → Result Tree
or_out_of_range none = err index_error
or_out_of_range (some tree) = ok tree

-- `trees[key] = tree`
unfoldable pub assign : Key → Tree → Trees → Result Tree
unfolding position_of set_item count
assign key tree trees = do n ← position_of (count trees) key; ok (list (set_item n tree trees))

-- `trees[key] = change(trees[key])`
unfoldable pub alter : Key → (Tree → Result Tree) → Trees → Result Tree
unfolding position_of set_item item count
alter key change trees = do
  n ← position_of (count trees) key
  old ← or_out_of_range (item n trees)
  new ← change old
  ok (list (set_item n new trees))

abbrev pub in_dict : Key → Tree → (Tree → Result Tree) → Entries → Option Tree → Result Tree
in_dict key fresh change entries none = ok (dict (set_key key fresh entries))
in_dict key fresh change entries (some old) = do
  new ← change old
  ok (dict (set_key key new entries))

-- One level of an insertion: what is at the key is changed, and where there is nothing, `fresh` is put there. On a
-- text or a number every operation that comes next is a TypeError.
unfoldable pub inside : Key → Tree → (Tree → Result Tree) → Tree → Result Tree
unfolding find_key set_key is_item assign alter
inside key fresh change (scalar value) = err type_error
inside key fresh change (list trees) =
    if is_item key trees then alter key change trees else assign key fresh trees
inside key fresh change (dict entries) = in_dict key fresh change entries (find_key key entries)

unfoldable pub tree_of : Branch → Tree
tree_of (leaf key value) = dict (one key (scalar value))
tree_of (under key branch) = dict (one key (tree_of branch))

-- A value at a key that has one: a list collects the repeated ones.
unfoldable pub add : Key → Tree → Result Tree
unfolding append
add value (list trees) = ok (list (append trees (scalar value)))
add value tree = ok (list (cons tree (cons (scalar value) nil)))

-- The body of the loop of `parse_query`, on the dict.
unfoldable pub insert : Branch → Tree → Result Tree
unfolding inside tree_of add
insert (leaf key value) tree = inside key (scalar value) (add value) tree
insert (under key branch) tree = inside key (tree_of branch) (insert branch) tree

abbrev is_index : Key → Bool
is_index (name text) = false
is_index (index z) = true

abbrev is_nothing : Key → Bool
is_nothing (name text) = text_eq text []
is_nothing (index z) = false

-- `next(iter(entries.keys()))`, and its value
abbrev first_key : Entries → Key
first_key (one key tree) = key
first_key (entry key tree entries) = key

abbrev first_tree : Entries → Tree
first_tree (one key tree) = tree
first_tree (entry key tree entries) = tree

-- `_normalize`: of a tree, of the entries of a dict, of one of its values, and of the values of a dict whose
-- first key is an index.
unfoldable mutual
  pub normalize : Tree → Tree
  normalize (scalar value) = scalar value
  normalize (list trees) = list trees
  normalize (dict entries) = dict (normalize_entries entries)

  pub normalize_entries : Entries → Entries
  normalize_entries (one key tree) = one key (normalize_value tree)
  normalize_entries (entry key tree entries) =
      entry key (normalize_value tree) (normalize_entries entries)

  pub normalize_value : Tree → Tree
  normalize_value (scalar value) = scalar value
  normalize_value (list trees) = list trees
  normalize_value (dict entries) =
      let items = normalize_items entries in
      let nested = normalize_entries entries in
      if is_index (first_key entries)
      then list items
      else if is_nothing (first_key entries)
      then first_tree entries
      else dict nested

  pub normalize_items : Entries → Trees
  normalize_items (one key tree) = cons (normalize tree) nil
  normalize_items (entry key tree entries) = cons (normalize tree) (normalize_items entries)

-- What `parse_query` gives: a query, a `QueryParserError`, another exception, or no fuel.
pub data Answer : Type 0 where
  answer : Option Tree → Answer
  rejected : Answer
  raises : Error → Answer
  unfinished : Answer

-- The query, which is `{}` before the first pair.
abbrev pub insert_first : Branch → Option Tree → Result Tree
insert_first branch none = ok (tree_of branch)
insert_first branch (some tree) = insert branch tree

abbrev pub after : Result Tree → (Option Tree → Answer) → Answer
after (err e) rest = raises e
after (ok tree) rest = rest (some tree)

abbrev pub taken : Parsed → Option Tree → (Option Tree → Answer) → Answer
taken (parsed branch) query rest = after (insert_first branch query) rest
taken malformed query rest = rejected
taken not_an_int query rest = raises value_error
taken exhausted query rest = unfinished

abbrev normalized : Option Tree → Option Tree
normalized none = none
normalized (some tree) = some (normalize tree)

unfoldable pub insert_all : Digits → List (Text × Text) → Option Tree → Answer
unfolding insert tree_of normalize parser_helper
insert_all digits [] query = answer (normalized query)
insert_all digits ((key, val) ∷ pairs) query =
    taken (parser_helper digits (suc (length key)) key val) query (insert_all digits pairs)

-- `parse_query`
unfoldable pub parse_query : Digits → List (Text × Text) → Answer
unfolding insert_all
parse_query digits pairs = insert_all digits pairs none
