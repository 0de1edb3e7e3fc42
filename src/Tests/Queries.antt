-- ===== src/Tests/Queries.antt =====
-- The nested dict of a query.
use powergslb.Base.{◌≡◌, refl, codes, ok}
use powergslb.Base.Values.{pos}
use powergslb.Server.QueryParser.{Branch, leaf, under, name, index}
use powergslb.Server.QueryParser.Nested.{
  Tree, scalar, list, dict, nil, cons, one, insert, inside, add, find_key, set_key, key_eq,
}
use powergslb.Server.QueryParser.Nested.Posted.{Holds, insert-Holds}

-- `a[0]=y`, after `a[0]=x`
abbrev pair : Branch
pair = under (name (codes "a")) (leaf (index (pos 0)) (name (codes "y")))

abbrev before : Tree
before = dict (one (name (codes "a")) (dict (one (index (pos 0)) (scalar (name (codes "x"))))))

abbrev both : Tree
both = dict (
    one (name (codes "a")) (
      dict (
        one (index (pos 0))
          (list (cons (scalar (name (codes "x"))) (cons (scalar (name (codes "y"))) nil))))))

inserted : insert pair before ≡ ok both
unfolding insert inside add find_key set_key key_eq
inserted = refl

insert-Holds_example : Holds pair both
insert-Holds_example = insert-Holds pair before both inserted
