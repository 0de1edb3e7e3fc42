-- ===== src/Tests/Tables.antt =====
-- Pages of tables on a server of canned answers, and the statements of posted values.
use powergslb.Base.{
  ◌≡◌, refl, ap, ℕ, ◌==◌, false, List, [], ◌∷◌, Option, none, some, Text, codes, text_eq, Result,
  ok, err, value_error, if◌then◌else◌, take, get_elem?, Bool,
}
use powergslb.Base.Dict.{Dict, get, IsDict, text_key}
use powergslb.Base.Values.{ℤ, pos, Value, int, str}
use powergslb.Database.Page.{PageRequest}
use powergslb.Database.Program.{Executor, run}
use powergslb.Database.Table.{Table, records, select_of}
use powergslb.Database.Table.Accounts.{users_write}
use powergslb.Database.Table.Accounts.Masking.{WritesOnce, users_write-ShowsOnly}
use powergslb.Database.Table.Keys.{int_key, item, recid_of, recids}
use powergslb.Database.Table.Paging.{read}
use powergslb.Database.Table.Paging.Safety.{RunsBound, Reads}
use powergslb.Database.Table.Paging.Total.{window, count_rows, read-total}
use powergslb.Database.Table.Reading.{get_rows, paged_get, base_get, local_select}
use powergslb.Database.Table.Reading.Fast.{Serves, paged_get-full}
use powergslb.Database.Table.Reading.Join.{keys_of, rows_of, HasKey, join_query}
use powergslb.Database.Table.Registry.{tables, domains_table, records_table, users_table}
use powergslb.Database.Table.Registry.Safety.{tables-RunsBound}
use powergslb.Database.Table.Search.{Python, search, search_clauses, like_pattern, escape_like}
use powergslb.Database.Table.Search.Like.{tokens, asked, like_pattern-asked}
use powergslb.Database.Table.Writing.{save, remove}
use powergslb.Password.{Crypt}
use powergslb.Routing.Create.{Spec}
use powergslb.Tests.Setup.{casing}

abbrev shown : Value → Text
shown (str text) = text
shown value = codes "?"

abbrev pub python : Python
python = record {
  show = shown;
  truncate = λ text. err value_error;
  fromisoformat = λ text. err value_error;
  isoformat = λ day. codes "2024-01-01";
}

abbrev pub library : Crypt
library = record {
  crypt = λ password salt. ok (some (codes "$6$hash"));
  mksalt = codes "$6$";
  catches = λ e. false;
}

like_pattern-asked_example :
    tokens (like_pattern (codes "contains") (escape_like (codes "50%_off")))
    ≡ asked (codes "contains") (codes "50%_off")
like_pattern-asked_example = like_pattern-asked (codes "contains") (codes "50%_off")

users_write-ShowsOnly_example :
    WritesOnce library users_table
      (pos 3)
      (str (codes "root"))
      (str (codes "Root"))
      (str (codes "secret"))
      (users_write library users_table
        (pos 3)
        (str (codes "root"))
        (str (codes "Root"))
        (str (codes "secret")))
users_write-ShowsOnly_example =
    users_write-ShowsOnly library users_table (pos 3) (str (codes "root")) (str (codes "Root"))
      (str (codes "secret"))

abbrev posted_domain : Spec
posted_domain = (codes "domain", str (codes "100%s.example")) ∷ []

is_domains : get (codes "domains") tables ≡ some domains_table
unfolding get
is_domains = refl

tables-RunsBound_example :
    Reads (get_rows python domains_table (pos 2) none [])
    × (RunsBound (save python casing library domains_table (pos 2) posted_domain)
        × RunsBound (remove domains_table (pos 7 ∷ [])))
tables-RunsBound_example =
    tables-RunsBound python casing library (codes "domains") domains_table (pos 2) none []
      posted_domain (pos 7 ∷ []) is_domains

abbrev page_of : Option ℤ → Option ℤ → PageRequest
page_of limit offset = record {
  searches = [];
  or_logic = false;
  sorts = [];
  limit = limit;
  offset = offset;
}

abbrev row_of : ℕ → Spec
row_of n = (codes "recid", int (pos n)) ∷ []

abbrev full_row : ℕ → Spec
full_row n = (codes "recid", int (pos n)) ∷ (codes "domain", str (codes "example.com")) ∷ []

-- Three rows match; the page is the second.
abbrev answers : Text → Result (List Spec)
answers operation =
    if text_eq (take 8 operation) (codes "SELECT C")
    then ok (count_rows 3)
    else ok (window 1 1 (row_of 1 ∷ row_of 2 ∷ row_of 3 ∷ []))

abbrev server : Executor ℕ
server = record {
  on_select = λ operation params s. (answers operation, s);
  on_modify = λ operation params s. (err value_error, s);
  last_id = λ s. 0;
}

no_search :
    (table : Table) (limit offset : Option ℤ)
    → search python table (page_of limit offset) ≡ ok ([], [])
unfolding search search_clauses
no_search table limit offset = refl

read-total_example :
    run server
      (read python domains_table (codes "SELECT") [] (some (page_of (some (pos 1)) (some (pos 1)))))
      0
    ≡ (ok (window 1 1 (row_of 1 ∷ row_of 2 ∷ row_of 3 ∷ []), pos 3), 0)
read-total_example =
    read-total server python domains_table (codes "SELECT") [] (row_of 1 ∷ row_of 2 ∷ row_of 3 ∷ [])
      (page_of (some (pos 1)) (some (pos 1))) ([], []) 1 1 0 0 refl refl
      (no_search domains_table (some (pos 1)) (some (pos 1))) refl refl

-- Two records, whose join is answered in the other order.
abbrev two : Dict ℤ Spec
two = (pos 2, full_row 2) ∷ (pos 1, full_row 1) ∷ []

abbrev swapped : Dict ℤ Spec
swapped = (pos 1, full_row 1) ∷ (pos 2, full_row 2) ∷ []

-- The join begins on a new line; the page of the join selects the domain where that of the records does not.
abbrev records_answers : Text → Result (List Spec)
records_answers operation =
    if text_eq (take 1 operation) (10 ∷ [])
    then ok (rows_of swapped)
    else if text_eq (take 8 operation) (codes "SELECT C")
    then ok (count_rows 2)
    else if is_char b'd' (get_elem? operation 77)
    then ok (rows_of two)
    else ok (row_of 2 ∷ row_of 1 ∷ [])
  where
    is_char : ℕ → Option ℕ → Bool
    is_char c none = false
    is_char c (some d) = c == d

abbrev records_server : Executor ℕ
records_server = record {
  on_select = λ operation params s. (records_answers operation, s);
  on_modify = λ operation params s. (err value_error, s);
  last_id = λ s. 0;
}

abbrev whole : PageRequest
whole = page_of none none

Serves-ids :
    Serves records_server python 0
      (local_select records []).0
      whole
      ([], [])
      (row_of 2 ∷ row_of 1 ∷ [])
      2
unfolding local_select
Serves-ids = (refl, refl)

Serves-join :
    Serves records_server python 0 (select_of records records_table) whole ([], []) (rows_of two) 2
unfolding select_of
Serves-join = (refl, refl)

ids_there : recids (row_of 2 ∷ row_of 1 ∷ []) ≡ ok (keys_of two)
unfolding recids recid_of item get
ids_there = refl

keys_there : HasKey (pos 1, full_row 1) × HasKey (pos 2, full_row 2)
unfolding recid_of item get
keys_there = (refl, refl)

distinct : IsDict swapped
unfolding get
distinct = (refl, (refl, tt))

found : (get (pos 2) swapped ≡ some (full_row 2)) × (get (pos 1) swapped ≡ some (full_row 1))
unfolding get
found = (refl, refl)

join_answer : records_answers (join_query (keys_of two)) ≡ ok (rows_of swapped)
unfolding join_query select_of
join_answer = refl

paged_get-full_example :
    run records_server (paged_get python records_table [] whole) 0
    ≡ run records_server (base_get python records_table (pos 0) (some whole)) 0
paged_get-full_example =
    paged_get-full records_server python 0 whole ([], []) two swapped (row_of 2 ∷ row_of 1 ∷ []) 2
      (no_search records_table none none) Serves-ids Serves-join ids_there
      (ap (λ r. (r, 0)) join_answer) (keys_there.0, (keys_there.1, tt)) distinct
      (found.0, (found.1, tt))
