-- ===== src/Database/Table.antt =====
-- The tables' statements (database/mysql/tables.py): `Table` with its columns, projections and SQL texts,
-- its subclasses, and the registry. A line break with its indentation in a SQL text is kept.
pub mod Marks
pub mod Statements
pub mod Search
pub mod Paging
pub mod Keys
pub mod Reading
pub mod Accounts
pub mod Trail
pub mod Writing
pub mod Registry
use powergslb.Base.{
  ℕ, zero, suc, Bool, true, false, List, [], ◌∷◌, ◌++◌, map, Option, none, some, if◌then◌else◌,
  Text, codes, text_eq, any, length,
}
use powergslb.Base.Dict.{Dict, get, text_key}
use powergslb.Base.Values.{Value, str}

-- The class of a table object, for the methods that a subclass overrides.
pub data Kind : Type 0 where
  base audit records status users : Kind

-- `Table`
pub record Table : Type 0 where
  pub kind : Kind
  pub name : Text
  pub key : Text
  pub fields : List Text
  pub columns : List Text
  pub aliases : Dict Text Text
  pub defaults : Dict Text Value

-- `name in names`
abbrev pub mem : Text → List Text → Bool
mem name names = any (λ n. text_eq n name) names

abbrev or_else : Text → Option Text → Text
or_else default none = default
or_else default (some text) = text

-- `separator.join(texts)`
abbrev pub join : Text → List Text → Text
join separator [] = []
join separator (text ∷ []) = text
join separator (text ∷ next ∷ texts) = text ++ separator ++ join separator (next ∷ texts)

-- `[text] * count`
abbrev pub repeat : ℕ → Text → List Text
repeat zero text = []
repeat (suc n) text = text ∷ repeat n text

-- The lines of a text between triple quotes.
abbrev pub lines : List Text → Text
lines texts = join (10 ∷ []) texts

abbrev pub comma : Text
comma = codes ", "

-- A name between backticks.
abbrev pub quoted : Text → Text
quoted name = codes "`" ++ name ++ codes "`"

-- `', '.join(['%s'] * count)`
abbrev pub placeholders : ℕ → Text
placeholders count = join comma (repeat count (codes "%s"))

-- `_column`
unfoldable pub column : Table → Text → Text
unfolding get
column table exposed =
    if text_eq exposed (codes "recid")
    then table.key
    else or_else exposed (get exposed table.aliases)

-- `Table._projection`
unfoldable pub base_projection : Table → Text → Text
unfolding column
base_projection table exposed =
    if text_eq (column table exposed) exposed
    then quoted exposed
    else quoted (column table exposed) ++ codes " AS " ++ quoted exposed

-- `_projection`: of the users' table, the mask in place of the hash.
unfoldable pub projection : Kind → Table → Text → Text
unfolding base_projection
projection users table exposed =
    if text_eq exposed (codes "password")
    then codes "'*****' AS `password`"
    else base_projection table exposed
projection kind table exposed = base_projection table exposed

-- `Records._select`
abbrev pub records_select : Text
records_select = lines (
    codes ""
    ∷ codes "            SELECT `records`.`id` AS `recid`,"
    ∷ codes "              `domains`.`domain`,"
    ∷ codes "              `rrsets`.`name`,"
    ∷ codes "              `rrsets`.`ttl`,"
    ∷ codes "              `routings`.`policy`,"
    ∷ codes "              `types`.`type` AS `name_type`,"
    ∷ codes "              `records`.`disabled`,"
    ∷ codes "              `records`.`weight`,"
    ∷ codes "              `records`.`content`,"
    ∷ codes "              `monitors`.`monitor`,"
    ∷ codes "              `views`.`view`"
    ∷ codes "            FROM `records`"
    ∷ codes "              JOIN `rrsets` ON `records`.`rrset_id` = `rrsets`.`id`"
    ∷ codes "              JOIN `domains` ON `rrsets`.`domain_id` = `domains`.`id`"
    ∷ codes "              JOIN `types` ON `rrsets`.`type_value` = `types`.`value`"
    ∷ codes "              JOIN `routings` ON `rrsets`.`routing_id` = `routings`.`id`"
    ∷ codes "              JOIN `monitors` ON `records`.`monitor_id` = `monitors`.`id`"
    ∷ codes "              JOIN `views` ON `records`.`view_id` = `views`.`id`"
    ∷ codes "        "
    ∷ [])

unfoldable pub base_select : Table → Text
unfolding projection
base_select table =
    codes "SELECT "
    ++ join comma (map (projection table.kind table) table.fields)
    ++ codes " FROM "
    ++ quoted table.name

-- `_select`
unfoldable pub select_of : Kind → Table → Text
unfolding base_select
select_of records table = records_select
select_of status table = records_select
select_of kind table = base_select table

-- `_select_one`
unfoldable pub select_one : Table → Text
unfolding select_of
select_one table =
    select_of table.kind table
    ++ codes " WHERE "
    ++ quoted table.name
    ++ codes "."
    ++ quoted table.key
    ++ codes " = %s"

-- `_insert_of`
unfoldable pub insert_of : Table → ℕ → Text
unfolding column
insert_of table count =
    codes "INSERT INTO "
    ++ quoted table.name
    ++ codes " ("
    ++ join comma (map (λ name. quoted (column table name)) table.columns)
    ++ codes ") VALUES "
    ++ join comma (repeat count (codes "(" ++ placeholders (length table.columns) ++ codes ")"))

unfoldable pub assignment : Table → Text → Text
unfolding column
assignment table name = quoted (column table name) ++ codes " = %s"

-- `_update_of`
unfoldable pub update_of : Table → List Text → Text
unfolding assignment
update_of table columns =
    codes "UPDATE "
    ++ quoted table.name
    ++ codes " SET "
    ++ join comma (map (assignment table) columns)
    ++ codes " WHERE "
    ++ quoted table.key
    ++ codes " = %s"

-- `_delete_of`
unfoldable pub delete_of : Table → ℕ → Text
delete_of table count =
    codes "DELETE FROM "
    ++ quoted table.name
    ++ codes " WHERE "
    ++ quoted table.key
    ++ codes " IN ("
    ++ placeholders count
    ++ codes ")"
