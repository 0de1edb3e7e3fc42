-- ===== src/Tests/Storage.antt =====
-- A transaction of two statements on a connection that died while idle, and a lookup of a name.
use powergslb.Base.{
  leb, ◌&&◌, if◌then◌else◌, ◌+◌, ℕ, value_error, zero, none, ◌≡◌, refl, true, false, List, [], ◌∷◌,
  some, Text, codes,
}
use powergslb.Database.Connection.Cursor.{Opens, is_lost, open_cursor-Opens}
use powergslb.Database.Connection.{
  cursor, open_cursor, is_connected, Connector, MySqlDatabase, run_block,
}
use powergslb.Database.Program.{Program, raises, modify, ◌>>=◌}
use powergslb.Database.Connection.Programs.{Server}
use powergslb.Database.Connection.Session.{InSession, run_block-InSession}
use powergslb.Database.Names.{zone_suffixes, zone_suffixes-eq, after_dots}
use powergslb.Database.Records.{Tables, rstrip_dots, gslb_records}
use powergslb.Database.Records.Owner.{folded_eq, begins_at, AnswersTo, gslb_records-AnswersTo}

-- The first connection is gone; all other calls succeed.
abbrev connector : Connector
connector calls (is_connected n) = some 0
connector calls call = some 1

abbrev idle : MySqlDatabase
idle = record { connection = 0; last_insert_id = 0; in_transaction = false; calls = [] }

abbrev busy : MySqlDatabase
busy = record { connection = 4; last_insert_id = 0; in_transaction = true; calls = [] }

abbrev statements : List Text
statements = codes "INSERT" ∷ codes "UPDATE" ∷ []

run_block-InSession_example : InSession busy (run_block connector statements busy)
run_block-InSession_example = run_block-InSession connector statements busy refl

-- A block that raises after its first statement.
abbrev failing : Program ℕ
failing = modify (codes "DELETE") [] >>= λ n. raises value_error

abbrev server : Server
server = record { rows = λ calls operation params. []; affected = λ calls operation params. 1 }

abbrev tables : Tables
tables = record {
  domains = codes "com" ∷ codes "example.com" ∷ [];
  joined =
      record {
        domain = codes "example.com";
        name = codes "www";
        qtype = codes "A";
        ttl = 60;
        policy_json = codes "{}";
        weight = 1;
        id = 1;
        content = codes "192.0.2.1";
        rule = codes "::/0";
        disabled = false;
      }
      ∷ [];
}

abbrev www : Text
www = codes "WWW.Example.com."

abbrev lower : ℕ → ℕ
lower c = if leb 65 c && leb c 90 then c + 32 else c

www-plain : begins_at lower (rstrip_dots www) ≡ false
unfolding rstrip_dots
www-plain = refl

gslb_records-AnswersTo_example :
    AnswersTo lower (rstrip_dots www) (gslb_records (folded_eq lower) tables www (codes "ANY"))
gslb_records-AnswersTo_example = gslb_records-AnswersTo lower tables www (codes "ANY") www-plain

zone_suffixes-eq_example :
    zone_suffixes (codes "a.b.c") ≡ codes "a.b.c" ∷ after_dots (codes "a.b.c")
zone_suffixes-eq_example = zone_suffixes-eq (codes "a.b.c")

-- Opening fails on the first connection alone.
abbrev dropped : Connector
dropped calls (cursor zero) = none
dropped calls (is_connected n) = none
dropped calls call = some 1

open_cursor-Opens_example : Opens (is_lost dropped idle) idle (open_cursor dropped idle)
open_cursor-Opens_example = open_cursor-Opens dropped idle
