-- ===== src/Tests/Admin.antt =====
-- Requests to the admin interface, its audited writes, and the keys of a query.
use powergslb.Base.{
  ◌≡◌, ◌≢◌, refl, ℕ, leb, ◌&&◌, suc, true, [], ◌∷◌, Option, some, Text, codes, Result, ok, err,
  value_error, arith,
}
use powergslb.Base.Dict.{get, text_key}
use powergslb.Base.Values.{pos, int, str, dict, field, end}
use powergslb.Database.Table.Keys.{item}
use powergslb.Database.W2ui.{UserContext}
use powergslb.Numerals.{int_of}
use powergslb.Routing.Create as Create
use powergslb.Routing.Create.{Spec}
use powergslb.Server.Admin.{Database, Message, failed, content, query_value}
use powergslb.Server.Admin.Guards.{LoggedIn, handle_route-LoggedIn, content-invalid}
use powergslb.Server.Admin.Identity.{credentials, identity_of, split_scheme, split_user}
use powergslb.Server.Admin.Login.{
  Response, challenge, static_file, handle_route, authorize, attempt, identified, routed, serve,
}
use powergslb.Server.Admin.Posted.{Validators, validate_record, posted}
use powergslb.Server.QueryParser.{Digits, exhausted, parser_helper}
use powergslb.Server.QueryParser.Ends.{parser_helper-ends}
use powergslb.Tests.Setup.{casing, loads, netaddr}
use powergslb.Tests.Tables.{python}
use powergslb.View.{partition}

abbrev context : UserContext
context = record {
  id = pos 1;
  user = codes "root";
  name = codes "Root";
  client_ip = codes "192.0.2.9";
}

-- The state counts the writes.
abbrev database : Database ℕ
database = record {
  check_user = λ user password s. (
    ok (
        ((codes "id", int (pos 1))
          ∷ (codes "user", str user)
          ∷ (codes "name", str (codes "Root"))
          ∷ [])
        ∷ []),
    s,
  );
  get_data = λ data_token recid page down_ids s. (ok ([], pos 0), s);
  delete_data = λ data_token ids context s. (ok 1, suc s);
  save_data = λ data_token recid context fields s. (ok 1, suc s);
}

abbrev validators : Validators
validators = record {
  loads = loads;
  libraries = record {
    is_address = λ text. true;
    is_regex = λ text. true;
    urlsplit = λ url. err value_error;
  };
  netaddr = netaddr;
  casing = casing;
}

abbrev routes : Option Text → Result Response × ℕ
routes header =
    handle_route database python validators [] some (codes "192.0.2.9") header (codes "GET")
      (codes "admin" ∷ []) [] 0

serves_static : routes (some (codes "Basic root:secret")) ≡ (ok static_file, 0)
unfolding handle_route routed authorize attempt identified identity_of item get serve credentials
    partition split_scheme split_user
serves_static = refl

static_challenge : static_file ≢ challenge
static_challenge e = cc

handle_route-LoggedIn_example :
    (text : Text) × (some (codes "Basic root:secret") ≡ some text)
    × ((t : ℕ) × LoggedIn database python validators [] some text 0 t)
handle_route-LoggedIn_example =
    handle_route-LoggedIn database python validators [] some (codes "192.0.2.9")
      (some (codes "Basic root:secret")) (codes "GET") (codes "admin" ∷ []) [] 0 0 static_file
      serves_static static_challenge

abbrev bad_save : Spec
bad_save =
    (codes "cmd", str (codes "save-record"))
    ∷ (codes "data", str (codes "routings"))
    ∷ (codes "recid", str (codes "0"))
    ∷ (codes "record", dict (field (codes "policy_json") (str (codes "??")) end))
    ∷ []

is_save : query_value (codes "cmd") bad_save ≡ str (codes "save-record")
unfolding query_value get
is_save = refl

is_invalid :
    validate_record validators
      (query_value (codes "data") bad_save)
      (query_value (codes "record") bad_save)
    ≡ err value_error
unfolding query_value get validate_record posted item Create.resolve
is_invalid = refl

content-invalid_example :
    (m : Message) × (content database python validators [] context bad_save 0 ≡ (failed m, 0))
content-invalid_example =
    content-invalid database python validators [] context bad_save 0 value_error is_save is_invalid

abbrev digits : Digits
digits = record { isdigit = λ c. leb b'0' c && leb c b'9'; to_int = int_of }

parser_helper-ends_example :
    parser_helper digits 20 (codes "search[0]['field']") (codes "name") ≢ exhausted
parser_helper-ends_example =
    parser_helper-ends digits 20 (codes "search[0]['field']") (codes "name") (omega arith)
