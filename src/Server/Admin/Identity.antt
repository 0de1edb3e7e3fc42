-- ===== src/Server/Admin/Identity.antt =====
-- The credentials of a request (server/http/handler/admin.py, `_is_authorized`). base64 with UTF-8 is a
-- parameter: `none` where it raises.
use powergslb.Base.{Option, none, some, Text, codes, Result, ok, err, type_error, ◌>>=◌}
use powergslb.Base.Values.{ℤ, Value, int, str}
use powergslb.Database.Table.Keys.{item}
use powergslb.Database.W2ui.{UserContext}
use powergslb.Routing.Create.{Spec}
use powergslb.View.{partition}

-- A scheme, a user and a password.
pub record Credentials : Type 0 where
  pub scheme : Text
  pub user : Text
  pub password : Text

abbrev with_user : Text → Option (Text × Text) → Option Credentials
with_user scheme none = none
with_user scheme (some (user, password)) =
    some (record { scheme = scheme; user = user; password = password })

-- `decoded.split(':', 1)` into two
unfoldable pub split_user : Text → Option Text → Option Credentials
unfolding partition
split_user scheme none = none
split_user scheme (some decoded) = with_user scheme (partition b':' decoded)

unfoldable pub split_scheme : (Text → Option Text) → Option (Text × Text) → Option Credentials
unfolding split_user
split_scheme b64decode none = none
split_scheme b64decode (some (scheme, encoded)) = split_user scheme (b64decode encoded)

-- The header, taken apart; `none` for any parse failure.
unfoldable pub credentials : (Text → Option Text) → Text → Option Credentials
unfolding partition split_scheme
credentials b64decode header = split_scheme b64decode (partition b' ' header)

abbrev as_int : Value → Result ℤ
as_int (int z) = ok z
as_int _ = err type_error

abbrev as_text : Value → Result Text
as_text (str text) = ok text
as_text _ = err type_error

-- The identity of a row: its `id`, `user` and `name`, with the client's address.
unfoldable pub identity_of : Text → Spec → Result UserContext
unfolding item
identity_of client_ip row = do
  id_value ← item (codes "id") row
  id ← as_int id_value
  user_value ← item (codes "user") row
  user ← as_text user_value
  name_value ← item (codes "name") row
  name ← as_text name_value
  ok (record { id = id; user = user; name = name; client_ip = client_ip })
