-- ===== src/Server/Admin/Login.antt =====
-- The route of the admin interface (server/http/handler/admin.py): `_is_authorized` and `_handle_route`.
use powergslb.Base.{
  Bool, false, List, [], ◌∷◌, Option, none, some, if◌then◌else◌, Text, codes, text_eq, Result, ok,
  err, ℕ, ◌||◌,
}
use powergslb.Base.Dict.{text_key}
use powergslb.Database.Program.{answered}
use powergslb.Database.Table.Search.{Python}
use powergslb.Database.W2ui.{UserContext}
use powergslb.Routing.Create.{Spec}
use powergslb.Server.Admin.Identity.{Credentials, credentials, identity_of}
use powergslb.Server.Admin.Posted.{Validators}
use powergslb.Server.Admin.{Database, Step, done, Reply, content}

-- What a request is answered with: a challenge, a reply, a static file, or an error.
pub data Response : Type 0 where
  challenge : Response
  json : Reply → Response
  static_file not_found : Response

-- `len(self.dirs) == 2 and self.dirs[1] == 'w2ui'`
abbrev is_w2ui : List Text → Bool
is_w2ui (first ∷ second ∷ []) = text_eq second (codes "w2ui")
is_w2ui dirs = false

module _ {S : Type 0} (database : Database S) (python : Python) (validators : Validators)
    (down_ids : List ℕ) where
  -- The rows of a login, which only the Basic scheme looks up.
  abbrev pub login : Credentials → Step S (List Spec)
  login given s =
      if text_eq (validators.casing.lower given.scheme) (codes "basic")
      then database.check_user given.user given.password s
      else (ok [], s)

  abbrev pub known : Result UserContext → Result (Option UserContext)
  known (ok context) = ok (some context)
  known (err e) = err e

  unfoldable pub identified : Text → List Spec → Result (Option UserContext)
  unfolding identity_of
  identified client_ip [] = ok none
  identified client_ip (row ∷ rows) = known (identity_of client_ip row)

  unfoldable pub attempt : Text → Option Credentials → Step S (Option UserContext)
  unfolding identified
  attempt client_ip none s = (ok none, s)
  attempt client_ip (some given) s =
      answered (λ rows. done (identified client_ip rows)) (login given s)

  -- `_is_authorized`, with the identity that it stores.
  unfoldable pub authorize : (Text → Option Text) → Text → Option Text → Step S (Option UserContext)
  unfolding attempt credentials
  authorize b64decode client_ip none s = (ok none, s)
  authorize b64decode client_ip (some []) s = (ok none, s)
  authorize b64decode client_ip (some (c ∷ header)) s =
      attempt client_ip (credentials b64decode (c ∷ header)) s

  -- The `w2ui` endpoint, with the parsed query, or the static files.
  unfoldable pub serve : Text → List Text → Spec → UserContext → S → Response × S
  unfolding content
  serve method dirs query context s =
      let (reply, after) = content database python validators down_ids context query s in
      if is_w2ui dirs
      then if text_eq method (codes "GET") || text_eq method (codes "POST")
        then (json reply, after)
        else (not_found, s)
      else if text_eq method (codes "GET") || text_eq method (codes "HEAD")
      then (static_file, s)
      else (not_found, s)

  -- An exception of the login leaves the route.
  unfoldable pub routed :
      Text → List Text → Spec → Result (Option UserContext) × S → Result Response × S
  unfolding serve
  routed method dirs query (ok none, s) = (ok challenge, s)
  routed method dirs query (ok (some context), s) =
      let (response, after) = serve method dirs query context s in (ok response, after)
  routed method dirs query (err e, s) = (err e, s)

  -- `_handle_route`
  unfoldable pub handle_route :
      (Text → Option Text) → Text → Option Text → Text → List Text → Spec → Step S Response
  unfolding authorize routed
  handle_route b64decode client_ip header method dirs query s =
      routed method dirs query (authorize b64decode client_ip header s)
