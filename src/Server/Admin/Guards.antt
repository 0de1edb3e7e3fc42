-- ===== src/Server/Admin/Guards.antt =====
-- What a request must have before it writes (server/http/handler/admin.py).
use powergslb.Base.{
  runtime_error, key_error, index_error, overflow_error, attribute_error, database_error, ◌≢◌,
  ok_inj, ◌≡◌, refl, sym, ap, ◌∙◌, subst, Bool-cases, inl, inr, Result-cases, Bool, true, List, [],
  ◌∷◌, Option, none, some, if◌then◌else◌, Text, codes, text_eq, Result, ok, err, Error, value_error,
  type_error, ℕ, zero, suc,
}
use powergslb.Base.Dict.{text_key}
use powergslb.Base.Values.{ℤ, str}
use powergslb.Database.Program.{answered}
use powergslb.Database.Table.Search.{Python, int_value}
use powergslb.Database.W2ui.{UserContext}
use powergslb.Routing.Create.{Spec}
use powergslb.Server.Admin.Identity.{Credentials, credentials}
use powergslb.Server.Admin.Posted.{Validators, token_of, validate_record, keywords}
use powergslb.Server.Admin.{
  Database, Message, Reply, value_text, internal_error, record_not_changed, success, failed,
  query_value, command, named, save_record, reply_of, replied, replying, run_command, content,
}
use powergslb.Server.Admin.Login.{
  Response, challenge, login, identified, attempt, authorize, routed, handle_route,
}

empty-cons : {A : Type 0} {a : A} {l : List A} → [] ≡ a ∷ l → ⊥
empty-cons h = cc

none-some : {A : Type 0} {a : A} → none ≡ some a → ⊥
none-some h = cc

failed-success : {message : Message} → failed message ≡ success → ⊥
failed-success h = cc

err-ok_result : {A : Type 0} {e : Error} {a : A} → err e ≡ ok a → ⊥
err-ok_result h = cc

module _ {S : Type 0} (database : Database S) (python : Python) (validators : Validators)
    (down_ids : List ℕ) where
  err-ok :
      {A B : Type 0} {e : Error} {a : A} {t u : S} → ◌≡◌ {A = Result A × S} (err e, t) (ok a, u) → B
  err-ok h = absurd (err-ok_result (ap (λ p. p.0) h))

  -- What is passed on to the next call of a step that returned.
  answered-ok :
      {A B : Type 0} (reply : Result A × S) (rest : A → S → Result B × S) {final : B} {s : S}
      → answered rest reply ≡ (ok final, s)
      → (a : A) × (t : S) × (reply ≡ (ok a, t)) × (rest a t ≡ (ok final, s))
  answered-ok (ok a, t) rest h = (a, t, refl, h)
  answered-ok (err e, t) rest h = err-ok h

  done-ok :
      {A B : Type 0} (r : Result A) (t : S) (rest : A → S → Result B × S) {final : B} {s : S}
      → answered rest (r, t) ≡ (ok final, s)
      → (a : A) × (r ≡ ok a) × (rest a t ≡ (ok final, s))
  done-ok (ok a) t rest h = (a, refl, h)
  done-ok (err e) t rest h = err-ok h

  -- A save that is reported as a success.
  abbrev pub SavedAs : UserContext → Spec → S → S → Type 0
  SavedAs context query s after =
      (recid : ℤ) × (data_token : Text) × (fields : Spec) × (n : ℕ) × (validate_record validators
          (query_value (codes "data") query) (query_value (codes "record") query)
        ≡ ok tt)
      × (token_of (query_value (codes "data") query) ≡ ok data_token)
      × (keywords (query_value (codes "record") query) ≡ ok fields)
      × (int_value python (query_value (codes "recid") query) ≡ ok recid)
      × (database.save_data data_token recid context fields s ≡ (ok (suc n), after))

  -- A save that is reported as a success had a valid record, and the database reported rows that it
  -- affected: nothing else of the database was called.
  save_record-success :
      (context : UserContext) (query : Spec) (s after : S)
      → save_record database python validators down_ids context query s ≡ (ok success, after)
      → SavedAs context query s after
  unfolding save_record
  save_record-success context query s after h =
      let (recid, e1, h1) = done-ok (int_value python (query_value (codes "recid") query)) s _ h in
      let (valid, e2, h2) =
        done-ok
          (validate_record validators (query_value (codes "data") query)
            (query_value (codes "record") query))
          s _ h1 in
      let (fields, e3, h3) = done-ok (keywords (query_value (codes "record") query)) s _ h2 in
      let (data_token, e4, h4) = done-ok (token_of (query_value (codes "data") query)) s _ h3 in
      let (affected, t, e5, h5) =
        answered-ok (database.save_data data_token recid context fields s) _ h4 in
      saved recid valid fields data_token affected t e1 e2 e3 e4 e5 h5
    where
      saved :
          (recid : ℤ) (valid : Unit {0}) (fields : Spec) (data_token : Text) (affected : ℕ) (t : S)
          → int_value python (query_value (codes "recid") query) ≡ ok recid
          → validate_record validators
              (query_value (codes "data") query)
              (query_value (codes "record") query)
            ≡ ok valid
          → keywords (query_value (codes "record") query) ≡ ok fields
          → token_of (query_value (codes "data") query) ≡ ok data_token
          → database.save_data data_token recid context fields s ≡ (ok affected, t)
          → ◌≡◌ {A = Result Reply × S}
              (ok (replied record_not_changed affected), t)
              (ok success, after)
          → SavedAs context query s after
      saved recid valid fields data_token zero t e1 e2 e3 e4 e5 h =
          absurd (failed-success (ok_inj (ap (λ p. p.0) h)))
      saved recid valid fields data_token (suc n) t e1 e2 e3 e4 e5 h =
          (recid, data_token, fields, n, e2, e4, e3, e1, e5 ∙ ap (λ p. (ok (suc n), p.1)) h)

  -- An exception is answered with a failure.
  fails : (e : Error) → (m : Message) × (reply_of (err e) ≡ failed m)
  fails value_error = (value_text, refl)
  fails type_error = (internal_error, refl)
  fails runtime_error = (internal_error, refl)
  fails key_error = (internal_error, refl)
  fails index_error = (internal_error, refl)
  fails overflow_error = (internal_error, refl)
  fails attribute_error = (internal_error, refl)
  fails database_error = (internal_error, refl)

  -- What fails before the database is called leaves its state.
  Fails : UserContext → Spec → S → Type 0
  Fails context query s =
      (e : Error) × (save_record database python validators down_ids context query s ≡ (err e, s))

  save_record-Fails :
      (context : UserContext) (query : Spec) (s : S) {e : Error}
      → validate_record validators
          (query_value (codes "data") query)
          (query_value (codes "record") query)
        ≡ err e
      → Fails context query s
  unfolding save_record Fails
  save_record-Fails context query s {e} invalid =
      elim (Result-cases (int_value python (query_value (codes "recid") query))) [
        | inl (recid, f) ↦ rw (f, invalid) (e, refl)
        | inr (other, f) ↦ rw f (other, refl)
      ]

  -- A `save-record` whose record does not validate is answered with a failure, and the database is not
  -- called.
  pub content-invalid :
      (context : UserContext) (query : Spec) (s : S) (e : Error)
      → query_value (codes "cmd") query ≡ str (codes "save-record")
      → validate_record validators
          (query_value (codes "data") query)
          (query_value (codes "record") query)
        ≡ err e
      → (m : Message) × (content database python validators down_ids context query s
          ≡ (failed m, s))
  unfolding content named command Fails
  content-invalid context query s e is_save invalid =
      let (other, there) = save_record-Fails context query s invalid in
      let (m, told) = fails other in
      (
        m,
        ap
              (λ v.
                run_command database python validators down_ids
                  (named database python validators down_ids context query v) s)
              is_save
            ∙ ap (replying database python validators down_ids) there
            ∙ ap (λ r. (r, s)) told,
      )

  -- Credentials that the database knows.
  abbrev pub LoggedIn : (Text → Option Text) → Text → S → S → Type 0
  LoggedIn b64decode header s after =
      (given : Credentials) × (row : Spec) × (rows : List Spec) × (credentials b64decode header
        ≡ some given)
      × (text_eq (validators.casing.lower given.scheme) (codes "basic") ≡ true)
      × (database.check_user given.user given.password s ≡ (ok (row ∷ rows), after))

  attempt-LoggedIn :
      (b64decode : Text → Option Text) (client_ip header : Text) (s after : S)
      (o : Option Credentials) (context : UserContext)
      → credentials b64decode header ≡ o
      → attempt database python validators down_ids client_ip o s ≡ (ok (some context), after)
      → LoggedIn b64decode header s after
  unfolding attempt
  attempt-LoggedIn b64decode client_ip header s after none context e h =
      absurd (none-some (ok_inj (ap (λ p. p.0) h)))
  attempt-LoggedIn b64decode client_ip header s after (some given) context e h =
      let (rows, t, f, g) = answered-ok (login database python validators down_ids given s) _ h in
      by_rows rows t f g
    where
      looked_up : Bool → Result (List Spec) × S
      looked_up basic =
          if basic then database.check_user given.user given.password s else (ok [], s)

      by_rows :
          (rows : List Spec) (t : S)
          → login database python validators down_ids given s ≡ (ok rows, t)
          → ◌≡◌ {A = Result (Option UserContext) × S}
              (identified database python validators down_ids client_ip rows, t)
              (ok (some context), after)
          → LoggedIn b64decode header s after
      by_rows [] t f g = absurd (none-some (ok_inj (ap (λ p. p.0) g)))
      by_rows (row ∷ rows) t f g =
          elim (Bool-cases (text_eq (validators.casing.lower given.scheme) (codes "basic"))) [
            | inl b ↦ (
              given,
              row,
              rows,
              e,
              b,
              subst (λ x. looked_up x ≡ (ok (row ∷ rows), t)) b f
                  ∙ ap (λ p. (ok (row ∷ rows), p.1)) g,
            )
            | inr b ↦ absurd (
                empty-cons
                  (ok_inj (ap (λ p. p.0) (subst (λ x. looked_up x ≡ (ok (row ∷ rows), t)) b f))))
          ]

  authorize-LoggedIn :
      (b64decode : Text → Option Text) (client_ip : Text) (header : Option Text) (s after : S)
      (context : UserContext)
      → authorize database python validators down_ids b64decode client_ip header s
        ≡ (ok (some context), after)
      → (text : Text) × (header ≡ some text) × LoggedIn b64decode text s after
  unfolding authorize
  authorize-LoggedIn b64decode client_ip none s after context h =
      absurd (none-some (ok_inj (ap (λ p. p.0) h)))
  authorize-LoggedIn b64decode client_ip (some []) s after context h =
      absurd (none-some (ok_inj (ap (λ p. p.0) h)))
  authorize-LoggedIn b64decode client_ip (some (c ∷ text)) s after context h = (
    c ∷ text,
    refl,
    attempt-LoggedIn b64decode client_ip (c ∷ text) s after (credentials b64decode (c ∷ text))
        context refl h,
  )

  -- Whoever is answered with anything but a challenge has sent an Authorization header of the Basic scheme,
  -- with a user and a password that the database knows.
  pub handle_route-LoggedIn :
      (b64decode : Text → Option Text) (client_ip : Text) (header : Option Text) (method : Text)
      (dirs : List Text) (query : Spec) (s after : S) (response : Response)
      → handle_route database python validators down_ids b64decode client_ip header method dirs
          query s
        ≡ (ok response, after)
      → response ≢ challenge
      → (text : Text) × (header ≡ some text) × ((t : S) × LoggedIn b64decode text s t)
  unfolding handle_route routed
  handle_route-LoggedIn b64decode client_ip header method dirs query s after response h other =
      by_identity (authorize database python validators down_ids b64decode client_ip header s) refl
        h
    where
      by_identity :
          (reply : Result (Option UserContext) × S)
          → authorize database python validators down_ids b64decode client_ip header s ≡ reply
          → routed database python validators down_ids method dirs query reply
            ≡ (ok response, after)
          → (text : Text) × (header ≡ some text) × ((t : S) × LoggedIn b64decode text s t)
      by_identity (err e, t) f g = err-ok g
      by_identity (ok none, t) f g = absurd (other (sym (ok_inj (ap (λ p. p.0) g))))
      by_identity (ok (some context), t) f g =
          let (text, sent, logged) = authorize-LoggedIn b64decode client_ip header s t context f in
          (text, sent, (t, logged))
