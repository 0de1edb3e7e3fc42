-- ===== src/Database/Table/Accounts/Masking.antt =====
-- What the log shows of the writes of the users' table (database/mysql/tables.py, `Users.save`).
use powergslb.Base.{
  ℕ, ◌≡◌, ◌≢◌, refl, sym, subst, ap, ◌∙◌, true, false, codes, text_eq→eq, ◌⊎◌, inl, inr, List, [],
  ◌∷◌, map, Bool-cases, Result, ok, err, Error, Option, none, some, Text,
}
use powergslb.Base.Values.{ℤ, Value, null, bool, int, float, str, list, dict}
use powergslb.Database.Program.{Program, raises, modify, lift, ◌>>=◌}
use powergslb.Database.Statement.{Param, plain, masked, logged_param}
use powergslb.Database.Table.{Table, insert_of, update_of}
use powergslb.Database.Table.Accounts.{hash_param, masked_hash, is_mask, users_write}
use powergslb.Database.Table.Reading.{is_given}
use powergslb.Password.{Crypt, hash_password, mask}

-- A parameter that is the hash of the password, masked in the log.
abbrev pub HashOf : Crypt → Value → Value → Type 0
HashOf library password value =
    ((hash : Text) × (library.crypt password library.mksalt ≡ ok (some hash)) × (value ≡ str hash))
    ⊎ ((library.crypt password library.mksalt ≡ ok none) × (value ≡ null))

-- A write of a user: an INSERT with the hash, where no key is given; else an UPDATE of the key's row, without
-- the password where the mask is posted, and with its hash where anything else is.
abbrev pub WritesUser : Crypt → Table → ℤ → Value → Value → Value → Text → List Param → Type 0
WritesUser library table recid user name password operation params =
    ((is_given recid ≡ false)
      × (hash : Value) × HashOf library password hash
      × (operation ≡ insert_of table 1)
      × (params ≡ plain user ∷ plain name ∷ masked hash ∷ []))
    ⊎ ((is_given recid ≡ true)
        × (password ≡ str mask)
        × (operation ≡ update_of table (codes "user" ∷ codes "name" ∷ []))
        × (params ≡ plain user ∷ plain name ∷ plain (int recid) ∷ []))
    ⊎ ((is_given recid ≡ true)
        × (password ≢ str mask)
        × (hash : Value) × HashOf library password hash
        × (operation ≡ update_of table table.columns)
        × (params ≡ plain user ∷ plain name ∷ masked hash ∷ plain (int recid) ∷ []))

-- The log of a write shows the user's login and name, and the key or nothing, about a mask or nothing.
abbrev pub ShowsOnly : Value → Value → ℤ → Text → List Param → Type 0
ShowsOnly user name recid operation params =
    (map logged_param params ≡ user ∷ name ∷ str mask ∷ [])
    ⊎ (map logged_param params ≡ user ∷ name ∷ str mask ∷ int recid ∷ [])
    ⊎ (map logged_param params ≡ user ∷ name ∷ int recid ∷ [])

-- It is such a write, and its log shows no more.
abbrev pub WritesHidden : Crypt → Table → ℤ → Value → Value → Value → Text → List Param → Type 0
WritesHidden library table recid user name password operation params =
    WritesUser library table recid user name password operation params
    × ShowsOnly user name recid operation params

-- The program is one write of this kind, or raises what hashing raises.
abbrev pub WritesOnce : Crypt → Table → ℤ → Value → Value → Value → Program ℕ → Type 0
WritesOnce library table recid user name password program =
    ((operation : Text) × (params : List Param) × (program ≡ modify operation params)
      × WritesHidden library table recid user name password operation params)
    ⊎ ((e : Error) × (library.crypt password library.mksalt ≡ err e) × (program ≡ raises e))

is_mask→eq : (password : Value) → is_mask password ≡ true → password ≡ str mask
is_mask→eq (str text) h = ap str (text_eq→eq text mask h)
is_mask→eq null h = cc
is_mask→eq (bool b) h = cc
is_mask→eq (int z) h = cc
is_mask→eq (float f) h = cc
is_mask→eq (list values) h = cc
is_mask→eq (dict fields) h = cc

not_mask→ne : (password : Value) → is_mask password ≡ false → password ≢ str mask
not_mask→ne password h e = absurd (clash (sym h ∙ ap is_mask e))
  where
    clash : false ≡ true → ⊥
    clash f = cc

module _ (library : Crypt) (table : Table) where
  -- The hash is masked.
  hashed :
      (recid : ℤ) (user name password : Value) (r : Result (Option Text)) (operation : Text)
      (rest : Param → List Param)
      → library.crypt password library.mksalt ≡ r
      → ((value : Value)
          → HashOf library password value
          → WritesHidden library table recid user name password operation (rest (masked value)))
      → WritesOnce library table recid user name password
          (lift (masked_hash r) >>= λ hash. modify operation (rest hash))
  hashed recid user name password (ok none) operation rest e h =
      inl (operation, rest (masked null), refl, h null (inr (e, refl)))
  hashed recid user name password (ok (some hash)) operation rest e h =
      inl (operation, rest (masked (str hash)), refl, h (str hash) (inl (hash, e, refl)))
  hashed recid user name password (err f) operation rest e h = inr (f, e, refl)

  -- The write of a user is one statement: an INSERT with the hash of the posted password, where no key is given;
  -- else an UPDATE of the key's row, which leaves the password alone where the mask is posted, and binds the
  -- hash where anything else is. Where hashing raises, so does the write, and nothing is run. The log shows the
  -- login, the name and the key that are written, and no more than the mask of the password and of its hash.
  pub users_write-ShowsOnly :
      (recid : ℤ) (user name password : Value)
      → WritesOnce library table recid user name password
          (users_write library table recid user name password)
  unfolding users_write hash_param hash_password
  users_write-ShowsOnly recid user name password = elim (Bool-cases (is_given recid)) [
    | inr f ↦
        let e : users_write library table recid user name password ≡ insertion = rw f refl in
        subst once (sym e) (
          hashed recid user name password (library.crypt password library.mksalt)
            (insert_of table 1) (λ hash. plain user ∷ plain name ∷ hash ∷ []) refl
            (λ value h. (inl (f, value, h, refl, refl), inl refl)))
    | inl f ↦ elim (Bool-cases (is_mask password)) [
      | inl g ↦
          let e : users_write library table recid user name password ≡ unchanged = rw (f, g) refl in
          subst once (sym e) (
            inl (
              update_of table (codes "user" ∷ codes "name" ∷ []),
              plain user ∷ plain name ∷ plain (int recid) ∷ [],
              refl,
              (inr (inl (f, is_mask→eq password g, refl, refl)), inr (inr refl)),
            ))
      | inr g ↦
          let e : users_write library table recid user name password ≡ update = rw (f, g) refl in
          subst once (sym e) (
            hashed recid user name password (library.crypt password library.mksalt)
              (update_of table table.columns)
              (λ hash. plain user ∷ plain name ∷ hash ∷ plain (int recid) ∷ []) refl
              (λ value h.
                (inr (inr (f, not_mask→ne password g, value, h, refl, refl)), inr (inl refl))))
    ]
  ]
    where
      once : Program ℕ → Type 0
      once = WritesOnce library table recid user name password

      insertion : Program ℕ
      insertion = lift (hash_param library password) >>= λ hash.
          modify (insert_of table 1) (plain user ∷ plain name ∷ hash ∷ [])

      unchanged : Program ℕ
      unchanged =
          modify (update_of table (codes "user" ∷ codes "name" ∷ []))
            (plain user ∷ plain name ∷ plain (int recid) ∷ [])

      update : Program ℕ
      update = lift (hash_param library password) >>= λ hash.
          modify (update_of table table.columns)
            (plain user ∷ plain name ∷ hash ∷ plain (int recid) ∷ [])
