-- ===== src/Password.antt =====
-- Password hashes (system/password.py), over crypt(3), which is a parameter: a hash, `none` or an
-- exception.
use powergslb.Base.{
  Bool, false, ◌&&◌, not, Option, none, some, if◌then◌else◌, Text, codes, text_eq, is_empty, Result,
  ok, err, Error,
}
use powergslb.Base.Values.{Value}

-- `crypt.crypt`, and the salt that `crypt.mksalt` made.
pub record Crypt : Type 0 where
  pub crypt : Value → Text → Result (Option Text)
  pub mksalt : Text
  pub catches : Error → Bool

-- `MASK`
abbrev pub mask : Text
mask = codes "*****"

module _ (library : Crypt) where
  -- `hash_password`
  unfoldable pub hash_password : Value → Result (Option Text)
  hash_password password = library.crypt password library.mksalt

  -- `accept and bool(computed) and hmac.compare_digest(computed, salt)`
  abbrev pub compared : Bool → Text → Result (Option Text) → Result Bool
  compared accept salt (err e) = if library.catches e then ok false else err e
  compared accept salt (ok none) = ok false
  compared accept salt (ok (some computed)) =
      ok (accept && (not (is_empty computed) && text_eq computed salt))

  -- `verify_password`, with the dummy hash.
  unfoldable pub verify_password : Text → Value → Text → Result Bool
  verify_password dummy password stored =
      let salt = if is_empty stored then dummy else stored in
      compared (not (is_empty stored)) salt (library.crypt password salt)
