-- ===== src/Database/Table/Accounts/Login.antt =====
-- A login against the stored hash (database/mysql/tables.py, `Users.check_user`; system/password.py).
use powergslb.Base.{
  ok_inj, ◌≡◌, refl, ap, ◌∙◌, subst, ◌↔◌, not, inl, inr, [], ◌∷◌, true, false, Bool-cases, Result,
  ok, err, Error, Option, none, some, Text, text_eq, text_eq→eq, text_eq_self, is_empty,
  if◌then◌else◌, ◌≢◌, and-eq-true,
}
use powergslb.Base.Values.{Value}
use powergslb.Password.{Crypt, verify_password, compared}

false-true : {A : Type 0} → ok false ≡ ok true → A
false-true h = cc

err-true : {A : Type 0} {e : Error} → err e ≡ ok true → A
err-true h = cc

module _ (library : Crypt) where
  -- Nothing is accepted without a stored hash.
  compared-false :
      (salt : Text) (reply : Result (Option Text)) → compared library false salt reply ≡ ok true → ⊥
  compared-false salt (err e) h = elim (Bool-cases (library.catches e)) [
    | inl f ↦ false-true (subst (λ t. (if t then ok false else err e) ≡ ok true) f h)
    | inr f ↦ err-true (subst (λ t. (if t then ok false else err e) ≡ ok true) f h)
  ]
  compared-false salt (ok none) h = false-true h
  compared-false salt (ok (some computed)) h = false-true h

  compared-true :
      (salt : Text) (reply : Result (Option Text))
      → compared library true salt reply ≡ ok true
      → reply ≡ ok (some salt)
  compared-true salt (err e) h = elim (Bool-cases (library.catches e)) [
    | inl f ↦ false-true (subst (λ t. (if t then ok false else err e) ≡ ok true) f h)
    | inr f ↦ err-true (subst (λ t. (if t then ok false else err e) ≡ ok true) f h)
  ]
  compared-true salt (ok none) h = false-true h
  compared-true salt (ok (some computed)) h =
      ap (λ t. ok (some t))
        (text_eq→eq computed salt
          (and-eq-true (not (is_empty computed)) (text_eq computed salt) (ok_inj h)).1)

module _ (library : Crypt) (dummy : Text) where
  -- A password is accepted for a stored hash exactly where there is one and crypt(3), salted with it, gives
  -- it back. So nothing is accepted for an unknown user, whose hash is empty, although the dummy hash is
  -- computed for it.
  verify_password_lem :
      (password : Value) (stored : Text)
      → (verify_password library dummy password stored ≡ ok true)
        ↔ ((stored ≢ []) × (library.crypt password stored ≡ ok (some stored)))
  unfolding verify_password
  verify_password_lem password [] = (
    λ h. absurd (compared-false library dummy (library.crypt password dummy) h),
    λ h. absurd (h.0 refl),
  )
  verify_password_lem password (c ∷ stored) = (
    λ h. ((λ e. cc), compared-true library (c ∷ stored) (library.crypt password (c ∷ stored)) h),
    λ h. ap (compared library true (c ∷ stored)) h.1 ∙ ap ok (text_eq_self (c ∷ stored)),
  )
