-- ===== src/Base/Results.antt =====
-- Values or exceptions. An exception is known by its class alone: its message is for the log.
use mathlib.Core.Path.{◌≡◌, refl}
use mathlib.Core.Logic.{◌⊎◌, inl, inr}
use mathlib.Core.Bool.{Bool, true, false}

-- The classes that the code raises or tells apart.
pub data Error : Type 0 where
  value_error type_error runtime_error key_error index_error overflow_error attribute_error
        database_error :
      Error

-- What a call returns, or the exception that it raises.
pub data Result {κ} (T : Type κ) : Type κ where
  err : Error → Result T
  ok : T → Result T

pub Result-cases {ℓ} :
    {A : Type ℓ} (r : Result A) → ((a : A) × (r ≡ ok a)) ⊎ ((e : Error) × (r ≡ err e))
Result-cases (ok a) = inl (a, refl)
Result-cases (err e) = inr (e, refl)

-- `if not test: raise error`
abbrev pub guard : (test : Bool) (error : Error) → Result (Unit {0})
guard test error = elim test [ false ↦ err error | true ↦ ok tt ]

module _ {ℓ κ} {A : Type ℓ} {B : Type κ} where
  infixl 5 ◌>>=◌ ◌>>◌
  -- An exception ends the chain.
  abbrev pub ◌>>=◌ : (call : Result A) (rest : A → Result B) → Result B
  err raised >>= rest = err raised
  ok value >>= rest = rest value

  abbrev pub ◌>>◌ : (call : Result A) (rest : Result B) → Result B
  call >> rest = call >>= λ nothing. rest

  -- A chain that returns has a first call that returned.
  pub >>=-eq-ok :
      (call : Result A) (rest : A → Result B) {final : B}
      → (call >>= rest) ≡ ok final
      → (value : A) × (call ≡ ok value) × (rest value ≡ ok final)
  >>=-eq-ok (err raised) rest returned = cc
  >>=-eq-ok (ok value) rest returned = (value, refl, returned)

-- What the call returns, where it returns, has a property.
abbrev pub Returns {ℓ κ} : {A : Type ℓ} → (A → Type κ) → Result A → Type κ
Returns P (ok a) = P a
Returns P (err e) = Unit

pub >>=-Returns {ℓ κ μ} :
    {A : Type ℓ} {B : Type κ} (P : B → Type μ) (call : Result A) (rest : A → Result B)
    → ((value : A) → call ≡ ok value → Returns P (rest value))
    → Returns P (call >>= rest)
>>=-Returns P (ok value) rest h = h value refl
>>=-Returns P (err e) rest h = tt

pub ok_inj {ℓ} : {A : Type ℓ} {a b : A} → ok a ≡ ok b → a ≡ b
ok_inj h = cc

pub Returns-ok {ℓ κ} :
    {A : Type ℓ} (P : A → Type κ) (call : Result A) {value : A}
    → Returns P call
    → call ≡ ok value
    → P value
Returns-ok P (ok a) h e = let same = ok_inj e in rw (← same) h
Returns-ok P (err e) h k = cc
