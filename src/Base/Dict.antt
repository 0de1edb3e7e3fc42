-- ===== src/Base/Dict.antt =====
-- Python's `dict` as an association list in insertion order.
use mathlib.Core.Path.{◌≡◌, refl, sym, subst, ◌∙◌}
use mathlib.Core.Logic.{◌↔◌, inl, inr}
use mathlib.Core.Bool.{Bool, true, false}
use mathlib.Core.List.{List, [], ◌∷◌}
use mathlib.Core.Option.{Option, none, some}
use native.Mathlib.Omega.{arith}
use Prim.Native.Nat.{ℕ}
use powergslb.Base.Tests.{if◌then◌else◌, Bool-cases, ◌==◌ as nat_beq, ==_iff}
use powergslb.Base.Texts.{Text, text_eq, text_eq_iff}
use powergslb.Base.Lists.{All, All-imp}

-- Keys that can be told apart.
pub record Eq {ℓ} (K : Type ℓ) : Type ℓ where
  pub beq : K → K → Bool
  pub beq_iff : (a b : K) → (beq a b ≡ true) ↔ (a ≡ b)

instance abbrev pub nat_eq : Eq ℕ
nat_eq = record { beq = nat_beq; beq_iff = ==_iff }

instance abbrev pub text_key : Eq Text
text_key = record { beq = text_eq; beq_iff = text_eq_iff }

abbrev pub Dict {ℓ κ} : Type ℓ → Type κ → Type (ℓ ⊔ κ)
Dict K V = List (K × V)

abbrev pub is_some {ℓ} : {A : Type ℓ} → Option A → Bool
is_some none = false
is_some (some a) = true

module _ {ℓ κ} {K : Type ℓ} {V : Type κ} ⦃e : Eq K⦄ where
  -- `d.get(k)`
  unfoldable pub get : K → Dict K V → Option V
  get k [] = none
  get k ((j, v) ∷ d) = if e.beq j k then some v else get k d

  -- `d[k] = v`: in place, or at the end
  unfoldable pub put : K → V → Dict K V → Dict K V
  put k v [] = (k, v) ∷ []
  put k v ((j, w) ∷ d) = if e.beq j k then (j, v) ∷ d else (j, w) ∷ put k v d

  -- `d.pop(k, None)`, for every entry of the key
  unfoldable pub pop : K → Dict K V → Dict K V
  pop k [] = []
  pop k ((j, w) ∷ d) = let rest = pop k d in if e.beq j k then rest else (j, w) ∷ rest

  -- `k in d`
  abbrev pub has : K → Dict K V → Bool
  has k d = is_some (get k d)

  pub get-put :
      (k j : K) (v : V) (d : Dict K V) → get j (put k v d) ≡ (if e.beq k j then some v else get j d)
  unfolding get put
  get-put k j v [] = refl
  get-put k j v ((i, w) ∷ d) =
      ground (arith, e.beq_iff k j, e.beq_iff i k, e.beq_iff i j, get-put k j v d)

  pub get-pop : (k j : K) (d : Dict K V) → get j (pop k d) ≡ (if e.beq k j then none else get j d)
  unfolding get pop
  get-pop k j [] = ground arith
  get-pop k j ((i, w) ∷ d) =
      ground (arith, e.beq_iff k j, e.beq_iff i k, e.beq_iff i j, get-pop k j d)

none-some {ℓ} : {A : Type ℓ} {a : A} → none ≡ some a → ⊥
none-some h = cc

-- No key stands twice, as in every `dict`.
module _ {ℓ κ} {K : Type ℓ} {V : Type κ} ⦃e : Eq K⦄ where
  abbrev pub IsDict : Dict K V → Type κ
  IsDict [] = Unit
  IsDict ((k, v) ∷ d) = (get k d ≡ none) × IsDict d

  pub put-IsDict : (k : K) (v : V) (d : Dict K V) → IsDict d → IsDict (put k v d)
  unfolding get put
  put-IsDict k v [] h = (refl, tt)
  put-IsDict k v ((j, w) ∷ d) h = elim (Bool-cases (e.beq j k)) [
    | inl same ↦ rw same h
    | inr other ↦
        rw other
          (ground (arith, get-put k j v d, e.beq_iff j k, e.beq_iff k j), put-IsDict k v d h.1)
  ]

  pub pop-IsDict : (k : K) (d : Dict K V) → IsDict d → IsDict (pop k d)
  unfolding pop
  pop-IsDict k [] h = h
  pop-IsDict k ((j, w) ∷ d) h = elim (Bool-cases (e.beq j k)) [
    | inl same ↦ rw same (pop-IsDict k d h.1)
    | inr other ↦ rw other (ground (arith, get-pop k j d), pop-IsDict k d h.1)
  ]

  -- Each entry of a `dict` is what its key gets.
  pub IsDict-All : (d : Dict K V) → IsDict d → All (λ p. get p.0 d ≡ some p.1) d
  unfolding get
  IsDict-All [] h = tt
  IsDict-All ((k, v) ∷ d) h = (ground (arith, e.beq_iff k k), All-imp d skip (IsDict-All d h.1))
    where
      skip :
          (p : K × V)
          → get p.0 d ≡ some p.1
          → (if e.beq k p.0 then some v else get p.0 d) ≡ some p.1
      skip (j, w) g = elim (Bool-cases (e.beq k j)) [
        | inl same ↦
            absurd (none-some (sym (subst (λ i. get i d ≡ none) ((e.beq_iff k j).0 same) h.0) ∙ g))
        | inr other ↦ rw other g
      ]

some-inj {ℓ} : {A : Type ℓ} {a b : A} → some a ≡ some b → a ≡ b
some-inj h = cc

-- What a key gets is one of the values.
pub get-All {ℓ κ μ} :
    {K : Type ℓ} {V : Type κ} ⦃e : Eq K⦄ (P : V → Type μ) (k : K) (d : Dict K V) {v : V}
    → All (λ (p : K × V). P p.1) d
    → get k d ≡ some v
    → P v
unfolding get
get-All P k [] h g = absurd (none-some g)
get-All ⦃e⦄ P k ((j, w) ∷ d) {v} h g = elim (Bool-cases (e.beq j k)) [
  | inl same ↦ subst P (some-inj (subst (λ t. (if t then some w else get k d) ≡ some v) same g)) h.0
  | inr other ↦ get-All P k d h.1 (subst (λ t. (if t then some w else get k d) ≡ some v) other g)
]
