-- ===== src/Base/Sort.antt =====
-- Python's stable `sorted` by a Boolean order, as insertion sort: `le x y` says that `x` may stand
-- before `y`, and entries that are equal by the key keep their order.
use Prim.Native.Nat.{suc}
use powergslb.Base.Lists.{length}
use mathlib.Core.Path.{◌≡◌, refl, ap, ◌∙◌}
use mathlib.Core.Logic.{inl, inr, ∥∥₁_elim}
use mathlib.Core.Bool.{Bool, true, false}
use mathlib.Core.List.{List, [], ◌∷◌, map, Perm, Permᴰ}
use mathlib.Core.List.Perm
use native.Mathlib.Omega.{arith}
use powergslb.Base.Tests.{if◌then◌else◌, Bool-cases}

module _ {ℓ} {A : Type ℓ} (le : A → A → Bool) where
  unfoldable pub insert : A → List A → List A
  insert x [] = x ∷ []
  insert x (y ∷ ys) = let rest = insert x ys in if le x y then x ∷ y ∷ ys else y ∷ rest

  unfoldable pub sort : List A → List A
  unfolding insert
  sort [] = []
  sort (x ∷ xs) = insert x (sort xs)

  insert-perm : (x : A) (ys : List A) → Perm (insert x ys) (x ∷ ys)
  unfolding insert
  insert-perm x [] = Perm.refl (x ∷ [])
  insert-perm x (y ∷ ys) = elim (Bool-cases (le x y)) [
    | inl e ↦ rw e (Perm.refl (x ∷ y ∷ ys))
    | inr e ↦ rw e (Perm.trans (Perm.cons y (insert-perm x ys)) (Perm.swap x y ys))
  ]

  pub sort-perm : (xs : List A) → Perm (sort xs) xs
  unfolding sort
  sort-perm [] = Perm.refl []
  sort-perm (x ∷ xs) = Perm.trans (insert-perm x (sort xs)) (Perm.cons x (sort-perm xs))

  length-insert : (x : A) (ys : List A) → length (insert x ys) ≡ suc (length ys)
  unfolding insert
  length-insert x [] = refl
  length-insert x (y ∷ ys) = ground (arith, length-insert x ys)

  pub length-sort : (xs : List A) → length (sort xs) ≡ length xs
  unfolding sort
  length-sort [] = refl
  length-sort (x ∷ xs) = length-insert x (sort xs) ∙ ap suc (length-sort xs)

-- A Boolean order that is total, antisymmetric and transitive.
pub record IsLinear {ℓ} {A : Type ℓ} (le : A → A → Bool) : Type ℓ where
  pub total : (x y : A) → le x y ≡ false → le y x ≡ true
  pub antisymm : (x y : A) → le x y ≡ true → le y x ≡ true → x ≡ y
  pub trans : (x y z : A) → le x y ≡ true → le y z ≡ true → le x z ≡ true

module _ {ℓ} {A : Type ℓ} (le : A → A → Bool) (linear : IsLinear le) where
  open linear use {total, antisymm, trans}

  insert_comm :
      (x y : A) (zs : List A) → insert le x (insert le y zs) ≡ insert le y (insert le x zs)
  unfolding insert
  insert_comm x y [] = ground (arith, total x y, antisymm x y)
  insert_comm x y (z ∷ zs) = ground (
    arith,
    insert_comm x y zs,
    total x y,
    antisymm x y,
    trans x y z,
    trans y x z,
    total x z,
    total y z,
  )

  sort-Permᴰ : {xs ys : List A} → Permᴰ xs ys → sort le xs ≡ sort le ys
  unfolding sort
  sort-Permᴰ Permᴰ.nil = refl
  sort-Permᴰ (Permᴰ.cons {l₁ = xs} {l₂ = ys} e p) = cc (sort-Permᴰ p)
  sort-Permᴰ (Permᴰ.swap {a = a} {b = b} {l = l} e f) = cc (insert_comm a b (sort le l))
  sort-Permᴰ (Permᴰ.trans p q) = sort-Permᴰ p ∙ sort-Permᴰ q

  -- The result depends on the entries alone, not on their order.
  pub sort-eq_of_perm : IsSet A → {xs ys : List A} → Perm xs ys → sort le xs ≡ sort le ys
  sort-eq_of_perm is_set p = ∥∥₁_elim p (hlevel is_set) sort-Permᴰ

-- Sorting by a key sorts the keys.
module _ {ℓ κ} {A : Type ℓ} {K : Type κ} (key : A → K) (le : K → K → Bool) where
  abbrev pub by_key : A → A → Bool
  by_key x y = le (key x) (key y)

  map-insert : (x : A) (ys : List A) → map key (insert by_key x ys) ≡ insert le (key x) (map key ys)
  unfolding insert
  map-insert x [] = refl
  map-insert x (y ∷ ys) = elim (Bool-cases (le (key x) (key y))) [
    | inl e ↦ rw e
    | inr e ↦ rw e (ap (◌∷◌ (key y)) (map-insert x ys))
  ]

  pub map-sort : (xs : List A) → map key (sort by_key xs) ≡ sort le (map key xs)
  unfolding sort
  map-sort [] = refl
  map-sort (x ∷ xs) = map-insert x (sort by_key xs) ∙ ap (insert le (key x)) (map-sort xs)
