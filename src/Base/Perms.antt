-- ===== src/Base/Perms.antt =====
-- Parts of a list: `Picked ys xs` says that `ys` are entries of `xs`, each as often as it is there.
use mathlib.Core.List.{List, [], ◌∷◌, ◌++◌, Perm, append-nil, append_assoc, perm_middle}
use mathlib.Core.Path.{subst, sym}
use mathlib.Core.Bool.{Bool}
use mathlib.Core.Logic.{inl, inr}
use powergslb.Base.Tests.{Bool-cases}
use powergslb.Base.Filter.{keep}
use mathlib.Core.List.Perm
use Prim.Native.Nat.{ℕ}
use powergslb.Base.Lists.{take, drop, take-append-drop}

abbrev pub Picked {ℓ} : {A : Type ℓ} → List A → List A → Type ℓ
Picked {A} ys xs = (rest : List A) × Perm (ys ++ rest) xs

module _ {ℓ} {A : Type ℓ} where
  pub Picked-self : (xs : List A) → Picked xs xs
  Picked-self xs = ([], rw append-nil (Perm.refl xs))

  pub Picked-nil : (xs : List A) → Picked [] xs
  Picked-nil xs = (xs, Perm.refl xs)

  pub Picked-take : (n : ℕ) (xs : List A) → Picked (take n xs) xs
  Picked-take n xs = (drop n xs, rw take-append-drop (Perm.refl xs))

  pub Picked-perm : (ys : List A) {xs zs : List A} → Picked ys xs → Perm xs zs → Picked ys zs
  Picked-perm ys (rest, p) q = (rest, Perm.trans p q)

  pub Picked-trans : (xs ys : List A) {zs : List A} → Picked xs ys → Picked ys zs → Picked xs zs
  Picked-trans xs ys {zs} (r, p) (s, q) = (
    r ++ s,
    subst (λ l. Perm l zs) (append_assoc xs r s) (Perm.trans (Perm.append p (Perm.refl s)) q),
  )

  pub Picked-append :
      (xs ys : List A) {rest zs : List A}
      → Perm (xs ++ rest) zs
      → Picked ys rest
      → Picked (xs ++ ys) zs
  Picked-append xs ys {rest} {zs} p (s, q) = (
    s,
    subst (λ l. Perm l zs) (sym (append_assoc xs ys s))
        (Perm.trans (Perm.append (Perm.refl xs) q) p),
  )

  pub Picked-keep : (p : A → Bool) (xs : List A) → Picked (keep p xs) xs
  Picked-keep p [] = Picked-nil []
  Picked-keep p (x ∷ xs) =
      let (rest, q) = Picked-keep p xs in
      elim (Bool-cases (p x)) [
        | inl e ↦ (rest, rw e (Perm.cons x q))
        | inr e ↦ (x ∷ rest, rw e (Perm.trans (perm_middle (keep p xs) rest) (Perm.cons x q)))
      ]
