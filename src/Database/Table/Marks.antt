-- ===== src/Database/Table/Marks.antt =====
-- The placeholders of a statement's text (database/mysql/tables.py): each `%` starts one, and its
-- parameters are as many.
use powergslb.Base.{
  ℕ, zero, suc, ◌+◌, ◌*◌, ◌≡◌, refl, Bool, true, false, List, [], ◌∷◌, ◌++◌, map, Option, none,
  some, if◌then◌else◌, ◌==◌, Text, codes, All, arith, Bool-cases, inl, inr, length, subst, ap,
}
use powergslb.Database.Statement.{Param}
use powergslb.Database.Table.{join, repeat, quoted, comma, placeholders}
use mathlib.Core.Option
use native.Mathlib.Numerals.{unary_clauses}

-- The number of `%s` in a text, read after a `%` or not; `none` where a `%` starts something else.
abbrev pub marks_from : Bool → Text → Option ℕ
marks_from false [] = some 0
marks_from true [] = none
marks_from false (c ∷ text) =
    let pending = marks_from true text in
    let rest = marks_from false text in if c == b'%' then pending else rest
marks_from true (c ∷ text) =
    let rest = marks_from false text in if c == b's' then Option.map suc rest else none

-- The text has so many placeholders.
pub record HasMarks (text : Text) (n : ℕ) : Type 0 where
  pub counted : marks_from false text ≡ some n

-- The text has no `%`.
abbrev pub IsPlain : Text → Type 0
IsPlain text = HasMarks text 0

-- The statement binds its parameters: one for each placeholder.
abbrev pub IsBound : Text → List Param → Type 0
IsBound operation params = HasMarks operation (length params)

-- What a value under `map suc` is.
map-suc : (o : Option ℕ) {m : ℕ} → Option.map suc o ≡ some m → (l : ℕ) × (o ≡ some l) × (suc l ≡ m)
map-suc none h = cc
map-suc (some l) h = (l, refl, cc)

marks_from-append :
    (after : Bool) (a b : Text) {m n : ℕ}
    → marks_from after a ≡ some m
    → marks_from false b ≡ some n
    → marks_from after (a ++ b) ≡ some (m + n)
marks_from-append false [] b h k = ground arith
marks_from-append true [] b h k = cc
marks_from-append false (c ∷ a) b {m} {n} h k = elim (Bool-cases (c == b'%')) [
  | inl e ↦ rw e (
      marks_from-append true a b
        (subst (λ t. (if t then marks_from true a else marks_from false a) ≡ some m) e h) k)
  | inr e ↦ rw e (
      marks_from-append false a b
        (subst (λ t. (if t then marks_from true a else marks_from false a) ≡ some m) e h) k)
]
marks_from-append true (c ∷ a) b {m} {n} h k = elim (Bool-cases (c == b's')) [
  | inl e ↦
      let (l, there, more) =
        map-suc (marks_from false a)
          (subst (λ t. (if t then Option.map suc (marks_from false a) else none) ≡ some m) e h) in
      rw (e, marks_from-append false a b there k) (grown l more)
  | inr e ↦ absurd (
      none-some
        (subst (λ t. (if t then Option.map suc (marks_from false a) else none) ≡ some m) e h))
]
  where
    none-some : {m : ℕ} → none ≡ some m → ⊥
    none-some h = cc

    grown : (l : ℕ) → suc l ≡ m → some (suc (l + n)) ≡ some (m + n)
    grown l e = let f : suc (l + n) ≡ m + n = omega arith in ap some f

infixl 5 ◌⊕◌
-- A text after another has the placeholders of both.
pub ◌⊕◌ : {a b : Text} {m n : ℕ} → HasMarks a m → HasMarks b n → HasMarks (a ++ b) (m + n)
◌⊕◌ {a} {b} h k = record { counted = marks_from-append false a b h.counted k.counted }

pub as_many : {a : Text} {m n : ℕ} → HasMarks a m → m ≡ n → HasMarks a n
as_many {a} h e = subst (HasMarks a) e h

-- A text that is written out.
pub counts : (text : Text) {n : ℕ} → marks_from false text ≡ some n → HasMarks text n
counts text h = record { counted = h }

pub IsPlain-quoted : {name : Text} → IsPlain name → IsPlain (quoted name)
IsPlain-quoted h = as_many (counts (codes "`") refl ⊕ h ⊕ counts (codes "`") refl) refl

-- Texts with a number of placeholders each, joined.
abbrev pub sum : List ℕ → ℕ
sum [] = 0
sum (n ∷ ns) = n + sum ns

-- Each text has its number of placeholders.
abbrev pub HaveMarks : List Text → List ℕ → Type 0
HaveMarks [] [] = Unit
HaveMarks [] (n ∷ ns) = ⊥
HaveMarks (text ∷ texts) [] = ⊥
HaveMarks (text ∷ texts) (n ∷ ns) = HasMarks text n × HaveMarks texts ns

pub HasMarks-join :
    (separator : Text) (texts : List Text) (ns : List ℕ)
    → IsPlain separator
    → HaveMarks texts ns
    → HasMarks (join separator texts) (sum ns)
HasMarks-join separator [] [] p h = counts _ refl
HasMarks-join separator [] (n ∷ ns) p h = absurd h
HasMarks-join separator (text ∷ texts) [] p h = absurd h
HasMarks-join separator (text ∷ []) (n ∷ []) p h = as_many h.0 (omega arith)
HasMarks-join separator (text ∷ []) (n ∷ m ∷ ns) p h = absurd h.1
HasMarks-join separator (text ∷ next ∷ texts) (n ∷ []) p h = absurd h.1
HasMarks-join separator (text ∷ next ∷ texts) (n ∷ m ∷ ns) p h =
    as_many (h.0 ⊕ p ⊕ HasMarks-join separator (next ∷ texts) (m ∷ ns) p h.1) (omega arith)

pub IsPlain-join :
    (separator : Text) (texts : List Text)
    → IsPlain separator
    → All IsPlain texts
    → IsPlain (join separator texts)
IsPlain-join separator [] p h = counts _ refl
IsPlain-join separator (text ∷ []) p h = h.0
IsPlain-join separator (text ∷ next ∷ texts) p h =
    h.0 ⊕ p ⊕ IsPlain-join separator (next ∷ texts) p h.1

-- A text with `n` placeholders, `count` times.
pub HasMarks-repeat :
    (count n : ℕ) (text : Text)
    → HasMarks text n
    → HasMarks (join comma (repeat count text)) (n * count)
HasMarks-repeat zero n text h = as_many (counts _ refl) (omega arith)
HasMarks-repeat (suc zero) n text h = as_many h (omega arith)
HasMarks-repeat (suc (suc count)) n text h =
    as_many (h ⊕ (counts comma refl) ⊕ HasMarks-repeat (suc count) n text h)
      (simp unary_clauses (omega arith))

pub HasMarks-placeholders : (count : ℕ) → HasMarks (placeholders count) count
HasMarks-placeholders count =
    as_many (HasMarks-repeat count 1 (codes "%s") (counts _ refl)) (omega arith)

-- Texts made from names, each with a number of placeholders.
pub HasMarks-join-map :
    (n : ℕ) (separator : Text) (f : Text → Text) (names : List Text)
    → IsPlain separator
    → ((name : Text) → IsPlain name → HasMarks (f name) n)
    → All IsPlain names
    → HasMarks (join separator (map f names)) (n * length names)
HasMarks-join-map n separator f [] p made h = as_many (counts _ refl) (omega arith)
HasMarks-join-map n separator f (name ∷ []) p made h = as_many (made name h.0) (omega arith)
HasMarks-join-map n separator f (name ∷ next ∷ names) p made h =
    as_many (made name h.0 ⊕ p ⊕ HasMarks-join-map n separator f (next ∷ names) p made h.1)
      (simp unary_clauses (omega arith))
