-- ===== src/Monitor/Status.antt =====
-- StatusRegistry and StatusWriter (monitor/status.py): the set of content ids that are down.
use powergslb.Base.{
  ℕ, ◌≡◌, ap, Bool, ◌&&◌, ◌||◌, not, List, [], ◌∷◌, arith, ◌==◌, ==_iff, if◌then◌else◌, any, keep,
  Bool-cases, inl, inr,
}

-- `id in ids`
abbrev pub member : ℕ → List ℕ → Bool
member id = any (λ i. i == id)

pub record StatusRegistry : Type 0 where
  pub status : List ℕ

-- `StatusRegistry()`
abbrev pub new_registry : StatusRegistry
new_registry = record { status = [] }

unfoldable pub is_down : StatusRegistry → ℕ → Bool
is_down registry id = member id registry.status

-- `set.add`
unfoldable pub add : StatusRegistry → ℕ → StatusRegistry
add registry id =
    if member id registry.status then registry else record { status = id ∷ registry.status }

-- `set.discard`
unfoldable pub remove : StatusRegistry → ℕ → StatusRegistry
remove registry id = record { status = keep (λ i. not (i == id)) registry.status }

unfoldable pub snapshot : StatusRegistry → List ℕ
snapshot registry = registry.status

-- The registry with the valid ids alone, and the stale ids that were dropped.
unfoldable pub retain : StatusRegistry → List ℕ → StatusRegistry × List ℕ
retain registry valid_ids = (
  record { status = keep (λ i. member i valid_ids) registry.status },
  keep (λ i. not (member i valid_ids)) registry.status,
)

-- `StatusWriter`
pub record StatusWriter : Type 0 where
  pub content_id : ℕ

unfoldable pub get_writer : ℕ → StatusWriter
get_writer content_id = record { content_id = content_id }

unfoldable pub set_down : StatusWriter → StatusRegistry → StatusRegistry
set_down writer registry = add registry writer.content_id

unfoldable pub set_up : StatusWriter → StatusRegistry → StatusRegistry
set_up writer registry = remove registry writer.content_id

unfoldable pub writer_is_down : StatusWriter → StatusRegistry → Bool
writer_is_down writer registry = is_down registry writer.content_id

member-keep :
    (p : ℕ → Bool) (id : ℕ) (ids : List ℕ) → member id (keep p ids) ≡ (p id && member id ids)
member-keep p id [] = ground arith
member-keep p id (i ∷ ids) = elim (Bool-cases (i == id)) [
  | inl e ↦ ground (arith, member-keep p id ids, ap p ((==_iff i id).0 e))
  | inr e ↦ ground (arith, member-keep p id ids)
]

pub is_down-add :
    (registry : StatusRegistry) (i j : ℕ)
    → is_down (add registry i) j ≡ (i == j || is_down registry j)
unfolding add is_down
is_down-add registry i j = ground (arith)

pub is_down-remove :
    (registry : StatusRegistry) (i j : ℕ)
    → is_down (remove registry i) j ≡ (not (i == j) && is_down registry j)
unfolding remove is_down
is_down-remove registry i j = ground (arith, member-keep (λ k. not (k == i)) j registry.status)

pub is_down-retain :
    (registry : StatusRegistry) (valid_ids : List ℕ) (j : ℕ)
    → is_down (retain registry valid_ids).0 j ≡ (member j valid_ids && is_down registry j)
unfolding retain is_down
is_down-retain registry valid_ids j = member-keep (λ k. member k valid_ids) j registry.status
