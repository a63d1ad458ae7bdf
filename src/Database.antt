-- ===== src/Database.antt =====
-- The generic repository (app/core/repo.py) over the rows of one table, by the statements that it
-- sends.
pub mod Pages
pub mod Select
pub mod Keyed
pub mod Visible
use mathlib.Core.List.{Perm}
use mathlib.Core.List.Perm
use apsis.Prelude.{
  ℕ, Uuid, Bool, true, false, Option, none, some, List, [], ◌∷◌, keep, not, take, drop, length, leb,
  ◌==◌, if◌then◌else◌,
}

module _ {ℓ} {A : Type ℓ} where
  -- `select(...).where(p)` with `scalars().first()`.
  unfoldable pub first_where : (A → Bool) → List A → Option A
  first_where p [] = none
  first_where p (r ∷ rs) = if p r then some r else first_where p rs

  -- `delete(...).where(p)`
  unfoldable pub delete_where : (A → Bool) → List A → List A
  delete_where p rows = keep (λ r. not (p r)) rows

  unfoldable pub set_where : (A → Bool) → (A → A) → List A → List A
  set_where p f [] = []
  set_where p f (r ∷ rs) = (if p r then f r else r) ∷ set_where p f rs

  unfoldable pub insert_before : (A → A → Bool) → A → List A → List A
  insert_before before r [] = r ∷ []
  insert_before before r (s ∷ ss) = if before r s then r ∷ s ∷ ss else s ∷ insert_before before r ss

  -- ORDER BY: what SQL leaves open, the order of equals, is the table's here.
  unfoldable pub order_by : (A → A → Bool) → List A → List A
  unfolding insert_before
  order_by before [] = []
  order_by before (r ∷ rs) = insert_before before r (order_by before rs)

  module _ (id_of : A → Uuid) where
    -- `{r.id: r for r in rows}[i]`: a later row with the same key wins.
    unfoldable pub last_with_id : Uuid → List A → Option A
    last_with_id i [] = none
    last_with_id i (r ∷ rs) = elim (last_with_id i rs) [
      | some s ↦ some s
      | none ↦ if id_of r == i then some r else none
    ]

    -- `BaseRepo.get_by_id`
    unfoldable pub get_by_id : Uuid → List A → Option A
    unfolding first_where
    get_by_id entity_id rows = first_where (λ r. id_of r == entity_id) rows

    -- `BaseRepo.delete`
    unfoldable pub delete : A → List A → List A
    unfolding delete_where
    delete entity rows = delete_where (λ r. id_of r == id_of entity) rows

    -- `BaseRepo.list_paginated`: the items and the total.
    unfoldable pub list_paginated : (limit offset : ℕ) → List A → List A × ℕ
    unfolding order_by
    list_paginated limit offset rows =
        (take limit (drop offset (order_by (λ r s. leb (id_of r) (id_of s)) rows)), length rows)
