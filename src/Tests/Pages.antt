-- ===== src/Tests/Pages.antt =====
-- The pages of a table at a concrete input.
use mathlib.Core.List.{Perm}
use apsis.Prelude.{ℕ, List, [], ◌∷◌, length, ◌≡◌, refl, arith}
use apsis.Database.{list_paginated}
use apsis.Database.Pages.{pages, by_id, IsOrdered, pages_cover}

abbrev ids : List ℕ
ids = 5 ∷ 2 ∷ 9 ∷ 4 ∷ 1 ∷ []

total_is_five : (list_paginated (λ (i : ℕ). i) 2 0 ids).1 ≡ 5
unfolding list_paginated
total_is_five = refl

pages_cover_example :
    Perm (pages (λ (i : ℕ). i) 2 0 3 ids) ids
    × IsOrdered (by_id (λ (i : ℕ). i)) (pages (λ (i : ℕ). i) 2 0 3 ids)
    × ((list_paginated (λ (i : ℕ). i) 2 0 ids).1 ≡ length ids)
pages_cover_example = pages_cover (λ (i : ℕ). i) 2 0 3 ids (rw total_is_five (omega arith))
