-- ===== src/Database/Pages.antt =====
-- What pages show of a table.
use mathlib.Core.List.{Perm}
use mathlib.Core.List.Perm
use native.Mathlib.Nat.{zero-add, suc-add, zero-mul, suc-mul}
use apsis.Prelude.{
  ℕ, zero, suc, ◌+◌, ◌*◌, ◌≤◌, Uuid, Bool, true, false, List, [], ◌∷◌, ◌++◌, take, drop, length,
  leb, All, Bool-cases, inl, inr, ◌≡◌, refl, sym, ◌∙◌, ap, arith,
}
use apsis.Database.{insert_before, order_by, list_paginated}

module _ {ℓ} {A : Type ℓ} (before : A → A → Bool) where
  abbrev pub IsOrdered : List A → Type ℓ
  IsOrdered [] = Unit
  IsOrdered (r ∷ rs) = All (λ s. before r s ≡ true) rs × IsOrdered rs

module _ {ℓ} {A : Type ℓ} (before : A → A → Bool) where
  insert_before-Perm : (r : A) (rs : List A) → Perm (insert_before before r rs) (r ∷ rs)
  unfolding insert_before
  insert_before-Perm r [] = Perm.refl _
  insert_before-Perm r (s ∷ ss) = elim (Bool-cases (before r s)) [
    | inl sooner ↦ rw sooner (Perm.refl _)
    | inr later ↦ rw later (Perm.trans (Perm.cons s (insert_before-Perm r ss)) (Perm.swap r s ss))
  ]

  pub order_by-Perm : (rs : List A) → Perm (order_by before rs) rs
  unfolding order_by
  order_by-Perm [] = Perm.refl _
  order_by-Perm (r ∷ rs) =
      Perm.trans (insert_before-Perm r (order_by before rs)) (Perm.cons r (order_by-Perm rs))

  pub insert_before-All {κ} :
      (P : A → Type κ) (r : A) (rs : List A) → P r → All P rs → All P (insert_before before r rs)
  unfolding insert_before
  insert_before-All P r [] p h = (p, tt)
  insert_before-All P r (s ∷ ss) p h = elim (Bool-cases (before r s)) [
    | inl sooner ↦ rw sooner (p, h)
    | inr later ↦ rw later (h.0, insert_before-All P r ss p h.1)
  ]

  pub order_by-All {κ} : (P : A → Type κ) (rs : List A) → All P rs → All P (order_by before rs)
  unfolding order_by
  order_by-All P [] h = tt
  order_by-All P (r ∷ rs) h = insert_before-All P r (order_by before rs) h.0 (order_by-All P rs h.1)

module _ {ℓ} {A : Type ℓ} (before : A → A → Bool)
    (total : (r s : A) → before r s ≡ false → before s r ≡ true)
    (through : (r s t : A) → before r s ≡ true → before s t ≡ true → before r t ≡ true) where
  All-through :
      (r s : A) (ts : List A)
      → before r s ≡ true
      → All (λ t. before s t ≡ true) ts
      → All (λ t. before r t ≡ true) ts
  All-through r s [] h all = tt
  All-through r s (t ∷ ts) h all = (through r s t h all.0, All-through r s ts h all.1)

  insert_before-IsOrdered :
      (r : A) (rs : List A) → IsOrdered before rs → IsOrdered before (insert_before before r rs)
  unfolding insert_before
  insert_before-IsOrdered r [] h = (tt, tt)
  insert_before-IsOrdered r (s ∷ ss) h = elim (Bool-cases (before r s)) [
    | inl sooner ↦ rw sooner ((sooner, All-through r s ss sooner h.0), h)
    | inr later ↦ rw later (
      insert_before-All before (λ t. before s t ≡ true) r ss (total r s later) h.0,
      insert_before-IsOrdered r ss h.1,
    )
  ]

  pub order_by-IsOrdered : (rs : List A) → IsOrdered before (order_by before rs)
  unfolding order_by
  order_by-IsOrdered [] = tt
  order_by-IsOrdered (r ∷ rs) =
      insert_before-IsOrdered r (order_by before rs) (order_by-IsOrdered rs)

module _ {ℓ} {A : Type ℓ} where
  take-add : (a b : ℕ) (xs : List A) → take a xs ++ take b (drop a xs) ≡ take (a + b) xs
  take-add zero b xs = rw (zero-add b) refl
  take-add (suc a) zero [] = rw (suc-add a 0) refl
  take-add (suc a) (suc b) [] = rw (suc-add a (suc b)) refl
  take-add (suc a) b (x ∷ xs) = rw (suc-add a b) (ap (λ ys. x ∷ ys) (take-add a b xs))

  drop-drop : (a b : ℕ) (xs : List A) → drop b (drop a xs) ≡ drop (a + b) xs
  drop-drop zero b xs = rw (zero-add b) refl
  drop-drop (suc a) zero [] = rw (suc-add a 0) refl
  drop-drop (suc a) (suc b) [] = rw (suc-add a (suc b)) refl
  drop-drop (suc a) b (x ∷ xs) = rw (suc-add a b) (drop-drop a b xs)

  take-whole : (n : ℕ) (xs : List A) → length xs ≤ n → take n xs ≡ xs
  take-whole zero [] h = refl
  take-whole zero (x ∷ xs) h = absurd (omega arith)
  take-whole (suc n) [] h = refl
  take-whole (suc n) (x ∷ xs) h = ap (λ ys. x ∷ ys) (take-whole n xs (omega arith))

  length-insert_before :
      (before : A → A → Bool) (r : A) (rs : List A)
      → length (insert_before before r rs) ≡ suc (length rs)
  unfolding insert_before
  length-insert_before before r [] = refl
  length-insert_before before r (s ∷ ss) = ground (arith, length-insert_before before r ss)

  length-order_by : (before : A → A → Bool) (rs : List A) → length (order_by before rs) ≡ length rs
  unfolding order_by
  length-order_by before [] = refl
  length-order_by before (r ∷ rs) =
      length-insert_before before r (order_by before rs) ∙ ap suc (length-order_by before rs)

-- The items of `n` requests, one after the other, each of `limit` items from where the last ended.
unfoldable pub pages {ℓ} : {A : Type ℓ} → (A → Uuid) → (limit offset n : ℕ) → List A → List A
pages id_of limit offset zero rows = []
pages id_of limit offset (suc n) rows =
    (list_paginated id_of limit offset rows).0 ++ pages id_of limit (offset + limit) n rows

module _ {ℓ} {A : Type ℓ} (id_of : A → Uuid) where
  abbrev pub by_id : A → A → Bool
  by_id r s = leb (id_of r) (id_of s)

  pages-take :
      (limit offset n : ℕ) (rows : List A)
      → pages id_of limit offset n rows ≡ take (n * limit) (drop offset (order_by by_id rows))
  unfolding pages list_paginated
  pages-take limit offset zero rows = rw (zero-mul limit) refl
  pages-take limit offset (suc n) rows =
      let sorted = order_by by_id rows in
      let more : limit + n * limit ≡ suc n * limit = omega (arith, suc-mul n limit) in
      rw (pages-take limit (offset + limit) n rows, sym (drop-drop offset limit sorted))
        (take-add limit (n * limit) (drop offset sorted)
          ∙ ap (λ k. take k (drop offset sorted)) more)

-- Reading the pages of a limit from offset 0 on, enough of them for the total that every page
-- tells, shows every row of the table as often as the table holds it, ordered by id; and
-- the total is the number of rows.
pub pages_cover {ℓ} :
    {A : Type ℓ} (id_of : A → Uuid) (limit offset n : ℕ) (rows : List A)
    → (list_paginated id_of limit offset rows).1 ≤ n * limit
    → Perm (pages id_of limit 0 n rows) rows
      × IsOrdered (by_id id_of) (pages id_of limit 0 n rows)
      × ((list_paginated id_of limit offset rows).1 ≡ length rows)
unfolding list_paginated
pages_cover id_of limit offset n rows enough =
    let p = order_by-Perm (by_id id_of) rows in
    let whole : pages id_of limit 0 n rows ≡ order_by (by_id id_of) rows =
      pages-take id_of limit 0 n rows
      ∙ take-whole (n * limit) _ (rw (length-order_by (by_id id_of) rows) enough) in
    (
      rw whole p,
      rw whole
          (order_by-IsOrdered (by_id id_of) (λ r s. ground arith) (λ r s t. ground arith) rows),
      refl,
    )
