-- ===== src/Database/Keyed.antt =====
-- Search by primary key, in a dictionary of the rows in any order.
use apsis.Prelude.{
  Uuid, Bool, false, none, some, ==_refl, List, [], ◌∷◌, All, ◌==◌, ==_iff, Bool-cases,
  Option-cases, inl, inr, ◌≡◌, ◌≢◌, refl, sym, ◌∙◌, ap, arith,
}
use apsis.Database.{first_where, get_by_id, last_with_id, insert_before, order_by}
use apsis.Database.Pages.{insert_before-All, order_by-All}
use apsis.Database.Select.{IsKeyed}

module _ {ℓ} {A : Type ℓ} (id_of : A → Uuid) where
  absent :
      (x : A) (xs : List A) → All (λ y. id_of x ≢ id_of y) xs → get_by_id id_of (id_of x) xs ≡ none
  unfolding get_by_id first_where
  absent x [] h = refl
  absent x (y ∷ ys) h =
      let other : (id_of y == id_of x) ≡ false = ground (arith, h.0) in rw other (absent x ys h.1)

  last_with_id-keyed :
      (i : Uuid) (xs : List A) → IsKeyed id_of xs → last_with_id id_of i xs ≡ get_by_id id_of i xs
  unfolding last_with_id get_by_id first_where
  last_with_id-keyed i [] keyed = refl
  last_with_id-keyed i (x ∷ xs) keyed = elim (Bool-cases (id_of x == i)) [
    | inl here ↦
        let missing : get_by_id id_of i xs ≡ none =
          ap (λ j. get_by_id id_of j xs) (sym ((==_iff (id_of x) i).0 here))
          ∙ absent x xs keyed.0 in
        rw (last_with_id-keyed i xs keyed.1, missing, here) refl
    | inr other ↦
        rw (last_with_id-keyed i xs keyed.1, other)
          (elim (Option-cases (get_by_id id_of i xs)) [
            | inl missing ↦ rw (missing, other) refl
            | inr (y, found) ↦ rw found refl
          ])
  ]

  module _ (before : A → A → Bool) where
    insert_before-key :
        (i : Uuid) (x : A) (xs : List A)
        → All (λ y. id_of x ≢ id_of y) xs
        → get_by_id id_of i (insert_before before x xs) ≡ get_by_id id_of i (x ∷ xs)
    unfolding insert_before get_by_id first_where
    insert_before-key i x [] h = refl
    insert_before-key i x (y ∷ ys) h = elim (Bool-cases (before x y)) [
      | inl sooner ↦ rw sooner refl
      | inr later ↦
          rw (later, insert_before-key i x ys h.1)
            (elim (Bool-cases (id_of x == i)) [
              | inl here ↦
                  let other : (id_of y == i) ≡ false = ground (arith, h.0) in rw (here, other) refl
              | inr other ↦ rw other refl
            ])
    ]

    order_by-key :
        (i : Uuid) (xs : List A)
        → IsKeyed id_of xs
        → get_by_id id_of i (order_by before xs) ≡ get_by_id id_of i xs
    unfolding order_by get_by_id first_where
    order_by-key i [] keyed = refl
    order_by-key i (x ∷ xs) keyed =
        insert_before-key i x (order_by before xs)
          (order_by-All before (λ y. id_of x ≢ id_of y) xs keyed.0)
        ∙ rw (order_by-key i xs keyed.1) refl

    insert_before-IsKeyed :
        (x : A) (xs : List A)
        → All (λ y. id_of x ≢ id_of y) xs
        → IsKeyed id_of xs
        → IsKeyed id_of (insert_before before x xs)
    unfolding insert_before
    insert_before-IsKeyed x [] h keyed = (tt, tt)
    insert_before-IsKeyed x (y ∷ ys) h keyed = elim (Bool-cases (before x y)) [
      | inl sooner ↦ rw sooner (h, keyed)
      | inr later ↦ rw later (
        insert_before-All before (λ z. id_of y ≢ id_of z) x ys (λ same. h.0 (sym same)) keyed.0,
        insert_before-IsKeyed x ys h.1 keyed.1,
      )
    ]

    pub order_by-IsKeyed : (xs : List A) → IsKeyed id_of xs → IsKeyed id_of (order_by before xs)
    unfolding order_by
    order_by-IsKeyed [] keyed = tt
    order_by-IsKeyed (x ∷ xs) keyed =
        insert_before-IsKeyed x (order_by before xs)
          (order_by-All before (λ y. id_of x ≢ id_of y) xs keyed.0) (order_by-IsKeyed xs keyed.1)

    -- A dictionary of the rows of a keyed table, made in any order, finds what the table holds.
    pub last_with_id-order_by :
        (i : Uuid) (xs : List A)
        → IsKeyed id_of xs
        → last_with_id id_of i (order_by before xs) ≡ get_by_id id_of i xs
    last_with_id-order_by i xs keyed =
        last_with_id-keyed i (order_by before xs) (order_by-IsKeyed xs keyed)
        ∙ order_by-key i xs keyed

All-found :
    {A : Type 0} (id_of : A → Uuid) (x : A) (xs ys : List A)
    → All (λ y. id_of x ≢ id_of y) ys
    → All (λ y. get_by_id id_of (id_of y) xs ≡ some y) ys
    → All (λ y. get_by_id id_of (id_of y) (x ∷ xs) ≡ some y) ys
unfolding get_by_id first_where
All-found id_of x xs [] differ found = tt
All-found id_of x xs (y ∷ ys) differ found =
    let other : (id_of x == id_of y) ≡ false = ground (arith, differ.0) in
    (rw other found.0, All-found id_of x xs ys differ.1 found.1)

-- In a keyed table every row is found by its key.
pub get_by_id-IsKeyed :
    {A : Type 0} (id_of : A → Uuid) (xs : List A)
    → IsKeyed id_of xs
    → All (λ x. get_by_id id_of (id_of x) xs ≡ some x) xs
unfolding get_by_id first_where
get_by_id-IsKeyed id_of [] keyed = tt
get_by_id-IsKeyed id_of (x ∷ xs) keyed = (
  rw (==_refl (id_of x)) refl,
  All-found id_of x xs xs keyed.0 (get_by_id-IsKeyed id_of xs keyed.1),
)

-- What holds of the rows in order holds of the table.
All-insert_before {κ} :
    {A : Type 0} (P : A → Type κ) (before : A → A → Bool) (r : A) (rs : List A)
    → All P (insert_before before r rs)
    → P r × All P rs
unfolding insert_before
All-insert_before P before r [] h = h
All-insert_before P before r (s ∷ ss) h = elim (Bool-cases (before r s)) [
  | inl sooner ↦ rw (sooner, insert_before) at h
  | inr later ↦
      let split : P s × All P (insert_before before r ss) = rw (later, insert_before) at h in
      let (p, rest) = All-insert_before P before r ss split.1 in (p, (split.0, rest))
]

pub All-order_by {κ} :
    {A : Type 0} (P : A → Type κ) (before : A → A → Bool) (rs : List A)
    → All P (order_by before rs)
    → All P rs
unfolding order_by
All-order_by P before [] h = tt
All-order_by P before (r ∷ rs) h =
    let (p, rest) = All-insert_before P before r (order_by before rs) h in
    (p, All-order_by P before rs rest)
