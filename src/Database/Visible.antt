-- ===== src/Database/Visible.antt =====
-- What a SELECT sees of a table after a DELETE and some INSERTs.
use apsis.Prelude.{
  Bool, true, false, List, [], ◌∷◌, ◌++◌, All, keep, Bool-cases, inl, inr, ◌≡◌, refl, ap,
}
use apsis.Database.{delete_where}

pub keep-append :
    {A : Type 0} (q : A → Bool) (xs ys : List A) → keep q (xs ++ ys) ≡ keep q xs ++ keep q ys
keep-append q [] ys = refl
keep-append q (x ∷ xs) ys = elim (Bool-cases (q x)) [
  | inl holds ↦ rw holds (ap (λ zs. x ∷ zs) (keep-append q xs ys))
  | inr fails ↦ rw fails (keep-append q xs ys)
]

pub keep-deleted : {A : Type 0} (p : A → Bool) (xs : List A) → keep p (delete_where p xs) ≡ []
unfolding delete_where
keep-deleted p [] = refl
keep-deleted p (x ∷ xs) = elim (Bool-cases (p x)) [
  | inl holds ↦ rw holds (keep-deleted p xs)
  | inr fails ↦ rw (fails, fails) (keep-deleted p xs)
]

pub keep-own : {A : Type 0} (p : A → Bool) (xs : List A) → All (λ x. p x ≡ true) xs → keep p xs ≡ xs
keep-own p [] h = refl
keep-own p (x ∷ xs) h = rw h.0 (ap (λ ys. x ∷ ys) (keep-own p xs h.1))

pub keep-others :
    {A : Type 0} (p q : A → Bool) (xs : List A)
    → ((x : A) → p x ≡ true → q x ≡ false)
    → All (λ x. p x ≡ true) xs
    → keep q xs ≡ []
keep-others p q [] apart h = refl
keep-others p q (x ∷ xs) apart h = rw (apart x h.0) (keep-others p q xs apart h.1)

pub keep-not_deleted :
    {A : Type 0} (p q : A → Bool) (xs : List A)
    → ((x : A) → p x ≡ true → q x ≡ false)
    → keep q (delete_where p xs) ≡ keep q xs
unfolding delete_where
keep-not_deleted p q [] apart = refl
keep-not_deleted p q (x ∷ xs) apart = elim (Bool-cases (p x)) [
  | inl holds ↦ rw (holds, apart x holds) (keep-not_deleted p q xs apart)
  | inr fails ↦ elim (Bool-cases (q x)) [
    | inl seen ↦ rw (fails, seen) (ap (λ ys. x ∷ ys) (keep-not_deleted p q xs apart))
    | inr unseen ↦ rw (fails, unseen) (keep-not_deleted p q xs apart)
  ]
]
