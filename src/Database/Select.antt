-- ===== src/Database/Select.antt =====
-- How the statements on a table change what a SELECT of the first row finds.
use mathlib.Core.Option
use mathlib.Core.Path.{subst}
use apsis.Prelude.{
  Uuid, Bool, true, false, Option, none, some, List, [], ◌∷◌, ◌++◌, All, any, ◌||◌, ◌&&◌, ◌==◌,
  if◌then◌else◌, Bool-cases, inl, inr, ◌≡◌, ◌≢◌, refl, arith,
}
use apsis.Database.{first_where, set_where, delete_where}

module _ {ℓ} {A : Type ℓ} where
  unfoldable pub or_else : Option A → Option A → Option A
  or_else none o = o
  or_else (some a) o = some a

  pub first_where-append :
      (p : A → Bool) (xs ys : List A)
      → first_where p (xs ++ ys) ≡ or_else (first_where p xs) (first_where p ys)
  unfolding first_where or_else
  first_where-append p [] ys = refl
  first_where-append p (x ∷ xs) ys = elim (Bool-cases (p x)) [
    | inl holds ↦ rw holds refl
    | inr fails ↦ rw fails (first_where-append p xs ys)
  ]

  -- An update that keeps a test acts on the row found by it as on that row alone.
  pub first_where-set_where :
      (p q : A → Bool) (f : A → A)
      → ((x : A) → p (f x) ≡ p x)
      → (xs : List A)
      → first_where p (set_where q f xs)
        ≡ Option.map (λ x. if q x then f x else x) (first_where p xs)
  unfolding first_where set_where
  first_where-set_where p q f keeps [] = refl
  first_where-set_where p q f keeps (x ∷ xs) =
      ground (arith, keeps x, first_where-set_where p q f keeps xs)

  pub first_where-All {κ} :
      (P : A → Type κ) (p : A → Bool) (xs : List A) {x : A}
      → All P xs
      → first_where p xs ≡ some x
      → P x
  unfolding first_where
  first_where-All P p [] h found = absurd (cc)
  first_where-All P p (y ∷ ys) {x} h found = elim (Bool-cases (p y)) [
    | inl holds ↦ subst P {x = y} (cc (rw (holds, first_where) at found)) h.0
    | inr fails ↦ first_where-All P p ys h.1 (rw (fails, first_where) at found)
  ]

  -- A row that is found passes the test.
  pub first_where_passes :
      (p : A → Bool) (xs : List A) {x : A} → first_where p xs ≡ some x → p x ≡ true
  unfolding first_where
  first_where_passes p [] found = absurd (cc)
  first_where_passes p (y ∷ ys) {x} found = elim (Bool-cases (p y)) [
    | inl holds ↦ cc (holds, rw (holds, first_where) at found)
    | inr fails ↦ first_where_passes p ys (rw (fails, first_where) at found)
  ]

  pub first_where-any : (p : A → Bool) (xs : List A) → any p xs ≡ false → first_where p xs ≡ none
  unfolding first_where
  first_where-any p [] h = refl
  first_where-any p (x ∷ xs) h = ground (arith, first_where-any p xs)

module _ {ℓ} {A : Type ℓ} (id_of : A → Uuid) where
  -- No primary key stands twice.
  abbrev pub IsKeyed : List A → Type 0
  IsKeyed [] = Unit
  IsKeyed (x ∷ xs) = All (λ y. id_of x ≢ id_of y) xs × IsKeyed xs

  -- Rows found by any two tests that share their key are the same.
  pub same_row :
      (p q : A → Bool) (xs : List A) {x y : A}
      → IsKeyed xs
      → first_where p xs ≡ some x
      → first_where q xs ≡ some y
      → id_of x ≡ id_of y
      → x ≡ y
  unfolding first_where
  same_row p q [] keyed found_x found_y same = absurd (cc)
  same_row p q (z ∷ zs) {x} {y} keyed found_x found_y same = elim (Bool-cases (p z)) [
    | inl p_holds ↦ elim (Bool-cases (q z)) [
      | inl q_holds ↦
          cc (rw (p_holds, first_where) at found_x, rw (q_holds, first_where) at found_y)
      | inr q_fails ↦
          let first_is : some z ≡ some x = rw (p_holds, first_where) at found_x in
          let differs : id_of z ≢ id_of y =
            first_where-All (λ w. id_of z ≢ id_of w) q zs keyed.0
              (rw (q_fails, first_where) at found_y) in
          absurd (differs (cc))
    ]
    | inr p_fails ↦ elim (Bool-cases (q z)) [
      | inl q_holds ↦
          let first_is : some z ≡ some y = rw (q_holds, first_where) at found_y in
          let differs : id_of z ≢ id_of x =
            first_where-All (λ w. id_of z ≢ id_of w) p zs keyed.0
              (rw (p_fails, first_where) at found_x) in
          absurd (differs (cc))
      | inr q_fails ↦
          same_row p q zs keyed.1 (rw (p_fails, first_where) at found_x)
            (rw (q_fails, first_where) at found_y) same
    ]
  ]

  append-All {κ} : (P : A → Type κ) (xs : List A) (y : A) → All P xs → P y → All P (xs ++ y ∷ [])
  append-All P [] y h p = (p, tt)
  append-All P (x ∷ xs) y h p = (h.0, append-All P xs y h.1 p)

  -- An INSERT with a new key.
  pub insert-IsKeyed :
      (xs : List A) (y : A) → IsKeyed xs → All (λ x. id_of x ≢ id_of y) xs → IsKeyed (xs ++ y ∷ [])
  insert-IsKeyed [] y keyed new = (tt, tt)
  insert-IsKeyed (x ∷ xs) y keyed new =
      (append-All (λ z. id_of x ≢ id_of z) xs y keyed.0 new.0, insert-IsKeyed xs y keyed.1 new.1)

  module _ (p : A → Bool) (f : A → A) (keeps : (x : A) → id_of (f x) ≡ id_of x) where
    differs-set_where :
        (i : Uuid) (xs : List A)
        → All (λ x. i ≢ id_of x) xs
        → All (λ x. i ≢ id_of x) (set_where p f xs)
    unfolding set_where
    differs-set_where i [] h = tt
    differs-set_where i (x ∷ xs) h = elim (Bool-cases (p x)) [
      | inl holds ↦ rw (holds, keeps x) (h.0, differs-set_where i xs h.1)
      | inr fails ↦ rw fails (h.0, differs-set_where i xs h.1)
    ]

    -- An UPDATE that keeps keys.
    pub set_where-IsKeyed : (xs : List A) → IsKeyed xs → IsKeyed (set_where p f xs)
    unfolding set_where
    set_where-IsKeyed [] keyed = tt
    set_where-IsKeyed (x ∷ xs) keyed = elim (Bool-cases (p x)) [
      | inl holds ↦
          rw (holds, keeps x) (differs-set_where (id_of x) xs keyed.0, set_where-IsKeyed xs keyed.1)
      | inr fails ↦ rw fails (differs-set_where (id_of x) xs keyed.0, set_where-IsKeyed xs keyed.1)
    ]

  -- What the check of a key constraint tells.
  pub any_key :
      (i : Uuid) (q : A → Bool) (xs : List A)
      → any (λ x. id_of x == i || q x) xs ≡ false
      → All (λ x. id_of x ≢ i) xs × (any q xs ≡ false)
  any_key i q [] h = (tt, refl)
  any_key i q (x ∷ xs) h =
      let (ids, rest) = any_key i q xs (ground arith) in ((ground arith, ids), ground arith)

  pub append_new :
      (i : Uuid) (xs : List A) (y : A)
      → All (λ x. id_of x ≢ i) xs
      → id_of y ≢ i
      → All (λ x. id_of x ≢ i) (xs ++ y ∷ [])
  append_new i = append-All (λ x. id_of x ≢ i)

  pub set_where_new :
      (p : A → Bool) (f : A → A) (keeps : (x : A) → id_of (f x) ≡ id_of x) (i : Uuid) (xs : List A)
      → All (λ x. id_of x ≢ i) xs
      → All (λ x. id_of x ≢ i) (set_where p f xs)
  unfolding set_where
  set_where_new p f keeps i [] h = tt
  set_where_new p f keeps i (x ∷ xs) h = elim (Bool-cases (p x)) [
    | inl holds ↦ rw (holds, keeps x) (h.0, set_where_new p f keeps i xs h.1)
    | inr fails ↦ rw fails (h.0, set_where_new p f keeps i xs h.1)
  ]

  -- The check of a key constraint passes.
  pub no_key :
      (i : Uuid) (q : A → Bool) (xs : List A)
      → All (λ x. id_of x ≢ i) xs
      → first_where q xs ≡ none
      → any (λ x. id_of x == i || q x) xs ≡ false
  unfolding first_where
  no_key i q [] new missing = refl
  no_key i q (x ∷ xs) new missing = elim (Bool-cases (q x)) [
    | inl holds ↦ absurd (cc (rw (holds, first_where) at missing))
    | inr fails ↦
        let rest = no_key i q xs new.1 (rw (fails, first_where) at missing) in
        rw (fails, rest) (ground (arith, new.0))
  ]

  pub no_id :
      (i : Uuid) (xs : List A) → All (λ x. id_of x ≢ i) xs → any (λ x. id_of x == i) xs ≡ false
  no_id i [] new = refl
  no_id i (x ∷ xs) new = let rest = no_id i xs new.1 in rw rest (ground (arith, new.0))

  pub no_clash :
      (i : Uuid) (q : A → Bool) (xs : List A)
      → All (λ x. id_of x ≢ i) xs
      → any q xs ≡ false
      → any (λ x. id_of x == i || q x) xs ≡ false
  no_clash i q [] new h = refl
  no_clash i q (x ∷ xs) new h =
      let rest = no_clash i q xs new.1 (ground arith) in rw rest (ground (arith, new.0))

module _ {ℓ} {A : Type ℓ} where
  pub any-append : (q : A → Bool) (xs ys : List A) → any q (xs ++ ys) ≡ (any q xs || any q ys)
  any-append q [] ys = refl
  any-append q (x ∷ xs) ys = ground (arith, any-append q xs ys)

  -- No row that a DELETE leaves passes its test.
  pub any-delete_where :
      (p q : A → Bool) (xs : List A) → any (λ x. p x && q x) (delete_where p xs) ≡ false
  unfolding delete_where
  any-delete_where p q [] = refl
  any-delete_where p q (x ∷ xs) = ground (arith, any-delete_where p q xs)

  pub All-delete_where {κ} :
      (P : A → Type κ) (p : A → Bool) (xs : List A) → All P xs → All P (delete_where p xs)
  unfolding delete_where
  All-delete_where P p [] h = tt
  All-delete_where P p (x ∷ xs) h = elim (Bool-cases (p x)) [
    | inl holds ↦ rw holds (All-delete_where P p xs h.1)
    | inr fails ↦ rw fails (h.0, All-delete_where P p xs h.1)
  ]
