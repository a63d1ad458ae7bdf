-- ===== src/App/Settings/RoundTrip.antt =====
-- What the settings' texts say again: numbers, lists of origins, and the two addresses of the database.
use apsis.Prelude.{
  ℕ, zero, suc, ◌+◌, ◌-◌, ◌*◌, ◌≤◌, ◌<◌, ◌/◌, ◌%◌, Str, codes, strip, is_empty, join, Bool, true,
  false, not, ◌&&◌, List, [], ◌∷◌, ◌++◌, map, keep, All, ltb, ◌==◌, Bool-cases, inl, inr, ◌≡◌, refl,
  ◌∙◌, ap, arith,
}
use apsis.App.Settings.{
  Settings, digits_before, show_int, split, origins, address, build_database_url, build_asyncpg_dsn,
}

-- The number that digits write, after those read so far.
value : ℕ → Str → ℕ
value n [] = n
value n (c ∷ s) = value (n * 10 + (c - 48)) s

value-digits_before :
    (fuel n : ℕ) (s : Str) → n < fuel → value 0 (digits_before fuel n s) ≡ value n s
unfolding digits_before value
value-digits_before zero n s h = absurd (omega arith)
value-digits_before (suc fuel) n s h = elim (Bool-cases (ltb n 10)) [
  | inl one ↦
      let digit : 0 * 10 + (48 + n - 48) ≡ n = omega arith in rw one (ap (λ k. value k s) digit)
  | inr more ↦
      let big : 10 ≤ n = ground arith in
      let whole : n / 10 * 10 + (48 + n % 10 - 48) ≡ n = omega arith in
      rw more (value-digits_before fuel (n / 10) ((48 + n % 10) ∷ s) (omega arith) ∙ rw whole refl)
]

-- The fuel is enough: the digits of a number write that number.
value-show_int : (n : ℕ) → value 0 (show_int n) ≡ n
unfolding show_int value
value-show_int n = value-digits_before (n + 1) n [] (omega arith)

-- A text without a separator.
abbrev pub is_part : ℕ → Str → Bool
is_part sep [] = true
is_part sep (c ∷ s) = not (c == sep) && is_part sep s

split-part : (sep : ℕ) (s : Str) → is_part sep s ≡ true → split sep s ≡ s ∷ []
unfolding split
split-part sep [] h = refl
split-part sep (c ∷ s) h =
    let other : (c == sep) ≡ false = ground arith in
    rw (other, split-part sep s (ground arith)) refl

split-append :
    (sep : ℕ) (s t : Str) → is_part sep s ≡ true → split sep (s ++ sep ∷ t) ≡ s ∷ split sep t
unfolding split
split-append sep [] t h = let same : (sep == sep) ≡ true = ground arith in rw same refl
split-append sep (c ∷ s) t h =
    let other : (c == sep) ≡ false = ground arith in
    rw (other, split-append sep s t (ground arith)) refl

split-join :
    (sep : ℕ) (part : Str) (parts : List Str)
    → All (λ p. is_part sep p ≡ true) (part ∷ parts)
    → split sep (join (sep ∷ []) (part ∷ parts)) ≡ part ∷ parts
unfolding join
split-join sep part [] h = split-part sep part h.0
split-join sep part (next ∷ parts) h =
    split-append sep part (join (sep ∷ []) (next ∷ parts)) h.0
    ∙ ap (λ ps. part ∷ ps) (split-join sep next parts h.1)

-- A text that is an origin as it stands.
pub record IsOrigin (o : Str) : Type 0 where
  pub stripped : strip o ≡ o
  pub solid : is_empty o ≡ false
  pub one : is_part 44 o ≡ true

parts_of : (os : List Str) → All IsOrigin os → All (λ o. is_part 44 o ≡ true) os
parts_of [] h = tt
parts_of (o ∷ os) h = (h.0.one, parts_of os h.1)

kept : (os : List Str) → All IsOrigin os → keep (λ o. not (is_empty o)) (map strip os) ≡ os
kept [] h = refl
kept (o ∷ os) h = rw (h.0.stripped, h.0.solid) (ap (λ ps. o ∷ ps) (kept os h.1))

-- Origins that are joined by commas are read back.
pub origins-join :
    (s : Settings) (o : Str) (os : List Str)
    → s.cors_origins ≡ join (codes ",") (o ∷ os)
    → All IsOrigin (o ∷ os)
    → origins s ≡ o ∷ os
unfolding origins
origins-join s o os text h =
    ap (λ t. keep (λ o. not (is_empty o)) (map strip (split 44 t))) text
    ∙ rw (split-join 44 o os (parts_of (o ∷ os) h)) (kept (o ∷ os) h)

-- With no address of its own in the settings, the address that is made of the parts is the one that
-- the outbox worker listens at, but for the name of the driver.
pub build_database_url-build_asyncpg_dsn :
    (s : Settings)
    → is_empty s.database_url ≡ true
    → (rest : Str) × ((build_database_url s).database_url ≡ codes "postgresql+asyncpg" ++ rest)
      × (build_asyncpg_dsn (build_database_url s) ≡ codes "postgresql" ++ rest)
unfolding build_database_url build_asyncpg_dsn address
build_database_url-build_asyncpg_dsn s h = (address s, rw h refl, rw h refl)
