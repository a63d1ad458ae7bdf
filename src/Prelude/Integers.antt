-- ===== src/Prelude/Integers.antt =====
-- Python's `int` over the native numbers, and `int(text)` for decimal digits of ASCII.
use Prim.Native.Nat.{ℕ, zero, suc, ◌+◌, ◌-◌, ◌*◌}
use mathlib.Core.Path.{◌≡◌, refl}
use mathlib.Core.Logic.{◌↔◌}
use mathlib.Core.Bool.{Bool, true, false, not, ◌&&◌}
use mathlib.Core.Option.{Option, none, some}
use mathlib.Core.Option
use mathlib.Core.List.{[], ◌∷◌}
use native.Mathlib.Omega.{arith}
use apsis.Prelude.Tests.{leb, ◌==◌, if◌then◌else◌}
use apsis.Prelude.Texts.{Str, strip}

pub data ℤ : Type 0 where
  pos : ℕ → ℤ
  negsuc : ℕ → ℤ

unfoldable pub int_eq : ℤ → ℤ → Bool
int_eq (pos m) (pos n) = m == n
int_eq (negsuc m) (negsuc n) = m == n
int_eq (pos m) (negsuc n) = false
int_eq (negsuc m) (pos n) = false

pub int_eq_iff : (i j : ℤ) → (int_eq i j ≡ true) ↔ (i ≡ j)
unfolding int_eq
int_eq_iff (pos m) (pos n) = ground arith
int_eq_iff (negsuc m) (negsuc n) = ground arith
int_eq_iff (pos m) (negsuc n) = (λ h. cc, λ h. cc)
int_eq_iff (negsuc m) (pos n) = (λ h. cc, λ h. cc)

pub int_eq_refl : (i : ℤ) → int_eq i i ≡ true
int_eq_refl i = (int_eq_iff i i).1 refl

unfoldable pub negate : ℕ → ℤ
negate zero = pos zero
negate (suc n) = negsuc n

abbrev pub is_digit : ℕ → Bool
is_digit c = leb 48 c && leb c 57

-- The digits from some place on, with the value so far and whether a digit has to follow: single
-- underscores may stand between digits.
unfoldable pub digits_from : Bool → ℕ → Str → Option ℕ
digits_from wanted value [] = if wanted then none else some value
digits_from wanted value (c ∷ s) = elim (is_digit c) [
  | true ↦ digits_from false (value * 10 + (c - 48)) s
  | false ↦ elim (c == 95 && not wanted) [ true ↦ digits_from true value s | false ↦ none ]
]

unfoldable pub signed : Str → Option ℤ
unfolding digits_from negate
signed [] = none
signed (c ∷ s) =
    if c == 45
    then Option.map negate (digits_from true 0 s)
    else if c == 43
    then Option.map pos (digits_from true 0 s)
    else Option.map pos (digits_from true 0 (c ∷ s))

-- `int(s)`; `none` is its ValueError.
unfoldable pub int_of_str : Str → Option ℤ
unfolding signed
int_of_str s = signed (strip s)
