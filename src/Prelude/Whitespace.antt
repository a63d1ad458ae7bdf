-- ===== src/Prelude/Whitespace.antt =====
-- Laws of `strip`, `rstrip` and `splitlines`.
use mathlib.Core.Path.{◌≡◌, refl, ap, ◌∙◌}
use mathlib.Core.Bool.{Bool, true, false, not, ◌&&◌, ◌||◌}
use mathlib.Core.List.{List, [], ◌∷◌, ◌++◌, append-nil, append_assoc}
use native.Mathlib.Omega.{arith}
use Prim.Native.Nat.{ℕ}
use apsis.Prelude.Tests.{◌==◌}
use apsis.Prelude.Texts.{
  Str, is_space, is_line_break, lstrip, rstrip, rstrip_cons, strip, is_empty, split_from,
  splitlines,
}

-- Whether a text has a character that is no whitespace.
abbrev pub is_solid : Str → Bool
is_solid [] = false
is_solid (c ∷ s) = not (is_space c) || is_solid s

-- Every line break is whitespace.
pub space_of_break : (c : ℕ) → is_line_break c ≡ true → is_space c ≡ true
unfolding is_line_break is_space
space_of_break c h = ground arith

space_of_feed : (c : ℕ) → (c == 10) ≡ true → is_space c ≡ true
unfolding is_space
space_of_feed c h = ground arith

rstrip_cons-is_solid : (c : ℕ) (t : Str) → is_solid (rstrip_cons c t) ≡ is_solid (c ∷ t)
unfolding rstrip_cons
rstrip_cons-is_solid c [] = ground arith
rstrip_cons-is_solid c (d ∷ t) = refl

rstrip-is_solid : (s : Str) → is_solid (rstrip s) ≡ is_solid s
unfolding rstrip
rstrip-is_solid [] = refl
rstrip-is_solid (c ∷ s) =
    rstrip_cons-is_solid c (rstrip s) ∙ ap (λ b. not (is_space c) || b) (rstrip-is_solid s)

lstrip-is_solid : (s : Str) → is_solid (lstrip s) ≡ is_solid s
unfolding lstrip
lstrip-is_solid [] = refl
lstrip-is_solid (c ∷ s) = ground (arith, lstrip-is_solid s)

pub strip-is_solid : (s : Str) → is_solid (strip s) ≡ is_solid s
unfolding strip
strip-is_solid s = lstrip-is_solid (rstrip s) ∙ rstrip-is_solid s

lstrip_solid : (s : Str) → is_empty (lstrip s) ≡ not (is_solid s)
unfolding lstrip
lstrip_solid [] = refl
lstrip_solid (c ∷ s) = ground (arith, lstrip_solid s)

-- A text strips to nothing exactly if it has no solid character.
pub is_empty-strip : (s : Str) → is_empty (strip s) ≡ not (is_solid s)
unfolding strip
is_empty-strip s = lstrip_solid (rstrip s) ∙ ap not (rstrip-is_solid s)

is_solid-append : (s t : Str) → is_solid (s ++ t) ≡ (is_solid s || is_solid t)
is_solid-append [] t = refl
is_solid-append (c ∷ s) t = ground (arith, is_solid-append s t)

abbrev pub some_solid : List Str → Bool
some_solid [] = false
some_solid (l ∷ ls) = is_solid l || some_solid ls

split_from-solid :
    (cr : Bool) (line s : Str)
    → (is_solid line || is_solid s) ≡ true
    → some_solid (split_from cr line s) ≡ true
unfolding split_from
split_from-solid cr [] [] h = absurd (cc h)
split_from-solid cr (c ∷ line) [] h = ground arith
split_from-solid cr line (c ∷ s) h = ground (
  arith,
  space_of_break c,
  space_of_feed c,
  is_solid-append line (c ∷ []),
  split_from-solid false line s,
  split_from-solid (c == 13) [] s,
  split_from-solid false (line ++ c ∷ []) s,
)

-- A solid text has a solid line.
pub splitlines-solid : (s : Str) → is_solid s ≡ true → some_solid (splitlines s) ≡ true
unfolding splitlines
splitlines-solid s h = split_from-solid false [] s h

rstrip_cons-append : (c : ℕ) (t : Str) → is_empty t ≡ false → rstrip_cons c t ≡ c ∷ t
unfolding rstrip_cons
rstrip_cons-append c [] h = absurd (cc h)
rstrip_cons-append c (d ∷ t) h = refl

is_empty-append : (s t : Str) → is_empty t ≡ false → is_empty (s ++ t) ≡ false
is_empty-append [] t h = h
is_empty-append (c ∷ s) t h = refl

-- Stripping on the right stops in the last part that is not blank.
pub rstrip-append : (s t : Str) → is_empty (rstrip t) ≡ false → rstrip (s ++ t) ≡ s ++ rstrip t
unfolding rstrip
rstrip-append [] t h = refl
rstrip-append (c ∷ s) t h =
    ap (rstrip_cons c) (rstrip-append s t h)
    ∙ rstrip_cons-append c (s ++ rstrip t) (is_empty-append s (rstrip t) h)

-- A blank end is stripped.
pub rstrip-append_blank : (s t : Str) → rstrip t ≡ [] → rstrip (s ++ t) ≡ rstrip s
unfolding rstrip
rstrip-append_blank [] t h = h
rstrip-append_blank (c ∷ s) t h = ap (rstrip_cons c) (rstrip-append_blank s t h)

-- No character of the text ends a line.
abbrev pub is_one_line : Str → Bool
is_one_line [] = true
is_one_line (c ∷ s) = not (is_line_break c) && is_one_line s

abbrev pub crlf : Str
crlf = 13 ∷ 10 ∷ []

split_from-line :
    (line l rest : Str)
    → is_one_line l ≡ true
    → split_from false line (l ++ (crlf ++ rest)) ≡ (line ++ l) ∷ split_from false [] rest
unfolding split_from is_line_break
split_from-line line [] rest h = rw append-nil
split_from-line line (c ∷ l) rest h =
    let plain : is_line_break c ≡ false = ground arith in
    rw (plain, split_from)
      (split_from-line (line ++ c ∷ []) l rest (ground arith)
        ∙ ap (λ x. x ∷ split_from false [] rest) (append_assoc line (c ∷ []) l))

split_from-last :
    (line l : Str)
    → is_one_line l ≡ true
    → is_empty (line ++ l) ≡ false
    → split_from false line l ≡ (line ++ l) ∷ []
unfolding split_from
split_from-last line [] h e =
    let full : is_empty line ≡ false = rw append-nil at e in rw append-nil (rw full)
split_from-last line (c ∷ l) h e =
    let plain : is_line_break c ≡ false = ground arith in
    rw (plain, split_from)
      (split_from-last (line ++ c ∷ []) l (ground arith) (rw (append_assoc line (c ∷ []) l) e)
        ∙ ap (λ x. x ∷ []) (append_assoc line (c ∷ []) l))

-- Lines with a break between each two of them.
unfoldable pub joined : Str → List Str → Str
joined l [] = l
joined l (m ∷ ls) = l ++ (crlf ++ joined m ls)

abbrev pub all_lines : List Str → Bool
all_lines [] = true
all_lines (l ∷ ls) = is_one_line l && not (is_empty l) && all_lines ls

-- Splitting undoes joining, for lines that are not empty and hold no break.
pub splitlines-joined :
    (l : Str) (ls : List Str) → all_lines (l ∷ ls) ≡ true → splitlines (joined l ls) ≡ l ∷ ls
unfolding splitlines joined
splitlines-joined l [] h = split_from-last [] l (ground arith) (ground arith)
splitlines-joined l (m ∷ ls) h =
    split_from-line [] l (joined m ls) (ground arith)
    ∙ ap (λ x. l ∷ x) (splitlines-joined m ls (ground arith))
