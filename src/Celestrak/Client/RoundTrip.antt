-- ===== src/Celestrak/Client/RoundTrip.antt =====
-- Parsing undoes the format in which CelesTrak serves records.
use apsis.Prelude.{
  ℕ, zero, suc, ◌%◌, ◌-◌, ◌≤◌, Str, codes, str_eq, str_eq_iff, is_space, is_line_break, lstrip,
  rstrip, strip, starts_with, is_empty, Bool, true, false, not, ◌&&◌, ◌||◌, List, [], ◌∷◌, ◌++◌,
  map, length, keep, ◌==◌, ==_iff, ◌≡◌, refl, sym, ap, ◌∙◌, arith, All, Bool-cases, inl, inr,
}
use apsis.Prelude.Whitespace.{
  is_solid, is_empty-strip, rstrip-append, rstrip-append_blank, is_one_line, crlf, joined,
  all_lines, splitlines-joined,
}
use apsis.Celestrak.Types.{TleRecord, ok}
use apsis.Celestrak.Client.{not_found_body, solid_lines, is_tle_pair, parse_groups, parse_records}

-- The name filled with blanks to 24 characters.
unfoldable pub blanks : ℕ → Str
blanks zero = []
blanks (suc n) = 32 ∷ blanks n

unfoldable pub padded : Str → Str
unfolding blanks
padded name = name ++ blanks (24 - length name)

unfoldable pub served_lines : List TleRecord → List Str
unfolding padded
served_lines [] = []
served_lines (r ∷ rs) = padded r.name ∷ r.line1 ∷ r.line2 ∷ served_lines rs

-- Every line ends with a carriage return and a line feed.
unfoldable pub terminated : List Str → Str
terminated [] = []
terminated (l ∷ ls) = l ++ (crlf ++ terminated ls)

unfoldable pub served : List TleRecord → Str
unfolding served_lines terminated
served records = terminated (served_lines records)

-- A record that CelesTrak can serve: no text in it holds a line break, the name is neither blank nor
-- padded, and the data lines carry their marks and end without blanks.
pub record IsServable (r : TleRecord) : Type 0 where
  pub one_name : is_one_line r.name ≡ true
  pub solid_name : is_solid r.name ≡ true
  pub name_left : lstrip r.name ≡ r.name
  pub name_right : rstrip r.name ≡ r.name
  pub one_line1 : is_one_line r.line1 ≡ true
  pub mark1 : starts_with r.line1 (codes "1 ") ≡ true
  pub right1 : rstrip r.line1 ≡ r.line1
  pub one_line2 : is_one_line r.line2 ≡ true
  pub mark2 : starts_with r.line2 (codes "2 ") ≡ true
  pub right2 : rstrip r.line2 ≡ r.line2

rstrip-blanks : (n : ℕ) → rstrip (blanks n) ≡ []
unfolding blanks rstrip is_space
rstrip-blanks zero = refl
rstrip-blanks (suc n) = rw (rstrip-blanks n)

rstrip-padded : (name : Str) → rstrip name ≡ name → rstrip (padded name) ≡ name
unfolding padded
rstrip-padded name h =
    rstrip-append_blank name (blanks (24 - length name)) (rstrip-blanks (24 - length name)) ∙ h

one_line-blanks : (n : ℕ) → is_one_line (blanks n) ≡ true
unfolding blanks is_line_break
one_line-blanks zero = refl
one_line-blanks (suc n) = one_line-blanks n

one_line-append : (s t : Str) → is_one_line (s ++ t) ≡ (is_one_line s && is_one_line t)
one_line-append [] t = refl
one_line-append (c ∷ s) t = ground (arith, one_line-append s t)

one_line-padded : (name : Str) → is_one_line name ≡ true → is_one_line (padded name) ≡ true
unfolding padded
one_line-padded name h = one_line-append name _ ∙ ground (arith, one_line-blanks (24 - length name))

is_solid-append : (s t : Str) → is_solid s ≡ true → is_solid (s ++ t) ≡ true
is_solid-append [] t h = absurd (cc h)
is_solid-append (c ∷ s) t h = ground (arith, is_solid-append s t)

is_solid-padded : (name : Str) → is_solid name ≡ true → is_solid (padded name) ≡ true
unfolding padded
is_solid-padded name h = is_solid-append name _ h

-- A data line is solid, since its mark is.
is_solid-marked1 : (l : Str) → starts_with l (codes "1 ") ≡ true → is_solid l ≡ true
unfolding starts_with is_space
is_solid-marked1 [] h = absurd (cc h)
is_solid-marked1 (c ∷ l) h = ground arith

is_solid-marked2 : (l : Str) → starts_with l (codes "2 ") ≡ true → is_solid l ≡ true
unfolding starts_with is_space
is_solid-marked2 [] h = absurd (cc h)
is_solid-marked2 (c ∷ l) h = ground arith

-- One line that survives: no break inside, and not blank.
abbrev Fits : Str → Type 0
Fits l = (is_one_line l ≡ true) × (is_solid l ≡ true)

pub served_lines-Fits : (rs : List TleRecord) → All IsServable rs → All Fits (served_lines rs)
unfolding served_lines
served_lines-Fits [] h = tt
served_lines-Fits (r ∷ rs) (a, h) = (
  (one_line-padded r.name a.one_name, is_solid-padded r.name a.solid_name),
  (
    (a.one_line1, is_solid-marked1 r.line1 a.mark1),
    ((a.one_line2, is_solid-marked2 r.line2 a.mark2), served_lines-Fits rs h),
  ),
)

solid_filled : (l : Str) → is_solid l ≡ true → is_empty l ≡ false
solid_filled [] h = absurd (cc h)
solid_filled (c ∷ l) h = refl

Fits-all_lines : (ls : List Str) → All Fits ls → all_lines ls ≡ true
Fits-all_lines [] h = refl
Fits-all_lines (l ∷ ls) h = ground (arith, h.0.0, solid_filled l h.0.1, Fits-all_lines ls h.1)

keep_fitting : (ls : List Str) → All Fits ls → keep (λ l. not (is_empty (strip l))) ls ≡ ls
keep_fitting [] h = refl
keep_fitting (l ∷ ls) h = ground (arith, is_empty-strip l, h.0.1, keep_fitting ls h.1)

-- The last line ends without blanks.
abbrev EndsRight : Str → List Str → Type 0
EndsRight l [] = rstrip l ≡ l
EndsRight l (m ∷ ls) = EndsRight m ls

served-EndsRight :
    (r : TleRecord) (rs : List TleRecord)
    → All IsServable (r ∷ rs)
    → EndsRight (padded r.name) (r.line1 ∷ r.line2 ∷ served_lines rs)
unfolding served_lines
served-EndsRight r [] h = h.0.right2
served-EndsRight r (q ∷ rs) h = served-EndsRight q rs h.1

joined_filled :
    (l : Str) (ls : List Str) → all_lines (l ∷ ls) ≡ true → is_empty (joined l ls) ≡ false
unfolding joined
joined_filled l [] h = ground arith
joined_filled [] (m ∷ ls) h = absurd (cc h)
joined_filled (c ∷ l) (m ∷ ls) h = refl

rstrip-terminated :
    (l : Str) (ls : List Str)
    → all_lines (l ∷ ls) ≡ true
    → EndsRight l ls
    → rstrip (terminated (l ∷ ls)) ≡ joined l ls
unfolding terminated joined
rstrip-terminated l [] h right = rstrip-append_blank l crlf (unfold rstrip is_space in refl) ∙ right
rstrip-terminated l (m ∷ ls) h right =
    let rest = rstrip-terminated m ls (ground arith) right in
    let filled : is_empty (rstrip (terminated (m ∷ ls))) ≡ false =
      rw rest (joined_filled m ls (ground arith)) in
    let broken = rstrip-append crlf (terminated (m ∷ ls)) filled in
    rstrip-append l (crlf ++ terminated (m ∷ ls)) (rw broken refl)
    ∙ ap (λ x. l ++ x) (broken ∙ ap (λ x. crlf ++ x) rest)

length-lstrip : (s : Str) → length (lstrip s) ≤ length s
unfolding lstrip
length-lstrip [] = omega arith
length-lstrip (c ∷ s) = ground (arith, length-lstrip s)

lstrip_head : (c : ℕ) (s : Str) → lstrip (c ∷ s) ≡ c ∷ s → is_space c ≡ false
unfolding lstrip
lstrip_head c s h = elim (Bool-cases (is_space c)) [
  | inr solid ↦ solid
  | inl blank ↦
      let short : lstrip s ≡ c ∷ s = rw (blank, lstrip) at h in
      absurd (omega (arith, length-lstrip s, ap length short))
]

lstrip-append : (s t : Str) → is_empty s ≡ false → lstrip s ≡ s → lstrip (s ++ t) ≡ s ++ t
unfolding lstrip
lstrip-append [] t h e = absurd (cc h)
lstrip-append (c ∷ s) t h e = rw (lstrip_head c s e)

lstrip-joined :
    (l : Str) (ls : List Str)
    → is_empty l ≡ false
    → lstrip l ≡ l
    → lstrip (joined l ls) ≡ joined l ls
unfolding joined
lstrip-joined l [] h e = e
lstrip-joined l (m ∷ ls) h e = lstrip-append l (crlf ++ joined m ls) h e

abbrev has_return : Str → Bool
has_return [] = false
has_return (c ∷ s) = c == 13 || has_return s

has_return-broken : (l rest : Str) → has_return (l ++ (crlf ++ rest)) ≡ true
has_return-broken [] rest = refl
has_return-broken (c ∷ l) rest = ground (arith, has_return-broken l rest)

-- A text of two lines is not the one-line notice.
broken_not_notice : (l rest : Str) → str_eq (l ++ (crlf ++ rest)) not_found_body ≡ false
broken_not_notice l rest = elim (Bool-cases (str_eq (l ++ (crlf ++ rest)) not_found_body)) [
  | inr differs ↦ differs
  | inl same ↦ absurd (
      let e = ap has_return ((str_eq_iff (l ++ (crlf ++ rest)) not_found_body).0 same) in
      cc (sym (has_return-broken l rest) ∙ e))
]

-- The lines as the parser keeps them.
parse_groups-served :
    (rs : List TleRecord) → All IsServable rs → parse_groups (map rstrip (served_lines rs)) ≡ ok rs
unfolding parse_groups served_lines is_tle_pair
parse_groups-served [] h = refl
parse_groups-served (r ∷ rs) (a, h) =
    let name : strip r.name ≡ r.name = unfold strip in (ap lstrip a.name_right ∙ a.name_left) in
    rw (rstrip-padded r.name a.name_right)
      (rw (a.right1, a.right2) (ground (arith, a.mark1, a.mark2, name, parse_groups-served rs h)))

length-served : (rs : List TleRecord) → length (map rstrip (served_lines rs)) % 3 ≡ 0
unfolding served_lines
length-served [] = refl
length-served (r ∷ rs) = omega (arith, length-served rs)

-- The text that the parser works on: what was served, without the last line's end.
strip-served :
    (r : TleRecord) (rs : List TleRecord)
    → All IsServable (r ∷ rs)
    → strip (served (r ∷ rs)) ≡ joined (padded r.name) (r.line1 ∷ r.line2 ∷ served_lines rs)
unfolding strip served served_lines padded
strip-served r rs h =
    let fits = Fits-all_lines (served_lines (r ∷ rs)) (served_lines-Fits (r ∷ rs) h) in
    ap lstrip (
      rstrip-terminated (padded r.name) (r.line1 ∷ r.line2 ∷ served_lines rs) fits
        (served-EndsRight r rs h))
    ∙ lstrip-joined (padded r.name) (r.line1 ∷ r.line2 ∷ served_lines rs)
        (solid_filled _ (is_solid-padded r.name h.0.solid_name))
        (lstrip-append r.name _ (solid_filled r.name h.0.solid_name) h.0.name_left)

solid_lines-served :
    (r : TleRecord) (rs : List TleRecord)
    → All IsServable (r ∷ rs)
    → solid_lines (strip (served (r ∷ rs))) ≡ map rstrip (served_lines (r ∷ rs))
unfolding solid_lines served_lines
solid_lines-served r rs h =
    let lines = padded r.name ∷ r.line1 ∷ r.line2 ∷ served_lines rs in
    let all_fit = served_lines-Fits (r ∷ rs) h in
    rw (strip-served r rs h) (
      rw
        (splitlines-joined (padded r.name) (r.line1 ∷ r.line2 ∷ served_lines rs)
          (Fits-all_lines lines all_fit))
        (ap (map rstrip) (keep_fitting lines all_fit)))

-- Parsing what CelesTrak serves, CRLF line ends and names padded to 24 characters included, gives
-- back the records, for one or more records whose texts hold no line break, whose names are neither
-- blank nor padded, and whose data lines carry their marks and end without blanks.
pub parse_records-served :
    (r : TleRecord) (rs : List TleRecord)
    → All IsServable (r ∷ rs)
    → parse_records (served (r ∷ rs)) ≡ ok (r ∷ rs)
unfolding parse_records
parse_records-served r rs h =
    let text = strip (served (r ∷ rs)) in
    let filled : is_empty text ≡ false = rw (strip-served r rs h) (
      joined_filled (padded r.name) (r.line1 ∷ r.line2 ∷ served_lines rs) (
        unfold served_lines in
        Fits-all_lines (served_lines (r ∷ rs)) (served_lines-Fits (r ∷ rs) h))) in
    let not_notice : str_eq text not_found_body ≡ false = rw (strip-served r rs h) (
      unfold joined in
      broken_not_notice (padded r.name) (joined r.line1 (r.line2 ∷ served_lines rs))) in
    let whole : (length (solid_lines text) % 3 == 0) ≡ true =
      rw (solid_lines-served r rs h) ((==_iff _ 0).1 (length-served (r ∷ rs))) in
    let parsed : parse_groups (solid_lines text) ≡ ok (r ∷ rs) =
      rw (solid_lines-served r rs h) (parse_groups-served (r ∷ rs) h) in
    ground (arith, filled, not_notice, whole, parsed)
