-- ===== src/Tracking/Passes/Sampling.antt =====
-- The instants at which the ground track is sampled.
use native.Mathlib.Nat.{
  div-add-mod, mod-lt, mul-add, mul-le-mul_left, mul_comm, mul-zero, mul-div_cancel_left,
  mul-mod_right, le-div_iff_mul-le, div-mul-le_self,
}
use native.Mathlib.Decide.{dec_lt}
use apsis.Prelude.{
  ℕ, zero, suc, ◌+◌, ◌-◌, ◌*◌, ◌/◌, ◌%◌, ◌≤◌, ◌<◌, ◌⊎◌, inl, inr, Instant, List, [], ◌∷◌, length,
  ◌≡◌, refl, sym, ◌∙◌, ap, arith,
}
use apsis.Tracking.Passes.{divide_and_round, sample_at, samples_from, set_last, sample_instants}

-- Division of a time span by a positive number rounds to a nearest microsecond: the quotient times
-- the divisor is off by at most half the divisor.
pub divide_and_round_near :
    (a b : ℕ)
    → 0 < b
    → (2 * a ≤ 2 * (b * divide_and_round a b) + b) × (2 * (b * divide_and_round a b) ≤ 2 * a + b)
unfolding divide_and_round
divide_and_round_near a b pos =
    let whole = div-add-mod a b in
    let small = mod-lt a pos in
    (
      ground (arith, whole, small, mul-add b (a / b) 1),
      ground (arith, whole, small, mul-add b (a / b) 1),
    )

-- Quotient and remainder keep order, the remainder where the quotients agree.
div_mod_order :
    (a a' b : ℕ) → 0 < b → a ≤ a' → (a / b < a' / b) ⊎ ((a / b ≡ a' / b) × (a % b ≤ a' % b))
div_mod_order a a' b pos le =
    let grows : a / b ≤ a' / b = (le-div_iff_mul-le pos).1 (omega (arith, div-mul-le_self a b)) in
    elim (dec_lt (a / b) (a' / b)) [
      | yes less ↦ inl less
      | no not_less ↦
          let same : a / b ≡ a' / b = omega arith in
          inr (same, omega (arith, div-add-mod a b, div-add-mod a' b, ap (λ (q : ℕ). b * q) same))
    ]

-- Rounding keeps order.
divide_and_round_mono : (a a' b : ℕ) → 0 < b → a ≤ a' → divide_and_round a b ≤ divide_and_round a' b
unfolding divide_and_round
divide_and_round_mono a a' b pos le = ground (arith, div_mod_order a a' b pos le)

-- An exact multiple needs no rounding.
divide_and_round_exact : (a b : ℕ) → 0 < b → divide_and_round (b * a) b ≡ a
unfolding divide_and_round
divide_and_round_exact a b pos = rw (mul-div_cancel_left a pos, mul-mod_right b a) (ground arith)

-- Instants that climb from `lo` to `hi`.
abbrev pub Climbs : Instant → List Instant → Instant → Type 0
Climbs lo [] hi = lo ≤ hi
Climbs lo (t ∷ ts) hi = (lo ≤ t) × Climbs t ts hi

abbrev pub last_or : Instant → List Instant → Instant
last_or t [] = t
last_or t (u ∷ us) = last_or u us

length-set_last : (ts : List Instant) (end : Instant) → length (set_last ts end) ≡ length ts
unfolding set_last
length-set_last [] end = refl
length-set_last (t ∷ []) end = refl
length-set_last (t ∷ u ∷ ts) end = ap suc (length-set_last (u ∷ ts) end)

length-samples_from :
    (start end : Instant) (n step left : ℕ) → length (samples_from start end n step left) ≡ left
unfolding samples_from
length-samples_from start end n step zero = refl
length-samples_from start end n step (suc left) =
    ap suc (length-samples_from start end n (step + 1) left)

last-set_last :
    (d t : Instant) (ts : List Instant) (end : Instant) → last_or d (set_last (t ∷ ts) end) ≡ end
unfolding set_last
last-set_last d t [] end = refl
last-set_last d t (u ∷ ts) end = last-set_last t u ts end

module _ (start end : Instant) (intervals : ℕ) (pos : 0 < intervals) (forward : start ≤ end) where
  sample_forward :
      (step : ℕ)
      → sample_at start end intervals step
        ≡ start + divide_and_round ((end - start) * step) intervals
  unfolding sample_at
  sample_forward step = ground arith

  sample-zero : sample_at start end intervals 0 ≡ start
  sample-zero =
      let none : divide_and_round ((end - start) * 0) intervals ≡ 0 =
        ap (λ x. divide_and_round x intervals) (mul-zero (end - start) ∙ sym (mul-zero intervals))
        ∙ divide_and_round_exact 0 intervals pos in
      omega (arith, sample_forward 0, none)

  sample_mono :
      (step step' : ℕ)
      → step ≤ step'
      → sample_at start end intervals step ≤ sample_at start end intervals step'
  sample_mono step step' le =
      rw (sample_forward step, sample_forward step')
        (omega (
          arith,
          divide_and_round_mono ((end - start) * step) ((end - start) * step') intervals pos
              (mul-le-mul_left (end - start) le),
        ))

  sample_last : sample_at start end intervals intervals ≡ end
  sample_last =
      let all : divide_and_round ((end - start) * intervals) intervals ≡ end - start =
        ap (λ x. divide_and_round x intervals) (mul_comm (end - start) intervals)
        ∙ divide_and_round_exact (end - start) intervals pos in
      omega (arith, sample_forward intervals, all)

  sample-le-end : (step : ℕ) → step ≤ intervals → sample_at start end intervals step ≤ end
  sample-le-end step le = omega (arith, sample_mono step intervals le, sample_last)

  samples-Climbs :
      (left step : ℕ) (lo : Instant)
      → step + left ≤ intervals + 1
      → lo ≤ end
      → lo ≤ sample_at start end intervals step
      → Climbs lo (set_last (samples_from start end intervals step left) end) end
  unfolding samples_from set_last
  samples-Climbs zero step lo room le first = le
  samples-Climbs (suc zero) step lo room le first = (le, omega arith)
  samples-Climbs (suc (suc left)) step lo room le first = (
    first,
    samples-Climbs (suc left) (step + 1) (sample_at start end intervals step) (omega arith)
        (sample-le-end step (omega arith)) (sample_mono step (step + 1) (omega arith)),
  )

-- For a pass that ends no sooner than it begins and at least two samples, there are as many instants
-- as asked for, the first is the start, the last is the end, and they climb from the one to the
-- other.
pub sample_instants-Climbs :
    (start end : Instant) (count : ℕ)
    → start ≤ end
    → 2 ≤ count
    → (ts : List Instant) × (sample_instants start end count ≡ start ∷ ts)
      × (length (start ∷ ts) ≡ count)
      × (last_or start ts ≡ end)
      × Climbs start ts end
unfolding sample_instants samples_from set_last
sample_instants-Climbs start end zero le two = absurd (omega arith)
sample_instants-Climbs start end (suc zero) le two = absurd (omega arith)
sample_instants-Climbs start end (suc (suc n)) le two = (
  rest,
  ap (λ t. t ∷ rest) begins,
  ap suc (length-set_last later end ∙ length-samples_from start end k (0 + 1) (suc n)),
  last-set_last start (sample_at start end k (0 + 1)) (samples_from start end k (0 + 1 + 1) n) end,
  samples-Climbs start end k pos le (suc n) (0 + 1) start (omega arith) le
      (omega (arith, begins, sample_mono start end k pos le 0 (0 + 1) (omega arith))),
)
  where
    k : ℕ
    k = suc (suc n) - 1

    pos : 0 < k
    pos = omega arith

    later : List Instant
    later = samples_from start end k (0 + 1) (suc n)

    rest : List Instant
    rest = set_last later end

    begins : sample_at start end k 0 ≡ start
    begins = sample-zero start end k pos le

-- As many instants as asked for, whichever of the two ends comes first.
pub length-sample_instants :
    (start end : Instant) (count : ℕ) → length (sample_instants start end count) ≡ count
unfolding sample_instants
length-sample_instants start end count =
    length-set_last (samples_from start end (count - 1) 0 count) end
    ∙ length-samples_from start end (count - 1) 0 count
