-- ===== src/Events/Worker/State.antt =====
-- What `handler_state` remembers of the handlers.
use apsis.Prelude.{
  Instant, Str, contains, str_eq, str_eq_iff, Dict, lookup, insert, Unique, insert-Unique, Bool,
  true, false, none, List, [], ◌∷◌, ◌≡◌, refl, ◌∙◌, ap, arith, All, if◌then◌else◌, Bool-cases, inl,
  inr,
}
use apsis.Events.Outbox.{Entry}
use apsis.Events.Dispatcher.{Handler, HandlerResult, DispatchResult}
use apsis.Events.Dispatcher.Isolation.{AllReported}
use apsis.Events.Dispatcher.Skipping.{AllReported-skips}
use apsis.Events.Worker.{is_ok, completed_names, entry_of, record_results}

-- Whether the state says "ok" for a name.
abbrev pub is_done : Dict Entry → Str → Bool
is_done state n = contains (completed_names state) n

absent-is_done : (n : Str) (state : Dict Entry) → lookup n state ≡ none → is_done state n ≡ false
unfolding lookup completed_names contains
absent-is_done n [] h = refl
absent-is_done n ((j, e) ∷ state) h = ground (arith, absent-is_done n state)

is_done-insert :
    (k n : Str) (e : Entry) (state : Dict Entry)
    → Unique state
    → is_done (insert k e state) n ≡ (if str_eq k n then is_ok e.status else is_done state n)
unfolding insert completed_names contains
is_done-insert k n e [] u = ground arith
is_done-insert k n e ((j, x) ∷ state) u = ground (
  arith,
  str_eq_iff k n,
  str_eq_iff j k,
  str_eq_iff j n,
  absent-is_done j state,
  is_done-insert k n e state u.1,
)

-- The last unskipped result under a name decides; with none, what was known before stays.
unfoldable pub verdict : Str → DispatchResult → Bool → Bool
verdict n [] known = known
verdict n (r ∷ rs) known =
    verdict n rs (if r.skipped then known else if str_eq r.handler_name n then r.success else known)

module _ (now : Instant) where
  -- One turn of the loop that records.
  abbrev record_one : HandlerResult → Dict Entry → Dict Entry
  record_one r state = if r.skipped then state else insert r.handler_name (entry_of now r) state

  record_one-Unique :
      (r : HandlerResult) (state : Dict Entry) → Unique state → Unique (record_one r state)
  record_one-Unique r state u =
      ground (arith, insert-Unique r.handler_name (entry_of now r) state u)

  entry_of-is_ok : (r : HandlerResult) → is_ok (entry_of now r).status ≡ r.success
  unfolding entry_of
  entry_of-is_ok r = ground arith

  is_done-record_one :
      (r : HandlerResult) (state : Dict Entry) (n : Str)
      → Unique state
      → is_done (record_one r state) n ≡ (
          if r.skipped
          then is_done state n
          else if str_eq r.handler_name n
          then r.success
          else is_done state n)
  is_done-record_one r state n u =
      ground (arith, entry_of-is_ok r, is_done-insert r.handler_name n (entry_of now r) state u)

  pub record_results-Unique :
      (rs : DispatchResult) (state : Dict Entry)
      → Unique state
      → Unique (record_results now rs state)
  unfolding record_results
  record_results-Unique [] state u = u
  record_results-Unique (r ∷ rs) state u =
      record_results-Unique rs (record_one r state) (record_one-Unique r state u)

  -- After an attempt is recorded a name is done by the verdict of the attempt's results.
  pub is_done-record_results :
      (rs : DispatchResult) (state : Dict Entry) (n : Str)
      → Unique state
      → is_done (record_results now rs state) n ≡ verdict n rs (is_done state n)
  unfolding record_results verdict
  is_done-record_results [] state n u = refl
  is_done-record_results (r ∷ rs) state n u =
      is_done-record_results rs (record_one r state) n (record_one-Unique r state u)
      ∙ ap (verdict n rs) (is_done-record_one r state n u)

-- Where every unskipped result has another name, a name that is done stays done.
pub verdict_done :
    (n : Str) (rs : DispatchResult)
    → All (λ r. str_eq r.handler_name n ≡ true → r.skipped ≡ true) rs
    → verdict n rs true ≡ true
unfolding verdict
verdict_done n [] h = refl
verdict_done n (r ∷ rs) h = elim (Bool-cases r.skipped) [
  | inl old ↦ rw old (verdict_done n rs h.1)
  | inr new ↦ elim (Bool-cases (str_eq r.handler_name n)) [
    | inl same ↦ absurd (ground (arith, h.0))
    | inr other ↦ rw (new, other) (verdict_done n rs h.1)
  ]
]

-- Recording one result for each handler keeps the names that are done, and the keys distinct.
pub record_results_done :
    {W : Type 0} (now : Instant) (n : Str) (state : Dict Entry) (hs : List (Handler W))
    (rs : DispatchResult)
    → Unique state
    → is_done state n ≡ true
    → AllReported (completed_names state) hs rs
    → Unique (record_results now rs state) × (is_done (record_results now rs state) n ≡ true)
record_results_done now n state hs rs u old reported = (
  record_results-Unique now rs state u,
  is_done-record_results now rs state n u
      ∙ ap (verdict n rs) old
      ∙ verdict_done n rs (AllReported-skips n (completed_names state) old hs rs reported),
)
