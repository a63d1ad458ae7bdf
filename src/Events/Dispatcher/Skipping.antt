-- ===== src/Events/Dispatcher/Skipping.antt =====
-- A completed handler is not called: no other code under its name would change a dispatch.
use apsis.Prelude.{
  Outcome, ℕ, Str, str_eq, str_eq_iff, lookup, contains, true, some, List, [], ◌∷◌, ◌++◌, ◌≡◌, refl,
  sym, ◌∙◌, ap, arith, All, if◌then◌else◌, Option-cases, Bool-cases, inl, inr,
}
use apsis.Events.Outbox.{Payload}
use apsis.Events.Dispatcher.{
  Handler, DispatchResult, attempt, run_handlers, EventDispatcher, handlers_for, dispatch,
}
use apsis.Events.Dispatcher.Isolation.{AllReported}

module _ {W : Type 0} (n : Str) (g : ℕ → Payload → W → Outcome × W) where
  -- The handler of that name with another body.
  abbrev replace_one : Handler W → Handler W
  replace_one h = if str_eq h.name n then record h { run = g } else h

  unfoldable pub replace_all : List (Handler W) → List (Handler W)
  replace_all [] = []
  replace_all (h ∷ hs) = replace_one h ∷ replace_all hs

  -- The dispatcher in which every handler of that name has the body `g`.
  unfoldable pub replace_handler : EventDispatcher W → EventDispatcher W
  replace_handler [] = []
  replace_handler ((k, hs) ∷ d) = (k, replace_all hs) ∷ replace_handler d

  handlers_for-replace :
      (event_type : Str) (d : EventDispatcher W)
      → handlers_for event_type (replace_handler d) ≡ replace_all (handlers_for event_type d)
  unfolding handlers_for replace_handler replace_all lookup
  handlers_for-replace event_type [] = refl
  handlers_for-replace event_type ((k, hs) ∷ d) = elim (Bool-cases (str_eq k event_type)) [
    | inl here ↦ rw here
    | inr there ↦ rw there (handlers_for-replace event_type d)
  ]

  module _ (timeout : ℕ) (payload : Payload) (completed : List Str)
      (old : contains completed n ≡ true) where
    attempt-replace :
        (h : Handler W) (w : W)
        → attempt timeout payload completed (replace_one h) w
          ≡ attempt timeout payload completed h w
    unfolding attempt
    attempt-replace h w = elim (Bool-cases (str_eq h.name n)) [
      | inl same ↦
          let known : contains completed h.name ≡ true = rw ((str_eq_iff h.name n).0 same) old in
          rw (same, known)
      | inr other ↦ rw other
    ]

    pub run_handlers-replace :
        (hs : List (Handler W)) (results : DispatchResult) (w : W)
        → run_handlers timeout payload completed (replace_all hs) results w
          ≡ run_handlers timeout payload completed hs results w
    unfolding run_handlers replace_all
    run_handlers-replace [] results w = refl
    run_handlers-replace (h ∷ hs) results w =
        elim (Option-cases (attempt timeout payload completed h w).0) [
          | inl gone ↦ ground (arith, attempt-replace h w)
          | inr (r, got) ↦ ground (
            arith,
            attempt-replace h w,
            run_handlers-replace hs (results ++ r ∷ []) (attempt timeout payload completed h w).1,
          )
        ]

-- A dispatch does not depend on the code of a completed handler.
pub dispatch-replace :
    {W : Type 0} (n : Str) (g : ℕ → Payload → W → Outcome × W) (d : EventDispatcher W) (timeout : ℕ)
    (event_type : Str) (payload : Payload) (completed : List Str) (w : W)
    → contains completed n ≡ true
    → dispatch (replace_handler n g d) timeout event_type payload (some completed) w
      ≡ dispatch d timeout event_type payload (some completed) w
unfolding dispatch
dispatch-replace n g d timeout event_type payload completed w old =
    rw (handlers_for-replace n g event_type d)
      (run_handlers-replace n g timeout payload completed old (handlers_for event_type d) [] w)

-- Where a name is completed, no unskipped result goes by it.
pub AllReported-skips :
    {W : Type 0} (n : Str) (completed : List Str)
    → contains completed n ≡ true
    → (hs : List (Handler W)) (rs : DispatchResult) → AllReported completed hs rs
    → All (λ r. str_eq r.handler_name n ≡ true → r.skipped ≡ true) rs
AllReported-skips n completed old [] [] a = tt
AllReported-skips n completed old [] (r ∷ rs) a = absurd a
AllReported-skips n completed old (h ∷ hs) [] a = absurd a
AllReported-skips n completed old (h ∷ hs) (r ∷ rs) a = (
  (λ same.
      a.0.skips
      ∙ ap (contains completed) (sym a.0.named ∙ (str_eq_iff r.handler_name n).0 same)
      ∙ old),
  AllReported-skips n completed old hs rs a.1,
)
