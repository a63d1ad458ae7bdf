-- ===== src/Events/Dispatcher/Isolation.antt =====
-- What `dispatch` reports and runs, handler by handler.
use mathlib.Core.List.{append_assoc, append-nil}
use apsis.Prelude.{
  cancelled, Outcome, returned, raised, ℕ, Str, contains, true, not, some, List, [], ◌∷◌, ◌++◌, ◌≡◌,
  ◌≢◌, refl, sym, ap, ◌∙◌, arith, keep, All, Option-cases, Bool-cases, inl, inr,
}
use apsis.Events.Outbox.{Payload}
use apsis.Events.Dispatcher.{
  Handler, HandlerResult, DispatchResult, skipped_result, ok_result, failed_result, classify,
  attempt, run_handlers, EventDispatcher, handlers_for, dispatch,
}

-- Every handler of the list runs, in order, each on the world that the one before it left.
unfoldable pub run_all : {W : Type 0} → ℕ → Payload → List (Handler W) → W → W
run_all timeout payload [] w = w
run_all timeout payload (h ∷ hs) w = run_all timeout payload hs (h.run timeout payload w).1

-- A handler that is never cancelled; it may return, raise or time out.
abbrev pub NeverCancelled : {W : Type 0} → Handler W → Type 0
NeverCancelled {W} h =
    (timeout : ℕ) (payload : Payload) (w : W) → (h.run timeout payload w).0 ≢ cancelled

module _ {W : Type 0} (completed : List Str) where
  -- One result that fits one handler: its name, and skipped, as a success, exactly if completed.
  pub record Reports (h : Handler W) (r : HandlerResult) : Type 0 where
    pub named : r.handler_name ≡ h.name
    pub skips : r.skipped ≡ contains completed h.name
    pub skip_succeeds : contains completed h.name ≡ true → r.success ≡ true

  -- One result for each handler, in the handlers' order.
  abbrev pub AllReported : List (Handler W) → List HandlerResult → Type 0
  AllReported [] [] = Unit
  AllReported [] (r ∷ rs) = ⊥
  AllReported (h ∷ hs) [] = ⊥
  AllReported (h ∷ hs) (r ∷ rs) = Reports h r × AllReported hs rs

  -- The handlers that an earlier attempt has not completed.
  abbrev pub outstanding : List (Handler W) → List (Handler W)
  outstanding hs = keep (λ h. not (contains completed h.name)) hs

classify_calm :
    (n : Str) (o : Outcome) → o ≢ cancelled → (r : HandlerResult) × (classify n o ≡ some r)
unfolding classify
classify_calm n returned calm = (ok_result n, refl)
classify_calm n (raised tb) calm = (failed_result n tb, refl)
classify_calm n cancelled calm = absurd (calm refl)

module _ {W : Type 0} (timeout : ℕ) (payload : Payload) (completed : List Str) where
  pub attempt-Reports :
      (h : Handler W) (w : W) {r : HandlerResult}
      → (attempt timeout payload completed h w).0 ≡ some r
      → Reports completed h r
  unfolding attempt classify
  attempt-Reports h w e = ground arith

  -- Where the loop ends, what it appends reports on every handler.
  pub run_handlers-AllReported :
      (hs : List (Handler W)) (results : DispatchResult) (w : W) {every : DispatchResult}
      → (run_handlers timeout payload completed hs results w).0 ≡ some every
      → (new : DispatchResult) × (every ≡ results ++ new) × AllReported completed hs new
  unfolding run_handlers
  run_handlers-AllReported [] results w e = ([], rw append-nil (ground arith), tt)
  run_handlers-AllReported (h ∷ hs) results w {every} e =
      elim (Option-cases (attempt timeout payload completed h w).0) [
        | inl gone ↦ absurd (ground arith)
        | inr (r, got) ↦
            let (new, split, reported) =
              run_handlers-AllReported hs (results ++ r ∷ [])
                (attempt timeout payload completed h w).1 {every = every}
                (rw (got, run_handlers) at e) in
            (
              r ∷ new,
              split ∙ append_assoc results (r ∷ []) new,
              (attempt-Reports h w got, reported),
            )
      ]

  -- A handler that is not cancelled gives a result, and runs exactly if it is outstanding.
  attempt_calm :
      (h : Handler W) (w : W)
      → NeverCancelled h
      → (r : HandlerResult) × (attempt timeout payload completed h w
          ≡ (some r, run_all timeout payload (outstanding completed (h ∷ [])) w))
  unfolding attempt run_all
  attempt_calm h w calm = elim (Bool-cases (contains completed h.name)) [
    | inl old ↦ (skipped_result h.name, rw old)
    | inr new ↦
        let (r, got) = classify_calm h.name (h.run timeout payload w).0 (calm timeout payload w) in
        (r, rw (new, got))
  ]

  run_all-outstanding :
      (h : Handler W) (hs : List (Handler W)) (w : W)
      → run_all timeout payload (outstanding completed (h ∷ hs)) w
        ≡ run_all timeout payload
            (outstanding completed hs)
            (run_all timeout payload (outstanding completed (h ∷ [])) w)
  unfolding run_all
  run_all-outstanding h hs w = elim (Bool-cases (contains completed h.name)) [
    | inl old ↦ rw old
    | inr new ↦ rw new
  ]

  -- With no cancellation the loop ends, and the world is what the outstanding handlers make of it.
  pub run_handlers_calm :
      (hs : List (Handler W)) (results : DispatchResult) (w : W)
      → All NeverCancelled hs
      → (every : DispatchResult) × (run_handlers timeout payload completed hs results w
          ≡ (some every, run_all timeout payload (outstanding completed hs) w))
  unfolding run_handlers
  run_handlers_calm [] results w calm = (results, unfold run_all in refl)
  run_handlers_calm (h ∷ hs) results w calm =
      let (r, got) = attempt_calm h w calm.0 in
      let (every, rest) =
        run_handlers_calm hs (results ++ r ∷ []) (attempt timeout payload completed h w).1 calm.1 in
      let ran = ap (λ p. p.1) got in
      (
        every,
        rw (ap (λ p. p.0) got, run_handlers) (rw (run_all-outstanding h hs w) (rw (sym ran) rest)),
      )

-- Whatever a dispatch returns has one fitting result for each registered handler, in their order.
pub dispatch-AllReported :
    {W : Type 0} (d : EventDispatcher W) (timeout : ℕ) (event_type : Str) (payload : Payload)
    (completed : List Str) (w : W) {results : DispatchResult}
    → (dispatch d timeout event_type payload (some completed) w).0 ≡ some results
    → AllReported completed (handlers_for event_type d) results
unfolding dispatch
dispatch-AllReported d timeout event_type payload completed w {results} ran =
    let (new, split, reported) =
      run_handlers-AllReported timeout payload completed (handlers_for event_type d) [] w
        {every = results} ran in
    rw (sym split) at reported

-- `dispatch`, with handlers that return, raise or time out but are not cancelled, always ends with
-- a result; it has one report for each registered handler, in order, skipped exactly where the
-- handler's name is completed; and the world it leaves is that of running every outstanding handler
-- in order, whatever the handlers before it did.
pub dispatch_isolates :
    {W : Type 0} (d : EventDispatcher W) (timeout : ℕ) (event_type : Str) (payload : Payload)
    (completed : List Str) (w : W)
    → All NeverCancelled (handlers_for event_type d)
    → (results : DispatchResult) × (dispatch d timeout event_type payload (some completed) w ≡ (
      some results,
      run_all timeout payload (outstanding completed (handlers_for event_type d)) w,
    ))
      × AllReported completed (handlers_for event_type d) results
unfolding dispatch
dispatch_isolates d timeout event_type payload completed w calm =
    let (results, ran) =
      run_handlers_calm timeout payload completed (handlers_for event_type d) [] w calm in
    (
      results,
      ran,
      dispatch-AllReported d timeout event_type payload completed w (ap (λ p. p.0) ran),
    )
