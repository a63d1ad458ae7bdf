-- ===== src/Events/Dispatcher.antt =====
-- The event dispatcher (app/core/events/dispatcher.py). A handler is a coroutine function that acts
-- on a world `W` of the caller's choice.
pub mod Isolation
pub mod Skipping
use apsis.Prelude.{
  Outcome, returned, raised, cancelled, Outcome, returned, raised, cancelled, ℕ, Str, codes, Dict,
  lookup, insert, keys, contains, join, Bool, true, false, not, ◌&&◌, Option, none, some, List, [],
  ◌∷◌, ◌++◌, map, all, keep, if◌then◌else◌,
}
use apsis.Events.Outbox.{Payload}

-- `name` is the function's `__name__`. `run` takes the timeout of `wait_for`, and the payload.
pub record Handler (W : Type 0) : Type 0 where
  pub name : Str
  pub run : ℕ → Payload → W → Outcome × W

pub record HandlerResult : Type 0 where
  pub handler_name : Str
  pub success : Bool
  pub error : Option Str
  pub skipped : Bool

abbrev pub DispatchResult : Type 0
DispatchResult = List HandlerResult

-- The f-string `{error}` of an optional text.
abbrev show_error : Option Str → Str
show_error none = codes "None"
show_error (some e) = e

abbrev failure_line : HandlerResult → Str
failure_line r = codes "[" ++ (r.handler_name ++ (codes "] " ++ show_error r.error))

unfoldable pub all_succeeded : DispatchResult → Bool
all_succeeded results = all (λ r. r.success) results

unfoldable pub errors_summary : DispatchResult → Str
unfolding join
errors_summary results =
    let failed = keep (λ r. not r.success) results in
    join (codes "\n---\n") (map failure_line failed)

abbrev pub skipped_result : Str → HandlerResult
skipped_result n = record { handler_name = n; success = true; error = none; skipped = true }

abbrev pub ok_result : Str → HandlerResult
ok_result n = record { handler_name = n; success = true; error = none; skipped = false }

abbrev pub failed_result : Str → Str → HandlerResult
failed_result n tb = record { handler_name = n; success = false; error = some tb; skipped = false }

-- The `try` of `dispatch`: a returned or raised handler gives a result, a cancelled one none.
unfoldable pub classify : Str → Outcome → Option HandlerResult
classify n returned = some (ok_result n)
classify n (raised tb) = some (failed_result n tb)
classify n cancelled = none

abbrev or_no_names : Option (List Str) → List Str
or_no_names none = []
or_no_names (some ns) = ns

-- The `_handlers` of an `EventDispatcher`.
abbrev pub EventDispatcher : Type 0 → Type 0
EventDispatcher W = Dict (List (Handler W))

module _ {W : Type 0} where
  abbrev pub or_empty : Option (List (Handler W)) → List (Handler W)
  or_empty none = []
  or_empty (some hs) = hs

  -- The decorator of `register`, applied: `_handlers` is a `defaultdict(list)`.
  unfoldable pub register : Str → Handler W → EventDispatcher W → EventDispatcher W
  register event_type func d = insert event_type (or_empty (lookup event_type d) ++ func ∷ []) d

  unfoldable pub handlers_for : Str → EventDispatcher W → List (Handler W)
  handlers_for event_type d = or_empty (lookup event_type d)

  unfoldable pub registered_events : EventDispatcher W → List Str
  registered_events d = keys d

  -- The body of the loop of `dispatch` for one handler.
  unfoldable pub attempt : ℕ → Payload → List Str → Handler W → W → Option HandlerResult × W
  unfolding classify
  attempt timeout payload completed h w =
      if contains completed h.name
      then (some (skipped_result h.name), w)
      else let (o, w') = h.run timeout payload w in (classify h.name o, w')

  -- The loop of `dispatch`; `none` is a `CancelledError` on its way to the caller.
  unfoldable pub run_handlers :
      ℕ → Payload → List Str → List (Handler W) → DispatchResult → W → Option DispatchResult × W
  run_handlers timeout payload completed [] results w = (some results, w)
  run_handlers timeout payload completed (h ∷ hs) results w =
      let (o, w') = attempt timeout payload completed h w in
      elim o [
        | none ↦ (none, w')
        | some r ↦ run_handlers timeout payload completed hs (results ++ r ∷ []) w'
      ]

  -- With no handler registered the result is empty, which counts as a success.
  unfoldable pub dispatch :
      EventDispatcher W → ℕ → Str → Payload → Option (List Str) → W → Option DispatchResult × W
  unfolding run_handlers handlers_for
  dispatch d timeout event_type payload completed_handlers w =
      run_handlers timeout payload (or_no_names completed_handlers) (handlers_for event_type d) [] w
