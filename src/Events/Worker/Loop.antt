-- ===== src/Events/Worker/Loop.antt =====
-- The connection loop of the outbox worker (`OutboxWorker._run` of app/core/events/worker.py): what it
-- does, given how each of its calls ends.
pub mod Outage
pub mod Connections
pub mod Crash
use apsis.Prelude.{
  ℕ, zero, suc, ◌+◌, ◌*◌, ◌^◌, min, Bool, true, false, List, [], ◌∷◌, ◌++◌, if◌then◌else◌, ◌⊎◌, inl,
  inr, ◌≡◌, refl,
}

abbrev pub max_reconnect_delay : ℕ
max_reconnect_delay = 60

-- How an awaited call ends: it returns, it raises an `Exception`, or a cancellation hits it.
pub data Call : Type 0 where
  returns raises cancels : Call

pub Call-cases : (c : Call) → (c ≡ returns) ⊎ ((c ≡ raises) ⊎ (c ≡ cancels))
Call-cases returns = inl refl
Call-cases raises = inr (inl refl)
Call-cases cancels = inr (inr refl)

-- How the wait for the shutdown event ends.
pub data Wait : Type 0 where
  elapsed shut_down interrupted : Wait

pub Wait-cases : (w : Wait) → (w ≡ elapsed) ⊎ ((w ≡ shut_down) ⊎ (w ≡ interrupted))
Wait-cases elapsed = inl refl
Wait-cases shut_down = inr (inl refl)
Wait-cases interrupted = inr (inr refl)

-- What one pass of the inner loop meets.
pub record Poll : Type 0 where
  pub wait : Wait
  pub heartbeat : Call
  pub batch : Call

-- What one pass of the outer loop meets. The polls are those up to the one that finds the shutdown event
-- set at the head of the inner loop.
pub record Session : Type 0 where
  pub connect : Call
  pub listen : Call
  pub polls : List Poll
  pub sleep : Call
  pub is_closed : Bool
  pub unlisten : Call
  pub close : Call

pub data Action : Type 0 where
  connecting : Call → Action
  listening : Call → Action
  waiting : Action
  beating : Call → Action
  processing : Call → Action
  sleeping : (seconds : ℕ) → Action
  looking : (is_closed : Bool) → Action
  unlistening : Call → Action
  closing : Call → Action

-- How the block under `try` is left: by finding the shutdown event set, by the `break` after a failed
-- heartbeat, or by an exception.
pub data Left : Type 0 where
  found_shut lost_beat failing cancelled_in : Left

-- The inner loop.
unfoldable pub poll_loop : List Poll → List Action × Left
poll_loop [] = ([], found_shut)
poll_loop (p ∷ ps) = elim p.wait [
  | shut_down ↦ (waiting ∷ [], found_shut)
  | interrupted ↦ (waiting ∷ [], cancelled_in)
  | elapsed ↦ elim p.heartbeat [
    | raises ↦ (waiting ∷ beating raises ∷ [], lost_beat)
    | cancels ↦ (waiting ∷ beating cancels ∷ [], cancelled_in)
    | returns ↦ elim p.batch [
      | raises ↦ (waiting ∷ beating returns ∷ processing raises ∷ [], failing)
      | cancels ↦ (waiting ∷ beating returns ∷ processing cancels ∷ [], cancelled_in)
      | returns ↦
          let (actions, left) = poll_loop ps in
          (waiting ∷ beating returns ∷ processing returns ∷ actions, left)
    ]
  ]
]

-- The block under `try`, with `reconnect_attempt` after it.
unfoldable pub try_session : ℕ → Session → List Action × Left × ℕ
unfolding poll_loop
try_session reconnect_attempt s = elim s.connect [
  | raises ↦ (connecting raises ∷ [], failing, reconnect_attempt)
  | cancels ↦ (connecting cancels ∷ [], cancelled_in, reconnect_attempt)
  | returns ↦ elim s.listen [
    | raises ↦ (connecting returns ∷ listening raises ∷ [], failing, reconnect_attempt)
    | cancels ↦ (connecting returns ∷ listening cancels ∷ [], cancelled_in, reconnect_attempt)
    | returns ↦
        let (actions, left) = poll_loop s.polls in
        (connecting returns ∷ listening returns ∷ actions, left, 0)
  ]
]

-- How the coroutine ends.
pub data RunEnd : Type 0 where
  stopped run_cancelled crashed : RunEnd

-- What follows a pass: another one, or the end.
pub data Next : Type 0 where
  again : (reconnect_attempt : ℕ) → Next
  ends : RunEnd → Next

unfoldable pub reconnect_delay : ℕ → ℕ
reconnect_delay reconnect_attempt = min (2 ^ reconnect_attempt) max_reconnect_delay

-- The `except` clauses.
unfoldable pub except_session : Session → Left → ℕ → List Action × Next
unfolding reconnect_delay
except_session s found_shut reconnect_attempt = ([], ends stopped)
except_session s lost_beat reconnect_attempt = ([], again reconnect_attempt)
except_session s cancelled_in reconnect_attempt = ([], ends run_cancelled)
except_session s failing reconnect_attempt =
    let attempts = reconnect_attempt + 1 in
    let delay = sleeping (reconnect_delay attempts) in
    elim s.sleep [
      | returns ↦ (delay ∷ [], again attempts)
      | raises ↦ (delay ∷ [], ends crashed)
      | cancels ↦ (delay ∷ [], ends run_cancelled)
    ]

-- `conn.close()`, after the removal of the listener.
unfoldable pub close_conn : Action → Session → Next → List Action × Next
close_conn unlistened s next = elim s.close [
  | returns ↦ (looking false ∷ unlistened ∷ closing returns ∷ [], next)
  | raises ↦ (looking false ∷ unlistened ∷ closing raises ∷ [], ends crashed)
  | cancels ↦ (looking false ∷ unlistened ∷ closing cancels ∷ [], ends run_cancelled)
]

-- The `finally` clause where there is a connection: an error of its own replaces what was to follow.
unfoldable pub close_session : Session → Next → List Action × Next
unfolding close_conn
close_session s next = elim s.is_closed [
  | true ↦ (looking true ∷ [], next)
  | false ↦ elim s.unlisten [
    | cancels ↦ (looking false ∷ unlistening cancels ∷ [], ends run_cancelled)
    | returns ↦ close_conn (unlistening returns) s next
    | raises ↦ close_conn (unlistening raises) s next
  ]
]

-- `if conn`: whether there is a connection to close.
unfoldable pub finally_session : (connect : Call) → Session → Next → List Action × Next
unfolding close_session
finally_session returns s next = close_session s next
finally_session raises s next = ([], next)
finally_session cancels s next = ([], next)

-- What follows the block under `try`.
unfoldable pub after_try : Session → List Action × Left × ℕ → List Action × Next
unfolding except_session finally_session
after_try s (tried, left, reconnect_attempt) =
    let (handled, next) = except_session s left reconnect_attempt in
    let (closed, after) = finally_session s.connect s next in (tried ++ handled ++ closed, after)

-- One pass of the outer loop.
unfoldable pub run_session : ℕ → Session → List Action × Next
unfolding try_session after_try
run_session reconnect_attempt s = after_try s (try_session reconnect_attempt s)

unfoldable pub follow : List Action × Next → (ℕ → List Action × RunEnd) → List Action × RunEnd
follow (actions, again reconnect_attempt) rest =
    let (more, end) = rest reconnect_attempt in (actions ++ more, end)
follow (actions, ends end) rest = (actions, end)

-- The outer loop; the shutdown event is set at its head once the sessions are over.
unfoldable pub run : ℕ → List Session → List Action × RunEnd
unfolding run_session follow
run reconnect_attempt [] = ([], stopped)
run reconnect_attempt (s ∷ ss) =
    follow (run_session reconnect_attempt s) (λ attempts. run attempts ss)
