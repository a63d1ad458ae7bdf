-- ===== src/Tests/Loop.antt =====
-- The connection loop of the outbox worker: two refusals, a session with two batches whose heartbeat is
-- then lost, and one in which the worker is shut down.
use apsis.Prelude.{◌*◌, ◌≤◌, true, false, List, [], ◌∷◌, ◌++◌, any, ◌≡◌, refl}
use apsis.Events.Worker.Loop.{
  returns, raises, elapsed, shut_down, Poll, Session, Action, connecting, listening, waiting,
  beating, processing, sleeping, looking, unlistening, closing, stopped, crashed, run, run_session,
  try_session, except_session, reconnect_delay, poll_loop, finally_session, close_session,
  close_conn, after_try, follow,
}
use apsis.Events.Worker.Loop.Outage.{slept, run-recovers}
use apsis.Events.Worker.Loop.Connections.{Watched, run-Watched}
use apsis.Events.Worker.Loop.Crash.{does_raise, run-crashes}

abbrev good_poll : Poll
good_poll = record { wait = elapsed; heartbeat = returns; batch = returns }

abbrev lost_poll : Poll
lost_poll = record { wait = elapsed; heartbeat = raises; batch = returns }

abbrev last_poll : Poll
last_poll = record { wait = shut_down; heartbeat = returns; batch = returns }

abbrev refusal : Session
refusal = record {
  connect = raises;
  listen = returns;
  polls = [];
  sleep = returns;
  is_closed = true;
  unlisten = returns;
  close = returns;
}

abbrev lossy : Session
lossy = record {
  connect = returns;
  listen = returns;
  polls = good_poll ∷ good_poll ∷ lost_poll ∷ [];
  sleep = returns;
  is_closed = true;
  unlisten = returns;
  close = returns;
}

abbrev final : Session
final = record {
  connect = returns;
  listen = returns;
  polls = last_poll ∷ [];
  sleep = returns;
  is_closed = false;
  unlisten = raises;
  close = returns;
}

abbrev stuck : Session
stuck = record final { polls = lost_poll ∷ []; close = raises }

whole_run : run 0 (refusal ∷ refusal ∷ lossy ∷ final ∷ []) ≡ (
  connecting raises
      ∷ sleeping 2
      ∷ connecting raises
      ∷ sleeping 4
      ∷ connecting returns
      ∷ listening returns
      ∷ waiting
      ∷ beating returns
      ∷ processing returns
      ∷ waiting
      ∷ beating returns
      ∷ processing returns
      ∷ waiting
      ∷ beating raises
      ∷ looking true
      ∷ connecting returns
      ∷ listening returns
      ∷ waiting
      ∷ looking false
      ∷ unlistening raises
      ∷ closing returns
      ∷ [],
  stopped,
)
unfolding run run_session try_session except_session reconnect_delay poll_loop finally_session
    close_session close_conn after_try follow
whole_run = refl

run-recovers_example :
    (outage later : List Action) × (run 3 (refusal ∷ refusal ∷ lossy ∷ final ∷ [])
      ≡ (outage ++ (run 0 (lossy ∷ final ∷ [])).0, (run 0 (lossy ∷ final ∷ [])).1))
    × (2 * 2 ≤ slept outage)
    × (slept outage ≤ 60 * 2)
    × ((run 0 (lossy ∷ final ∷ [])).0
        ≡ connecting returns
          ∷ listening returns
          ∷ waiting
          ∷ beating returns
          ∷ processing returns
          ∷ later)
run-recovers_example =
    run-recovers 3 (refusal ∷ refusal ∷ []) lossy good_poll (good_poll ∷ lost_poll ∷ [])
      (final ∷ []) ((refl, refl), ((refl, refl), tt)) refl refl refl refl refl

run-Watched_example : Watched (run 0 (refusal ∷ lossy ∷ final ∷ []))
run-Watched_example = run-Watched 0 (refusal ∷ lossy ∷ final ∷ [])

stuck_crashes : (run 0 (lossy ∷ stuck ∷ final ∷ [])).1 ≡ crashed
unfolding run run_session try_session except_session reconnect_delay poll_loop finally_session
    close_session close_conn after_try follow
stuck_crashes = refl

run-crashes_example : any (λ s. does_raise s.close) (lossy ∷ stuck ∷ final ∷ []) ≡ true
run-crashes_example =
    run-crashes 0 (lossy ∷ stuck ∷ final ∷ []) (refl, (refl, (refl, tt))) stuck_crashes
