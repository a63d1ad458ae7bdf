-- ===== src/Events/Worker/Loop/Outage.antt =====
-- How the worker gets over an outage of the database.
use mathlib.Core.List.{append-nil, append_assoc}
use native.Mathlib.Nat.{add-zero, pow-suc}
use apsis.Events.Worker.Settle.{pow_pos}
use apsis.Prelude.{
  ℕ, zero, suc, ◌+◌, ◌*◌, ◌^◌, ◌≤◌, List, [], ◌∷◌, ◌++◌, All, length, inl, inr, ◌≡◌, refl, sym, ◌∙◌,
  ap, arith,
}
use apsis.Events.Worker.Loop.{
  ends, Call-cases, failing, Left, Next, returns, raises, elapsed, Poll, Session, Action,
  connecting, listening, waiting, beating, processing, sleeping, RunEnd, again, reconnect_delay,
  follow, after_try, run_session, run, poll_loop, try_session, except_session, finally_session,
}

-- The database refuses the connection, and the sleep is not cut short.
abbrev pub IsRefused : Session → Type 0
IsRefused s = (s.connect ≡ raises) × (s.sleep ≡ returns)

-- What the worker does in an outage, after some attempts.
unfoldable pub outage_actions : ℕ → ℕ → List Action
unfolding reconnect_delay
outage_actions attempts zero = []
outage_actions attempts (suc n) =
    connecting raises ∷ sleeping (reconnect_delay (attempts + 1)) ∷ outage_actions (attempts + 1) n

-- The seconds slept.
unfoldable pub slept : List Action → ℕ
slept [] = 0
slept (sleeping d ∷ actions) = d + slept actions
slept (_ ∷ actions) = slept actions

not_connected :
    (attempts : ℕ) (s : Session)
    → s.connect ≡ raises
    → try_session attempts s ≡ (connecting raises ∷ [], failing, attempts)
unfolding try_session
not_connected attempts s h = rw h refl

waits_on :
    (attempts : ℕ) (s : Session)
    → s.sleep ≡ returns
    → except_session s failing attempts
      ≡ (sleeping (reconnect_delay (attempts + 1)) ∷ [], again (attempts + 1))
unfolding except_session
waits_on attempts s h = rw (h, except_session) refl

gave_up :
    (attempts : ℕ) (s : Session)
    → except_session s failing attempts
      ≡ (sleeping (reconnect_delay (attempts + 1)) ∷ [], again (attempts + 1))
    → s.connect ≡ raises
    → after_try s (connecting raises ∷ [], failing, attempts)
      ≡ (connecting raises ∷ sleeping (reconnect_delay (attempts + 1)) ∷ [], again (attempts + 1))
unfolding after_try
gave_up attempts s waits h = rw (h, waits) refl

refused :
    (attempts : ℕ) (s : Session)
    → IsRefused s
    → run_session attempts s
      ≡ (connecting raises ∷ sleeping (reconnect_delay (attempts + 1)) ∷ [], again (attempts + 1))
unfolding run_session
refused attempts s h =
    ap (after_try s) (not_connected attempts s h.0)
    ∙ gave_up attempts s (waits_on attempts s h.1) h.0

run_again :
    (attempts attempts' : ℕ) (s : Session) (ss : List Session) (actions : List Action)
    → run_session attempts s ≡ (actions, again attempts')
    → run attempts (s ∷ ss) ≡ (actions ++ (run attempts' ss).0, (run attempts' ss).1)
unfolding run follow
run_again attempts attempts' s ss actions h = ap (λ r. follow r (λ n. run n ss)) h

through_outage :
    (attempts : ℕ) (down rest : List Session)
    → All IsRefused down
    → run attempts (down ++ rest) ≡ (
      outage_actions attempts (length down) ++ (run (attempts + length down) rest).0,
      (run (attempts + length down) rest).1,
    )
unfolding outage_actions
through_outage attempts [] rest h = rw (add-zero attempts) refl
through_outage attempts (s ∷ down) rest h =
    let sum : attempts + 1 + length down ≡ attempts + suc (length down) = omega arith in
    run_again attempts (attempts + 1) s (down ++ rest) _ (refused attempts s h.0)
    ∙ rw (through_outage (attempts + 1) down rest h.1, sum) refl

delay_bounds :
    (attempts : ℕ) → (2 ≤ reconnect_delay (attempts + 1)) × (reconnect_delay (attempts + 1) ≤ 60)
unfolding reconnect_delay
delay_bounds attempts =
    let double : 2 ^ (attempts + 1) ≡ 2 ^ attempts * 2 =
      ap (λ n. 2 ^ n) (omega arith) ∙ pow-suc 2 attempts in
    (omega (arith, double, pow_pos attempts), omega arith)

slept_bounds :
    (attempts n : ℕ)
    → (2 * n ≤ slept (outage_actions attempts n)) × (slept (outage_actions attempts n) ≤ 60 * n)
unfolding slept outage_actions
slept_bounds attempts zero = (omega arith, omega arith)
slept_bounds attempts (suc n) = (
  omega (arith, delay_bounds attempts, slept_bounds (attempts + 1) n),
  omega (arith, delay_bounds attempts, slept_bounds (attempts + 1) n),
)

forgets_attempts :
    (attempts : ℕ) (s : Session)
    → s.connect ≡ returns
    → s.listen ≡ returns
    → try_session attempts s ≡ try_session 0 s
unfolding try_session
forgets_attempts attempts s up heard = rw (up, heard, try_session) refl

run_afresh :
    (attempts : ℕ) (s : Session) (ss : List Session)
    → s.connect ≡ returns
    → s.listen ≡ returns
    → run attempts (s ∷ ss) ≡ run 0 (s ∷ ss)
unfolding run run_session
run_afresh attempts s ss up heard =
    ap (λ r. follow (after_try s r) (λ n. run n ss)) (forgets_attempts attempts s up heard)

-- What a pass does first it does first in the run.
follow_more :
    (r : List Action × Next) (rest : ℕ → List Action × RunEnd)
    → (more : List Action) × ((follow r rest).0 ≡ r.0 ++ more)
unfolding follow
follow_more (actions, again n) rest = ((rest n).0, refl)
follow_more (actions, ends end) rest = ([], sym (append-nil actions))

after_try_more :
    (s : Session) (actions : List Action) (left : Left) (n : ℕ)
    → (more : List Action) × ((after_try s (actions, left, n)).0 ≡ actions ++ more)
unfolding after_try
after_try_more s actions left n =
    let handled = except_session s left n in
    (
      handled.0 ++ (finally_session s.connect s handled.1).0,
      append_assoc actions handled.0 (finally_session s.connect s handled.1).0,
    )

polled_first :
    (p : Poll) (ps : List Poll)
    → p.wait ≡ elapsed
    → p.heartbeat ≡ returns
    → (more : List Action) × ((poll_loop (p ∷ ps)).0
        ≡ waiting ∷ beating returns ∷ processing p.batch ∷ more)
unfolding poll_loop
polled_first p ps waited beats = elim (Call-cases p.batch) [
  | inl fine ↦ ((poll_loop ps).0, rw (waited, beats, fine) refl)
  | inr (inl broke) ↦ ([], rw (waited, beats, broke) refl)
  | inr (inr gone) ↦ ([], rw (waited, beats, gone) refl)
]

tried :
    (s : Session)
    → s.connect ≡ returns
    → s.listen ≡ returns
    → try_session 0 s
      ≡ (connecting returns ∷ listening returns ∷ (poll_loop s.polls).0, (poll_loop s.polls).1, 0)
unfolding try_session
tried s up heard = rw (up, heard, try_session) refl

connected_first :
    (s : Session) (p : Poll) (ps : List Poll)
    → s.connect ≡ returns
    → s.listen ≡ returns
    → s.polls ≡ p ∷ ps
    → p.wait ≡ elapsed
    → p.heartbeat ≡ returns
    → (more : List Action) × ((run_session 0 s).0
        ≡ connecting returns
          ∷ listening returns
          ∷ waiting
          ∷ beating returns
          ∷ processing p.batch
          ∷ more)
unfolding run_session
connected_first s p ps up heard polled waited beats =
    let (more1, first) = polled_first p ps waited beats in
    let (more2, second) =
      after_try_more s (connecting returns ∷ listening returns ∷ (poll_loop s.polls).0)
        (poll_loop s.polls).1 0 in
    let begun : (poll_loop s.polls).0 ≡ waiting ∷ beating returns ∷ processing p.batch ∷ more1 =
      rw polled first in
    (
      more1 ++ more2,
      ap (λ r. (after_try s r).0) (tried s up heard)
          ∙ second
          ∙ ap (λ xs. connecting returns ∷ listening returns ∷ xs ++ more2) begun,
    )

run_more :
    (s : Session) (ss : List Session)
    → (more : List Action) × ((run 0 (s ∷ ss)).0 ≡ (run_session 0 s).0 ++ more)
unfolding run
run_more s ss = follow_more (run_session 0 s) (λ n. run n ss)

-- When the database refuses any number of connections in a row, the worker tries again after each of them,
-- with delays whose sum lies between two and sixty seconds for each refusal; and once the database
-- accepts a connection and the listener again, and the first wait and heartbeat go well, the worker
-- processes a batch, and all that it does from then on it does as if there had been no outage.
pub run-recovers :
    (attempts : ℕ) (down : List Session) (s : Session) (p : Poll) (ps : List Poll)
    (ss : List Session)
    → All IsRefused down
    → s.connect ≡ returns
    → s.listen ≡ returns
    → s.polls ≡ p ∷ ps
    → p.wait ≡ elapsed
    → p.heartbeat ≡ returns
    → (outage later : List Action) × (run attempts (down ++ s ∷ ss)
        ≡ (outage ++ (run 0 (s ∷ ss)).0, (run 0 (s ∷ ss)).1))
      × (2 * length down ≤ slept outage)
      × (slept outage ≤ 60 * length down)
      × ((run 0 (s ∷ ss)).0
          ≡ connecting returns
            ∷ listening returns
            ∷ waiting
            ∷ beating returns
            ∷ processing p.batch
            ∷ later)
run-recovers attempts down s p ps ss refusals up heard polled waited beats =
    let (more, first) = connected_first s p ps up heard polled waited beats in
    let (rest, all) = run_more s ss in
    let bounds = slept_bounds attempts (length down) in
    (
      outage_actions attempts (length down),
      more ++ rest,
      through_outage attempts down (s ∷ ss) refusals
          ∙ rw (run_afresh (attempts + length down) s ss up heard) refl,
      bounds.0,
      bounds.1,
      all ∙ ap (λ xs. xs ++ rest) first,
    )
