-- ===== src/Events/Worker/Loop/Crash.antt =====
-- What can make the worker's coroutine end with an error.
use apsis.Prelude.{
  ℕ, Bool, true, false, List, [], ◌∷◌, All, any, Bool-cases, inl, inr, ◌⊎◌, ◌≡◌, ◌≢◌, refl, ap,
  arith,
}
use apsis.Events.Worker.Loop.{
  Call, returns, raises, cancels, Session, Action, Left, RunEnd, crashed, Next, again, ends,
  try_session, except_session, close_conn, close_session, finally_session, after_try, run_session,
  follow, run,
}

abbrev pub does_raise : Call → Bool
does_raise raises = true
does_raise returns = false
does_raise cancels = false

except_session_crash :
    (s : Session) (left : Left) (n : ℕ)
    → does_raise s.sleep ≡ false
    → (except_session s left n).1 ≢ ends crashed
unfolding except_session
except_session_crash s left n quiet h = ground arith

finally_session_crash :
    (call : Call) (s : Session) (next : Next)
    → next ≢ ends crashed
    → (finally_session call s next).1 ≡ ends crashed
    → does_raise s.close ≡ true
unfolding finally_session close_session close_conn
finally_session_crash call s next fine h = ground arith

run_session_crash :
    (n : ℕ) (s : Session)
    → does_raise s.sleep ≡ false
    → (run_session n s).1 ≡ ends crashed
    → does_raise s.close ≡ true
unfolding run_session after_try
run_session_crash n s quiet h =
    let (tried, left, attempts) = try_session n s in
    finally_session_crash s.connect s (except_session s left attempts).1
      (except_session_crash s left attempts quiet) h

follow_crash :
    (r : List Action × Next) (rest : ℕ → List Action × RunEnd)
    → (follow r rest).1 ≡ crashed
    → (r.1 ≡ ends crashed) ⊎ ((n : ℕ) × ((rest n).1 ≡ crashed))
unfolding follow
follow_crash (actions, again n) rest h = inr (n, h)
follow_crash (actions, ends end) rest h = inl (ap ends h)

-- Whatever else fails, as long as no sleep raises, the worker ends with an error only if closing one of
-- its connections raises.
pub run-crashes :
    (reconnect_attempt : ℕ) (sessions : List Session)
    → All (λ s. does_raise s.sleep ≡ false) sessions
    → (run reconnect_attempt sessions).1 ≡ crashed
    → any (λ s. does_raise s.close) sessions ≡ true
unfolding run
run-crashes n [] quiet h = absurd (cc)
run-crashes n (s ∷ ss) quiet h = elim (follow_crash (run_session n s) (λ k. run k ss) h) [
  | inl now ↦ let closes = run_session_crash n s quiet.0 now in rw closes refl
  | inr (k, later) ↦
      let rest = run-crashes k ss quiet.1 later in
      elim (Bool-cases (does_raise s.close)) [
        | inl here ↦ rw here refl
        | inr fine ↦ rw (fine, rest) refl
      ]
]
