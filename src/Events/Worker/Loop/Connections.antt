-- ===== src/Events/Worker/Loop/Connections.antt =====
-- What the worker does with its connections.
use apsis.Prelude.{
  ℕ, ◌+◌, Bool, true, false, Option, none, some, List, [], ◌∷◌, ◌++◌, inl, inr, ◌⊎◌, ◌≡◌, refl, sym,
  ◌∙◌, ap, arith, Bool-cases, Option-cases, some_inj,
}
use apsis.Events.Worker.Loop.{
  Call, returns, raises, cancels, Call-cases, Wait-cases, Poll, Session, Action, connecting,
  listening, waiting, beating, processing, sleeping, looking, unlistening, closing, Left,
  found_shut, lost_beat, failing, cancelled_in, RunEnd, run_cancelled, Next, again, ends,
  reconnect_delay, poll_loop, try_session, except_session, close_conn, close_session,
  finally_session, after_try, run_session, follow, run,
}

-- What there is of a connection: none, one without a listener, one that listens, or one that has just
-- answered the heartbeat.
pub data Link : Type 0 where
  unlinked linked listened answered : Link

-- Which action is in place when; a connection is given up by finding it closed or by closing it.
unfoldable pub next_link : Link → Action → Option Link
next_link unlinked (connecting returns) = some linked
next_link unlinked (connecting raises) = some unlinked
next_link unlinked (connecting cancels) = some unlinked
next_link unlinked (sleeping seconds) = some unlinked
next_link linked (listening returns) = some listened
next_link linked (listening raises) = some linked
next_link linked (listening cancels) = some linked
next_link listened waiting = some listened
next_link listened (beating returns) = some answered
next_link listened (beating raises) = some listened
next_link listened (beating cancels) = some listened
next_link answered (processing call) = some listened
next_link linked (sleeping seconds) = some linked
next_link listened (sleeping seconds) = some listened
next_link linked (looking true) = some unlinked
next_link listened (looking true) = some unlinked
next_link linked (looking false) = some linked
next_link listened (looking false) = some listened
next_link linked (unlistening call) = some linked
next_link listened (unlistening call) = some linked
next_link linked (closing call) = some unlinked
next_link _ _ = none

unfoldable pub watch : Link → List Action → Option Link
unfolding next_link
watch link [] = some link
watch link (action ∷ actions) = elim (next_link link action) [
  | none ↦ none
  | some link' ↦ watch link' actions
]

watch-step :
    (link next : Link) (action : Action) (actions : List Action)
    → next_link link action ≡ some next
    → watch link (action ∷ actions) ≡ watch next actions
unfolding watch
watch-step link next action actions h = rw (h, watch) refl

watch-append :
    (here there beyond : Link) (xs ys : List Action)
    → watch here xs ≡ some there
    → watch there ys ≡ some beyond
    → watch here (xs ++ ys) ≡ some beyond
unfolding watch
watch-append here there beyond [] ys h k = ap (λ l. watch l ys) (some_inj h) ∙ k
watch-append here there beyond (x ∷ xs) ys h k = elim (Option-cases (next_link here x)) [
  | inl refused ↦ absurd (cc (rw (refused, watch) at h))
  | inr (next, allowed) ↦
      watch-step here next x (xs ++ ys) allowed
      ∙ watch-append next there beyond xs ys (sym (watch-step here next x xs allowed) ∙ h) k
]

poll_loop_keeps : (ps : List Poll) → watch listened (poll_loop ps).0 ≡ some listened
unfolding poll_loop watch next_link
poll_loop_keeps [] = refl
poll_loop_keeps (p ∷ ps) = elim (Wait-cases p.wait) [
  | inl waits ↦ elim (Call-cases p.heartbeat) [
    | inl beats ↦ elim (Call-cases p.batch) [
      | inl fine ↦ rw (waits, beats, fine) (poll_loop_keeps ps)
      | inr (inl broke) ↦ rw (waits, beats, broke) refl
      | inr (inr gone) ↦ rw (waits, beats, gone) refl
    ]
    | inr (inl broke) ↦ rw (waits, broke) refl
    | inr (inr gone) ↦ rw (waits, gone) refl
  ]
  | inr (inl shut) ↦ rw shut refl
  | inr (inr gone) ↦ rw gone refl
]

-- Whether there is a connection to close.
unfoldable pub is_linked : Call → Link → Bool
is_linked returns linked = true
is_linked returns listened = true
is_linked raises unlinked = true
is_linked cancels unlinked = true
is_linked _ _ = false

try_session_links :
    (n : ℕ) (s : Session)
    → (l : Link) × (watch unlinked (try_session n s).0 ≡ some l) × (is_linked s.connect l ≡ true)
unfolding try_session watch next_link is_linked
try_session_links n s = elim (Call-cases s.connect) [
  | inl up ↦ elim (Call-cases s.listen) [
    | inl hears ↦ (listened, rw (up, hears) (poll_loop_keeps s.polls), rw up refl)
    | inr (inl broke) ↦ (linked, rw (up, broke) refl, rw up refl)
    | inr (inr gone) ↦ (linked, rw (up, gone) refl, rw up refl)
  ]
  | inr (inl broke) ↦ (unlinked, rw broke refl, rw broke refl)
  | inr (inr gone) ↦ (unlinked, rw gone refl, rw gone refl)
]

sleeping_keeps :
    (call : Call) (l : Link) (seconds : ℕ)
    → is_linked call l ≡ true
    → next_link l (sleeping seconds) ≡ some l
unfolding next_link is_linked
sleeping_keeps call l seconds h = ground arith

failing_sleeps :
    (s : Session) (n : ℕ) → (except_session s failing n).0 ≡ sleeping (reconnect_delay (n + 1)) ∷ []
unfolding except_session
failing_sleeps s n = elim (Call-cases s.sleep) [
  | inl fine ↦ rw (fine, except_session) refl
  | inr (inl broke) ↦ rw (broke, except_session) refl
  | inr (inr gone) ↦ rw (gone, except_session) refl
]

except_session_keeps :
    (call : Call) (s : Session) (left : Left) (n : ℕ) (l : Link)
    → is_linked call l ≡ true
    → watch l (except_session s left n).0 ≡ some l
unfolding except_session watch
except_session_keeps call s found_shut n l h = refl
except_session_keeps call s lost_beat n l h = refl
except_session_keeps call s cancelled_in n l h = refl
except_session_keeps call s failing n l h =
    ap (watch l) (failing_sleeps s n)
    ∙ watch-step l l (sleeping (reconnect_delay (n + 1))) []
        (sleeping_keeps call l (reconnect_delay (n + 1)) h)

-- How a pass ends: without a connection, unless a cancellation hits the removal of the listener.
unfoldable pub is_over : Link → Next → Bool
is_over unlinked next = true
is_over linked (ends run_cancelled) = true
is_over _ _ = false

alike :
    (s : Session) (next : Next)
    → watch listened (close_session s next).0 ≡ watch linked (close_session s next).0
unfolding close_session close_conn watch next_link
alike s next = ground arith

close_session_unlinks :
    (s : Session) (next : Next)
    → (l : Link) × (watch linked (close_session s next).0 ≡ some l)
      × (is_over l (close_session s next).1 ≡ true)
unfolding close_session close_conn watch next_link is_over
close_session_unlinks s next = elim (Bool-cases s.is_closed) [
  | inl closed ↦ (unlinked, rw closed refl, refl)
  | inr still ↦ elim (Call-cases s.unlisten) [
    | inl fine ↦ (unlinked, ground (arith, still, fine), refl)
    | inr (inl broke) ↦ (unlinked, ground (arith, still, broke), refl)
    | inr (inr gone) ↦ (linked, rw (still, gone) refl, rw (still, gone) refl)
  ]
]

finally_session_unlinks :
    (call : Call) (s : Session) (next : Next) (l : Link)
    → is_linked call l ≡ true
    → (l' : Link) × (watch l (finally_session call s next).0 ≡ some l')
      × (is_over l' (finally_session call s next).1 ≡ true)
unfolding finally_session watch is_linked is_over
finally_session_unlinks returns s next linked h = close_session_unlinks s next
finally_session_unlinks returns s next listened h =
    let (l, seen, over) = close_session_unlinks s next in (l, alike s next ∙ seen, over)
finally_session_unlinks raises s next unlinked h = (unlinked, refl, refl)
finally_session_unlinks cancels s next unlinked h = (unlinked, refl, refl)
finally_session_unlinks _ s next _ h = absurd (cc)

run_session_watched :
    (n : ℕ) (s : Session)
    → (l : Link) × (watch unlinked (run_session n s).0 ≡ some l)
      × (is_over l (run_session n s).1 ≡ true)
unfolding run_session after_try
run_session_watched n s =
    let (l, seen, has) = try_session_links n s in
    let (tried, left, attempts) = try_session n s in
    let (handled, next) = except_session s left attempts in
    let kept = except_session_keeps s.connect s left attempts l has in
    let (l', closed, over) = finally_session_unlinks s.connect s next l has in
    (
      l',
      watch-append unlinked l l' (tried ++ handled) (finally_session s.connect s next).0
          (watch-append unlinked l l tried handled seen kept) closed,
      over,
    )

over_again : (l : Link) (n : ℕ) → is_over l (again n) ≡ true → l ≡ unlinked
unfolding is_over
over_again unlinked n h = refl
over_again _ n h = absurd (cc)

over_end :
    (l : Link) (end : RunEnd) → is_over l (ends end) ≡ true → (l ≡ unlinked) ⊎ (end ≡ run_cancelled)
unfolding is_over
over_end unlinked end h = inl refl
over_end linked run_cancelled h = inr refl
over_end _ _ h = absurd (cc)

abbrev pub Watched : List Action × RunEnd → Type 0
Watched r = (l : Link) × (watch unlinked r.0 ≡ some l) × ((l ≡ unlinked) ⊎ (r.1 ≡ run_cancelled))

follow-Watched :
    (r : List Action × Next) (rest : ℕ → List Action × RunEnd) (l : Link)
    → watch unlinked r.0 ≡ some l
    → is_over l r.1 ≡ true
    → ((n : ℕ) → Watched (rest n))
    → Watched (follow r rest)
unfolding follow
follow-Watched (actions, again n) rest l seen over all =
    let (l', later, ended) = all n in
    (
      l',
      watch-append unlinked unlinked l' actions (rest n).0 (seen ∙ ap some (over_again l n over))
          later,
      ended,
    )
follow-Watched (actions, ends end) rest l seen over all = (l, seen, over_end l end over)

-- Whatever the calls of the loop do: the worker opens a connection only when it has none, processes a batch
-- only on a connection that listens and has just answered the heartbeat, and is left without a
-- connection when it stops or crashes; only a cancellation may leave it with one.
pub run-Watched :
    (reconnect_attempt : ℕ) (sessions : List Session) → Watched (run reconnect_attempt sessions)
unfolding run watch
run-Watched n [] = (unlinked, refl, inl refl)
run-Watched n (s ∷ ss) =
    let (l, seen, over) = run_session_watched n s in
    follow-Watched (run_session n s) (λ k. run k ss) l seen over (λ k. run-Watched k ss)
