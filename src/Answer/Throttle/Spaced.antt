-- ===== src/Answer/Throttle/Spaced.antt =====
-- Two grants are at least an interval apart.
use raglibrarian.Base.{
  ℕ, zero, suc, ◌+◌, ◌/◌, ◌≤◌, ◌≡◌, refl, subst, Bool, true, false, List, [], ◌∷◌, ◌++◌, some,
  arith, inl, inr, All, leb, leb→le, Bool-cases, Option-cases, ok, pos,
}
use raglibrarian.Answer.Throttle.{
  Reservation, Limiter, new_limiter, at_least_one, retarget, start_of, rebalance, index_of,
  remove_at, Look, waits, granted, refused, absent, join_queue, serve, look, leave_queue, Action,
  join, leave, look_again, Event, Grant, grant_of, act, run,
}

-- No target lies before the instant from which on a grant may be made.
abbrev Later : Limiter → Type 0
Later l = All (λ (r : Reservation). l.next ≤ r.1) l.waiters

retarget-Later :
    (interval start next : ℕ) (ws : List Reservation)
    → next ≤ start
    → All (λ (r : Reservation). next ≤ r.1) (retarget interval start ws)
unfolding retarget
retarget-Later interval start next [] h = tt
retarget-Later interval start next ((w, target) ∷ ws) h =
    (h, retarget-Later interval (start + interval) next ws (omega arith))

rebalance-Later : (now : ℕ) (l : Limiter) → Later (rebalance now l)
unfolding rebalance
rebalance-Later now l =
    retarget-Later l.interval (start_of now l.next) l.next l.waiters (ground arith)

-- After the step of a waiter that was granted nothing, the next grant may come as early as before, and
-- a grant comes no earlier and puts the next off by an interval.
record Steps (before after : Limiter) (now : ℕ) (result : Look) : Type 0 where
  ordered : Later after
  same_interval : after.interval ≡ before.interval
  on_grant : result ≡ granted → (before.next ≤ now) × (after.next ≡ now + before.interval)
  otherwise : ¬ (result ≡ granted) → after.next ≡ before.next

nothing_changes :
    (l : Limiter) (now : ℕ) (result : Look) → Later l → ¬ (result ≡ granted) → Steps l l now result
nothing_changes l now result v h = record {
  ordered = v;
  same_interval = refl;
  on_grant = λ e. absurd (h e);
  otherwise = λ e. refl;
}

serve-Steps :
    (l : Limiter) (now : ℕ) (ended : Bool) (ws : List Reservation)
    → Later l
    → All (λ (r : Reservation). l.next ≤ r.1) ws
    → Steps l (serve l now ended ws).0 now (serve l now ended ws).1
unfolding serve rebalance
serve-Steps l now ended [] v a = record {
  ordered = v;
  same_interval = refl;
  on_grant = λ e. absurd (ground arith);
  otherwise = λ e. refl;
}
serve-Steps l now true ((w, target) ∷ ws) v a = elim (Bool-cases (leb target now)) [
  | inr early ↦ rw early (nothing_changes l now waits v (λ e. ground arith))
  | inl due ↦ rw due (record {
    ordered = rebalance-Later now (record l { waiters = ws });
    same_interval = refl;
    on_grant = λ e. absurd (ground arith);
    otherwise = λ e. refl;
  })
]
serve-Steps l now false ((w, target) ∷ ws) v a = elim (Bool-cases (leb target now)) [
  | inr early ↦ rw early (nothing_changes l now waits v (λ e. ground arith))
  | inl due ↦ rw due (record {
    ordered = rebalance-Later now (record l { next = now + l.interval; waiters = ws });
    same_interval = refl;
    on_grant = λ e. (ground (arith, leb→le target now due, a.0), refl);
    otherwise = λ e. absurd (e refl);
  })
]

look-Steps :
    (l : Limiter) (now w : ℕ) (ended : Bool)
    → Later l
    → Steps l (look l now w ended).0 now (look l now w ended).1
unfolding look
look-Steps l now w ended v = elim (Option-cases (index_of w l.waiters)) [
  | inl nowhere ↦ rw (look, nowhere) (nothing_changes l now absent v (λ e. ground arith))
  | inr (zero, there) ↦ rw (look, there) (serve-Steps l now ended l.waiters v v)
  | inr (suc i, there) ↦ rw (look, there) (nothing_changes l now waits v (λ e. ground arith))
]

-- Each grant comes no earlier than the one before it and the interval allow.
abbrev pub IsSpaced : ℕ → ℕ → List Grant → Type 0
IsSpaced interval next [] = Unit
IsSpaced interval next ((now, w) ∷ grants) =
    (next ≤ now) × IsSpaced interval (now + interval) grants

grant_of-IsSpaced :
    (interval next after now w : ℕ) (result : Look) (later : List Grant)
    → (result ≡ granted → (next ≤ now) × (after ≡ now + interval))
    → (¬ (result ≡ granted) → after ≡ next)
    → IsSpaced interval after later
    → IsSpaced interval next (grant_of now w result ++ later)
grant_of-IsSpaced interval next after now w granted later on_grant otherwise h =
    ((on_grant refl).0, subst (λ n. IsSpaced interval n later) (on_grant refl).1 h)
grant_of-IsSpaced interval next after now w waits later on_grant otherwise h =
    subst (λ n. IsSpaced interval n later) (otherwise (λ e. ground arith)) h
grant_of-IsSpaced interval next after now w refused later on_grant otherwise h =
    subst (λ n. IsSpaced interval n later) (otherwise (λ e. ground arith)) h
grant_of-IsSpaced interval next after now w absent later on_grant otherwise h =
    subst (λ n. IsSpaced interval n later) (otherwise (λ e. ground arith)) h

act-IsSpaced :
    (l : Limiter) (now w : ℕ) (action : Action) (later : List Grant)
    → Later l
    → let r = act l now w action in
      Later r.0
      × (r.0.interval ≡ l.interval)
      × (IsSpaced l.interval r.0.next later → IsSpaced l.interval l.next (r.1 ++ later))
unfolding act join_queue leave_queue rebalance
act-IsSpaced l now w join later v =
    (rebalance-Later now (record l { waiters = l.waiters ++ ((w, 0) ∷ []) }), refl, λ h. h)
act-IsSpaced l now w leave later v = elim (Option-cases (index_of w l.waiters)) [
  | inl nowhere ↦ rw (act, leave_queue, nowhere) (v, refl, λ h. h)
  | inr (i, there) ↦
      rw (act, leave_queue, there)
        (rebalance-Later now (record l { waiters = remove_at i l.waiters }), refl, λ h. h)
]
act-IsSpaced l now w (look_again ended) later v =
    let s = look-Steps l now w ended v in
    (
      s.ordered,
      s.same_interval,
      grant_of-IsSpaced l.interval l.next (look l now w ended).0.next now w (look l now w ended).1
          later s.on_grant s.otherwise,
    )

run-IsSpaced :
    (events : List Event) (l : Limiter) → Later l → IsSpaced l.interval l.next (run l events).1
unfolding run
run-IsSpaced [] l v = tt
run-IsSpaced (e ∷ events) l v =
    let after = (act l e.now e.waiter e.action).0 in
    let (ordered, same, spaced) = act-IsSpaced l e.now e.waiter e.action (run after events).1 v in
    spaced (
      subst (λ n. IsSpaced n after.next (run after events).1) same
        (run-IsSpaced events after ordered))

-- Whatever waiters join, look and leave, and whatever times they read, the grants of a new limiter are
-- each at least an interval after the one before: the window divided by the requests, and never 0.
pub new_limiter-IsSpaced :
    (window requests : ℕ) (l : Limiter) (events : List Event)
    → new_limiter window (pos (suc requests)) ≡ ok (some l)
    → IsSpaced (at_least_one (window / suc requests)) 0 (run l events).1
unfolding new_limiter
new_limiter-IsSpaced window requests l events h =
    let fresh : Limiter = record {
      interval = at_least_one (window / suc requests);
      next = 0;
      waiters = [];
    } in
    let same : fresh ≡ l = cc in
    subst (λ q. IsSpaced (at_least_one (window / suc requests)) 0 (run q events).1) same
      (run-IsSpaced events fresh tt)
