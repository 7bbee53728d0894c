-- ===== src/Answer/Throttle/Turns.antt =====
-- The first of the waiters of the throttle need not wait longer than for the next grant.
use raglibrarian.Base.{
  ℕ, zero, suc, ◌+◌, ◌≤◌, ◌≡◌, refl, sym, ap, subst, ◌∙◌, Bool, true, false, ◌||◌, List, [], ◌∷◌,
  ◌++◌, some, arith, inl, inr, leb, le→leb, ltb, ◌==◌, ==_refl, Bool-cases, Option-cases, ◌⊎◌,
}
use raglibrarian.Answer.Throttle.{
  Reservation, Limiter, retarget, start_of, rebalance, index_of, remove_at, granted, join_queue,
  serve, look, leave_queue, Action, join, leave, look_again, Event, act, run,
}

-- The times of the steps do not fall.
abbrev pub Rising : ℕ → List Event → Type 0
Rising last [] = Unit
Rising last (e ∷ es) = (last ≤ e.now) × Rising e.now es

abbrev pub last_time : ℕ → List Event → ℕ
last_time last [] = last
last_time last (e ∷ es) = last_time e.now es

-- The first target lies no later than the next grant may be made, or the last step was.
abbrev Due : ℕ → ℕ → List Reservation → Type 0
Due last next [] = Unit
Due last next ((w, target) ∷ ws) = (target ≤ last) ⊎ (target ≤ next)

start_of-Due : (now next : ℕ) → (start_of now next ≤ now) ⊎ (start_of now next ≤ next)
start_of-Due now next = elim (Bool-cases (next == 0 || ltb next now)) [
  | inl early ↦ rw early (inl (omega arith))
  | inr late ↦ rw late (inr (omega arith))
]

rebalance-Due : (now : ℕ) (l : Limiter) → Due now (rebalance now l).next (rebalance now l).waiters
unfolding rebalance retarget
rebalance-Due now l = retarget-Due l.waiters
  where
    retarget-Due :
        (ws : List Reservation) → Due now l.next (retarget l.interval (start_of now l.next) ws)
    retarget-Due [] = tt
    retarget-Due ((w, target) ∷ ws) = start_of-Due now l.next

Due-later :
    (last now next : ℕ) (ws : List Reservation) → last ≤ now → Due last next ws → Due now next ws
Due-later last now next [] h d = tt
Due-later last now next ((w, target) ∷ ws) h (inl d) = inl (omega arith)
Due-later last now next ((w, target) ∷ ws) h (inr d) = inr d

abbrev IsDue : ℕ → Limiter → Type 0
IsDue last l = Due last l.next l.waiters

serve-Due :
    (l : Limiter) (now : ℕ) (ended : Bool) (ws : List Reservation)
    → IsDue now l
    → IsDue now (serve l now ended ws).0
unfolding serve
serve-Due l now ended [] d = d
serve-Due l now true ((w, target) ∷ ws) d = elim (Bool-cases (leb target now)) [
  | inr early ↦ rw early d
  | inl due ↦ rw due (rebalance-Due now (record l { waiters = ws }))
]
serve-Due l now false ((w, target) ∷ ws) d = elim (Bool-cases (leb target now)) [
  | inr early ↦ rw early d
  | inl due ↦ rw due (rebalance-Due now (record l { next = now + l.interval; waiters = ws }))
]

act-Due :
    (l : Limiter) (now w : ℕ) (action : Action) → IsDue now l → IsDue now (act l now w action).0
unfolding act join_queue leave_queue look
act-Due l now w join d = rebalance-Due now (record l { waiters = l.waiters ++ ((w, 0) ∷ []) })
act-Due l now w leave d = elim (Option-cases (index_of w l.waiters)) [
  | inl nowhere ↦ rw (act, leave_queue, nowhere) d
  | inr (i, there) ↦
      rw (act, leave_queue, there)
        (rebalance-Due now (record l { waiters = remove_at i l.waiters }))
]
act-Due l now w (look_again ended) d = elim (Option-cases (index_of w l.waiters)) [
  | inl nowhere ↦ rw (act, look, nowhere) d
  | inr (zero, there) ↦ rw (act, look, there) (serve-Due l now ended l.waiters d)
  | inr (suc i, there) ↦ rw (act, look, there) d
]

run-Due :
    (events : List Event) (last : ℕ) (l : Limiter)
    → Rising last events
    → IsDue last l
    → IsDue (last_time last events) (run l events).0
unfolding run
run-Due [] last l rising d = d
run-Due (e ∷ events) last l rising d =
    run-Due events e.now (act l e.now e.waiter e.action).0 rising.1
      (act-Due l e.now e.waiter e.action (Due-later last e.now l.next l.waiters rising.0 d))

index_of-first : (w target : ℕ) (ws : List Reservation) → index_of w ((w, target) ∷ ws) ≡ some 0
unfolding index_of
index_of-first w target ws = rw (==_refl w) refl

serve-granted :
    (l : Limiter) (now w target : ℕ) (ws : List Reservation)
    → l.waiters ≡ (w, target) ∷ ws
    → target ≤ now
    → (serve l now false l.waiters).1 ≡ granted
unfolding serve
serve-granted l now w target ws at h = rw (at, le→leb target now h) refl

-- Under a clock that does not fall back: after any steps of a limiter that began without waiters, the
-- first waiter is granted when it looks, its context has not ended, and an interval has passed since
-- the last grant; nobody who left or who looks late holds it up.
pub run-granted :
    (l : Limiter) (events : List Event) (now w target : ℕ) (ws : List Reservation)
    → l.waiters ≡ []
    → Rising 0 events
    → last_time 0 events ≤ now
    → (run l events).0.next ≤ now
    → (run l events).0.waiters ≡ (w, target) ∷ ws
    → (look (run l events).0 now w false).1 ≡ granted
unfolding look
run-granted l events now w target ws empty rising later next at =
    let r = (run l events).0 in
    let due : Due (last_time 0 events) r.next ((w, target) ∷ ws) =
      subst (Due (last_time 0 events) r.next) at
        (run-Due events 0 l rising (subst (Due 0 l.next) (sym empty) tt)) in
    let early : target ≤ now = elim due [ inl d ↦ omega arith | inr d ↦ omega arith ] in
    let first : index_of w r.waiters ≡ some 0 = ap (index_of w) at ∙ index_of-first w target ws in
    rw (look, first) (serve-granted r now w target ws at early)
