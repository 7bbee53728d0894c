-- ===== src/Answer/Throttle/Order.antt =====
-- The waiters of the throttle take their turns in the order in which they joined.
use raglibrarian.Base.{
  append_assoc, append-nil, ℕ, zero, suc, ◌+◌, ◌≡◌, refl, sym, ap, subst, Bool, true, false, List,
  [], ◌∷◌, ◌++◌, some, arith, inl, inr, leb, Bool-cases, Option-cases,
}
use raglibrarian.Answer.Throttle.{
  Reservation, Limiter, retarget, start_of, rebalance, index_of, remove_at, join_queue, serve, look,
  leave_queue, Action, join, leave, look_again, Event, Grant, grant_of, act, run,
}

-- A list from which some elements of another were left out.
pub data Sub : List ℕ → List ℕ → Type 0 where
  sub_nil : Sub [] []
  skip : {xs ys : List ℕ} (y : ℕ) → Sub xs ys → Sub xs (y ∷ ys)
  both : {xs ys : List ℕ} (x : ℕ) → Sub xs ys → Sub (x ∷ xs) (x ∷ ys)

Sub-refl : (xs : List ℕ) → Sub xs xs
Sub-refl [] = sub_nil
Sub-refl (x ∷ xs) = both x (Sub-refl xs)

Sub-trans : {xs ys zs : List ℕ} → Sub xs ys → Sub ys zs → Sub xs zs
Sub-trans a sub_nil = a
Sub-trans a (skip y b) = skip y (Sub-trans a b)
Sub-trans (skip _ a) (both y b) = skip y (Sub-trans a b)
Sub-trans (both _ a) (both x b) = both x (Sub-trans a b)

Sub-append-left : (zs : List ℕ) {xs ys : List ℕ} → Sub xs ys → Sub (zs ++ xs) (zs ++ ys)
Sub-append-left [] a = a
Sub-append-left (z ∷ zs) a = both z (Sub-append-left zs a)

Sub-append-right : {xs ys : List ℕ} (zs : List ℕ) → Sub xs ys → Sub (xs ++ zs) (ys ++ zs)
Sub-append-right zs sub_nil = Sub-refl zs
Sub-append-right zs (skip y a) = skip y (Sub-append-right zs a)
Sub-append-right zs (both x a) = both x (Sub-append-right zs a)

abbrev pub queued : List Reservation → List ℕ
queued [] = []
queued ((w, target) ∷ ws) = w ∷ queued ws

abbrev pub served : List Grant → List ℕ
served [] = []
served ((now, w) ∷ gs) = w ∷ served gs

-- The waiter that a step adds to the queue.
abbrev joiner : ℕ → Action → List ℕ
joiner w join = w ∷ []
joiner w _ = []

-- The waiters in the order in which they join.
abbrev pub joined : List Event → List ℕ
joined [] = []
joined (e ∷ es) = joiner e.waiter e.action ++ joined es

served-append : (gs hs : List Grant) → served (gs ++ hs) ≡ served gs ++ served hs
served-append [] hs = refl
served-append ((now, w) ∷ gs) hs = ap (◌∷◌ w) (served-append gs hs)

queued-append : (rs ss : List Reservation) → queued (rs ++ ss) ≡ queued rs ++ queued ss
queued-append [] ss = refl
queued-append ((w, target) ∷ rs) ss = ap (◌∷◌ w) (queued-append rs ss)

queued-retarget :
    (interval start : ℕ) (ws : List Reservation) → queued (retarget interval start ws) ≡ queued ws
unfolding retarget
queued-retarget interval start [] = refl
queued-retarget interval start ((w, target) ∷ ws) =
    ap (◌∷◌ w) (queued-retarget interval (start + interval) ws)

queued-rebalance : (now : ℕ) (l : Limiter) → queued (rebalance now l).waiters ≡ queued l.waiters
unfolding rebalance
queued-rebalance now l = queued-retarget l.interval (start_of now l.next) l.waiters

remove_at-Sub : (i : ℕ) (ws : List Reservation) → Sub (queued (remove_at i ws)) (queued ws)
unfolding remove_at
remove_at-Sub i [] = sub_nil
remove_at-Sub zero ((w, target) ∷ ws) = skip w (Sub-refl (queued ws))
remove_at-Sub (suc i) ((w, target) ∷ ws) = both w (remove_at-Sub i ws)

index_of-zero :
    (w v target : ℕ) (ws : List Reservation) → index_of w ((v, target) ∷ ws) ≡ some 0 → v ≡ w
unfolding index_of
index_of-zero w v target ws h = ground (arith, Option-cases (index_of w ws))

-- The waiters that are granted in a step, and those that are left, come from the queue in its order.
serve-Sub :
    (l : Limiter) (now w : ℕ) (ended : Bool) (ws : List Reservation)
    → l.waiters ≡ ws
    → index_of w ws ≡ some 0
    → Sub
        (served (grant_of now w (serve l now ended ws).1)
          ++ queued (serve l now ended ws).0.waiters)
        (queued ws)
unfolding serve
serve-Sub l now w ended [] same there = rw same sub_nil
serve-Sub l now w true ((v, target) ∷ ws) same there = elim (Bool-cases (leb target now)) [
  | inr early ↦ rw (early, same) (Sub-refl (v ∷ queued ws))
  | inl due ↦
      rw (due, queued-rebalance now (record l { waiters = ws })) (skip v (Sub-refl (queued ws)))
]
serve-Sub l now w false ((v, target) ∷ ws) same there = elim (Bool-cases (leb target now)) [
  | inr early ↦ rw (early, same) (Sub-refl (v ∷ queued ws))
  | inl due ↦
      rw (due, queued-rebalance now (record l { next = now + l.interval; waiters = ws }))
        (subst (λ x. Sub (x ∷ queued ws) (v ∷ queued ws)) (index_of-zero w v target ws there)
          (both v (Sub-refl (queued ws))))
]

act-Sub :
    (l : Limiter) (now w : ℕ) (action : Action)
    → Sub
        (served (act l now w action).1 ++ queued (act l now w action).0.waiters)
        (queued l.waiters ++ joiner w action)
unfolding act join_queue leave_queue look
act-Sub l now w join =
    rw
      (
        queued-rebalance now (record l { waiters = l.waiters ++ ((w, 0) ∷ []) }),
        queued-append l.waiters ((w, 0) ∷ []),
      )
      (Sub-refl (queued l.waiters ++ (w ∷ [])))
act-Sub l now w leave =
    rw (append-nil (queued l.waiters)) (elim (Option-cases (index_of w l.waiters)) [
      | inl nowhere ↦ rw (leave_queue, nowhere) (Sub-refl (queued l.waiters))
      | inr (i, there) ↦
          rw
            (
              leave_queue,
              there,
              queued-rebalance now (record l { waiters = remove_at i l.waiters }),
            )
            (remove_at-Sub i l.waiters)
    ])
act-Sub l now w (look_again ended) =
    rw (append-nil (queued l.waiters)) (elim (Option-cases (index_of w l.waiters)) [
      | inl nowhere ↦ rw (look, nowhere) (Sub-refl (queued l.waiters))
      | inr (zero, there) ↦ rw (look, there) (serve-Sub l now w ended l.waiters refl there)
      | inr (suc i, there) ↦ rw (look, there) (Sub-refl (queued l.waiters))
    ])

-- Grants are made in the order in which the waiters joined: those that have been served, followed by
-- those that still wait, are the waiters that were in the queue and those that joined, in their order,
-- without the ones that left.
pub run-Sub :
    (events : List Event) (l : Limiter)
    → Sub
        (served (run l events).1 ++ queued (run l events).0.waiters)
        (queued l.waiters ++ joined events)
unfolding run
run-Sub [] l = rw (append-nil (queued l.waiters)) (Sub-refl (queued l.waiters))
run-Sub (e ∷ events) l =
    let r = act l e.now e.waiter e.action in
    let rest = run r.0 events in
    let here = served r.1 in
    let later = served rest.1 in
    let waiting = queued rest.0.waiters in
    let step = Sub-append-right (joined events) (act-Sub l e.now e.waiter e.action) in
    let front = Sub-append-left here (run-Sub events r.0) in
    rw
      (
        served-append r.1 rest.1,
        append_assoc here later waiting,
        sym (append_assoc (queued l.waiters) (joiner e.waiter e.action) (joined events)),
      )
      (Sub-trans front (
        subst (λ x. Sub x ((queued l.waiters ++ joiner e.waiter e.action) ++ joined events))
          (append_assoc here (queued r.0.waiters) (joined events)) step))
