-- ===== src/Answer/Throttle.antt =====
-- services/answer-service/internal/throttle/limiter.go. A waiter is a number; an instant is the number
-- of nanoseconds since the zero time. What Wait does under one lock is one step, with the time that it
-- reads: it joins the queue, looks whether it is its turn, or leaves the queue when its context ends.
-- The timers and the channel that wake a waiter only say when it looks again.
pub mod Spaced
pub mod Order
pub mod Turns
mod Tests
use raglibrarian.Base.{
  ℕ, zero, suc, ◌+◌, ◌*◌, ◌/◌, Bool, true, false, not, ◌||◌, List, [], ◌∷◌, ◌++◌, Option, none,
  some, leb, ltb, ◌==◌, if◌then◌else◌, Result, ok, err, ℤ, pos, negsuc, map,
}

pub data LimiterError : Type 0 where
  invalid_rate_limit : LimiterError

-- A waiter and its target.
abbrev pub Reservation : Type 0
Reservation = ℕ × ℕ

pub record Limiter : Type 0 where
  pub interval : ℕ
  pub next : ℕ
  pub waiters : List Reservation

abbrev pub at_least_one : ℕ → ℕ
at_least_one n = if ltb n 1 then 1 else n

-- `newLimiter` with a number of requests in a window; no limiter is the nil pointer.
unfoldable pub new_limiter : ℕ → ℤ → Result LimiterError (Option Limiter)
new_limiter window (negsuc n) = err invalid_rate_limit
new_limiter window (pos zero) = ok none
new_limiter window (pos (suc n)) =
    ok (some (record { interval = at_least_one (window / suc n); next = 0; waiters = [] }))

-- The loop of `rebalanceLocked`.
unfoldable pub retarget : ℕ → ℕ → List Reservation → List Reservation
retarget interval start [] = []
retarget interval start ((w, target) ∷ ws) = (w, start) ∷ retarget interval (start + interval) ws

abbrev pub start_of : ℕ → ℕ → ℕ
start_of now next = if next == 0 || ltb next now then now else next

unfoldable pub rebalance : ℕ → Limiter → Limiter
rebalance now l = record l { waiters = retarget l.interval (start_of now l.next) l.waiters }

unfoldable pub index_of : ℕ → List Reservation → Option ℕ
index_of w [] = none
index_of w ((v, target) ∷ ws) =
    let later : Option ℕ = elim (index_of w ws) [ none ↦ none | some i ↦ some (suc i) ] in
    if v == w then some 0 else later

unfoldable pub remove_at : ℕ → List Reservation → List Reservation
remove_at i [] = []
remove_at zero (r ∷ rs) = rs
remove_at (suc i) (r ∷ rs) = r ∷ remove_at i rs

-- What a waiter has when it has looked: it waits on, may go, has an error, or is not in the queue.
pub data Look : Type 0 where
  waits granted refused absent : Look

unfoldable pub join_queue : Limiter → ℕ → ℕ → Limiter
join_queue l now w = rebalance now (record l { waiters = l.waiters ++ ((w, 0) ∷ []) })

-- The turn of the first waiter.
unfoldable pub serve : Limiter → ℕ → Bool → List Reservation → Limiter × Look
serve l now ended [] = (l, absent)
serve l now ended ((w, target) ∷ ws) =
    if leb target now
    then if ended
      then (rebalance now (record l { waiters = ws }), refused)
      else (rebalance now (record l { next = now + l.interval; waiters = ws }), granted)
    else (l, waits)

abbrev pub at_index : Limiter → ℕ → Bool → ℕ → Limiter × Look
at_index l now ended zero = serve l now ended l.waiters
at_index l now ended (suc i) = (l, waits)

-- `ended` says that the context has ended.
unfoldable pub look : Limiter → ℕ → ℕ → Bool → Limiter × Look
look l now w ended = elim (index_of w l.waiters) [
  | none ↦ (l, absent)
  | some i ↦ at_index l now ended i
]

unfoldable pub leave_queue : Limiter → ℕ → ℕ → Limiter
leave_queue l now w = elim (index_of w l.waiters) [
  | none ↦ l
  | some i ↦ rebalance now (record l { waiters = remove_at i l.waiters })
]

pub data Action : Type 0 where
  join leave : Action
  look_again : Bool → Action

pub record Event : Type 0 where
  pub now : ℕ
  pub waiter : ℕ
  pub action : Action

abbrev pub Grant : Type 0
Grant = ℕ × ℕ

abbrev pub grant_of : ℕ → ℕ → Look → List Grant
grant_of now w granted = (now, w) ∷ []
grant_of now w _ = []

-- The limiter after a step, and the grant that was made in it, if there was one.
unfoldable pub act : Limiter → ℕ → ℕ → Action → Limiter × List Grant
act l now w join = (join_queue l now w, [])
act l now w leave = (leave_queue l now w, [])
act l now w (look_again ended) =
    let (l', result) = look l now w ended in (l', grant_of now w result)

-- The limiter after a sequence of steps of any waiters, and the grants in their order.
unfoldable pub run : Limiter → List Event → Limiter × List Grant
run l [] = (l, [])
run l (e ∷ es) =
    let (l', grants) = act l e.now e.waiter e.action in
    let (l'', later) = run l' es in (l'', grants ++ later)
