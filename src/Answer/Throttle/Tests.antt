-- ===== src/Answer/Throttle/Tests.antt =====
-- Three waiters, one of which leaves.
use raglibrarian.Base.{◌/◌, ◌≡◌, refl, false, List, [], ◌∷◌, ◌++◌, some, ok, pos, arith}
use raglibrarian.Answer.Throttle.{
  Limiter, new_limiter, at_least_one, retarget, rebalance, index_of, remove_at, granted, join_queue,
  serve, look, leave_queue, join, leave, look_again, Event, act, run,
}
use raglibrarian.Answer.Throttle.Spaced.{IsSpaced, new_limiter-IsSpaced}
use raglibrarian.Answer.Throttle.Order.{Sub, queued, served, joined, run-Sub}
use raglibrarian.Answer.Throttle.Turns.{run-granted}

program : Unit {0}
unfolding new_limiter retarget rebalance index_of remove_at join_queue serve look leave_queue act
    run
program = tt

-- One request for every 10 nanoseconds.
abbrev limiter : Limiter
limiter = record { interval = 10; next = 0; waiters = [] }

abbrev events : List Event
events =
    record { now = 1; waiter = 7; action = join }
    ∷ record { now = 2; waiter = 8; action = join }
    ∷ record { now = 2; waiter = 7; action = look_again false }
    ∷ record { now = 3; waiter = 9; action = join }
    ∷ record { now = 4; waiter = 8; action = leave }
    ∷ record { now = 5; waiter = 9; action = look_again false }
    ∷ []

made : new_limiter 100 (pos 10) ≡ ok (some limiter)
unfolding program
made = refl

grants_run : (run limiter events).1 ≡ (2, 7) ∷ []
unfolding program
grants_run = refl

waiting_run : (run limiter events).0.waiters ≡ (9, 12) ∷ []
unfolding program
waiting_run = refl

next_run : (run limiter events).0.next ≡ 12
unfolding program
next_run = refl

new_limiter-IsSpaced_example : IsSpaced (at_least_one (100 / 10)) 0 (run limiter events).1
new_limiter-IsSpaced_example = new_limiter-IsSpaced 100 9 limiter events made

run-Sub_example :
    Sub (served (run limiter events).1 ++ queued (run limiter events).0.waiters) (joined events)
run-Sub_example = run-Sub events limiter

run-granted_example : (look (run limiter events).0 12 9 false).1 ≡ granted
run-granted_example =
    run-granted limiter events 12 9 12 [] refl (omega arith) (omega arith) (omega (arith, next_run))
      waiting_run
