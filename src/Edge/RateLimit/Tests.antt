-- ===== src/Edge/RateLimit/Tests.antt =====
-- A limiter of two attempts a minute and two keys.
use raglibrarian.Base.{
  ℕ, ◌+◌, ◌-◌, ◌*◌, ◌≤◌, ◌≡◌, refl, List, [], ◌∷◌, ◌++◌, none, some, arith, length, min, Text,
  literal, text_eq, true, false,
}
use raglibrarian.Edge.RateLimit.{
  PrincipalRateLimiter, new_principal_rate_limiter, find, put, make_room, remaining_window,
  current_entry, attempt, allow, allow_address, retry_after_seconds, run_attempts,
}
use raglibrarian.Edge.RateLimit.Invariant.{WellFormed, new-WellFormed, run_attempts-WellFormed}
use raglibrarian.Edge.RateLimit.Window.{asked, admitted, admitted_lem}
use raglibrarian.Edge.RateLimit.Retry.{allow-retry}

program : Unit {0}
unfolding new_principal_rate_limiter find put make_room remaining_window current_entry attempt allow
    allow_address retry_after_seconds run_attempts asked admitted text_eq
program = tt

abbrev minute : ℕ
minute = 60000000000

abbrev empty : PrincipalRateLimiter
empty = record { limit = 2; window = minute; max_keys = 2; entries = [] }

abbrev refused_user : Text
refused_user = literal "u"

abbrev reader : Text
reader = literal "reader"

abbrev key : Text
key = refused_user ++ (b':' ∷ reader)

abbrev attempts : List (ℕ × Text)
attempts = (5, key) ∷ (6, literal "v:admin") ∷ (7, key) ∷ []

abbrev full : PrincipalRateLimiter
full = run_attempts empty attempts

empty_made : new_principal_rate_limiter 2 minute 2 ≡ some empty
unfolding program
empty_made = refl

full_run :
    (length full.entries ≡ 2) × (find key full.entries ≡ some (record { started = 5; count = 2 }))
unfolding program
full_run = (refl, refl)

address_run : (allow_address (λ a. none) full 8 (literal "?")).1 ≡ (false, minute)
unfolding program
address_run = refl

full-WellFormed : WellFormed 7 full
full-WellFormed =
    run_attempts-WellFormed 0 empty attempts (new-WellFormed 2 minute 2 0 empty empty_made)
      (omega arith, (omega arith, (omega arith, tt)))

abbrev once : PrincipalRateLimiter
once = (attempt empty 5 key).0

once-find :
    (find key once.entries ≡ some (record { started = 5; count = 1 })) × (once.window ≡ minute)
unfolding program
once-find = (refl, refl)

abbrev later_attempts : List (ℕ × Text)
later_attempts = (6, literal "v:admin") ∷ (7, key) ∷ (8, key) ∷ []

admitted_lem_example :
    admitted once key later_attempts ≡ min (asked key later_attempts) (once.limit - 1)
admitted_lem_example =
    admitted_lem once key (record { started = 5; count = 1 }) later_attempts once-find.0
      (
        ground (arith, once-find.1),
        (ground (arith, once-find.1), (ground (arith, once-find.1), tt)),
      )

full_refuses : (allow full 7 refused_user reader).1.0 ≡ false
unfolding program
full_refuses = refl

full_waits :
    7 + retry_after_seconds (allow full 7 refused_user reader).1.1 * 1000000000 ≤ 60000000007
unfolding program
full_waits = omega arith

allow-retry_example :
    (allow (allow full 7 refused_user reader).0 60000000007 refused_user reader).1 ≡ (true, 0)
allow-retry_example =
    allow-retry full 7 60000000007 refused_user reader full-WellFormed refl refl full_refuses
      full_waits
