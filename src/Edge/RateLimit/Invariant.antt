-- ===== src/Edge/RateLimit/Invariant.antt =====
-- What holds of a limiter between two attempts, and how large its table gets.
use raglibrarian.Base.{
  ℕ, ◌+◌, ◌≤◌, ◌≡◌, inl, inr, Option, some, List, [], ◌∷◌, All, arith, length, Text, length-keep-le,
  Option-cases,
}
use raglibrarian.Edge.RateLimit.{
  FixedWindowEntry, Entries, PrincipalRateLimiter, find, live, make_room, current_entry, attempt,
  run_attempts, new_principal_rate_limiter,
}
use raglibrarian.Edge.RateLimit.Table.{
  length-put, find-keep-none, Dated, All-later, put-Dated, keep-Dated,
}

pub record WellFormed (now : ℕ) (l : PrincipalRateLimiter) : Type 0 where
  pub limited : (1 ≤ l.limit) × (1 ≤ l.window) × (1 ≤ l.max_keys)
  pub bounded : length l.entries ≤ l.max_keys
  pub dated : All (Dated now) l.entries

pub new-WellFormed :
    (limit window max_keys now : ℕ) (l : PrincipalRateLimiter)
    → new_principal_rate_limiter limit window max_keys ≡ some l
    → WellFormed now l
unfolding new_principal_rate_limiter
new-WellFormed limit window max_keys now l h = ground arith

make_room-Dated :
    (now later : ℕ) (l : PrincipalRateLimiter) (found : Option FixedWindowEntry)
    → now ≤ later
    → All (Dated now) l.entries
    → All (Dated later) (make_room later l found)
unfolding make_room
make_room-Dated now later l found t a =
    ground (arith, keep-Dated now later l.window l.entries t a, All-later now later l.entries t a)

find-Dated :
    (now : ℕ) (key : Text) (e : FixedWindowEntry) (es : Entries)
    → find key es ≡ some e
    → All (Dated now) es
    → e.started ≤ now
unfolding find
find-Dated now key e [] f a = ground arith
find-Dated now key e ((x, g) ∷ es) f a = ground (arith, find-Dated now key e es)

pub find-make_room :
    (now : ℕ) (l : PrincipalRateLimiter) (key : Text)
    → find key (make_room now l (find key l.entries)) ≡ find key l.entries
unfolding make_room
find-make_room now l key = ground (arith, find-keep-none now l.window key l.entries)

length-make_room :
    (now : ℕ) (l : PrincipalRateLimiter) (found : Option FixedWindowEntry)
    → length (make_room now l found) ≤ length l.entries
unfolding make_room
length-make_room now l found = ground (arith, length-keep-le (live now l.window) l.entries)

current_entry-Dated :
    (now window : ℕ) (key : Text) (es : Entries)
    → All (Dated now) es
    → (current_entry now window (find key es)).started ≤ now
unfolding current_entry
current_entry-Dated now window key es a = elim (Option-cases (find key es)) [
  | inl fresh ↦ rw fresh (omega arith)
  | inr (e, found) ↦ rw found (ground (arith, find-Dated now key e es found a))
]

pub attempt-WellFormed :
    (now later : ℕ) (l : PrincipalRateLimiter) (key : Text)
    → now ≤ later
    → WellFormed now l
    → WellFormed later (attempt l later key).0
unfolding attempt
attempt-WellFormed now later l key t v =
    let found = find key l.entries in
    let es = make_room later l found in
    let e = current_entry later l.window found in
    let counted : FixedWindowEntry = record e { count = e.count + 1 } in
    let all_dated = make_room-Dated now later l found t v.dated in
    let start =
      current_entry-Dated later l.window key l.entries (All-later now later l.entries t v.dated) in
    ground (
      arith,
      v.limited,
      v.bounded,
      length-make_room later l found,
      length-put key counted es,
      find-make_room later l key,
      all_dated,
      put-Dated later later key counted es (omega arith) start all_dated,
    )

-- The times of a sequence of attempts do not fall.
abbrev pub Rising : ℕ → List (ℕ × Text) → Type 0
Rising now [] = Unit
Rising now ((t, key) ∷ attempts) = (now ≤ t) × Rising t attempts

abbrev pub last_time : ℕ → List (ℕ × Text) → ℕ
last_time now [] = now
last_time now ((t, key) ∷ attempts) = last_time t attempts

-- Under a clock that does not fall back, a well-formed limiter stays so through any sequence of
-- attempts: its table has at most max_keys entries and none that started in the future.
pub run_attempts-WellFormed :
    (now : ℕ) (l : PrincipalRateLimiter) (attempts : List (ℕ × Text))
    → WellFormed now l
    → Rising now attempts
    → WellFormed (last_time now attempts) (run_attempts l attempts)
unfolding run_attempts
run_attempts-WellFormed now l [] v r = v
run_attempts-WellFormed now l ((t, key) ∷ attempts) v r =
    run_attempts-WellFormed t (attempt l t key).0 attempts (attempt-WellFormed now t l key r.0 v)
      r.1
