-- ===== src/Edge/RateLimit.antt =====
-- services/edge-api/middleware/rate_limit.go. The clock is an argument, in nanoseconds; the map of
-- entries is a list of keys with their entries, for which the code depends on no order.
pub mod Table
pub mod Invariant
pub mod Window
pub mod Retry
mod Tests
use raglibrarian.Base.{
  ℕ, suc, ◌+◌, ◌-◌, ◌/◌, ◌%◌, Bool, true, false, not, ◌&&◌, ◌||◌, List, [], ◌∷◌, ◌++◌, Option, none,
  some, leb, ltb, ◌==◌, if◌then◌else◌, length, keep, is_empty, is_some, Text, literal, text_eq,
  Result, ok, err,
}

pub record FixedWindowEntry : Type 0 where
  pub started : ℕ
  pub count : ℕ

abbrev pub Entries : Type 0
Entries = List (Text × FixedWindowEntry)

pub record PrincipalRateLimiter : Type 0 where
  pub limit : ℕ
  pub window : ℕ
  pub max_keys : ℕ
  pub entries : Entries

-- `NewPrincipalRateLimiter`, with none for its panic; what is below 1 is refused, so 0 stands for it.
unfoldable pub new_principal_rate_limiter : ℕ → ℕ → ℕ → Option PrincipalRateLimiter
new_principal_rate_limiter limit window max_keys =
    if ltb limit 1 || window == 0 || ltb max_keys 1
    then none
    else some (record { limit = limit; window = window; max_keys = max_keys; entries = [] })

unfoldable pub find : Text → Entries → Option FixedWindowEntry
unfolding text_eq
find key [] = none
find key ((k, e) ∷ es) = if text_eq key k then some e else find key es

-- `entries[key] = entry`
unfoldable pub put : Text → FixedWindowEntry → Entries → Entries
unfolding text_eq
put key entry [] = (key, entry) ∷ []
put key entry ((k, e) ∷ es) = if text_eq key k then (key, entry) ∷ es else (k, e) ∷ put key entry es

-- `now.Sub(started) >= window`
abbrev pub expired : ℕ → ℕ → FixedWindowEntry → Bool
expired now window entry = leb (entry.started + window) now

abbrev pub live : ℕ → ℕ → Text × FixedWindowEntry → Bool
live now window (key, entry) = not (expired now window entry)

-- The loop that deletes what expired, when a new key finds the table full.
unfoldable pub make_room : ℕ → PrincipalRateLimiter → Option FixedWindowEntry → Entries
make_room now l found =
    if not (is_some found) && leb l.max_keys (length l.entries)
    then keep (live now l.window) l.entries
    else l.entries

unfoldable pub remaining_window : ℕ → ℕ → ℕ → ℕ
remaining_window now started window = started + window - now

-- The entry that an attempt counts in.
unfoldable pub current_entry : ℕ → ℕ → Option FixedWindowEntry → FixedWindowEntry
current_entry now window none = record { started = now; count = 0 }
current_entry now window (some entry) =
    if expired now window entry then record { started = now; count = 0 } else entry

abbrev pub Verdict : Type 0
Verdict = Bool × ℕ

-- An attempt with a key.
unfoldable pub attempt : PrincipalRateLimiter → ℕ → Text → PrincipalRateLimiter × Verdict
unfolding find put make_room remaining_window current_entry
attempt l now key =
    let found = find key l.entries in
    let roomy = record l { entries = make_room now l found } in
    let entry = current_entry now l.window found in
    let counted = record entry { count = entry.count + 1 } in
    if not (is_some found) && leb l.max_keys (length roomy.entries)
    then (roomy, (false, l.window))
    else (
      record roomy { entries = put key counted roomy.entries },
      if ltb l.limit counted.count
          then (false, remaining_window now counted.started l.window)
          else (true, 0),
    )

unfoldable pub allow : PrincipalRateLimiter → ℕ → Text → Text → PrincipalRateLimiter × Verdict
unfolding attempt
allow l now user_id role =
    if is_empty user_id || is_empty role
    then (l, (false, l.window))
    else attempt l now (user_id ++ (b':' ∷ role))

-- `FixedWindowRateLimit`, whose table is another limiter: the key is the host of the address, which
-- net.SplitHostPort may not find.
unfoldable pub allow_address :
    (Text → Option Text) → PrincipalRateLimiter → ℕ → Text → PrincipalRateLimiter × Verdict
unfolding attempt
allow_address split_host_port l now remote_addr =
    attempt l now
      (elim (split_host_port remote_addr) [ none ↦ literal "unknown" | some host ↦ host ])

-- The number that `retryAfterSeconds` prints.
unfoldable pub retry_after_seconds : ℕ → ℕ
retry_after_seconds delay =
    let seconds = delay / 1000000000 in
    let rounded = if delay % 1000000000 == 0 then seconds else seconds + 1 in
    if ltb rounded 1 then 1 else rounded

-- The limiter after a sequence of attempts, each with its time and key.
unfoldable pub run_attempts : PrincipalRateLimiter → List (ℕ × Text) → PrincipalRateLimiter
unfolding attempt
run_attempts l [] = l
run_attempts l ((now, key) ∷ attempts) = run_attempts (attempt l now key).0 attempts
