-- ===== src/Edge/RateLimit/Retry.antt =====
-- A refused client that waits as long as it is told.
use raglibrarian.Base.{
  ℕ, ◌+◌, ◌*◌, ◌≤◌, ◌≡◌, inl, inr, true, false, none, some, ◌∷◌, arith, is_empty, ◌++◌, Text,
  text_eq_refl, Option-cases,
}
use raglibrarian.Edge.RateLimit.{
  FixedWindowEntry, PrincipalRateLimiter, find, make_room, current_entry, attempt, allow,
  remaining_window, retry_after_seconds,
}
use raglibrarian.Edge.RateLimit.Table.{find-put, keep-nil}
use raglibrarian.Edge.RateLimit.Invariant.{WellFormed, find-make_room, attempt-WellFormed}

-- The seconds of the header cover the wait.
pub retry_after_seconds_lem : (delay : ℕ) → delay ≤ retry_after_seconds delay * 1000000000
unfolding retry_after_seconds
retry_after_seconds_lem delay = ground arith

attempt-expired :
    (l : PrincipalRateLimiter) (later : ℕ) (key : Text) (e : FixedWindowEntry)
    → find key l.entries ≡ some e
    → e.started + l.window ≤ later
    → 1 ≤ l.limit
    → (attempt l later key).1 ≡ (true, 0)
unfolding attempt make_room current_entry
attempt-expired l later key e f h p = rw f (ground arith)

attempt-emptied :
    (now later : ℕ) (l : PrincipalRateLimiter) (key : Text)
    → WellFormed now l
    → find key l.entries ≡ none
    → now + l.window ≤ later
    → (attempt l later key).1 ≡ (true, 0)
unfolding attempt make_room current_entry
attempt-emptied now later l key v f h =
    rw f (ground (arith, v.limited, keep-nil now later l.window l.entries h v.dated))

attempt-found :
    (l : PrincipalRateLimiter) (now : ℕ) (key : Text) (e : FixedWindowEntry)
    → find key l.entries ≡ some e
    → 1 ≤ l.limit
    → let (m, verdict) = attempt l now key in
      verdict.0 ≡ false
      → (find key m.entries ≡ some (record e { count = e.count + 1 }))
        × (m.limit ≡ l.limit)
        × (e.started + m.window ≤ now + verdict.1)
unfolding attempt make_room current_entry remaining_window
attempt-found l now key e f p = rw f (λ refused.
    ground (arith, find-put key key (record e { count = e.count + 1 }) l.entries, text_eq_refl key))

attempt-absent :
    (l : PrincipalRateLimiter) (now : ℕ) (key : Text)
    → find key l.entries ≡ none
    → 1 ≤ l.limit
    → let (m, verdict) = attempt l now key in
      verdict.0 ≡ false
      → (find key m.entries ≡ none) × (m.window ≡ l.window) × (verdict.1 ≡ l.window)
unfolding attempt current_entry
attempt-absent l now key f p = let kept = find-make_room now l key in ground (arith, f, kept)

attempt-retry :
    (l : PrincipalRateLimiter) (now later : ℕ) (key : Text)
    → WellFormed now l
    → let (m, verdict) = attempt l now key in
      verdict.0 ≡ false → now + verdict.1 ≤ later → (attempt m later key).1 ≡ (true, 0)
attempt-retry l now later key v refused t =
    let m = (attempt l now key).0 in
    let w = attempt-WellFormed now now l key (omega arith) v in
    elim (Option-cases (find key l.entries)) [
      | inl absent ↦
          let (f, window, wait) = attempt-absent l now key absent v.limited.0 refused in
          attempt-emptied now later m key w f (ground (arith, window, wait, t))
      | inr (e, found) ↦
          let (f, limit, ends) = attempt-found l now key e found v.limited.0 refused in
          attempt-expired m later key (record e { count = e.count + 1 }) f (ground (arith, ends, t))
            w.limited.0
    ]

-- A principal that a well-formed limiter refuses, and that waits at least the seconds it is told
-- with nobody else asking in between, is admitted.
pub allow-retry :
    (l : PrincipalRateLimiter) (now later : ℕ) (user_id role : Text)
    → WellFormed now l
    → is_empty user_id ≡ false
    → is_empty role ≡ false
    → (allow l now user_id role).1.0 ≡ false
    → now + retry_after_seconds (allow l now user_id role).1.1 * 1000000000 ≤ later
    → (allow (allow l now user_id role).0 later user_id role).1 ≡ (true, 0)
unfolding allow
allow-retry l now later user_id role v u r refused t =
    let key = user_id ++ (b':' ∷ role) in
    let wait = (attempt l now key).1.1 in
    ground (arith, attempt-retry l now later key v, retry_after_seconds_lem wait)
