-- ===== src/Edge/RateLimit/Window.antt =====
-- How many attempts a limiter admits within a window.
use raglibrarian.Base.{
  ℕ, suc, ◌+◌, ◌-◌, ◌<◌, ◌≡◌, inl, inr, subst, sym, leb, ◌&&◌, false, some, List, [], ◌∷◌, All,
  arith, min, if◌then◌else◌, Text, text_eq, text_eq_refl, text_eq→eq, Bool-cases,
}
use raglibrarian.Edge.RateLimit.{
  FixedWindowEntry, PrincipalRateLimiter, find, make_room, current_entry, attempt,
}
use raglibrarian.Edge.RateLimit.Table.{find-put, find-keep}

-- How many attempts have the key.
unfoldable pub asked : Text → List (ℕ × Text) → ℕ
asked key [] = 0
asked key ((now, k) ∷ attempts) =
    let rest = asked key attempts in if text_eq key k then suc rest else rest

-- How many attempts with the key are admitted, beginning with a limiter.
unfoldable pub admitted : PrincipalRateLimiter → Text → List (ℕ × Text) → ℕ
admitted l key [] = 0
admitted l key ((now, k) ∷ attempts) =
    let (m, verdict) = attempt l now k in
    let rest = admitted m key attempts in if text_eq key k && verdict.0 then suc rest else rest

abbrev pub Before : ℕ → ℕ × Text → Type 0
Before end (now, key) = now < end

attempt-other :
    (l : PrincipalRateLimiter) (now : ℕ) (key k : Text) (e : FixedWindowEntry)
    → find key l.entries ≡ some e
    → now < e.started + l.window
    → text_eq key k ≡ false
    → let m = (attempt l now k).0 in
      (find key m.entries ≡ some e) × (m.limit ≡ l.limit) × (m.window ≡ l.window)
unfolding attempt make_room
attempt-other l now key k e f h d =
    let es = make_room now l (find k l.entries) in
    let c = current_entry now l.window (find k l.entries) in
    let counted : FixedWindowEntry = record c { count = c.count + 1 } in
    ground (arith, find-keep now l.window key e l.entries f h, find-put key k counted es)

attempt-same :
    (l : PrincipalRateLimiter) (now : ℕ) (key : Text) (e : FixedWindowEntry)
    → find key l.entries ≡ some e
    → now < e.started + l.window
    → let (m, verdict) = attempt l now key in
      (find key m.entries ≡ some (record e { count = e.count + 1 }))
      × (m.limit ≡ l.limit)
      × (m.window ≡ l.window)
      × (verdict.0 ≡ leb (e.count + 1) l.limit)
unfolding attempt make_room current_entry
attempt-same l now key e f h = rw f (
    ground (arith, find-put key key (record e { count = e.count + 1 }) l.entries, text_eq_refl key))

-- While the window of a key runs, the limiter admits as many of the attempts with the key as are
-- left of the limit, and no more, whatever the other keys do in between.
pub admitted_lem :
    (l : PrincipalRateLimiter) (key : Text) (e : FixedWindowEntry) (attempts : List (ℕ × Text))
    → find key l.entries ≡ some e
    → All (Before (e.started + l.window)) attempts
    → admitted l key attempts ≡ min (asked key attempts) (l.limit - e.count)
unfolding admitted asked
admitted_lem l key e [] f a = omega arith
admitted_lem l key e ((now, k) ∷ attempts) f a =
    let m = (attempt l now k).0 in
    elim (Bool-cases (text_eq key k)) [
      | inr other ↦
          let (found, limit, window) = attempt-other l now key k e f a.0 other in
          let rest =
            admitted_lem m key e attempts found
              (subst (λ w. All (Before (e.started + w)) attempts) (sym window) a.1) in
          ground (arith, rest, limit)
      | inl same ↦
          let k_eq = text_eq→eq key k same in
          let (found, limit, window, verdict) =
            subst
              (λ x.
                let (n, verdict) = attempt l now x in
                (find key n.entries ≡ some (record e { count = e.count + 1 }))
                × (n.limit ≡ l.limit)
                × (n.window ≡ l.window)
                × (verdict.0 ≡ leb (e.count + 1) l.limit))
              k_eq (attempt-same l now key e f a.0) in
          let rest =
            admitted_lem m key (record e { count = e.count + 1 }) attempts found
              (subst (λ w. All (Before (e.started + w)) attempts) (sym window) a.1) in
          ground (arith, rest, limit, verdict)
    ]
