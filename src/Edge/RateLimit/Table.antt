-- ===== src/Edge/RateLimit/Table.antt =====
-- The table of entries: what is found behind the writes and deletions, and how long it gets.
use raglibrarian.Base.{
  ℕ, ◌+◌, ◌≤◌, ◌<◌, ◌≡◌, refl, none, some, [], ◌∷◌, All, arith, length, keep, is_some,
  if◌then◌else◌, Text, text_eq, text_eq_refl, text_eq→eq,
}
use raglibrarian.Edge.RateLimit.{FixedWindowEntry, Entries, find, put, live}

pub find-put :
    (k key : Text) (e : FixedWindowEntry) (es : Entries)
    → find k (put key e es) ≡ (if text_eq k key then some e else find k es)
unfolding find put
find-put k key e [] = ground arith
find-put k key e ((x, f) ∷ es) = ground (
  arith,
  find-put k key e es,
  text_eq→eq key x,
  text_eq→eq k key,
  text_eq_refl k,
  text_eq_refl key,
)

pub length-put :
    (key : Text) (e : FixedWindowEntry) (es : Entries)
    → length (put key e es) ≡ length es + (if is_some (find key es) then 0 else 1)
unfolding find put
length-put key e [] = ground arith
length-put key e ((x, f) ∷ es) = ground (arith, length-put key e es)

pub find-keep :
    (now window : ℕ) (key : Text) (e : FixedWindowEntry) (es : Entries)
    → find key es ≡ some e
    → now < e.started + window
    → find key (keep (live now window) es) ≡ some e
unfolding find
find-keep now window key e [] f h = ground arith
find-keep now window key e ((x, g) ∷ es) f h = ground (arith, find-keep now window key e es)

pub find-keep-none :
    (now window : ℕ) (key : Text) (es : Entries)
    → find key es ≡ none
    → find key (keep (live now window) es) ≡ none
unfolding find
find-keep-none now window key [] f = ground arith
find-keep-none now window key ((x, g) ∷ es) f = ground (arith, find-keep-none now window key es)

-- No entry started in the future.
abbrev pub Dated : ℕ → Text × FixedWindowEntry → Type 0
Dated now (key, entry) = entry.started ≤ now

pub All-later :
    (now later : ℕ) (es : Entries) → now ≤ later → All (Dated now) es → All (Dated later) es
All-later now later [] t a = tt
All-later now later ((x, f) ∷ es) t a = (omega arith, All-later now later es t a.1)

pub put-Dated :
    (now later : ℕ) (key : Text) (e : FixedWindowEntry) (es : Entries)
    → now ≤ later
    → e.started ≤ later
    → All (Dated now) es
    → All (Dated later) (put key e es)
unfolding put
put-Dated now later key e [] t h a = (h, tt)
put-Dated now later key e ((x, f) ∷ es) t h a =
    ground (arith, put-Dated now later key e es t h a.1, All-later now later es t a.1)

pub keep-Dated :
    (now later window : ℕ) (es : Entries)
    → now ≤ later
    → All (Dated now) es
    → All (Dated later) (keep (live later window) es)
keep-Dated now later window [] t a = tt
keep-Dated now later window ((x, f) ∷ es) t a = ground (arith, keep-Dated now later window es t a.1)

-- A window after the last start, everything expired.
pub keep-nil :
    (now later window : ℕ) (es : Entries)
    → now + window ≤ later
    → All (Dated now) es
    → keep (live later window) es ≡ []
keep-nil now later window [] t a = refl
keep-nil now later window ((x, f) ∷ es) t a = ground (arith, keep-nil now later window es t a.1)
