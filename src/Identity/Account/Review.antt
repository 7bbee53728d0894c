-- ===== src/Identity/Account/Review.antt =====
-- Who decides on a librarian, and who may use sessions.
use raglibrarian.Base.{
  ℕ, ◌≡◌, inl, inr, refl, Bool, true, false, List, [], ◌∷◌, Option, none, some, arith, is_empty,
  ◌&&◌, ◌||◌, if◌then◌else◌, Text, after, ok, Bool-cases,
}
use raglibrarian.Identity.Account.{
  User, Role, Status, Decided, is_librarian, is_pending, is_active, active, pending, rejected,
  librarian, valid_role, valid_status, new_user, approve, reject, review, review_all,
  can_authenticate,
}

-- The first review by somebody with a name.
unfoldable pub first_named : List Decided → Option Decided
first_named [] = none
first_named (d ∷ ds) = let rest = first_named ds in if is_empty d.reviewer_id then rest else some d

unfoldable pub decide_by : User → Option Decided → User
decide_by u none = u
decide_by u (some d) = record u {
  status = if d.approves then active else rejected;
  reviewed_by = d.reviewer_id;
  reviewed_at = d.at;
}

-- A user that the constructor accepts has a valid role and status, and waits for a review or is
-- rejected only as a librarian.
abbrev pub Coherent : User → Type 0
Coherent u =
    (valid_role u.role ≡ true)
    × (valid_status u.status ≡ true)
    × ((is_active u.status ≡ false) → is_librarian u.role ≡ true)

pub new-Coherent :
    (to_lower : Text → Text) (id name email : Text) (fingerprint : List ℕ) (hash : Text)
    (role : Role) (status : Status) (verified created : ℕ) (u : User)
    → new_user to_lower id name email fingerprint hash role status verified created ≡ ok u
    → Coherent u
unfolding new_user valid_role valid_status
new-Coherent to_lower id name email fingerprint hash role status verified created u h = ground arith

review-settled : (u : User) (d : Decided) → is_pending u.status ≡ false → after u (review u d) ≡ u
unfolding review approve reject
review-settled u d h = ground arith

review_all-settled :
    (u : User) (ds : List Decided) → is_pending u.status ≡ false → review_all u ds ≡ u
unfolding review_all
review_all-settled u [] h = refl
review_all-settled u (d ∷ ds) h = ground (arith, review-settled u d h, review_all-settled u ds h)

review-unnamed : (u : User) (d : Decided) → is_empty d.reviewer_id ≡ true → after u (review u d) ≡ u
unfolding review approve reject
review-unnamed u d h = ground arith

review-named :
    (u : User) (d : Decided)
    → u.role ≡ librarian
    → u.status ≡ pending
    → is_empty d.reviewer_id ≡ false
    → after u (review u d) ≡ decide_by u (some d)
unfolding review approve reject decide_by
review-named u d r s h = ground arith

decide_by-settled : (u : User) (d : Decided) → is_pending (decide_by u (some d)).status ≡ false
unfolding decide_by
decide_by-settled u d = ground arith

-- A pending librarian is decided on by the first review of a named reviewer, whatever reviews
-- follow it; without one it stays as it is.
pub review_all_lem :
    (u : User) (ds : List Decided)
    → u.role ≡ librarian
    → u.status ≡ pending
    → review_all u ds ≡ decide_by u (first_named ds)
unfolding review_all first_named decide_by
review_all_lem u [] r s = refl
review_all_lem u (d ∷ ds) r s = elim (Bool-cases (is_empty d.reviewer_id)) [
  | inl unnamed ↦ rw (review-unnamed u d unnamed, unnamed) (review_all_lem u ds r s)
  | inr named ↦
      rw (review-named u d r s named, named)
        (review_all-settled (decide_by u (some d)) ds (decide_by-settled u d))
]

-- Is the first review by somebody with a name an approval?
abbrev pub approved : Option Decided → Bool
approved none = false
approved (some d) = d.approves

decide_by-approved :
    (u : User) (o : Option Decided)
    → u.status ≡ pending
    → is_active (decide_by u o).status ≡ (is_active u.status || (is_pending u.status && approved o))
unfolding decide_by
decide_by-approved u none h = ground arith
decide_by-approved u (some d) h = ground arith

-- After any reviews a coherent user may use sessions exactly if it was active before, or if it was
-- pending and the first named reviewer approved of it.
pub review_all-can_authenticate :
    (u : User) (ds : List Decided)
    → Coherent u
    → can_authenticate (review_all u ds)
      ≡ (is_active u.status || (is_pending u.status && approved (first_named ds)))
unfolding can_authenticate valid_status
review_all-can_authenticate u ds c = elim (Bool-cases (is_pending u.status)) [
  | inr settled ↦ ground (arith, review_all-settled u ds settled)
  | inl waits ↦
      let waiting : u.status ≡ pending = ground (arith, waits) in
      let role : u.role ≡ librarian = ground (arith, c.2, waits) in
      rw (review_all_lem u ds role waiting) (decide_by-approved u (first_named ds) waiting)
]
