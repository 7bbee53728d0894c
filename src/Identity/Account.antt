-- ===== src/Identity/Account.antt =====
-- services/identity-service/domain/user.go. strings.ToLower is a parameter, which the theorems need
-- nothing of. A role or status that has no name here is the string that it is.
pub mod Review
mod Tests
use raglibrarian.Base.{
  ℕ, zero, suc, ◌+◌, Bool, true, false, not, ◌&&◌, ◌||◌, List, [], ◌∷◌, Option, none, some, ltb,
  ◌==◌, if◌then◌else◌, is_empty, Text, byte_len, trim_space, is_blank, Result, ok, err, refuse_if,
  ◌>>◌, ◌>>=◌, after,
}

pub data UserError : Type 0 where
  user_not_found empty_name empty_email invalid_email empty_password_hash : UserError
  invalid_role invalid_status invalid_transition : UserError

pub data Role : Type 0 where
  admin librarian reader : Role
  other_role : Text → Role

pub data Status : Type 0 where
  pending active rejected : Status
  other_status : Text → Status

-- `Role.IsValid`
unfoldable pub valid_role : Role → Bool
valid_role (other_role _) = false
valid_role _ = true

-- `Status.IsValid`
unfoldable pub valid_status : Status → Bool
valid_status (other_status _) = false
valid_status _ = true

abbrev pub is_admin : Role → Bool
is_admin admin = true
is_admin _ = false

abbrev pub is_librarian : Role → Bool
is_librarian librarian = true
is_librarian _ = false

abbrev pub is_reader : Role → Bool
is_reader reader = true
is_reader _ = false

abbrev pub is_pending : Status → Bool
is_pending pending = true
is_pending _ = false

abbrev pub is_active : Status → Bool
is_active active = true
is_active _ = false

pub record User : Type 0 where
  pub id : Text
  pub name : Text
  pub email : Text
  pub email_fingerprint : List ℕ
  pub password_hash : Text
  pub role : Role
  pub status : Status
  pub verified_at : ℕ
  pub created_at : ℕ
  pub reviewed_by : Text
  pub reviewed_at : ℕ

-- `strings.LastIndex` for a string of one rune, in bytes; none for -1.
unfoldable pub last_index : ℕ → Text → Option ℕ
unfolding byte_len
last_index c [] = none
last_index c (x ∷ s) = elim (last_index c s) [
  | some i ↦ some (byte_len (x ∷ []) + i)
  | none ↦ if x == c then some 0 else none
]

-- The test of the place of the last '@'.
unfoldable pub valid_email : Text → Bool
unfolding last_index byte_len
valid_email email = elim (last_index b'@' email) [
  | none ↦ false
  | some at ↦ not (ltb at 1 || at + 1 == byte_len email)
]

unfoldable pub new_user :
    (Text → Text)
    → Text
    → Text
    → Text
    → List ℕ
    → Text
    → Role
    → Status
    → ℕ
    → ℕ
    → Result UserError User
unfolding is_blank trim_space valid_email valid_role valid_status
new_user to_lower id given_name given_email fingerprint password_hash role status verified_at
      created_at =
    let name = trim_space given_name in
    let email = to_lower (trim_space given_email) in
    do
      refuse_if (is_blank id) user_not_found
      refuse_if (is_empty name) empty_name
      refuse_if (is_empty email) empty_email
      refuse_if (not (valid_email email)) invalid_email
      refuse_if (is_blank password_hash) empty_password_hash
      refuse_if (not (valid_role role)) invalid_role
      refuse_if (not (valid_status status)) invalid_status
      refuse_if (is_admin role && not (is_active status)) invalid_status
      refuse_if (is_reader role && not (is_active status)) invalid_status
      ok (record {
        id = id;
        name = name;
        email = email;
        email_fingerprint = fingerprint;
        password_hash = password_hash;
        role = role;
        status = status;
        verified_at = verified_at;
        created_at = created_at;
        reviewed_by = [];
        reviewed_at = 0;
      })

-- `NewUnverifiedUser`: the zero time says that the address was not verified.
unfoldable pub new_unverified_user :
    (Text → Text) → Text → Text → Text → List ℕ → Text → Role → Status → ℕ → Result UserError User
unfolding new_user
new_unverified_user to_lower id name email fingerprint password_hash role status created_at =
    new_user to_lower id name email fingerprint password_hash role status 0 created_at

-- The guard that `Approve` and `Reject` share.
unfoldable pub reviewable : User → Text → Bool
reviewable u reviewer_id = is_librarian u.role && is_pending u.status && not (is_empty reviewer_id)

unfoldable pub approve : User → Text → ℕ → Result UserError User
unfolding reviewable
approve u reviewer_id at = do
  refuse_if (not (reviewable u reviewer_id)) invalid_transition
  ok (record u { status = active; reviewed_by = reviewer_id; reviewed_at = at })

unfoldable pub reject : User → Text → ℕ → Result UserError User
unfolding reviewable
reject u reviewer_id at = do
  refuse_if (not (reviewable u reviewer_id)) invalid_transition
  ok (record u { status = rejected; reviewed_by = reviewer_id; reviewed_at = at })

unfoldable pub can_authenticate : User → Bool
can_authenticate u = is_active u.status

-- One review: is it an approval, by whom, and when?
pub record Decided : Type 0 where
  pub approves : Bool
  pub reviewer_id : Text
  pub at : ℕ

unfoldable pub review : User → Decided → Result UserError User
unfolding approve reject
review u d = if d.approves then approve u d.reviewer_id d.at else reject u d.reviewer_id d.at

unfoldable pub review_all : User → List Decided → User
unfolding review
review_all u [] = u
review_all u (d ∷ ds) = review_all (after u (review u d)) ds
