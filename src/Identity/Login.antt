-- ===== src/Identity/Login.antt =====
-- `SessionService.Login` of services/identity-service/usecase/session_service.go. strings.ToLower, the
-- dummy hash and the comparison of a password with a hash are arguments; so is what the reader of
-- accounts gives. The session that `createSession` makes is in Login/Sessions.
pub mod Grants
pub mod Sessions
mod Tests
use raglibrarian.Base.{
  ℕ, suc, ◌+◌, Bool, true, false, not, ◌&&◌, ◌||◌, List, [], ◌∷◌, Option, none, some, map,
  if◌then◌else◌, is_empty, Text, literal, text_eq, trim_space,
}
use raglibrarian.Identity.Account.{
  Role, User, admin, librarian, reader, other_role, valid_role, can_authenticate, valid_email,
}

-- `passwords.Compare`
pub data Comparison : Type 0 where
  equal different compare_failed : Comparison

pub data LoginOutcome : Type 0 where
  create_session : User → LoginOutcome
  available_roles : List Role → LoginOutcome
  invalid_credentials login_failed : LoginOutcome

-- A result, and the number of passwords that were compared.
pub record LoginReply : Type 0 where
  pub outcome : LoginOutcome
  pub comparisons : ℕ

-- `domain.Role(value)`
unfoldable pub role_named : Text → Role
role_named value =
    if text_eq value (literal "admin")
    then admin
    else if text_eq value (literal "librarian")
    then librarian
    else if text_eq value (literal "reader")
    then reader
    else other_role value

unfoldable pub role_eq : Role → Role → Bool
role_eq admin admin = true
role_eq librarian librarian = true
role_eq reader reader = true
role_eq (other_role s) (other_role t) = text_eq s t
role_eq _ _ = false

-- The map of the accounts by their roles: a later account replaces an earlier one.
unfoldable pub by_role : List User → Role → Option User
by_role [] role = none
by_role (u ∷ users) role = elim (by_role users role) [
  | some later ↦ some later
  | none ↦ if role_eq u.role role then some u else none
]

abbrev pub all_roles : List Role
all_roles = admin ∷ librarian ∷ reader ∷ []

module _ (lower : Text → Text) (dummy_password_hash : Text)
    (compare : Text → Text → Comparison) where
  abbrev hash_of : Option User → Text
  hash_of none = dummy_password_hash
  hash_of (some u) = u.password_hash

  abbrev matched : Option User → Comparison → List User → List User
  matched (some u) equal users = if can_authenticate u then u ∷ users else users
  matched _ _ users = users

  -- One round, with what the rounds behind it give.
  abbrev add_match : Option User → Comparison → Option (List User) × ℕ → Option (List User) × ℕ
  add_match user compare_failed rest = (none, 1)
  add_match user result (none, n) = (none, suc n)
  add_match user result (some users, n) = (some (matched user result users), suc n)

  -- The loop over the roles: the matches, or none where the code returns, and the comparisons.
  unfoldable pub match_roles : Text → List User → List Role → Option (List User) × ℕ
  match_roles plaintext users [] = (some [], 0)
  match_roles plaintext users (role ∷ roles) =
      let user = by_role users role in
      add_match user (compare (hash_of user) plaintext) (match_roles plaintext users roles)

  -- The account of the selected role among the matches.
  unfoldable pub select_role : Role → List User → LoginOutcome
  select_role role [] = invalid_credentials
  select_role role (u ∷ users) =
      if role_eq u.role role then create_session u else select_role role users

  unfoldable pub decide_login : Text → List User → LoginOutcome
  decide_login selected_role matches =
      if not (is_empty selected_role)
      then if not (valid_role (role_named selected_role))
        then invalid_credentials
        else select_role (role_named selected_role) matches
      else elim matches [
        | [] ↦ invalid_credentials
        | u ∷ rest ↦
            if is_empty rest
            then create_session u
            else available_roles (map (λ v. v.role) (u ∷ rest))
      ]

  -- `accounts` is what FindByEmailRoles gives for the normalized address, none for an error.
  unfoldable pub login : (Text → Option (List User)) → Text → Text → Text → LoginReply
  login accounts email plaintext selected_role =
      let address = lower (trim_space email) in
      if not (valid_email address)
      then record { outcome = invalid_credentials; comparisons = 3 }
      else elim (accounts address) [
        | none ↦ record { outcome = login_failed; comparisons = 0 }
        | some users ↦
            let (matches, n) = match_roles plaintext users all_roles in
            record {
              outcome = elim matches [
                | none ↦ login_failed
                | some ms ↦ decide_login selected_role ms
              ];
              comparisons = n;
            }
      ]
