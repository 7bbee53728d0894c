-- ===== src/Identity/Login/Tests.antt =====
-- An address with a reader's and a pending librarian's account of one password.
use raglibrarian.Base.{
  ◌≡◌, ◌≢◌, refl, true, false, List, [], ◌∷◌, Option, none, some, arith, pos, err, Text, literal,
  text_eq, if◌then◌else◌, is_empty, trim_space, trim_left, trim_right, is_space, byte_len,
  rune_width,
}
use raglibrarian.Identity.Account.{
  Role, Status, User, librarian, reader, active, pending, valid_role, can_authenticate, valid_email,
  last_index,
}
use raglibrarian.Identity.Login.{
  Comparison, equal, different, compare_failed, create_session, invalid_credentials, role_named,
  role_eq, by_role, match_roles, select_role, decide_login, login,
}
use raglibrarian.Identity.Login.Grants.{IsMatch, login-IsMatch}
use raglibrarian.Identity.Login.Sessions.{
  SessionWorld, create_failed, open_session, new_refresh_token, new_session, Works, IsSession,
  login_session, login_session-IsSession,
}

program : Unit {0}
unfolding text_eq trim_space trim_left trim_right is_space byte_len rune_width valid_role
    can_authenticate valid_email last_index role_named role_eq by_role match_roles select_role
    decide_login login open_session new_refresh_token new_session
program = tt

abbrev lower : Text → Text
lower s = s

abbrev compare : Text → Text → Comparison
compare hash plaintext = if text_eq hash plaintext then equal else different

abbrev account : Role → Status → User
account role status = record {
  id = literal "u";
  name = literal "Ann";
  email = literal "a@b";
  email_fingerprint = [];
  password_hash = literal "secret";
  role = role;
  status = status;
  verified_at = 1;
  created_at = 1;
  reviewed_by = [];
  reviewed_at = 0;
}

abbrev users : List User
users = account librarian pending ∷ account reader active ∷ []

abbrev accounts : Text → Option (List User)
accounts address = some users

-- The librarian's account is not active, so there is no choice of a role.
login_runs :
    (login lower (literal "dummy") compare accounts (literal "a@b") (literal "secret") []).outcome
    ≡ create_session (account reader active)
unfolding program
login_runs = refl

pending_runs :
    (login lower
      (literal "dummy")
      compare
      accounts
      (literal "a@b")
      (literal "secret")
      (literal "librarian")).outcome
    ≡ invalid_credentials
unfolding program
pending_runs = refl

works : (hash : Text) → compare hash (literal "secret") ≢ compare_failed
works hash = λ e. ground arith

reader_matches :
    IsMatch lower (literal "dummy") compare (literal "secret") users (account reader active)
unfolding program
reader_matches = record { account = refl; password = refl; active = refl }

login-IsMatch_example :
    (found : List User) × (accounts (lower (trim_space (literal "a@b"))) ≡ some found)
    × IsMatch lower (literal "dummy") compare (literal "secret") found (account reader active)
    × (is_empty (literal "") ≡ false → reader ≡ role_named (literal ""))
login-IsMatch_example =
    login-IsMatch lower (literal "dummy") compare accounts (literal "a@b") (literal "secret") []
      (account reader active) login_runs

some_accounts : accounts (lower (trim_space (literal "a@b"))) ≢ none
some_accounts = λ e. ground arith

right_email : valid_email (lower (trim_space (literal "a@b"))) ≡ true
unfolding program
right_email = refl

right_role : valid_role reader ≡ true
unfolding program
right_role = refl

named : role_named (literal "reader") ≡ reader
unfolding program
named = refl

abbrev sessions : SessionWorld
sessions = record {
  random = some (literal "r1");
  session_id = literal "s1";
  family_id = literal "f1";
  hash = λ t. 7;
  now = 100;
  session_ttl = pos 50;
  issue = λ id email role session. some (literal "t1");
  create = λ stored. true;
}

session_made : Works sessions (account reader active)
session_made = record {
  plaintext = literal "r1";
  access_token = literal "t1";
  reads = refl;
  signs = refl;
  takes = λ stored same. refl;
  lasts = refl;
}

-- The store fails, so there is no session.
create_fails :
    open_session (record sessions { create = λ stored. false }) (account reader active)
    ≡ (err create_failed, none)
unfolding program
create_fails = refl

login_session-IsSession_example : IsSession sessions (account reader active) (
    login_session lower
      (literal "dummy")
      compare
      sessions
      accounts
      (literal "a@b")
      (literal "secret")
      (literal "reader"))
login_session-IsSession_example =
    login_session-IsSession lower (literal "dummy") compare (literal "secret") works sessions
      accounts (literal "a@b") (literal "reader") users (account reader active) right_email refl
      reader_matches right_role refl named session_made
