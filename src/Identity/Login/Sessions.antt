-- ===== src/Identity/Login/Sessions.antt =====
-- `createSession` of services/identity-service/usecase/session_service.go, and Login with it; newSession,
-- newRefreshToken and AuthResult are in authentication_support.go beside it. The random bytes, the
-- identifiers of uuid, SHA-256, the clock, the signer of access tokens and the store are a record.
use raglibrarian.Base.{
  ℕ, ◌<◌, ◌≡◌, ◌≢◌, refl, true, false, Bool, List, [], Option, none, some, arith, ℤ, pos, ltb_ℤ,
  add_time, Result, ok, err, is_empty, if◌then◌else◌, Text, trim_space,
}
use raglibrarian.Identity.Account.{Role, User, other_role, valid_role, valid_email}
use raglibrarian.Identity.Login.{
  Comparison, compare_failed, LoginOutcome, create_session, available_roles, invalid_credentials,
  login_failed, role_named, login,
}
use raglibrarian.Identity.Login.Grants.{IsMatch, login-create_session}

pub record Session : Type 0 where
  pub id : Text
  pub user_id : Text
  pub family_id : Text
  pub expires_at : ℕ

pub record AuthResult : Type 0 where
  pub access_token : Text
  pub refresh_token : Text
  pub session_id : Text
  pub role : Role
  pub available_roles : List Role

-- What `sessions.Create` is given.
pub record Stored : Type 0 where
  pub session : Session
  pub created_at : ℕ
  pub token_hash : ℕ

pub data LoginError : Type 0 where
  refused broken : LoginError
  generate_failed issue_failed create_failed : LoginError

-- `random` is none where rand.Read fails, and else the encoded bytes.
pub record SessionWorld : Type 0 where
  pub random : Option Text
  pub session_id : Text
  pub family_id : Text
  pub hash : Text → ℕ
  pub now : ℕ
  pub session_ttl : ℤ
  pub issue : Text → Text → Role → Text → Option Text
  pub create : Stored → Bool

unfoldable pub new_refresh_token : SessionWorld → Option (Text × ℕ)
new_refresh_token w = elim w.random [
  | none ↦ none
  | some plaintext ↦ some (plaintext, w.hash plaintext)
]

unfoldable pub new_session : SessionWorld → Text → ℕ → Session
new_session w user_id expires_at = record {
  id = w.session_id;
  user_id = user_id;
  family_id = w.family_id;
  expires_at = expires_at;
}

-- What Login gives, and the session that the store has taken.
abbrev pub Opened : Type 0
Opened = Result LoginError AuthResult × Option Stored

-- `createSession`
unfoldable pub open_session : SessionWorld → User → Opened
unfolding new_refresh_token new_session
open_session w user = elim (new_refresh_token w) [
  | none ↦ (err generate_failed, none)
  | some (refresh_token, token_hash) ↦
      let session = new_session w user.id (add_time w.now w.session_ttl) in
      let stored : Stored = record {
        session = session;
        created_at = w.now;
        token_hash = token_hash;
      } in
      elim (w.issue user.id user.email user.role session.id) [
        | none ↦ (err issue_failed, none)
        | some access_token ↦
            if w.create stored
            then (
              ok (record {
                access_token = access_token;
                refresh_token = refresh_token;
                session_id = session.id;
                role = user.role;
                available_roles = [];
              }),
              some stored,
            )
            else (err create_failed, none)
      ]
]

unfoldable pub finish_login : SessionWorld → LoginOutcome → Opened
unfolding open_session
finish_login w (create_session user) = open_session w user
finish_login w (available_roles roles) = (
  ok (record {
    access_token = [];
    refresh_token = [];
    session_id = [];
    role = other_role [];
    available_roles = roles;
  }),
  none,
)
finish_login w invalid_credentials = (err refused, none)
finish_login w login_failed = (err broken, none)

-- A session for an account: the caller has its tokens, and the store the hash of the one to refresh it.
pub record IsSession (w : SessionWorld) (u : User) (r : Opened) : Type 0 where
  pub result : AuthResult
  pub stored : Stored
  pub gives : r ≡ (ok result, some stored)
  pub taken : w.create stored ≡ true
  pub same_role : result.role ≡ u.role
  pub owner : stored.session.user_id ≡ u.id
  pub same_session : result.session_id ≡ stored.session.id
  pub same_token : stored.token_hash ≡ w.hash result.refresh_token
  pub signed : w.issue u.id u.email u.role stored.session.id ≡ some result.access_token
  pub lives : stored.created_at < stored.session.expires_at

-- What the making of a session for an account relies on: there are random bytes, its access token is
-- signed, the store takes its session, and sessions live for some time, as NewSessionService checks.
pub record Works (w : SessionWorld) (u : User) : Type 0 where
  pub plaintext : Text
  pub access_token : Text
  pub reads : w.random ≡ some plaintext
  pub signs : w.issue u.id u.email u.role w.session_id ≡ some access_token
  pub takes : (stored : Stored) → stored.session.user_id ≡ u.id → w.create stored ≡ true
  pub lasts : ltb_ℤ (pos 0) w.session_ttl ≡ true

open_session-IsSession :
    (w : SessionWorld) (u : User) → Works w u → IsSession w u (open_session w u)
unfolding open_session new_refresh_token new_session
open_session-IsSession w u works =
    let session : Session = record {
      id = w.session_id;
      user_id = u.id;
      family_id = w.family_id;
      expires_at = add_time w.now w.session_ttl;
    } in
    let stored : Stored = record {
      session = session;
      created_at = w.now;
      token_hash = w.hash works.plaintext;
    } in
    let result : AuthResult = record {
      access_token = works.access_token;
      refresh_token = works.plaintext;
      session_id = w.session_id;
      role = u.role;
      available_roles = [];
    } in
    record {
      result = result;
      stored = stored;
      gives = rw (works.reads, works.signs, works.takes stored refl) refl;
      taken = works.takes stored refl;
      same_role = refl;
      owner = refl;
      same_session = refl;
      same_token = refl;
      signed = works.signs;
      lives = ground (arith, works.lasts);
    }

module _ (lower : Text → Text) (dummy_password_hash : Text)
    (compare : Text → Text → Comparison) where
  -- `Login` with the session that it makes.
  unfoldable pub login_session :
      SessionWorld → (Text → Option (List User)) → Text → Text → Text → Opened
  unfolding finish_login
  login_session w accounts email plaintext selected_role =
      finish_login w
        (login lower dummy_password_hash compare accounts email plaintext selected_role).outcome

  -- The owner of an active account of an address that passes the test, who gives its password and
  -- selects its role, one of the three, gets a session for it, when the search for the accounts of the
  -- address finds it as the one of its role, no comparison of the password breaks down, and the making of
  -- the session does not: sessions last a positive time, there are random bytes, the access token is
  -- signed and the store takes the session. The access token is signed for the account and the session that is stored, which lives for
  -- some time, with the hash of the refresh token.
  pub login_session-IsSession :
      (plaintext : Text) (works : (hash : Text) → compare hash plaintext ≢ compare_failed)
      (w : SessionWorld) (accounts : Text → Option (List User)) (email selected_role : Text)
      (users : List User) (u : User)
      → valid_email (lower (trim_space email)) ≡ true
      → accounts (lower (trim_space email)) ≡ some users
      → IsMatch lower dummy_password_hash compare plaintext users u
      → valid_role u.role ≡ true
      → is_empty selected_role ≡ false
      → role_named selected_role ≡ u.role
      → Works w u
      → IsSession w u (login_session w accounts email plaintext selected_role)
  unfolding login_session finish_login
  login_session-IsSession plaintext works w accounts email selected_role users u v a m r s n makes =
      rw
        (login-create_session lower dummy_password_hash compare plaintext works accounts email
          selected_role users u v a m r s n)
        (open_session-IsSession w u makes)
