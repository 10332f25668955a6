-- ===== src/Auth.antt =====
-- backend/app/application/services/auth_service.py: registration and login, over the accounts'
-- database; its child Sessions has the rotation of refresh tokens and logout.
--
-- A password hasher (backend/app/infrastructure/security/password.py over argon2 or bcrypt) and the
-- digest of a token are parameters, like the signing of JWTs. The address, the request's id and the
-- user agent only go into audit records; they are left out, and so is logging.
pub mod Sessions
pub mod Counting
pub mod Rotation
pub mod Race
pub mod Registration
pub mod Login
pub mod Failures
use sentinal.Prelude.{
  ℕ, String, Bool, true, false, not, Option, none, some, List, [], ◌∷◌, ◌++◌, ltb, is_blank,
  if◌then◌else◌,
}
use sentinal.Prelude.Outcome.{Result, ok, err, Exec}
use sentinal.Upload.{text_length}
use sentinal.Users
use sentinal.Users.{User, UserError, Role, viewer}
use sentinal.Tokens.{
  RefreshToken, Jwt, TokenError, token_expired, invalid_token, TokenPayload, create_access_token,
  create_refresh_token, decode_token,
}
use sentinal.Repository.Session.{RepositoryException, not_found}
use sentinal.Service.{AuditOutcome}
use sentinal.Database.{
  Database, AuthEvent, registration, login, token_refresh, logout, user_not_found, invalid_password,
  user_inactive, log_event, begin_nested, get_by_email, get_user, create_user, create_token,
  get_by_jti, atomic_revoke_by_jti, revoke, revoke_all_for_user,
}

-- `hash_password` raises on an empty password only.
pub record Crypto : Type 0 where
  pub jwt : Jwt
  pub hash_password : String → String
  pub verify_password : (password password_hash : String) → Bool
  pub sha256 : String → String

-- What one call reads from outside: the time, fresh identifiers for a row and for the tokens, and
-- what becomes of the audit record.
pub record Call : Type 0 where
  pub now : ℕ
  pub fresh_id : ℕ
  pub access_jti : ℕ
  pub refresh_jti : ℕ
  pub audit : AuditOutcome

pub data AuthError : Type 0 where
  duplicate_email password_too_weak invalid_credentials token_revoked : AuthError
  token_already_rotated refresh_token_required token_not_found : AuthError
  token_error : TokenError → AuthError
  user_error : UserError → AuthError
  repository_error : RepositoryException → AuthError

pub record TokenPair : Type 0 where
  pub access : String
  pub refresh : String

abbrev pub new_user : Crypto → Call → (email password : String) → Option String → User
new_user k c email password full_name = record {
  id = c.fresh_id;
  email = email;
  password_hash = k.hash_password password;
  role = viewer;
  is_active = true;
  is_verified = false;
  created_at = c.now;
  full_name = full_name;
  updated_at = none;
  deleted_at = none;
}

-- after `self.user_repo.create`
unfoldable pub after_user :
    Call → Result RepositoryException User × Database → Result AuthError User × Database
after_user c (ok u, db) = (ok u, log_event c.audit (registration u.id) db)
after_user c (err e, db) = (err (repository_error e), db)

-- after `user.validate()`
unfoldable pub after_valid :
    Call → User → Database → Result UserError (Unit {0}) → Result AuthError User × Database
unfolding after_user
after_valid c u db (ok v) = after_user c (create_user c.now u db)
after_valid c u db (err e) = (err (user_error e), db)

-- after `self.user_repo.get_by_email`; the password's length is tested when the email is free.
unfoldable pub after_email :
    Crypto
    → Call
    → (email password : String) → Option String
    → Database
    → Result RepositoryException User
    → Result AuthError User × Database
unfolding after_valid
after_email k c email password full_name db (ok u) = (err duplicate_email, db)
after_email k c email password full_name db (err not_found) =
    if ltb (text_length password) 12
    then (err password_too_weak, db)
    else (let u = new_user k c email password full_name in after_valid c u db (Users.validate u))
after_email k c email password full_name db (err e) = (err (repository_error e), db)

unfoldable pub register :
    Crypto → Call → (email password : String) → Option String → Exec Database AuthError User
unfolding after_email
register k c email password full_name db =
    after_email k c email password full_name db (get_by_email email db)

-- The stored form of a token that was just made; `decode_token` has read its claims back.
abbrev pub new_token :
    Crypto → Call → (user_id : ℕ) → (token : String) → TokenPayload → RefreshToken
new_token k c user_id token p = record {
  id = c.fresh_id;
  user_id = user_id;
  jti = p.jti;
  token_hash = k.sha256 token;
  expires_at = p.exp;
  is_revoked = false;
  revoked_at = none;
  created_at = none;
}

abbrev pub access_for : Crypto → Call → User → String
access_for k c u = create_access_token k.jwt c.now c.access_jti u.id u.role

abbrev pub refresh_for : Crypto → Call → User → String
refresh_for k c u = create_refresh_token k.jwt c.now c.refresh_jti u.id

abbrev pub pair_for : Crypto → Call → User → TokenPair
pair_for k c u = record { access = access_for k c u; refresh = refresh_for k c u }

-- after `self.refresh_token_repo.create`
unfoldable pub after_store :
    Crypto
    → Call
    → User
    → Result RepositoryException RefreshToken × Database
    → Result AuthError TokenPair × Database
after_store k c u (ok t, db) = (ok (pair_for k c u), db)
after_store k c u (err e, db) = (err (repository_error e), db)

-- the storage of a new refresh token, behind its creation and its decoding
unfoldable pub store_token :
    Crypto
    → Call
    → User
    → Database
    → Result TokenError TokenPayload
    → Result AuthError TokenPair × Database
unfolding after_store
store_token k c u db (ok p) =
    after_store k c u (create_token c.now (new_token k c u.id (refresh_for k c u) p) db)
store_token k c u db (err e) = (err (token_error e), db)

-- the audit record at the end of a call that returns
unfoldable pub audited :
    {A : Type 0} → Call → AuthEvent → Result AuthError A × Database → Result AuthError A × Database
audited c e (ok a, db) = (ok a, log_event c.audit e db)
audited c e (err x, db) = (err x, db)

-- after `self.user_repo.get_by_email`: any exception is a failed login
unfoldable pub after_lookup :
    Crypto
    → Call
    → (email password : String) → Database
    → Result RepositoryException User
    → Result AuthError TokenPair × Database
unfolding store_token audited
after_lookup k c email password db (err e) =
    (err invalid_credentials, log_event c.audit (user_not_found email) db)
after_lookup k c email password db (ok u) =
    if not (k.verify_password password u.password_hash)
    then (err invalid_credentials, log_event c.audit (invalid_password email) db)
    else if not u.is_active
    then (err invalid_credentials, log_event c.audit (user_inactive email) db)
    else audited c (login u.id)
        (store_token k c u db (decode_token k.jwt c.now (refresh_for k c u)))

unfoldable pub log_in :
    Crypto → Call → (email password : String) → Exec Database AuthError TokenPair
unfolding after_lookup
log_in k c email password db = after_lookup k c email password db (get_by_email email db)
