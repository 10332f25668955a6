-- ===== src/Auth/Sessions.antt =====
-- `refresh` and `logout` of backend/app/application/services/auth_service.py.
use sentinal.Prelude.{ℕ, String, Bool, not, Option, none, some, is_blank, if◌then◌else◌}
use sentinal.Prelude.Outcome.{Result, ok, err, Exec}
use sentinal.Users.{User}
use sentinal.Tokens.{
  RefreshToken, TokenError, token_expired, invalid_token, TokenPayload, decode_token,
}
use sentinal.Repository.Session.{RepositoryException}
use sentinal.Database.{
  Database, token_refresh, logout, begin_nested, get_user, get_by_jti, atomic_revoke_by_jti, revoke,
  revoke_all_for_user,
}
use sentinal.Auth.{
  Crypto, Call, AuthError, TokenPair, refresh_for, store_token, audited, invalid_credentials,
  token_revoked, token_already_rotated, refresh_token_required, token_not_found, token_error,
  repository_error,
}

-- after `self.refresh_token_repo.atomic_revoke_by_jti`
unfoldable pub after_revoke :
    Crypto
    → Call
    → User
    → Result RepositoryException Bool × Database
    → Result AuthError TokenPair × Database
unfolding store_token
after_revoke k c u (err e, db) = (err (repository_error e), db)
after_revoke k c u (ok won, db) =
    if not won
    then (err token_already_rotated, db)
    else store_token k c u db (decode_token k.jwt c.now (refresh_for k c u))

-- after `self.refresh_token_repo.get_by_jti`
unfoldable pub after_token :
    Crypto
    → Call
    → User
    → (jti : ℕ) → Database
    → Result RepositoryException (Option RefreshToken)
    → Result AuthError TokenPair × Database
unfolding after_revoke
after_token k c u jti db (err e) = (err (repository_error e), db)
after_token k c u jti db (ok none) = (err token_not_found, db)
after_token k c u jti db (ok (some t)) =
    if t.is_revoked
    then (err token_revoked, db)
    else after_revoke k c u (atomic_revoke_by_jti c.now jti db)

-- after `self.user_repo.get_by_id`
unfoldable pub after_owner :
    Crypto
    → Call
    → (jti : ℕ) → Database
    → Result RepositoryException User
    → Result AuthError TokenPair × Database
unfolding after_token audited
after_owner k c jti db (err e) = (err (repository_error e), db)
after_owner k c jti db (ok u) =
    if not u.is_active
    then (err invalid_credentials, db)
    else audited c (token_refresh u.id)
        (begin_nested db (after_token k c u jti db (get_by_jti jti db)))

-- after `self.token_service.decode_token`
unfoldable pub after_payload :
    Crypto
    → Call
    → Database
    → Result TokenError TokenPayload
    → Result AuthError TokenPair × Database
unfolding after_owner
after_payload k c db (err e) = (err (token_error e), db)
after_payload k c db (ok p) = after_owner k c p.jti db (get_user p.sub db)

unfoldable pub refresh :
    Crypto → Call → (refresh_token : String) → Exec Database AuthError TokenPair
unfolding after_payload
refresh k c refresh_token db = after_payload k c db (decode_token k.jwt c.now refresh_token)

-- after `self.refresh_token_repo.revoke`, and after `revoke_all_for_user`
unfoldable pub revocation :
    Result RepositoryException (Unit {0}) × Database → Result AuthError (Unit {0}) × Database
revocation (ok u, db) = (ok u, db)
revocation (err e, db) = (err (repository_error e), db)

-- after `get_by_jti` of a logout: an unknown token is no error
unfoldable pub after_stored :
    Call
    → Database
    → Result RepositoryException (Option RefreshToken)
    → Result AuthError (Unit {0}) × Database
unfolding revocation
after_stored c db (err e) = (err (repository_error e), db)
after_stored c db (ok none) = (ok tt, db)
after_stored c db (ok (some t)) = revocation (revoke c.now t.id db)

-- after `decode_token` of a logout: an expired token is passed over
unfoldable pub after_logout_payload :
    Call → Database → Result TokenError TokenPayload → Result AuthError (Unit {0}) × Database
unfolding after_stored
after_logout_payload c db (ok p) = after_stored c db (get_by_jti p.jti db)
after_logout_payload c db (err token_expired) = (ok tt, db)
after_logout_payload c db (err invalid_token) = (err (token_error invalid_token), db)

abbrev text_of : Option String → String
text_of none = ""
text_of (some s) = s

unfoldable pub log_out :
    Crypto
    → Call
    → (user_id : ℕ) → (refresh_token : Option String) → (logout_all : Bool)
    → Exec Database AuthError (Unit {0})
unfolding revocation after_logout_payload audited
log_out k c user_id refresh_token logout_all db = audited c (logout user_id) (
    if logout_all
    then revocation (revoke_all_for_user c.now user_id db)
    else if is_blank refresh_token
    then (err refresh_token_required, db)
    else after_logout_payload c db (decode_token k.jwt c.now (text_of refresh_token)))
