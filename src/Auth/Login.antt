-- ===== src/Auth/Login.antt =====
-- Logging in to a registered account, and failed logins (`login` of
-- backend/app/application/services/auth_service.py).
use sentinal.Prelude.{
  ℕ, ◌+◌, String, ◌≡◌, Bool, true, false, not, ◌||◌, Option, none, some, ◌==◌, any, ltb, str_eq,
  arith,
}
use text.Mathlib.TextPositions.{eq_refl}
use sentinal.Prelude.Case.{is_ascii, lower}
use sentinal.Prelude.Outcome.{ok, err}
use sentinal.Upload.{text_length}
use sentinal.Users.{User, Role}
use sentinal.Users
use sentinal.Tokens.{
  Jwt, IsSound, TokenPayload, payload_of, decode_token, refresh_claims, access_claims,
  refresh_token_seconds, access_token_seconds, create_refresh_token, create_access_token,
}
use sentinal.Repository.Session.{already_exists}
use sentinal.Service.{breaks_session}
use sentinal.Database.{
  Database, log_event, find_email, get_by_email, find_user, get_user, create_user, create_token,
}
use sentinal.Database.Users.{
  find_email-append, find_user-append, find_user_fresh, any-append, any_id-append,
}
use sentinal.Guard.{bearer_token, get_current_user, user_of_token, owner_of, active_user}
use sentinal.Auth.{
  Crypto, Call, invalid_credentials, repository_error, new_user, pair_for, access_for, refresh_for,
  after_store, store_token, audited, after_email, after_valid, after_user, register, after_lookup,
  log_in,
}
use sentinal.Auth.Registration.{register-Registered}

register_taken :
    (k : Crypto) (c : Call) (email password : String) (name : Option String) (db : Database)
    → db.is_broken ≡ false
    → find_email (lower email) db.tables.users ≡ none
    → any (λ (v : User). v.id == c.fresh_id || str_eq v.email email) db.tables.users ≡ true
    → ltb (text_length password) 12 ≡ false
    → Users.validate (new_user k c email password name) ≡ ok tt
    → (register k c email password name db).0 ≡ err (repository_error already_exists)
unfolding register after_email after_valid after_user get_by_email create_user
register_taken k c email password name db healthy unseen taken long valid = ground arith

-- After a registration that succeeds, with an email that lower case changes, the account cannot be
-- reached by its email: a login with it is refused whatever the password, and the same registration
-- again is not found to be a duplicate but fails as an error of the database. The flush of the audit
-- record is assumed not to break the session.
pub register_mixed_case :
    (k : Crypto) (c later : Call) (email password other : String) (name : Option String) (u : User)
    (db db' : Database)
    → breaks_session c.audit ≡ false
    → str_eq email (lower email) ≡ false
    → register k c email password name db ≡ (ok u, db')
    → ((log_in k later email other db').0 ≡ err invalid_credentials)
      × ((register k later email password name db').0 ≡ err (repository_error already_exists))
unfolding log_in after_lookup get_by_email Users.validate
register_mixed_case k c later email password other name u db db' audit mixed h =
    let r = register-Registered k c email password name u db db' audit h in
    let unseen : find_email (lower email) db'.tables.users ≡ none = ground (
      arith,
      r.appended,
      r.is_stored,
      r.was_free,
      find_email-append (lower email) db.tables.users u,
    ) in
    let taken : any (λ (v : User). v.id == later.fresh_id || str_eq v.email email) db'.tables.users
        ≡ true =
      ground (
        arith,
        r.appended,
        r.is_stored,
        any-append later.fresh_id email db.tables.users u,
        eq_refl email,
      ) in
    (
      ground (arith, r.healthy),
      register_taken k later email password name db' r.healthy unseen taken r.is_long r.is_valid,
    )

-- What PyJWT gives back of the tokens of a pair.
refresh_token_decodes :
    (j : Jwt) (now jti user_id : ℕ)
    → IsSound j
    → decode_token j now (create_refresh_token j now jti user_id)
      ≡ ok (record {
        sub = user_id;
        exp = now + refresh_token_seconds;
        iat = now;
        jti = jti;
        role = none;
      })
unfolding decode_token create_refresh_token payload_of
refresh_token_decodes j now jti user_id sound = grind (
  arith,
  sound.decode-encode now (now + refresh_token_seconds) now (refresh_claims now jti user_id),
)

access_token_decodes :
    (j : Jwt) (now jti user_id : ℕ) (role : Role)
    → IsSound j
    → decode_token j now (create_access_token j now jti user_id role)
      ≡ ok (record {
        sub = user_id;
        exp = now + access_token_seconds;
        iat = now;
        jti = jti;
        role = some role;
      })
unfolding decode_token create_access_token payload_of
access_token_decodes j now jti user_id role sound = grind (
  arith,
  sound.decode-encode now (now + access_token_seconds) now (access_claims now jti user_id role),
)

-- The conditions on the identifiers that a login draws.
unfoldable pub is_fresh : Crypto → Call → User → Database → Bool
is_fresh k c u db = not (
    any
      (λ s.
        s.id == c.fresh_id
        || s.jti == c.refresh_jti
        || str_eq s.token_hash (k.sha256 (refresh_for k c u)))
      db.tables.tokens)

-- A login with the right password, to an active user whose email is found.
log_in_issues :
    (k : Crypto) (c : Call) (email password : String) (u : User) (db : Database)
    → IsSound k.jwt
    → breaks_session c.audit ≡ false
    → db.is_broken ≡ false
    → find_email (lower email) db.tables.users ≡ some u
    → any (λ (v : User). v.id == u.id) db.tables.users ≡ true
    → k.verify_password password u.password_hash ≡ true
    → u.is_active ≡ true
    → is_fresh k c u db ≡ true
    → (db' : Database) × (log_in k c email password db ≡ (ok (pair_for k c u), db'))
      × (db'.is_broken ≡ false)
      × (db'.tables.users ≡ db.tables.users)
unfolding log_in get_by_email after_lookup audited store_token after_store create_token is_fresh
    log_event
log_in_issues k c email password u db sound audit healthy seen known right active fresh =
    let decoded = refresh_token_decodes k.jwt c.now c.refresh_jti u.id sound in
    (
      (log_in k c email password db).1,
      grind (arith, decoded),
      grind (arith, decoded),
      grind (arith, decoded),
    )

current_found :
    (j : Jwt) (now : ℕ) (header : Option String) (token : String) (p : TokenPayload) (u : User)
    (db : Database)
    → bearer_token header ≡ ok token
    → decode_token j now token ≡ ok p
    → find_user p.sub db.tables.users ≡ some u
    → db.is_broken ≡ false
    → u.is_active ≡ true
    → get_current_user j now header db ≡ ok u
unfolding get_current_user user_of_token owner_of active_user get_user
current_found j now header token p u db bearer decoded seen healthy active = ground arith

-- After a registration that succeeds, with an ASCII email in lower case and a password that its hash
-- verifies, and when neither audit record breaks the session and the identifiers the login draws are
-- new: a login with the email and the password returns the two tokens signed for the registered user,
-- and a request whose header bears the access token has this user as its current user.
pub register-log_in :
    (k : Crypto) (c later : Call) (email password : String) (name : Option String) (u : User)
    (db db' : Database) (header : Option String)
    → IsSound k.jwt
    → k.verify_password password (k.hash_password password) ≡ true
    → is_ascii email ≡ true
    → lower email ≡ email
    → breaks_session c.audit ≡ false
    → breaks_session later.audit ≡ false
    → register k c email password name db ≡ (ok u, db')
    → is_fresh k later u db' ≡ true
    → bearer_token header ≡ ok (access_for k later u)
    → (db'' : Database) × (log_in k later email password db' ≡ (ok (pair_for k later u), db''))
      × (get_current_user k.jwt later.now header db'' ≡ ok u)
register-log_in k c later email password name u db db' header sound verified ascii low audit audit'
      h fresh bearer =
    let r = register-Registered k c email password name u db db' audit h in
    let seen : find_email (lower email) db'.tables.users ≡ some u = ground (
      arith,
      r.appended,
      r.is_stored,
      r.was_free,
      find_email-append (lower email) db.tables.users u,
      eq_refl email,
    ) in
    let known : any (λ (v : User). v.id == u.id) db'.tables.users ≡ true =
      ground (arith, r.appended, any_id-append db.tables.users u) in
    let absent =
      find_user_fresh u.id email db.tables.users (ground (arith, r.is_new, r.is_stored)) in
    let by_id : find_user u.id db'.tables.users ≡ some u =
      ground (arith, r.appended, r.is_stored, find_user-append u.id db.tables.users u absent) in
    let (db'', issued, healthy, users) =
      log_in_issues k later email password u db' sound audit' r.healthy seen known
        (ground (arith, r.is_stored)) (ground (arith, r.is_stored)) fresh in
    (
      db'',
      issued,
      current_found k.jwt later.now header (access_for k later u)
          (record {
            sub = u.id;
            exp = later.now + access_token_seconds;
            iat = later.now;
            jti = later.access_jti;
            role = some u.role;
          })
          u db'' bearer (access_token_decodes k.jwt later.now later.access_jti u.id u.role sound)
          (ground (arith, users, by_id)) healthy (ground (arith, r.is_stored)),
    )
