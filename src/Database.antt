-- ===== src/Database.antt =====
-- The tables of accounts inside a request's database session: the users, the refresh tokens and the
-- audit log (backend/app/infrastructure/database/repositories/user.py, refresh_token.py and
-- base.py, with the constraints of backend/app/models/user.py and refresh_token.py, and the session
-- of backend/app/infrastructure/database/session.py).
--
-- A flush that violates a constraint leaves the session broken until it is rolled back.
pub mod Lookups
pub mod Users
use sentinal.Prelude.{
  ℕ, String, Bool, true, false, not, ◌&&◌, ◌||◌, Option, none, some, List, [], ◌∷◌, ◌++◌, ◌==◌, any,
  map, is_none, ltb, str_eq, if◌then◌else◌,
}
use sentinal.Prelude.Case.{lower}
use sentinal.Prelude.Outcome.{Result, ok, err, Exec}
use sentinal.Users.{User, Role}
use sentinal.Tokens.{RefreshToken}
use sentinal.Repository.Session.{
  RepositoryException, not_found, already_exists, constraint_violation, conflict,
}
use sentinal.Service.{AuditOutcome, written, refused, flush_failed}

-- The audit records of accounts; the context of a request goes only into the record and is left out.
pub data AuthEvent : Type 0 where
  registration login token_refresh logout : (user_id : ℕ) → AuthEvent
  user_not_found invalid_password user_inactive : (email : String) → AuthEvent
  role_change : (user_id actor_id : ℕ) (old_role new_role : Role) → AuthEvent
  deactivation : (user_id actor_id : ℕ) → AuthEvent

pub record Tables : Type 0 where
  pub users : List User
  pub tokens : List RefreshToken
  pub audit : List AuthEvent

pub record Database : Type 0 where
  pub committed : Tables
  pub tables : Tables
  pub is_broken : Bool

abbrev pub broken : Database → Database
broken db = record db { tables = db.committed; is_broken = true }

unfoldable pub rollback : Database → Database
rollback db = record { committed = db.committed; tables = db.committed; is_broken = false }

-- the end of a request that returns: `session.commit()`
unfoldable pub commit : Exec Database RepositoryException (Unit {0})
unfolding rollback
commit db =
    if db.is_broken
    then (err conflict, rollback db)
    else (ok tt, record db { committed = db.tables })

-- `async with session.begin_nested()`: what is raised inside undoes what was done inside.
unfoldable pub begin_nested :
    {E A : Type 0} → (before : Database) → Result E A × Database → Result E A × Database
begin_nested before (ok a, after) = (ok a, after)
begin_nested before (err e, after) = (err e, before)

-- `audit_repo.create`; the caller logs a failure and goes on.
unfoldable pub log_event : AuditOutcome → AuthEvent → Database → Database
log_event o e db = if db.is_broken then db else elim o [
  | written ↦ record db { tables = record db.tables { audit = db.tables.audit ++ e ∷ [] } }
  | refused ↦ db
  | flush_failed ↦ broken db
]

unfoldable pub find_email : String → List User → Option User
find_email email [] = none
find_email email (u ∷ users) =
    if str_eq u.email email && is_none u.deleted_at then some u else find_email email users

abbrev found : {A : Type 0} → Option A → Result RepositoryException A
found none = err not_found
found (some a) = ok a

unfoldable pub get_by_email : String → Database → Result RepositoryException User
unfolding lower
get_by_email email db =
    if db.is_broken then err conflict else found (find_email (lower email) db.tables.users)

-- A user that is not soft-deleted.
unfoldable pub find_user : ℕ → List User → Option User
find_user id [] = none
find_user id (u ∷ users) = if u.id == id && is_none u.deleted_at then some u else find_user id users

unfoldable pub get_user : ℕ → Database → Result RepositoryException User
get_user id db = if db.is_broken then err conflict else found (find_user id db.tables.users)

-- `_to_orm` leaves the timestamps to the column defaults.
abbrev pub stored_user : (now : ℕ) → User → User
stored_user now u = record u { created_at = now; updated_at = some now }

unfoldable pub create_user : (now : ℕ) → User → Exec Database RepositoryException User
create_user now u db =
    if db.is_broken
    then (err conflict, db)
    else if any (λ v. v.id == u.id || str_eq v.email u.email) db.tables.users
    then (err already_exists, broken db)
    else (
      ok (stored_user now u),
      record db { tables = record db.tables { users = db.tables.users ++ stored_user now u ∷ [] } },
    )

-- `update(entity_id, updates)` finds soft-deleted rows too.
unfoldable pub write_user : ℕ → (User → User) → List User → List User
write_user id write [] = []
write_user id write (u ∷ users) =
    if u.id == id then write u ∷ users else u ∷ write_user id write users

unfoldable pub find_any_user : ℕ → List User → Option User
find_any_user id [] = none
find_any_user id (u ∷ users) = if u.id == id then some u else find_any_user id users

unfoldable pub update_user : ℕ → (User → User) → Exec Database RepositoryException User
update_user id write db =
    if db.is_broken then (err conflict, db) else elim (find_any_user id db.tables.users) [
      | none ↦ (err not_found, db)
      | some u ↦ (
        ok (write u),
        record db { tables = record db.tables { users = write_user id write db.tables.users } },
      )
    ]

abbrev pub with_tokens : List RefreshToken → Database → Database
with_tokens tokens db = record db { tables = record db.tables { tokens = tokens } }

abbrev pub stored_token : (now : ℕ) → RefreshToken → RefreshToken
stored_token now t = record t { created_at = some now }

-- The unique columns are the id, the jti and the hash; the user is a foreign key.
unfoldable pub create_token :
    (now : ℕ) → RefreshToken → Exec Database RepositoryException RefreshToken
create_token now t db =
    if db.is_broken
    then (err conflict, db)
    else if any (λ s. s.id == t.id || s.jti == t.jti || str_eq s.token_hash t.token_hash)
        db.tables.tokens
    then (err already_exists, broken db)
    else if not (any (λ (u : User). u.id == t.user_id) db.tables.users)
    then (err constraint_violation, broken db)
    else (ok (stored_token now t), with_tokens (db.tables.tokens ++ stored_token now t ∷ []) db)

unfoldable pub find_jti : ℕ → List RefreshToken → Option RefreshToken
find_jti jti [] = none
find_jti jti (t ∷ tokens) = if t.jti == jti then some t else find_jti jti tokens

unfoldable pub get_by_jti : ℕ → Database → Result RepositoryException (Option RefreshToken)
get_by_jti jti db = if db.is_broken then err conflict else ok (find_jti jti db.tables.tokens)

-- `.values(is_revoked=True, revoked_at=now, ...)`
abbrev pub revoked : (now : ℕ) → RefreshToken → RefreshToken
revoked now t = record t { is_revoked = true; revoked_at = some now }

-- The conditional UPDATE of the token with this jti, and whether it has returned a row.
unfoldable pub revoke_jti : (now jti : ℕ) → List RefreshToken → Bool × List RefreshToken
revoke_jti now jti [] = (false, [])
revoke_jti now jti (t ∷ tokens) =
    let rest = revoke_jti now jti tokens in
    if t.jti == jti && not t.is_revoked
    then (true, revoked now t ∷ tokens)
    else (rest.0, t ∷ rest.1)

unfoldable pub atomic_revoke_by_jti : (now jti : ℕ) → Exec Database RepositoryException Bool
atomic_revoke_by_jti now jti db = if db.is_broken then (err conflict, db) else (
  ok (revoke_jti now jti db.tables.tokens).0,
  with_tokens (revoke_jti now jti db.tables.tokens).1 db,
)

unfoldable pub revoke_id : (now id : ℕ) → List RefreshToken → List RefreshToken
revoke_id now id [] = []
revoke_id now id (t ∷ tokens) =
    let rest = revoke_id now id tokens in
    if t.id == id && not t.is_revoked then revoked now t ∷ tokens else t ∷ rest

unfoldable pub revoke : (now id : ℕ) → Exec Database RepositoryException (Unit {0})
revoke now id db =
    if db.is_broken
    then (err conflict, db)
    else (ok tt, with_tokens (revoke_id now id db.tables.tokens) db)

unfoldable pub revoke_user : (now user_id : ℕ) → RefreshToken → RefreshToken
revoke_user now user_id t =
    if t.user_id == user_id && not t.is_revoked && ltb now t.expires_at then revoked now t else t

unfoldable pub revoke_all_for_user :
    (now user_id : ℕ) → Exec Database RepositoryException (Unit {0})
unfolding revoke_user
revoke_all_for_user now user_id db =
    if db.is_broken
    then (err conflict, db)
    else (ok tt, with_tokens (map (revoke_user now user_id) db.tables.tokens) db)
