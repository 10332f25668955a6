-- ===== src/Accounts/Deactivation.antt =====
-- What a deactivated user can still do (`deactivate_user` of
-- backend/app/application/services/user_service.py, with `refresh` of auth_service.py and
-- backend/app/api/v1/dependencies/auth.py).
use sentinal.Prelude.{
  ℕ, String, ◌≡◌, inl, inr, refl, Bool, true, false, not, ◌&&◌, Option, none, List, [], ◌∷◌, ◌==◌,
  any, map, ltb, arith, Option-cases,
}
use mathlib.Core.Path.{subst}
use sentinal.Prelude.Outcome.{Result, ok, err}
use sentinal.Users.{User, deactivate}
use sentinal.Tokens.{RefreshToken, TokenPayload, decode_token}
use sentinal.Repository.Session.{RepositoryException, not_found}
use sentinal.Service.{breaks_session}
use sentinal.Database.{
  Database, AuthEvent, deactivation, log_event, find_user, write_user, get_user, update_user,
  revoke_user, revoke_all_for_user,
}
use sentinal.Database.Users.{unique_ids, find_user-id, find_user-write_user}
use sentinal.Auth.{Crypto, Call, repository_error}
use sentinal.Auth.Sessions.{after_owner, after_payload, refresh}
use sentinal.Guard.{
  unknown_user, bearer_token, owner_of, active_user, user_of_token, get_current_user,
}
use sentinal.Accounts.{
  AccountError, allowed_target, load_target, write_deactivated, after_revocation,
  after_deactivation, deactivate_target, deactivate_user,
}

-- A refresh token of the user that is neither revoked nor expired.
unfoldable pub has_session : (now user_id : ℕ) → List RefreshToken → Bool
has_session now user_id ts =
    any (λ t. t.user_id == user_id && not t.is_revoked && ltb now t.expires_at) ts

has_session-revoke_user :
    (now user_id : ℕ) (ts : List RefreshToken)
    → has_session now user_id (map (revoke_user now user_id) ts) ≡ false
unfolding has_session revoke_user
has_session-revoke_user now user_id [] = refl
has_session-revoke_user now user_id (t ∷ ts) =
    ground (arith, has_session-revoke_user now user_id ts)

-- The user is gone and has no session.
record Gone (now id : ℕ) (db : Database) : Type 0 where
  healthy : db.is_broken ≡ false
  no_user : find_user id db.tables.users ≡ none
  no_session : has_session now id db.tables.tokens ≡ false

allowed_target_found :
    (actor u : User) (id : ℕ) (r : Result RepositoryException User)
    → allowed_target actor id r ≡ ok u
    → r ≡ ok u
unfolding allowed_target
allowed_target_found actor u id (ok v) h = ground arith
allowed_target_found actor u id (err not_found) h = ground arith
allowed_target_found actor u id (err e) h = ground arith

get_user_found :
    (id : ℕ) (db : Database) (u : User)
    → get_user id db ≡ ok u
    → (db.is_broken ≡ false) × (u.id ≡ id)
unfolding get_user
get_user_found id db u h = elim (Option-cases (find_user id db.tables.users)) [
  | inl e ↦ ground arith
  | inr (v, e) ↦ ground (arith, find_user-id id db.tables.users v)
]

log_event-Gone :
    (now id : ℕ) (c : Call) (e : AuthEvent) (db : Database)
    → breaks_session c.audit ≡ false
    → Gone now id db
    → Gone now id (log_event c.audit e db)
unfolding log_event
log_event-Gone now id c e db audit g = record {
  healthy = ground (arith, g.healthy);
  no_user = ground (arith, g.healthy, g.no_user);
  no_session = ground (arith, g.healthy, g.no_session);
}

abbrev after_writes : (now : ℕ) → User → Database → Database
after_writes now u db = record db {
  tables = record db.tables {
    users = write_user u.id (write_deactivated (deactivate now u)) db.tables.users;
    tokens = map (revoke_user now u.id) db.tables.tokens;
  };
}

after_writes-Gone :
    (now : ℕ) (u : User) (db : Database)
    → db.is_broken ≡ false
    → unique_ids db.tables.users ≡ true
    → Gone now u.id (after_writes now u db)
unfolding deactivate
after_writes-Gone now u db healthy unique = record {
  healthy = healthy;
  no_user =
      find_user-write_user u.id (write_deactivated (deactivate now u)) db.tables.users unique
        (λ v. refl);
  no_session = has_session-revoke_user now u.id db.tables.tokens;
}

written-Gone :
    (c : Call) (actor u : User) (db db' : Database)
    → db.is_broken ≡ false
    → breaks_session c.audit ≡ false
    → unique_ids db.tables.users ≡ true
    → after_deactivation c actor u (update_user u.id (write_deactivated (deactivate c.now u)) db)
      ≡ (ok tt, db')
    → Gone c.now u.id db'
unfolding after_deactivation after_revocation update_user revoke_all_for_user
written-Gone c actor u db db' healthy audit unique h =
    let event = deactivation u.id actor.id in
    let written : log_event c.audit event (after_writes c.now u db) ≡ db' = ground arith in
    subst (Gone c.now u.id) written (
      log_event-Gone c.now u.id c event (after_writes c.now u db) audit
        (after_writes-Gone c.now u db healthy unique))

target-Gone :
    (c : Call) (actor : User) (id : ℕ) (db db' : Database) (target : Result AccountError User)
    → breaks_session c.audit ≡ false
    → unique_ids db.tables.users ≡ true
    → load_target actor id db ≡ target
    → deactivate_target c actor db target ≡ (ok tt, db')
    → Gone c.now id db'
unfolding deactivate_target load_target
target-Gone c actor id db db' (err e) audit unique loaded h = ground arith
target-Gone c actor id db db' (ok u) audit unique loaded h =
    let (healthy, same) =
      get_user_found id db u (allowed_target_found actor u id (get_user id db) loaded) in
    subst (λ i. Gone c.now i db') same (written-Gone c actor u db db' healthy audit unique h)

-- Unless the flush of the audit record breaks the session: after a deactivation that succeeds, over a
-- table of users with distinct ids, the user has no refresh token that is neither revoked nor
-- expired; and a token of this user, whether it came as a refresh token or in the header of a
-- request, is refused as that of an unknown user, however long it is still valid.
pub deactivate_user_locks_out :
    (k : Crypto) (c later : Call) (actor : User) (id : ℕ) (db db' : Database)
    (header : Option String) (token : String) (p : TokenPayload)
    → breaks_session c.audit ≡ false
    → unique_ids db.tables.users ≡ true
    → deactivate_user c actor id db ≡ (ok tt, db')
    → decode_token k.jwt later.now token ≡ ok p
    → p.sub ≡ id
    → bearer_token header ≡ ok token
    → (has_session c.now id db'.tables.tokens ≡ false)
      × (refresh k later token db' ≡ (err (repository_error not_found), db'))
      × (get_current_user k.jwt later.now header db' ≡ err unknown_user)
unfolding deactivate_user refresh get_user after_payload after_owner get_current_user user_of_token
    owner_of active_user
deactivate_user_locks_out k c later actor id db db' header token p audit unique h decoded owner
      bearer =
    let g = target-Gone c actor id db db' (load_target actor id db) audit unique refl h in
    let no_user : get_user p.sub db' ≡ err not_found = ground (arith, g.healthy, g.no_user) in
    (g.no_session, ground arith, ground arith)
