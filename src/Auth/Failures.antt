-- ===== src/Auth/Failures.antt =====
-- Refused logins (`login` of backend/app/application/services/auth_service.py) and the session of
-- backend/app/infrastructure/database/session.py.
use sentinal.Prelude.{String, ◌≡◌, ◌≢◌, inl, inr, ap, false, [], ◌∷◌, ◌++◌, arith, Bool-cases}
use sentinal.Prelude.Outcome.{Result, ok, err}
use sentinal.Users.{User}
use sentinal.Tokens.{RefreshToken, TokenError, TokenPayload, decode_token}
use sentinal.Repository.Session.{RepositoryException}
use sentinal.Service.{written}
use sentinal.Database.{
  Database, rollback, AuthEvent, user_not_found, invalid_password, user_inactive, log_event, login,
  get_by_email, create_token,
}
use sentinal.Auth.{
  Crypto, Call, AuthError, invalid_credentials, new_token, refresh_for, after_store, store_token,
  audited, after_lookup, log_in,
}

-- The audit record of a refused login.
pub data Failure (email : String) : AuthEvent → Type 0 where
  not_registered : Failure email (user_not_found email)
  wrong_password : Failure email (invalid_password email)
  deactivated : Failure email (user_inactive email)

failed :
    (c : Call) (email : String) (e : AuthEvent) (db db' : Database)
    → Failure email e
    → c.audit ≡ written
    → db.is_broken ≡ false
    → log_event c.audit e db ≡ db'
    → (x : AuthEvent) × Failure email x
      × (db'.tables.audit ≡ db.tables.audit ++ x ∷ [])
      × ((rollback db').tables ≡ db.committed)
unfolding log_event rollback
failed c email e db db' f audit healthy h = (e, f, ground arith, ground arith)

after_store_error :
    (k : Crypto) (c : Call) (u : User) (d : Result RepositoryException RefreshToken × Database)
    → (after_store k c u d).0 ≢ err invalid_credentials
unfolding after_store
after_store_error k c u (ok t, db) h = ground arith
after_store_error k c u (err e, db) h = ground arith

store_token_error :
    (k : Crypto) (c : Call) (u : User) (db : Database) (r : Result TokenError TokenPayload)
    → (store_token k c u db r).0 ≢ err invalid_credentials
unfolding store_token
store_token_error k c u db (ok p) h =
    after_store_error k c u (create_token c.now (new_token k c u.id (refresh_for k c u) p) db) h
store_token_error k c u db (err e) h = ground arith

audited_error :
    {A : Type 0} (c : Call) (e : AuthEvent) (x : AuthError) (db' : Database)
    (d : Result AuthError A × Database)
    → audited c e d ≡ (err x, db')
    → d.0 ≡ err x
unfolding audited
audited_error c e x db' (ok a, db) h = ground arith
audited_error c e x db' (err y, db) h = ground arith

after_lookup_unaudited :
    (k : Crypto) (c : Call) (email password : String) (db db' : Database)
    (owner : Result RepositoryException User)
    → c.audit ≡ written
    → db.is_broken ≡ false
    → after_lookup k c email password db owner ≡ (err invalid_credentials, db')
    → (x : AuthEvent) × Failure email x
      × (db'.tables.audit ≡ db.tables.audit ++ x ∷ [])
      × ((rollback db').tables ≡ db.committed)
unfolding after_lookup
after_lookup_unaudited k c email password db db' (err e) audit healthy h =
    failed c email (user_not_found email) db db' not_registered audit healthy (ap (λ x. x.1) h)
after_lookup_unaudited k c email password db db' (ok u) audit healthy h =
    elim (Bool-cases (k.verify_password password u.password_hash)) [
      | inr b ↦
          failed c email (invalid_password email) db db' wrong_password audit healthy (ground arith)
      | inl b ↦ elim (Bool-cases u.is_active) [
        | inr a ↦
            failed c email (user_inactive email) db db' deactivated audit healthy (ground arith)
        | inl a ↦
            (let issued = store_token k c u db (decode_token k.jwt c.now (refresh_for k c u)) in
              absurd (
                store_token_error k c u db (decode_token k.jwt c.now (refresh_for k c u))
                  (audited_error c (login u.id) invalid_credentials db' issued (ground arith))))
      ]
    ]

-- A login that is refused for its credentials adds one audit record that names the email and says
-- why, when the audit log takes it in a session that is not broken; and the rollback that a request
-- ends with when it raises discards that record: the tables are then those of the last commit.
pub log_in_unaudited :
    (k : Crypto) (c : Call) (email password : String) (db db' : Database)
    → c.audit ≡ written
    → db.is_broken ≡ false
    → log_in k c email password db ≡ (err invalid_credentials, db')
    → (x : AuthEvent) × Failure email x
      × (db'.tables.audit ≡ db.tables.audit ++ x ∷ [])
      × ((rollback db').tables ≡ db.committed)
unfolding log_in
log_in_unaudited k c email password db db' audit healthy h =
    after_lookup_unaudited k c email password db db' (get_by_email email db) audit healthy h
