-- ===== src/Auth/Registration.antt =====
-- From a registration to a login (`register` and `login` of
-- backend/app/application/services/auth_service.py).
use sentinal.Prelude.{
  ℕ, String, ◌≡◌, inl, inr, refl, ap, ◌∙◌, false, ◌||◌, Option, none, [], ◌∷◌, ◌++◌, ◌==◌, any, ltb,
  str_eq, arith, Bool-cases,
}
use sentinal.Prelude.Case.{lower}
use sentinal.Prelude.Outcome.{Result, ok, err}
use sentinal.Upload.{text_length}
use sentinal.Users
use sentinal.Users.{User, UserError}
use sentinal.Repository.Session.{RepositoryException, not_found}
use sentinal.Service.{breaks_session}
use sentinal.Database.{
  Database, AuthEvent, registration, log_event, find_email, get_by_email, create_user, stored_user,
}
use sentinal.Auth.{Crypto, Call, new_user, after_user, after_valid, after_email, register}

-- What a registration that returns has found and done.
pub record Registered (k : Crypto) (c : Call) (email password : String) (name : Option String)
    (u : User) (db db' : Database) : Type 0 where
  pub was_free : find_email (lower email) db.tables.users ≡ none
  pub is_long : ltb (text_length password) 12 ≡ false
  pub is_valid : Users.validate (new_user k c email password name) ≡ ok tt
  pub is_new :
      any (λ (v : User). v.id == c.fresh_id || str_eq v.email email) db.tables.users ≡ false
  pub is_stored : u ≡ stored_user c.now (new_user k c email password name)
  pub healthy : db'.is_broken ≡ false
  pub appended : db'.tables.users ≡ db.tables.users ++ u ∷ []
  pub same_tokens : db'.tables.tokens ≡ db.tables.tokens

get_by_email_free :
    (email : String) (db : Database)
    → get_by_email email db ≡ err not_found
    → (db.is_broken ≡ false) × (find_email (lower email) db.tables.users ≡ none)
unfolding get_by_email
get_by_email_free email db h = ground arith

abbrev with_user : User → Database → Database
with_user u db = record db { tables = record db.tables { users = db.tables.users ++ u ∷ [] } }

create_user_created :
    (now : ℕ) (n u : User) (db d : Database)
    → create_user now n db ≡ (ok u, d)
    → (db.is_broken ≡ false)
      × (any (λ (v : User). v.id == n.id || str_eq v.email n.email) db.tables.users ≡ false)
      × (u ≡ stored_user now n)
      × (d ≡ with_user (stored_user now n) db)
unfolding create_user
create_user_created now n u db d h = elim (Bool-cases db.is_broken) [
  | inl b ↦ ground arith
  | inr b ↦
      elim (Bool-cases
        (any (λ (v : User). v.id == n.id || str_eq v.email n.email) db.tables.users)) [
          | inl e ↦ ground arith
          | inr e ↦ (b, e, ground arith, ground arith)
        ]
]

after_user_ok :
    (c : Call) (u : User) (db' : Database) (d : Result RepositoryException User × Database)
    → after_user c d ≡ (ok u, db')
    → (d.0 ≡ ok u) × (db' ≡ log_event c.audit (registration u.id) d.1)
unfolding after_user
after_user_ok c u db' (ok v, d) h = (ground arith, ground arith)
after_user_ok c u db' (err x, d) h = ground arith

after_valid_ok :
    (c : Call) (n u : User) (db db' : Database) (v : Result UserError (Unit {0}))
    → after_valid c n db v ≡ (ok u, db')
    → (v ≡ ok tt) × (after_user c (create_user c.now n db) ≡ (ok u, db'))
unfolding after_valid
after_valid_ok c n u db db' (ok tt) h = (refl, h)
after_valid_ok c n u db db' (err x) h = ground arith

after_email_ok :
    (k : Crypto) (c : Call) (email password : String) (name : Option String) (u : User)
    (db db' : Database) (owner : Result RepositoryException User)
    → after_email k c email password name db owner ≡ (ok u, db')
    → (owner ≡ err not_found)
      × (ltb (text_length password) 12 ≡ false)
      × (Users.validate (new_user k c email password name) ≡ ok tt)
      × (after_user c (create_user c.now (new_user k c email password name) db) ≡ (ok u, db'))
unfolding after_email
after_email_ok k c email password name u db db' (ok v) h = ground arith
after_email_ok k c email password name u db db' (err not_found) h =
    elim (Bool-cases (ltb (text_length password) 12)) [
      | inl b ↦ ground arith
      | inr b ↦
          (let n = new_user k c email password name in
            let (valid, made) = after_valid_ok c n u db db' (Users.validate n) (ground arith) in
            (refl, b, valid, made))
    ]
after_email_ok k c email password name u db db' (err e) h = ground arith

log_event_tables :
    (c : Call) (e : AuthEvent) (db : Database)
    → breaks_session c.audit ≡ false
    → db.is_broken ≡ false
    → ((log_event c.audit e db).is_broken ≡ false)
      × ((log_event c.audit e db).tables.users ≡ db.tables.users)
      × ((log_event c.audit e db).tables.tokens ≡ db.tables.tokens)
unfolding log_event
log_event_tables c e db audit healthy = ground arith

pub register-Registered :
    (k : Crypto) (c : Call) (email password : String) (name : Option String) (u : User)
    (db db' : Database)
    → breaks_session c.audit ≡ false
    → register k c email password name db ≡ (ok u, db')
    → Registered k c email password name u db db'
unfolding register
register-Registered k c email password name u db db' audit h =
    let n = new_user k c email password name in
    let (free, long, valid, made) =
      after_email_ok k c email password name u db db' (get_by_email email db) h in
    let (result, logged) = after_user_ok c u db' (create_user c.now n db) made in
    let d = (create_user c.now n db).1 in
    let (healthy, new, stored, next) =
      create_user_created c.now n u db d (ground (arith, result)) in
    let (still, users, tokens) =
      log_event_tables c (registration u.id) d audit (ground (arith, next)) in
    record {
      was_free = (get_by_email_free email db free).1;
      is_long = long;
      is_valid = valid;
      is_new = new;
      is_stored = stored;
      healthy = ap (λ x. x.is_broken) logged ∙ still;
      appended = ground (arith, logged, users, next, stored);
      same_tokens = ground (arith, logged, tokens, next);
    }
