-- ===== src/Tests/Accounts.antt =====
-- The accounts: backend/app/application/services/auth_service.py and user_service.py.
use Prim.Native.String.{◌++◌ as joined}
use sentinal.Prelude.{
  ℕ, ◌≡◌, refl, String, true, false, Option, none, some, [], ◌∷◌, ◌++◌, str_eq, if◌then◌else◌,
}
use sentinal.Prelude.Case.{is_ascii, lower}
use sentinal.Prelude.Outcome.{Result, ok, err}
use sentinal.Users
use sentinal.Upload.{text_length}
use sentinal.Users.{User, admin, viewer}
use sentinal.Tokens.{
  RefreshToken, Jwt, Claims, JwtError, given, missing, expired_signature, invalid_jwt, decode_token,
  TokenPayload,
}
use sentinal.Repository.Session.{not_found, already_exists}
use sentinal.Service.{written}
use sentinal.Database
use sentinal.Tokens
use sentinal.Database.{
  Database, Tables, AuthEvent, registration, invalid_password, rollback, get_user, revoked,
}
use sentinal.Auth.{
  Crypto, Call, register, log_in, invalid_credentials, repository_error, access_for, pair_for,
}
use sentinal.Auth.Sessions.{refresh}
use sentinal.Auth.Race.{
  System, Pc, updated, Reach, start, next, asked, seen, granted, rotated, look, win, lose, commit,
  set_pc, one_winner,
}
use sentinal.Auth.Counting.{count_jti, is_active}
use sentinal.Auth.Login.{is_fresh, register_mixed_case, register-log_in}
use sentinal.Auth.Failures.{Failure, log_in_unaudited}
use sentinal.Guard
use sentinal.Database.Users.{unique_ids}
use sentinal.Guard.{bearer_token, get_current_user, unknown_user}
use sentinal.Accounts
use sentinal.Accounts.{deactivate_user}
use sentinal.Accounts.Deactivation.{has_session, deactivate_user_locks_out}
use sentinal.Tests.Signing.{unary, sign, write_number, unary-IsSound}

-- Tokens that are told apart by their text alone: the one that is held, and the next one.
abbrev held_claims : Claims
held_claims = record {
  sub = given 1;
  exp = given 500;
  iat = given 10;
  jti = given 70;
  role = missing;
}

abbrev next_claims : Claims
next_claims = record {
  sub = given 1;
  exp = given 900;
  iat = given 100;
  jti = given 71;
  role = missing;
}

abbrev read_text : ℕ → String → Result JwtError Claims
read_text now s =
    if str_eq s "held"
    then ok held_claims
    else if str_eq s "next"
    then ok next_claims
    else err invalid_jwt

abbrev texts : Crypto
texts = record {
  jwt = record { encode = λ c. "next"; decode = read_text };
  hash_password = λ p. p;
  verify_password = str_eq;
  sha256 = λ s. s;
}

abbrev signing : Crypto
signing = record texts { jwt = unary }

abbrev call : Call
call = record { now = 100; fresh_id = 9; access_jti = 60; refresh_jti = 71; audit = written }

abbrev later_call : Call
later_call = record { now = 0; fresh_id = 10; access_jti = 61; refresh_jti = 72; audit = written }

abbrev ann : User
ann = record {
  id = 1;
  email = "ann@a.example";
  password_hash = "correct horse";
  role = viewer;
  is_active = true;
  is_verified = false;
  created_at = 5;
  full_name = none;
  updated_at = none;
  deleted_at = none;
}

abbrev held : RefreshToken
held = record {
  id = 3;
  user_id = 1;
  jti = 70;
  token_hash = "held";
  expires_at = 500;
  is_revoked = false;
  revoked_at = none;
  created_at = some 10;
}

abbrev tables : Tables
tables = record { users = ann ∷ []; tokens = held ∷ []; audit = [] }

abbrev database : Database
database = record { committed = tables; tables = tables; is_broken = false }

abbrev no_accounts : Database
no_accounts = record {
  committed = record { users = []; tokens = []; audit = [] };
  tables = record { users = []; tokens = []; audit = [] };
  is_broken = false;
}

abbrev after_refresh : Database
after_refresh = (refresh texts call "held" database).1

abbrev held_payload : TokenPayload
held_payload = record { sub = 1; exp = 500; iat = 10; jti = 70; role = none }

held_decodes_later : decode_token texts.jwt 0 "held" ≡ ok held_payload
unfolding decode_token Tokens.payload_of
held_decodes_later = refl

-- The new token cannot be read back, after the old one was revoked inside the savepoint.
abbrev unreadable : Crypto
unreadable = record texts { jwt = record { encode = λ c. "noise"; decode = read_text } }

-- Two requests: both have seen the token, the first commits its change, the second comes too late.
abbrev renewed : RefreshToken
renewed = record held { id = 9; jti = 71; token_hash = "next"; created_at = some 100 }

abbrev pcs : ℕ → Pc
pcs =
    set_pc 1 rotated
      (set_pc 0 granted (set_pc 0 updated (set_pc 1 seen (set_pc 0 seen (λ i. asked)))))

abbrev raced : System
raced = record { tokens = revoked 100 held ∷ renewed ∷ []; lock = none; pc = pcs }

raced-Reach : Reach 70 (held ∷ []) raced
unfolding Database.revoke_jti count_jti
raced-Reach =
    next
      (next
        (next (next (next start (look 0 refl refl refl)) (look 1 refl refl refl))
          (win 0 refl refl refl refl))
        (commit 0 100 renewed refl refl refl))
      (lose 1 refl refl refl refl)

abbrev winner : ℕ
winner = 0

one_jti : count_jti 70 (held ∷ []) ≡ 1
unfolding count_jti
one_jti = refl

one_winner_example : (winner ≡ winner) × (is_active 70 raced.tokens ≡ false)
one_winner_example = one_winner 70 (held ∷ []) raced winner winner one_jti raced-Reach refl refl

-- A failed login
abbrev noted : Database
noted = record database { tables = record tables { audit = invalid_password "ann@a.example" ∷ [] } }

wrong_password :
    log_in texts call "ann@a.example" "guess" database ≡ (err invalid_credentials, noted)
unfolding log_in Database.get_by_email lower Database.find_email Database.log_event
wrong_password = refl

log_in-unaudited_example :
    (x : AuthEvent) × Failure "ann@a.example" x
    × (noted.tables.audit ≡ [] ++ x ∷ [])
    × ((rollback noted).tables ≡ tables)
log_in-unaudited_example =
    log_in_unaudited texts call "ann@a.example" "guess" database noted refl refl wrong_password

-- Registrations
abbrev account : String → User
account email = record {
  id = 9;
  email = email;
  password_hash = "correct horse";
  role = viewer;
  is_active = true;
  is_verified = false;
  created_at = 100;
  full_name = none;
  updated_at = some 100;
  deleted_at = none;
}

abbrev registered : String → Database
registered email = record no_accounts {
  tables = record { users = account email ∷ []; tokens = []; audit = registration 9 ∷ [] };
}

register_lower :
    register signing call "bo@a.example" "correct horse" none no_accounts
    ≡ (ok (account "bo@a.example"), registered "bo@a.example")
unfolding register Database.get_by_email lower Database.find_email text_length Users.validate
    Users.split_at_sign Database.create_user Database.log_event
register_lower = refl

register_mixed :
    register signing call "Bo@a.example" "correct horse" none no_accounts
    ≡ (ok (account "Bo@a.example"), registered "Bo@a.example")
unfolding register Database.get_by_email lower Database.find_email text_length Users.validate
    Users.split_at_sign Database.create_user Database.log_event
register_mixed = refl

mixed_differs : str_eq "Bo@a.example" (lower "Bo@a.example") ≡ false
unfolding lower
mixed_differs = refl

register-mixed_case_example :
    ((log_in signing later_call "Bo@a.example" "correct horse" (registered "Bo@a.example")).0
      ≡ err invalid_credentials)
    × ((register signing later_call "Bo@a.example" "correct horse" none
          (registered "Bo@a.example")).0
        ≡ err (repository_error already_exists))
register-mixed_case_example =
    register_mixed_case signing call later_call "Bo@a.example" "correct horse" "correct horse" none
      (account "Bo@a.example") no_accounts (registered "Bo@a.example") refl mixed_differs
      register_mixed

abbrev access : String
access = access_for signing later_call (account "bo@a.example")

abbrev bearing : Option String
bearing = some (joined "Bearer " access)

access_borne : bearer_token bearing ≡ ok access
unfolding bearer_token Guard.split_words lower Tokens.create_access_token sign write_number
access_borne = refl

bo_fresh : is_fresh signing later_call (account "bo@a.example") (registered "bo@a.example") ≡ true
unfolding is_fresh
bo_fresh = refl

bo_low : lower "bo@a.example" ≡ "bo@a.example"
unfolding lower
bo_low = refl

bo_ascii : is_ascii "bo@a.example" ≡ true
unfolding is_ascii
bo_ascii = refl

register-log_in_example :
    (db'' : Database) × (log_in signing later_call "bo@a.example" "correct horse"
        (registered "bo@a.example")
      ≡ (ok (pair_for signing later_call (account "bo@a.example")), db''))
    × (get_current_user unary 0 bearing db'' ≡ ok (account "bo@a.example"))
register-log_in_example =
    register-log_in signing call later_call "bo@a.example" "correct horse" none
      (account "bo@a.example") no_accounts (registered "bo@a.example") bearing unary-IsSound refl
      bo_ascii bo_low refl refl register_lower bo_fresh access_borne

-- A deactivation by an administrator
abbrev root : User
root = record ann { id = 2; email = "root@a.example"; role = admin }

abbrev after_deactivation : Database
after_deactivation = (deactivate_user call root 1 database).1

deactivated : deactivate_user call root 1 database ≡ (ok tt, after_deactivation)
unfolding deactivate_user Accounts.load_target get_user Database.find_user Database.update_user
    Database.find_any_user Database.revoke_all_for_user
deactivated = refl

ids_differ : unique_ids (ann ∷ []) ≡ true
unfolding unique_ids
ids_differ = refl

held_borne : bearer_token (some "bearer  held") ≡ ok "held"
unfolding bearer_token Guard.split_words lower
held_borne = refl

deactivate_user-locks_out_example :
    (has_session 100 1 after_deactivation.tables.tokens ≡ false)
    × (refresh texts later_call "held" after_deactivation
        ≡ (err (repository_error not_found), after_deactivation))
    × (get_current_user texts.jwt 0 (some "bearer  held") after_deactivation ≡ err unknown_user)
deactivate_user-locks_out_example =
    deactivate_user_locks_out texts call later_call root 1 database after_deactivation
      (some "bearer  held") "held" held_payload refl ids_differ deactivated held_decodes_later refl
      held_borne
