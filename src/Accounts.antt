-- ===== src/Accounts.antt =====
-- backend/app/application/services/user_service.py: changes of an account, by its owner or an
-- administrator. The context of a request only goes into audit records and is left out.
pub mod Deactivation
use sentinal.Prelude.{
  ℕ, String, Bool, true, false, not, ◌&&◌, ◌||◌, Option, none, some, ◌==◌, is_none, if◌then◌else◌,
}
use sentinal.Prelude.Outcome.{Result, ok, err, Exec}
use sentinal.Users.{User, Role, is_admin, same_role, deactivate, update_profile, update_role}
use sentinal.Repository.Session.{RepositoryException, not_found}
use sentinal.Database.{
  Database, AuthEvent, role_change, deactivation, log_event, get_user, update_user,
  revoke_all_for_user,
}
use sentinal.Auth.{Call}

pub data AccountError : Type 0 where
  user_not_found role_change_forbidden invalid_role : AccountError
  repository_error : RepositoryException → AccountError

-- `_load_target`, after `self.user_repo.get_by_id`
unfoldable pub allowed_target :
    (actor : User) (user_id : ℕ) → Result RepositoryException User → Result AccountError User
allowed_target actor user_id (err not_found) = err user_not_found
allowed_target actor user_id (err e) = err (repository_error e)
allowed_target actor user_id (ok u) =
    if not (is_admin actor.role || actor.id == user_id) then err user_not_found else ok u

unfoldable pub load_target : (actor : User) (user_id : ℕ) → Database → Result AccountError User
unfolding allowed_target
load_target actor user_id db = allowed_target actor user_id (get_user user_id db)

-- A `role` argument: absent, a text that is no role, or a role.
pub data RoleArgument : Type 0 where
  unchanged unknown : RoleArgument
  to : Role → RoleArgument

abbrev with_name : (now : ℕ) → Option String → User → User
with_name now none u = u
with_name now (some name) u = update_profile now (some name) u

abbrev with_role : (now : ℕ) → RoleArgument → User → User
with_role now (to role) u = if same_role role u.role then u else update_role now role u
with_role now _ u = u

-- The entity with the changes that are asked for.
unfoldable pub changed : (now : ℕ) → Option String → RoleArgument → User → User
unfolding update_profile update_role
changed now full_name role u = with_role now role (with_name now full_name u)

-- the dictionary of `self.user_repo.update`
abbrev pub write_changes : RoleArgument → User → User → User
write_changes (to r) v row = record row {
  full_name = v.full_name;
  updated_at = v.updated_at;
  role = v.role;
}
write_changes _ v row = record row { full_name = v.full_name; updated_at = v.updated_at }

-- the audit record of a role that has changed
unfoldable pub log_role : Call → (actor : User) → RoleArgument → (old : User) → Database → Database
log_role c actor (to r) old db =
    if same_role r old.role
    then db
    else log_event c.audit (role_change old.id actor.id old.role r) db
log_role c actor _ old db = db

-- after `self.user_repo.update`
unfoldable pub after_update :
    Call
    → (actor : User) → RoleArgument
    → (old : User) → Result RepositoryException User × Database
    → Result AccountError User × Database
unfolding log_role
after_update c actor role old (ok u, db) = (ok u, log_role c actor role old db)
after_update c actor role old (err e, db) = (err (repository_error e), db)

-- the tests of the role argument, behind the loading of the target
unfoldable pub role_test : (actor : User) → RoleArgument → Option AccountError
role_test actor unchanged = none
role_test actor unknown = some invalid_role
role_test actor (to r) = if is_admin actor.role then none else some role_change_forbidden

unfoldable pub apply_changes :
    Call
    → (actor : User) → Option String
    → RoleArgument
    → Database
    → Result AccountError User
    → Result AccountError User × Database
unfolding after_update changed role_test
apply_changes c actor full_name role db (err e) = (err e, db)
apply_changes c actor full_name role db (ok u) = elim (role_test actor role) [
  | some e ↦ (err e, db)
  | none ↦
      after_update c actor role u
        (update_user u.id (write_changes role (changed c.now full_name role u)) db)
]

unfoldable pub change_user :
    Call
    → (actor : User) (user_id : ℕ) → Option String
    → RoleArgument
    → Exec Database AccountError User
unfolding apply_changes
change_user c actor user_id full_name role db =
    apply_changes c actor full_name role db (load_target actor user_id db)

-- after `revoke_all_for_user`
unfoldable pub after_revocation :
    Call
    → (actor u : User) → Result RepositoryException (Unit {0}) × Database
    → Result AccountError (Unit {0}) × Database
after_revocation c actor u (ok v, db) = (ok v, log_event c.audit (deactivation u.id actor.id) db)
after_revocation c actor u (err e, db) = (err (repository_error e), db)

abbrev pub write_deactivated : User → User → User
write_deactivated v row = record row {
  is_active = false;
  deleted_at = v.deleted_at;
  updated_at = v.updated_at;
}

-- after `self.user_repo.update` of a deactivation
unfoldable pub after_deactivation :
    Call
    → (actor u : User) → Result RepositoryException User × Database
    → Result AccountError (Unit {0}) × Database
unfolding after_revocation
after_deactivation c actor u (ok v, db) =
    after_revocation c actor u (revoke_all_for_user c.now u.id db)
after_deactivation c actor u (err e, db) = (err (repository_error e), db)

unfoldable pub deactivate_target :
    Call
    → (actor : User) → Database
    → Result AccountError User
    → Result AccountError (Unit {0}) × Database
unfolding after_deactivation deactivate
deactivate_target c actor db (err e) = (err e, db)
deactivate_target c actor db (ok u) =
    after_deactivation c actor u (update_user u.id (write_deactivated (deactivate c.now u)) db)

unfoldable pub deactivate_user :
    Call → (actor : User) (user_id : ℕ) → Exec Database AccountError (Unit {0})
unfolding deactivate_target
deactivate_user c actor user_id db = deactivate_target c actor db (load_target actor user_id db)
