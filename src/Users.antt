-- ===== src/Users.antt =====
-- backend/app/domain/entities/user.py: the user account. A `raise ValueError` is a value of the
-- type `UserError`.
use Prim.Native.Char.{Char, code}
use sentinal.Prelude.{
  ℕ, String, Bool, true, false, not, ◌||◌, Option, none, some, List, [], ◌∷◌, ◌==◌, is_empty,
  if◌then◌else◌,
}
use sentinal.Prelude.Outcome.{Result, ◌>>◌, refuse}

pub data Role : Type 0 where
  admin analyst viewer : Role

abbrev pub is_admin : Role → Bool
is_admin admin = true
is_admin _ = false

abbrev pub same_role : Role → Role → Bool
same_role admin admin = true
same_role analyst analyst = true
same_role viewer viewer = true
same_role _ _ = false

pub record User : Type 0 where
  pub id : ℕ
  pub email : String
  pub password_hash : String
  pub role : Role
  pub is_active : Bool
  pub is_verified : Bool
  pub created_at : ℕ
  pub full_name : Option String
  pub updated_at : Option ℕ
  pub deleted_at : Option ℕ

pub data UserError : Type 0 where
  email_required email_format hash_required : UserError

abbrev onto_first : Char → List String → List String
onto_first c [] = []
onto_first c (w ∷ ws) = (String.◌∷◌ c w) ∷ ws

-- `email.split("@")`
unfoldable pub split_at_sign : String → List String
split_at_sign String.[] = String.[] ∷ []
split_at_sign (String.◌∷◌ c s) =
    let rest = split_at_sign s in if code c == b'@' then String.[] ∷ rest else onto_first c rest

abbrev two_parts : List String → Bool
two_parts (local ∷ domain ∷ []) = not (is_empty local || is_empty domain)
two_parts _ = false

-- The role is one of the enumeration by its type.
unfoldable pub validate : User → Result UserError (Unit {0})
unfolding split_at_sign
validate u = do
  refuse (is_empty u.email) email_required
  refuse (not (two_parts (split_at_sign u.email))) email_format
  refuse (is_empty u.password_hash) hash_required

unfoldable pub deactivate : (now : ℕ) → User → User
deactivate now u = record u { is_active = false; updated_at = some now; deleted_at = some now }

abbrev or_keep : Option String → Option String → Option String
or_keep none old = old
or_keep (some name) old = some name

unfoldable pub update_profile : (now : ℕ) (full_name : Option String) → User → User
update_profile now full_name u = record u {
  full_name = or_keep full_name u.full_name;
  updated_at = some now;
}

unfoldable pub update_role : (now : ℕ) → Role → User → User
update_role now new_role u = record u { role = new_role; updated_at = some now }
