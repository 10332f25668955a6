-- ===== src/Guard.antt =====
-- backend/app/api/v1/dependencies/auth.py: the user behind a request's bearer token, and the test
-- of the role.
use Prim.Native.Char.{code, Char}
use sentinal.Prelude.{
  ℕ, String, Bool, not, ◌&&◌, ◌||◌, Option, none, some, List, [], ◌∷◌, ◌==◌, leb, any, is_empty,
  str_eq, if◌then◌else◌,
}
use sentinal.Prelude.Case.{lower}
use sentinal.Prelude.Outcome.{Result, ok, err}
use sentinal.Users.{User, Role, same_role}
use sentinal.Tokens.{Jwt, TokenError, token_expired, invalid_token, TokenPayload, decode_token}
use sentinal.Repository.Session.{RepositoryException}
use sentinal.Database.{Database, get_user}

-- The detail of a 401 response; `role_required` is the 403 response.
pub data Denied : Type 0 where
  missing_header header_format expired invalid unknown_user inactive_user role_required : Denied

abbrev onto_first : Char → List String → List String
onto_first c [] = []
onto_first c (w ∷ ws) = (String.◌∷◌ c w) ∷ ws

abbrev is_space : ℕ → Bool
is_space c = c == 32 || (leb 9 c && leb c 13) || (leb 28 c && leb c 31)

-- the pieces between white space, with the empty ones
unfoldable pub pieces : String → List String
pieces String.[] = String.[] ∷ []
pieces (String.◌∷◌ c s) =
    let rest = pieces s in if is_space (code c) then String.[] ∷ rest else onto_first c rest

unfoldable pub without_empty : List String → List String
without_empty [] = []
without_empty (w ∷ ws) = let rest = without_empty ws in if is_empty w then rest else w ∷ rest

-- `authorization.split()`, on ASCII
unfoldable pub split_words : String → List String
unfolding pieces without_empty
split_words s = without_empty (pieces s)

abbrev token_in : List String → Result Denied String
token_in (scheme ∷ token ∷ []) =
    if str_eq (lower scheme) "bearer" then ok token else err header_format
token_in _ = err header_format

-- the token of the header
unfoldable pub bearer_token : Option String → Result Denied String
unfolding split_words lower
bearer_token none = err missing_header
bearer_token (some h) = if is_empty h then err missing_header else token_in (split_words h)

unfoldable pub active_user : Result RepositoryException User → Result Denied User
active_user (err e) = err unknown_user
active_user (ok u) = if not u.is_active then err inactive_user else ok u

unfoldable pub owner_of : Database → Result TokenError TokenPayload → Result Denied User
unfolding active_user
owner_of db (err token_expired) = err expired
owner_of db (err invalid_token) = err invalid
owner_of db (ok p) = active_user (get_user p.sub db)

unfoldable pub user_of_token :
    Jwt → (now : ℕ) → Database → Result Denied String → Result Denied User
unfolding owner_of
user_of_token j now db (err e) = err e
user_of_token j now db (ok token) = owner_of db (decode_token j now token)

unfoldable pub get_current_user :
    Jwt → (now : ℕ) → (authorization : Option String) → Database → Result Denied User
unfolding user_of_token
get_current_user j now authorization db = user_of_token j now db (bearer_token authorization)

unfoldable pub require_role : List Role → User → Result Denied User
require_role roles u = if any (same_role u.role) roles then ok u else err role_required
