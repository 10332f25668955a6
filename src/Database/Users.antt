-- ===== src/Database/Users.antt =====
-- Looking up the rows of users
-- (backend/app/infrastructure/database/repositories/user.py and base.py).
use sentinal.Prelude.{
  ℕ, String, ◌≡◌, refl, Bool, true, false, not, ◌&&◌, ◌||◌, none, some, List, [], ◌∷◌, ◌++◌, ◌==◌,
  any, is_none, str_eq, arith, if◌then◌else◌,
}
use sentinal.Users.{User}
use sentinal.Database.{find_email, find_user, write_user}

-- The primary key of the table of users.
unfoldable pub unique_ids : List User → Bool
unique_ids [] = true
unique_ids (u ∷ users) = not (any (λ (v : User). v.id == u.id) users) && unique_ids users

pub find_user-id : (id : ℕ) (users : List User) (u : User) → find_user id users ≡ some u → u.id ≡ id
unfolding find_user
find_user-id id [] u h = ground arith
find_user-id id (v ∷ users) u h = ground (arith, find_user-id id users u)

pub find_user_absent :
    (id : ℕ) (users : List User)
    → any (λ (v : User). v.id == id) users ≡ false
    → find_user id users ≡ none
unfolding find_user
find_user_absent id [] h = refl
find_user_absent id (v ∷ users) h = ground (arith, find_user_absent id users)

-- A row that is written as deleted is no longer found.
pub find_user-write_user :
    (id : ℕ) (write : User → User) (users : List User)
    → unique_ids users ≡ true
    → ((u : User) → is_none (write u).deleted_at ≡ false)
    → find_user id (write_user id write users) ≡ none
unfolding find_user write_user unique_ids
find_user-write_user id write [] unique deleted = refl
find_user-write_user id write (v ∷ users) unique deleted =
    ground (arith, find_user_absent id users, find_user-write_user id write users, deleted v)

-- A row at the end is found by the key that no row before it has.
pub find_email-append :
    (email : String) (users : List User) (n : User)
    → find_email email users ≡ none
    → find_email email (users ++ n ∷ [])
      ≡ (if str_eq n.email email && is_none n.deleted_at then some n else none)
unfolding find_email
find_email-append email [] n free = refl
find_email-append email (v ∷ users) n free = ground (arith, find_email-append email users n)

pub find_user-append :
    (id : ℕ) (users : List User) (n : User)
    → find_user id users ≡ none
    → find_user id (users ++ n ∷ []) ≡ (if n.id == id && is_none n.deleted_at then some n else none)
unfolding find_user
find_user-append id [] n free = refl
find_user-append id (v ∷ users) n free = ground (arith, find_user-append id users n)

-- No row with the id or the email: the test of `create_user`.
pub find_user_fresh :
    (id : ℕ) (email : String) (users : List User)
    → any (λ (v : User). v.id == id || str_eq v.email email) users ≡ false
    → find_user id users ≡ none
unfolding find_user
find_user_fresh id email [] h = refl
find_user_fresh id email (v ∷ users) h = ground (arith, find_user_fresh id email users)

-- Two rows cannot have one email.
pub any-append :
    (id : ℕ) (email : String) (users : List User) (n : User)
    → str_eq n.email email ≡ true
    → any (λ (v : User). v.id == id || str_eq v.email email) (users ++ n ∷ []) ≡ true
any-append id email [] n same = ground arith
any-append id email (v ∷ users) n same = ground (arith, any-append id email users n)

pub any_id-append :
    (users : List User) (n : User) → any (λ (v : User). v.id == n.id) (users ++ n ∷ []) ≡ true
any_id-append [] n = ground arith
any_id-append (v ∷ users) n = ground (arith, any_id-append users n)
