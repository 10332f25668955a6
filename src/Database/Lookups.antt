-- ===== src/Database/Lookups.antt =====
-- Looking up and revoking refresh tokens
-- (backend/app/infrastructure/database/repositories/refresh_token.py).
use sentinal.Prelude.{
  ℕ, String, ◌≡◌, ◌≢◌, refl, true, false, ◌||◌, none, some, List, [], ◌∷◌, ◌++◌, ◌==◌, any, str_eq,
  arith, if◌then◌else◌,
}
use sentinal.Tokens.{RefreshToken}
use sentinal.Database.{find_jti, revoke_jti, revoked}

pub find_jti-jti :
    (jti : ℕ) (ts : List RefreshToken) (t : RefreshToken) → find_jti jti ts ≡ some t → t.jti ≡ jti
unfolding find_jti
find_jti-jti jti [] t h = ground arith
find_jti-jti jti (s ∷ ts) t h = ground (arith, find_jti-jti jti ts t)

-- The conditional update wins when the token that is found is active, and leaves it revoked.
pub revoke_jti_found :
    (now jti : ℕ) (ts : List RefreshToken) (t : RefreshToken)
    → find_jti jti ts ≡ some t
    → t.is_revoked ≡ false
    → ((revoke_jti now jti ts).0 ≡ true)
      × (find_jti jti (revoke_jti now jti ts).1 ≡ some (revoked now t))
unfolding find_jti revoke_jti
revoke_jti_found now jti [] t h active = ground arith
revoke_jti_found now jti (s ∷ ts) t h active = ground (arith, revoke_jti_found now jti ts t)

pub revoke_jti_other :
    (now jti j : ℕ) (ts : List RefreshToken)
    → j ≢ jti
    → find_jti j (revoke_jti now jti ts).1 ≡ find_jti j ts
unfolding find_jti revoke_jti
revoke_jti_other now jti j [] apart = refl
revoke_jti_other now jti j (s ∷ ts) apart = ground (arith, revoke_jti_other now jti j ts apart)

pub find_jti-append :
    (jti : ℕ) (ts : List RefreshToken) (n : RefreshToken)
    → find_jti jti (ts ++ n ∷ [])
      ≡ (elim (find_jti jti ts) [ some t ↦ some t | none ↦ if n.jti == jti then some n else none ])
unfolding find_jti
find_jti-append jti [] n = refl
find_jti-append jti (s ∷ ts) n = ground (arith, find_jti-append jti ts n)

-- A token with a fresh jti is not found before it is stored.
pub find_jti_fresh :
    (id jti : ℕ) (hash : String) (ts : List RefreshToken)
    → any (λ s. s.id == id || s.jti == jti || str_eq s.token_hash hash) ts ≡ false
    → find_jti jti ts ≡ none
unfolding find_jti
find_jti_fresh id jti hash [] h = refl
find_jti_fresh id jti hash (s ∷ ts) h = ground (arith, find_jti_fresh id jti hash ts)
