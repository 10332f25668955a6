-- ===== src/Auth/Counting.antt =====
-- Counting stored tokens, and whether one is active, when rows are added and revoked
-- (backend/app/infrastructure/database/repositories/refresh_token.py).
use sentinal.Prelude.{
  ℕ, ◌+◌, ◌≤◌, ◌≡◌, refl, Bool, false, List, [], ◌∷◌, ◌++◌, ◌==◌, arith, if◌then◌else◌,
}
use sentinal.Tokens.{RefreshToken}
use sentinal.Database.{revoke_jti, revoke_id}

-- whether the UPDATE of `atomic_revoke_by_jti` finds its row
abbrev pub is_active : ℕ → List RefreshToken → Bool
is_active jti tokens = (revoke_jti 0 jti tokens).0

unfoldable pub count_jti : ℕ → List RefreshToken → ℕ
count_jti jti [] = 0
count_jti jti (t ∷ tokens) = (if t.jti == jti then 1 else 0) + count_jti jti tokens

pub count_jti-append :
    (jti : ℕ) (ts : List RefreshToken) (t : RefreshToken)
    → count_jti jti (ts ++ t ∷ []) ≡ count_jti jti ts + (if t.jti == jti then 1 else 0)
unfolding count_jti
count_jti-append jti [] t = omega arith
count_jti-append jti (s ∷ ts) t = omega (arith, count_jti-append jti ts t)

pub is_active-append :
    (jti : ℕ) (ts : List RefreshToken) (t : RefreshToken)
    → (t.jti == jti) ≡ false
    → is_active jti (ts ++ t ∷ []) ≡ is_active jti ts
unfolding revoke_jti
is_active-append jti [] t h = ground arith
is_active-append jti (s ∷ ts) t h = ground (arith, is_active-append jti ts t h)

pub is_active-count :
    (jti : ℕ) (ts : List RefreshToken) → count_jti jti ts ≡ 0 → is_active jti ts ≡ false
unfolding revoke_jti count_jti
is_active-count jti [] h = refl
is_active-count jti (s ∷ ts) h = ground (arith, is_active-count jti ts)

pub is_active-revoke_jti :
    (now jti : ℕ) (ts : List RefreshToken)
    → count_jti jti ts ≤ 1
    → is_active jti (revoke_jti now jti ts).1 ≡ false
unfolding revoke_jti count_jti
is_active-revoke_jti now jti [] h = refl
is_active-revoke_jti now jti (s ∷ ts) h =
    ground (arith, is_active-revoke_jti now jti ts, is_active-count jti ts)

pub count_jti-revoke_jti :
    (now jti j : ℕ) (ts : List RefreshToken)
    → count_jti j (revoke_jti now jti ts).1 ≡ count_jti j ts
unfolding revoke_jti count_jti
count_jti-revoke_jti now jti j [] = refl
count_jti-revoke_jti now jti j (s ∷ ts) = ground (arith, count_jti-revoke_jti now jti j ts)

pub count_jti-revoke_id :
    (now id j : ℕ) (ts : List RefreshToken) → count_jti j (revoke_id now id ts) ≡ count_jti j ts
unfolding revoke_id count_jti
count_jti-revoke_id now id j [] = refl
count_jti-revoke_id now id j (s ∷ ts) = ground (arith, count_jti-revoke_id now id j ts)

pub is_active-revoke_id :
    (now id jti : ℕ) (ts : List RefreshToken)
    → is_active jti ts ≡ false
    → is_active jti (revoke_id now id ts) ≡ false
unfolding revoke_id revoke_jti
is_active-revoke_id now id jti [] h = refl
is_active-revoke_id now id jti (s ∷ ts) h = ground (arith, is_active-revoke_id now id jti ts)
