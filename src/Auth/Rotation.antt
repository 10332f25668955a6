-- ===== src/Auth/Rotation.antt =====
-- Rotation of refresh tokens (`refresh` of backend/app/application/services/auth_service.py).
use sentinal.Prelude.{ℕ, ◌≡◌, false, some}
use sentinal.Prelude.Outcome.{Result, ok, err}
use sentinal.Users.{User}
use sentinal.Tokens.{RefreshToken, TokenPayload, decode_token}
use sentinal.Database.{Database, find_jti, revoked, stored_token}
use sentinal.Auth.{Crypto, Call, AuthError, TokenPair, new_token, refresh_for}

-- What a rotation has made of the tokens: the old one is revoked, and a new one of the same user is
-- there.
pub record Rotated (k : Crypto) (c : Call) (u : User) (jti : ℕ) (db db' : Database) : Type 0 where
  pub old : RefreshToken
  pub payload : TokenPayload
  pub was_found : find_jti jti db.tables.tokens ≡ some old
  pub was_active : old.is_revoked ≡ false
  pub decoded : decode_token k.jwt c.now (refresh_for k c u) ≡ ok payload
  pub healthy : db'.is_broken ≡ false
  pub is_revoked : find_jti jti db'.tables.tokens ≡ some (revoked c.now old)
  pub renewed :
      find_jti payload.jti db'.tables.tokens
      ≡ some (stored_token c.now (new_token k c u.id (refresh_for k c u) payload))

-- A call that returns no tokens leaves the tables as they are.
pub record Refused (d : Result AuthError TokenPair × Database) (db : Database) : Type 0 where
  pub error : AuthError
  pub is_error : d.0 ≡ err error
  pub unchanged : d.1 ≡ db
