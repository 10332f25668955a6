-- ===== src/Tokens.antt =====
-- backend/app/domain/entities/refresh_token.py and backend/app/infrastructure/security/jwt.py:
-- the stored refresh tokens and the token service. Signing and reading a JWT is the library PyJWT,
-- a parameter `Jwt`; identifiers in claims are numbers, and times are in seconds. The token's
-- `user_agent` and `ip_address`, which nothing in the program sets, are left out.
use sentinal.Prelude.{
  ℕ, ◌+◌, ◌*◌, ◌≡◌, ◌≤◌, ◌<◌, String, Bool, ◌&&◌, Option, none, some, ltb, is_none,
}
use sentinal.Prelude.Outcome.{Result, ok, err, ◌>>=◌, refuse}
use sentinal.Users.{Role}

pub record RefreshToken : Type 0 where
  pub id : ℕ
  pub user_id : ℕ
  pub jti : ℕ
  pub token_hash : String
  pub expires_at : ℕ
  pub is_revoked : Bool
  pub revoked_at : Option ℕ
  pub created_at : Option ℕ

-- A claim of a decoded payload. `malformed` is a value that its conversion refuses.
pub data Claim (A : Type 0) : Type 0 where
  missing malformed : Claim A
  given : A → Claim A

pub record Claims : Type 0 where
  pub sub : Claim ℕ
  pub exp : Claim ℕ
  pub iat : Claim ℕ
  pub jti : Claim ℕ
  pub role : Claim Role

pub data JwtError : Type 0 where
  expired_signature invalid_jwt : JwtError

-- `jwt.encode` and `jwt.decode`, with the key and the algorithm of the settings
pub record Jwt : Type 0 where
  pub encode : Claims → String
  pub decode : (now : ℕ) → String → Result JwtError Claims

-- What PyJWT documents: a token that is issued by now and expires later is read back as it was
-- signed.
pub record IsSound (j : Jwt) : Type 0 where
  pub decode-encode :
      (now exp iat : ℕ) (c : Claims)
      → c.exp ≡ given exp
      → c.iat ≡ given iat
      → iat ≤ now
      → now < exp
      → j.decode now (j.encode c) ≡ ok c

pub data TokenError : Type 0 where
  token_expired invalid_token : TokenError

pub record TokenPayload : Type 0 where
  pub sub : ℕ
  pub exp : ℕ
  pub iat : ℕ
  pub jti : ℕ
  pub role : Option Role

-- `datetime.now(tz=UTC) > self.exp`
unfoldable pub is_expired : (now : ℕ) → TokenPayload → Bool
is_expired now p = ltb p.exp now

abbrev pub access_token_seconds : ℕ
access_token_seconds = 15 * 60

abbrev pub refresh_token_seconds : ℕ
refresh_token_seconds = 30 * 24 * 60 * 60

abbrev pub access_claims : (now jti user_id : ℕ) → Role → Claims
access_claims now jti user_id role = record {
  sub = given user_id;
  exp = given (now + access_token_seconds);
  iat = given now;
  jti = given jti;
  role = given role;
}

abbrev pub refresh_claims : (now jti user_id : ℕ) → Claims
refresh_claims now jti user_id = record {
  sub = given user_id;
  exp = given (now + refresh_token_seconds);
  iat = given now;
  jti = given jti;
  role = missing;
}

unfoldable pub create_access_token : Jwt → (now jti user_id : ℕ) → Role → String
create_access_token j now jti user_id role = j.encode (access_claims now jti user_id role)

unfoldable pub create_refresh_token : Jwt → (now jti user_id : ℕ) → String
create_refresh_token j now jti user_id = j.encode (refresh_claims now jti user_id)

-- A required claim: a missing one, and one that cannot be converted, both raise.
abbrev required : {A : Type 0} → Claim A → Result TokenError A
required (given a) = ok a
required _ = err invalid_token

abbrev optional : {A : Type 0} → Claim A → Result TokenError (Option A)
optional missing = ok none
optional malformed = err invalid_token
optional (given a) = ok (some a)

unfoldable pub payload_of : Claims → Result TokenError TokenPayload
payload_of c = do
  sub ← required c.sub
  exp ← required c.exp
  iat ← required c.iat
  jti ← required c.jti
  role ← optional c.role
  ok (record { sub = sub; exp = exp; iat = iat; jti = jti; role = role })

unfoldable pub decode_token : Jwt → (now : ℕ) (token : String) → Result TokenError TokenPayload
unfolding payload_of
decode_token j now token = elim (j.decode now token) [
  | ok c ↦ payload_of c
  | err expired_signature ↦ err token_expired
  | err invalid_jwt ↦ err invalid_token
]

pub data RefreshTokenError : Type 0 where
  revoked_at_required : RefreshTokenError

-- The identifiers and times of a stored token are present by their types.
unfoldable pub validate : RefreshToken → Result RefreshTokenError (Unit {0})
validate t = refuse (t.is_revoked && is_none t.revoked_at) revoked_at_required
