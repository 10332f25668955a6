-- ===== src/Tests/Signing.antt =====
-- A signing of tokens to run the models with: claims in unary, read back from when they are issued
-- until they expire.
use Prim.Native.Char.{code}
use sentinal.Prelude.{ℕ, zero, suc, ◌≡◌, refl, String, ◌==◌, ltb, leb, arith, if◌then◌else◌}
use sentinal.Prelude.Outcome.{Result, ok, err}
use sentinal.Users.{Role, admin, analyst, viewer}
use sentinal.Tokens.{
  Claim, missing, malformed, given, Claims, JwtError, expired_signature, invalid_jwt, Jwt, IsSound,
}

-- the first character of the first text, in front
abbrev put : String → String → String
put String.[] s = s
put (String.◌∷◌ c rest) s = String.◌∷◌ c s

-- `n` strokes and a comma
unfoldable pub write_number : ℕ → String → String
write_number zero s = put "," s
write_number (suc n) s = put "|" (write_number n s)

unfoldable pub read_number : String → ℕ × String
read_number String.[] = (0, String.[])
read_number (String.◌∷◌ c s) =
    let rest = read_number s in if code c == b'|' then (suc rest.0, rest.1) else (0, s)

read_number-write_number : (n : ℕ) (s : String) → read_number (write_number n s) ≡ (n, s)
unfolding read_number write_number
read_number-write_number zero s = refl
read_number-write_number (suc n) s = ground (arith, read_number-write_number n s)

abbrev number_of : Claim ℕ → ℕ
number_of missing = 0
number_of malformed = 1
number_of (given n) = suc (suc n)

abbrev claim_of : ℕ → Claim ℕ
claim_of zero = missing
claim_of (suc zero) = malformed
claim_of (suc (suc n)) = given n

abbrev number_of_role : Claim Role → ℕ
number_of_role missing = 0
number_of_role malformed = 1
number_of_role (given admin) = 2
number_of_role (given analyst) = 3
number_of_role (given viewer) = 4

abbrev role_claim_of : ℕ → Claim Role
role_claim_of zero = missing
role_claim_of (suc zero) = malformed
role_claim_of (suc (suc zero)) = given admin
role_claim_of (suc (suc (suc zero))) = given analyst
role_claim_of _ = given viewer

claim_of-number_of : (c : Claim ℕ) → claim_of (number_of c) ≡ c
claim_of-number_of missing = refl
claim_of-number_of malformed = refl
claim_of-number_of (given n) = refl

role_claim_of-number_of_role : (c : Claim Role) → role_claim_of (number_of_role c) ≡ c
role_claim_of-number_of_role missing = refl
role_claim_of-number_of_role malformed = refl
role_claim_of-number_of_role (given admin) = refl
role_claim_of-number_of_role (given analyst) = refl
role_claim_of-number_of_role (given viewer) = refl

unfoldable pub sign : Claims → String
unfolding write_number
sign c = write_number (number_of c.sub) (
    write_number (number_of c.exp) (
      write_number (number_of c.iat)
        (write_number (number_of c.jti) (write_number (number_of_role c.role) ""))))

unfoldable pub read_claims : String → Claims
unfolding read_number
read_claims s =
    let sub = read_number s in
    let exp = read_number sub.1 in
    let iat = read_number exp.1 in
    let jti = read_number iat.1 in
    let role = read_number jti.1 in
    record {
      sub = claim_of sub.0;
      exp = claim_of exp.0;
      iat = claim_of iat.0;
      jti = claim_of jti.0;
      role = role_claim_of role.0;
    }

read_claims-sign : (c : Claims) → read_claims (sign c) ≡ c
unfolding read_claims sign
read_claims-sign c =
    simp (read_number-write_number, claim_of-number_of, role_claim_of-number_of_role)

-- as of PyJWT: expired at the time of expiry, and not to be used before it is issued
abbrev in_time : ℕ → Claims → Claim ℕ → Claim ℕ → Result JwtError Claims
in_time now c (given exp) (given iat) =
    if leb exp now then err expired_signature else if ltb now iat then err invalid_jwt else ok c
in_time now c _ _ = ok c

abbrev pub unary : Jwt
unary = record {
  encode = sign;
  decode = λ now s. in_time now (read_claims s) (read_claims s).exp (read_claims s).iat;
}

pub unary-IsSound : IsSound unary
unary-IsSound = record {
  decode-encode = λ now exp iat c e i h h'. rw (read_claims-sign c, e, i) (ground arith);
}
