-- ===== src/Auth/Race.antt =====
-- Requests that refresh the same token at the same time (`refresh` of
-- backend/app/application/services/auth_service.py, each in its own transaction). The database is
-- PostgreSQL at its default isolation: a request sees what is committed, an UPDATE of a row waits for
-- the transaction that has changed it, and then tests its condition again.
use sentinal.Prelude.{
  ℕ, ◌≡◌, ◌≢◌, ◌∙◌, true, false, Option, none, some, List, [], ◌∷◌, ◌++◌, ◌==◌, arith,
  if◌then◌else◌,
}
use sentinal.Tokens.{RefreshToken}
use sentinal.Database.{revoke_jti, revoke_id}
use sentinal.Auth.Counting.{
  is_active, count_jti, count_jti-append, is_active-append, is_active-revoke_jti,
  count_jti-revoke_jti, count_jti-revoke_id, is_active-revoke_id,
}

-- How far a request has come.
pub data Pc : Type 0 where
  asked seen updated granted refused rotated failed : Pc

-- The committed tokens, the request whose transaction has changed the row, and each request.
pub record System : Type 0 where
  pub tokens : List RefreshToken
  pub lock : Option ℕ
  pub pc : ℕ → Pc

abbrev pub set_pc : ℕ → Pc → (ℕ → Pc) → ℕ → Pc
set_pc i p pc j = if j == i then p else pc j

pub data Step (jti : ℕ) (s : System) (u : System) : Type 0 where
  -- `get_by_jti`
  look :
      (i : ℕ)
      → s.pc i ≡ asked
      → is_active jti s.tokens ≡ true
      → u ≡ record s { pc = set_pc i seen s.pc }
      → Step jti s u
  look_revoked :
      (i : ℕ)
      → s.pc i ≡ asked
      → is_active jti s.tokens ≡ false
      → u ≡ record s { pc = set_pc i refused s.pc }
      → Step jti s u
  -- `atomic_revoke_by_jti`
  win :
      (i : ℕ)
      → s.pc i ≡ seen
      → s.lock ≡ none
      → is_active jti s.tokens ≡ true
      → u ≡ record s { lock = some i; pc = set_pc i updated s.pc }
      → Step jti s u
  lose :
      (i : ℕ)
      → s.pc i ≡ seen
      → s.lock ≡ none
      → is_active jti s.tokens ≡ false
      → u ≡ record s { pc = set_pc i rotated s.pc }
      → Step jti s u
  -- the end of the transaction, with the new token `t` or without
  commit :
      (i now : ℕ) (t : RefreshToken)
      → s.pc i ≡ updated
      → count_jti t.jti s.tokens ≡ 0
      → u ≡ record {
        tokens = (revoke_jti now jti s.tokens).1 ++ t ∷ [];
        lock = none;
        pc = set_pc i granted s.pc;
      }
      → Step jti s u
  abort :
      (i : ℕ)
      → s.pc i ≡ updated
      → u ≡ record s { lock = none; pc = set_pc i failed s.pc }
      → Step jti s u
  -- other requests: a login, and a logout
  sign_in :
      (t : RefreshToken)
      → count_jti t.jti s.tokens ≡ 0
      → u ≡ record s { tokens = s.tokens ++ t ∷ [] }
      → Step jti s u
  sign_out :
      (now id : ℕ)
      → s.lock ≡ none
      → u ≡ record s { tokens = revoke_id now id s.tokens }
      → Step jti s u

pub data Reach (jti : ℕ) (tokens : List RefreshToken) : System → Type 0 where
  start : Reach jti tokens (record { tokens = tokens; lock = none; pc = λ i. asked })
  next : {s u : System} → Reach jti tokens s → Step jti s u → Reach jti tokens u

-- What every reachable state keeps.
pub record Inv (jti : ℕ) (s : System) : Type 0 where
  pub unique : count_jti jti s.tokens ≡ 1
  pub holder : (i : ℕ) → s.pc i ≡ updated → s.lock ≡ some i
  pub active : (i : ℕ) → s.lock ≡ some i → is_active jti s.tokens ≡ true
  pub spent : (i : ℕ) → s.pc i ≡ granted → is_active jti s.tokens ≡ false
  pub one : (i j : ℕ) → s.pc i ≡ granted → s.pc j ≡ granted → i ≡ j

-- A request that neither holds the row nor has won moves on.
Inv-move :
    (jti i : ℕ) (p : Pc) (s : System)
    → p ≢ updated
    → p ≢ granted
    → Inv jti s
    → Inv jti (record s { pc = set_pc i p s.pc })
Inv-move jti i p s not_updated not_granted k = record {
  unique = k.unique;
  holder = λ j h. ground (arith, k.holder j);
  active = k.active;
  spent = λ j h. ground (arith, k.spent j);
  one = λ j l hj hl. ground (arith, k.one j l);
}

Inv-win :
    (jti i : ℕ) (s : System)
    → s.lock ≡ none
    → is_active jti s.tokens ≡ true
    → Inv jti s
    → Inv jti (record s { lock = some i; pc = set_pc i updated s.pc })
Inv-win jti i s free here k = record {
  unique = k.unique;
  holder = λ j h. ground (arith, k.holder j);
  active = λ j h. here;
  spent = λ j h. ground (arith, k.spent j);
  one = λ j l hj hl. ground (arith, k.one j l);
}

Inv-abort :
    (jti i : ℕ) (s : System)
    → s.pc i ≡ updated
    → Inv jti s
    → Inv jti (record s { lock = none; pc = set_pc i failed s.pc })
Inv-abort jti i s holds k = record {
  unique = k.unique;
  holder = λ j h. ground (arith, k.holder i, k.holder j);
  active = λ j h. ground (arith);
  spent = λ j h. ground (arith, k.spent j);
  one = λ j l hj hl. ground (arith, k.one j l);
}

Inv-commit :
    (jti i now : ℕ) (t : RefreshToken) (s : System)
    → s.pc i ≡ updated
    → count_jti t.jti s.tokens ≡ 0
    → Inv jti s
    → Inv jti (record {
      tokens = (revoke_jti now jti s.tokens).1 ++ t ∷ [];
      lock = none;
      pc = set_pc i granted s.pc;
    })
Inv-commit jti i now t s holds fresh k =
    let left = (revoke_jti now jti s.tokens).1 in
    let here = k.active i (k.holder i holds) in
    let other : (t.jti == jti) ≡ false = ground (arith, k.unique) in
    let counted : count_jti jti (left ++ t ∷ []) ≡ count_jti jti s.tokens =
      ground (arith, count_jti-append jti left t, count_jti-revoke_jti now jti jti s.tokens) in
    let gone =
      is_active-append jti left t other
      ∙ is_active-revoke_jti now jti s.tokens (omega (arith, k.unique)) in
    record {
      unique = counted ∙ k.unique;
      holder = λ j h. ground (arith, k.holder i, k.holder j);
      active = λ j h. ground (arith);
      spent = λ j h. gone;
      one = λ j l hj hl. ground (arith, here, k.spent j, k.spent l);
    }

Inv-sign_in :
    (jti : ℕ) (t : RefreshToken) (s : System)
    → count_jti t.jti s.tokens ≡ 0
    → Inv jti s
    → Inv jti (record s { tokens = s.tokens ++ t ∷ [] })
Inv-sign_in jti t s fresh k =
    let other : (t.jti == jti) ≡ false = ground (arith, k.unique) in
    let counted : count_jti jti (s.tokens ++ t ∷ []) ≡ count_jti jti s.tokens =
      ground (arith, count_jti-append jti s.tokens t) in
    let same = is_active-append jti s.tokens t other in
    record {
      unique = counted ∙ k.unique;
      holder = k.holder;
      active = λ j h. same ∙ k.active j h;
      spent = λ j h. same ∙ k.spent j h;
      one = k.one;
    }

Inv-sign_out :
    (jti now id : ℕ) (s : System)
    → s.lock ≡ none
    → Inv jti s
    → Inv jti (record s { tokens = revoke_id now id s.tokens })
Inv-sign_out jti now id s free k = record {
  unique = rw (count_jti-revoke_id now id jti s.tokens) k.unique;
  holder = k.holder;
  active = λ j h. ground arith;
  spent = λ j h. is_active-revoke_id now id jti s.tokens (k.spent j h);
  one = k.one;
}

Step-Inv : (jti : ℕ) (s u : System) → Step jti s u → Inv jti s → Inv jti u
Step-Inv jti s u (look i p a e) k = rw e (Inv-move jti i seen s (λ h. cc) (λ h. cc) k)
Step-Inv jti s u (look_revoked i p a e) k = rw e (Inv-move jti i refused s (λ h. cc) (λ h. cc) k)
Step-Inv jti s u (win i p free a e) k = rw e (Inv-win jti i s free a k)
Step-Inv jti s u (lose i p free a e) k = rw e (Inv-move jti i rotated s (λ h. cc) (λ h. cc) k)
Step-Inv jti s u (commit i now t p fresh e) k = rw e (Inv-commit jti i now t s p fresh k)
Step-Inv jti s u (abort i p e) k = rw e (Inv-abort jti i s p k)
Step-Inv jti s u (sign_in t fresh e) k = rw e (Inv-sign_in jti t s fresh k)
Step-Inv jti s u (sign_out now id free e) k = rw e (Inv-sign_out jti now id s free k)

pub Reach-Inv :
    {jti : ℕ} {tokens : List RefreshToken} {s : System}
    → count_jti jti tokens ≡ 1
    → Reach jti tokens s
    → Inv jti s
Reach-Inv h start = record {
  unique = h;
  holder = λ i e. ground arith;
  active = λ i e. ground arith;
  spent = λ i e. ground arith;
  one = λ i j e f. ground arith;
}
Reach-Inv h (next {s} {u} r st) = Step-Inv _ s u st (Reach-Inv h r)

-- Of any number of requests that refresh the same stored token, in any interleaving, also with
-- requests that fail, other logins and logouts, at most one is granted, and once it is, the token is
-- revoked for good.
pub one_winner :
    (jti : ℕ) (tokens : List RefreshToken) (s : System) (i j : ℕ)
    → count_jti jti tokens ≡ 1
    → Reach jti tokens s
    → s.pc i ≡ granted
    → s.pc j ≡ granted
    → (i ≡ j) × (is_active jti s.tokens ≡ false)
one_winner jti tokens s i j h r gi gj = let k = Reach-Inv h r in (k.one i j gi gj, k.spent i gi)
