-- ===== src/RateLimit/Order.antt =====
-- Which of a client's requests should pass, by their rank in the minute
-- (backend/app/api/v1/middleware/rate_limit.py).
use sentinal.Prelude.{
  ℕ, suc, ◌-◌, ◌≤◌, ◌≡◌, ◌≢◌, Bool, true, false, ◌&&◌, Option, none, some, List, [], ◌∷◌, ◌==◌, ltb,
  leb, arith, Option-cases, if◌then◌else◌, inl, inr,
}
use sentinal.Validation.MediaType.{Text, text_eq, text_eq_iff}
use sentinal.RateLimit.{rate_limit, RateLimitSettings, Request, client_of, limit_of, minute_bucket}

abbrev pub is_client : Text → Option Text → Bool
is_client ip none = false
is_client ip (some s) = text_eq s ip

-- A request at a time is one of the client in the minute, and is counted.
unfoldable pub is_of : (ip : Text) (bucket now : ℕ) → Request → Bool
unfolding text_eq
is_of ip bucket now q = is_client ip (client_of q) && minute_bucket now == bucket

-- Whether each request of the client in the minute should be refused, by its rank alone.
unfoldable pub by_rank :
    RateLimitSettings → (ip : Text) (bucket before : ℕ) → List (ℕ × Request) → List Bool
unfolding is_of
by_rank settings ip bucket before [] = []
by_rank settings ip bucket before ((now, q) ∷ arrivals) =
    let after = by_rank settings ip bucket (suc before) arrivals in
    let same = by_rank settings ip bucket before arrivals in
    if is_of ip bucket now q then ltb (limit_of settings q) (suc before) ∷ after else same

-- How many are let through.
unfoldable pub let_through : List Bool → ℕ
let_through [] = 0
let_through (limited ∷ rest) = let more = let_through rest in if limited then more else suc more

abbrev pub highest_limit : RateLimitSettings → ℕ
highest_limit s =
    if leb s.authenticated_requests_per_minute s.unauthenticated_requests_per_minute
    then s.unauthenticated_requests_per_minute
    else s.authenticated_requests_per_minute

pub by_rank_bounded :
    (settings : RateLimitSettings) (ip : Text) (bucket before : ℕ) (arrivals : List (ℕ × Request))
    → let_through (by_rank settings ip bucket before arrivals) ≤ highest_limit settings - before
unfolding by_rank let_through
by_rank_bounded settings ip bucket before [] = ground arith
by_rank_bounded settings ip bucket before ((now, q) ∷ arrivals) = ground (
  arith,
  by_rank_bounded settings ip bucket (suc before) arrivals,
  by_rank_bounded settings ip bucket before arrivals,
)

pub is_of_key :
    (ip : Text) (bucket now : ℕ) (q : Request)
    → is_of ip bucket now q ≡ true
    → (client_of q ≡ some ip) × (minute_bucket now ≡ bucket)
unfolding is_of
is_of_key ip bucket now q h = elim (Option-cases (client_of q)) [
  | inl e ↦ ground arith
  | inr (s, e) ↦ ground (arith, (text_eq_iff s ip).0)
]

pub is_of_other :
    (ip client : Text) (bucket now : ℕ) (q : Request)
    → is_of ip bucket now q ≡ false
    → client_of q ≡ some client
    → rate_limit ip bucket ≢ rate_limit client (minute_bucket now)
unfolding is_of
is_of_other ip client bucket now q h e same = ground (arith, (text_eq_iff client ip).1)
