-- ===== src/RateLimit.antt =====
-- backend/app/api/v1/middleware/rate_limit.py: the limit on the requests of a client in a minute.
--
-- Redis is the parameter `Redis`, with what it documents of INCR and EXPIRE as its laws. What comes behind
-- the middleware is the parameter `call_next`. Logging is left out, but for the flag that it sets.
-- Texts are lists of code points.
pub mod Window
pub mod Order
pub mod Ranks
pub mod Runs
use sentinal.Prelude.{
  ℕ, zero, suc, ◌+◌, ◌/◌, ◌≡◌, ◌≢◌, Bool, true, false, ◌&&◌, Option, none, some, List, [], ◌∷◌, any,
  ◌==◌, ltb, if◌then◌else◌,
}
use sentinal.Prelude.Outcome.{Result, ok, err}
use sentinal.Validation.MediaType.{Text, codes, lstrip, rstrip}
use sentinal.Metadata.Bytes.{starts_with}

pub data Fault : Type 0 where
  connection_failed redis_failed other_fault : Fault

-- `f"rate_limit:{client_ip}:{bucket}"`: the bucket has no colon, so the text determines both.
pub data CounterKey : Type 0 where
  rate_limit : (client_ip : Text) (bucket : ℕ) → CounterKey

-- Counters with times to live. A counter with a deadline is there before it.
pub record Redis : Type 1 where
  pub State : Type 0
  pub incr : (now : ℕ) → CounterKey → State → Result Fault ℕ × State
  pub expire : (now : ℕ) → CounterKey → (seconds : ℕ) → State → Result Fault (Unit {0}) × State
  pub value : State → CounterKey → ℕ
  pub deadline : State → CounterKey → Option ℕ
  pub incr_live :
      (now n : ℕ) (key : CounterKey) (s s' : State)
      → incr now key s ≡ (ok n, s')
      → ((d : ℕ) → deadline s key ≡ some d → ltb now d ≡ true)
      → (n ≡ suc (value s key)) × (value s' key ≡ n) × (deadline s' key ≡ deadline s key)
  pub incr_other :
      (now : ℕ) (key other : CounterKey) (s : State)
      → other ≢ key
      → (value (incr now key s).1 other ≡ value s other)
        × (deadline (incr now key s).1 other ≡ deadline s other)
  pub expire_there :
      (now seconds : ℕ) (key : CounterKey) (s s' : State) (u : Unit {0})
      → expire now key seconds s ≡ (ok u, s')
      → (value s' key ≡ value s key) × (deadline s' key ≡ some (now + seconds))
  pub expire_other :
      (now seconds : ℕ) (key other : CounterKey) (s : State)
      → other ≢ key
      → (value (expire now key seconds s).1 other ≡ value s other)
        × (deadline (expire now key seconds s).1 other ≡ deadline s other)

pub record RateLimitSettings : Type 0 where
  pub authenticated_requests_per_minute : ℕ
  pub unauthenticated_requests_per_minute : ℕ

pub record Request : Type 0 where
  pub path : Text
  pub forwarded_for : Option Text
  pub client_host : Option Text
  pub has_user : Bool

-- `DEFAULT_EXCLUDE_PATHS`
unfoldable pub exclude_paths : List Text
exclude_paths =
    codes "/health"
    ∷ codes "/docs"
    ∷ codes "/redoc"
    ∷ codes "/openapi.json"
    ∷ codes "/api/v1/health"
    ∷ codes "/api/v1/docs"
    ∷ codes "/api/v1/redoc"
    ∷ codes "/api/v1/openapi.json"
    ∷ []

unfoldable pub should_exclude_path : Text → Bool
unfolding exclude_paths starts_with
should_exclude_path path = any (λ prefix. starts_with prefix path) exclude_paths

-- `.split(",")[0]`
unfoldable pub before_comma : Text → Text
before_comma [] = []
before_comma (c ∷ s) = let rest = before_comma s in if c == b',' then [] else c ∷ rest

-- An empty header counts as none.
unfoldable pub get_client_ip : Request → Option Text
unfolding before_comma lstrip rstrip
get_client_ip q = elim q.forwarded_for [
  | none ↦ q.client_host
  | some [] ↦ q.client_host
  | some (c ∷ s) ↦ some (rstrip (lstrip (before_comma (c ∷ s))))
]

-- the client of a request that is counted: an empty name is no client
unfoldable pub client_of : Request → Option Text
unfolding get_client_ip should_exclude_path
client_of q =
    if should_exclude_path q.path
    then none
    else elim (get_client_ip q) [ none ↦ none | some [] ↦ none | some (c ∷ s) ↦ some (c ∷ s) ]

abbrev pub limit_of : RateLimitSettings → Request → ℕ
limit_of s q =
    if q.has_user
    then s.authenticated_requests_per_minute
    else s.unauthenticated_requests_per_minute

unfoldable pub minute_bucket : (now : ℕ) → ℕ
minute_bucket now = now / 60

-- The 429 response of the middleware, or what comes from behind it.
pub data Answer (A : Type 0) : Type 0 where
  rate_limited : Answer A
  answered : A → Answer A

pub record World (R S : Type 0) : Type 0 where
  pub redis : R
  pub redis_error_logged : Bool
  pub app : S

module _ (R : Redis) {A S : Type 0} (call_next : Request → S → Result Fault A × S)
    (settings : RateLimitSettings) where
  abbrev pub Reply : Type 0
  Reply = Result Fault (Answer A) × World R.State S

  abbrev pub reply : World R.State S → Result Fault A × S → Reply
  reply w (ok a, app) = (ok (answered a), record w { app = app })
  reply w (err e, app) = (err e, record w { app = app })

  unfoldable pub pass_on : Request → World R.State S → Reply
  pass_on q w = reply w (call_next q w.app)

  unfoldable pub check_count : (count : ℕ) → Request → World R.State S → Reply
  unfolding pass_on
  check_count count q w =
      if ltb (limit_of settings q) count then (ok rate_limited, w) else pass_on q w

  unfoldable pub after_expire :
      (count : ℕ) → Request → World R.State S → Result Fault (Unit {0}) × R.State → Reply
  unfolding check_count
  after_expire count q w (ok u, redis) = check_count count q (record w { redis = redis })
  after_expire count q w (err e, redis) = (err e, record w { redis = redis })

  unfoldable pub after_incr :
      (now : ℕ) (key : CounterKey) → Request → World R.State S → Result Fault ℕ × R.State → Reply
  unfolding after_expire
  after_incr now key q w (err e, redis) = (err e, record w { redis = redis })
  after_incr now key q w (ok count, redis) =
      if count == 1
      then after_expire count q w (R.expire now key 60 redis)
      else check_count count q (record w { redis = redis })

  -- the `except` clauses: whatever raised the Redis error, the request is passed on
  unfoldable pub recover : Request → Reply → Reply
  unfolding pass_on
  recover q (ok a, w) = (ok a, w)
  recover q (err connection_failed, w) = pass_on q (record w { redis_error_logged = true })
  recover q (err redis_failed, w) = pass_on q w
  recover q (err other_fault, w) = (err other_fault, w)

  -- a request of a client that is counted
  unfoldable pub count_request :
      (has_redis : Bool) (now : ℕ) (client_ip : Text) → Request → World R.State S → Reply
  unfolding recover after_incr minute_bucket
  count_request false now client_ip q w = recover q (pass_on q w)
  count_request true now client_ip q w =
      let key = rate_limit client_ip (minute_bucket now) in
      recover q (after_incr now key q w (R.incr now key w.redis))

  unfoldable pub dispatch : (has_redis : Bool) (now : ℕ) → Request → World R.State S → Reply
  unfolding count_request client_of
  dispatch has_redis now q w = elim (client_of q) [
    | none ↦ pass_on q w
    | some client_ip ↦ count_request has_redis now client_ip q w
  ]
