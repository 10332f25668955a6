-- ===== src/RateLimit/Runs.antt =====
-- How often a request runs behind the limit (`dispatch` of
-- backend/app/api/v1/middleware/rate_limit.py).
use sentinal.Prelude.{
  ℕ, ◌≡◌, refl, Bool, true, false, ltb, Bool-cases, Option-cases, inl, inr, ◌==◌,
}
use sentinal.Prelude.Outcome.{Result, ok, err}
use sentinal.Validation.MediaType.{Text}
use sentinal.RateLimit.{
  Fault, connection_failed, redis_failed, other_fault, CounterKey, rate_limit, Redis,
  RateLimitSettings, Request, client_of, limit_of, minute_bucket, rate_limited, World, Reply, reply,
  pass_on, check_count, after_expire, after_incr, recover, count_request, dispatch,
}

abbrev pub IsRedisFault : Fault → Type 0
IsRedisFault other_fault = ⊥
IsRedisFault _ = Unit

module _ (R : Redis) {A S : Type 0} (call_next : Request → S → Result Fault A × S)
    (settings : RateLimitSettings) where
  -- What has come of a request, and how often it has run.
  pub data Ran (q : Request) (app : S) : Reply R call_next settings → Type 0 where
    refused : (w : World R.State S) → w.app ≡ app → Ran q app (ok rate_limited, w)
    once :
        (w : World R.State S) (d : Result Fault A × S)
        → call_next q app ≡ d
        → Ran q app (reply R call_next settings w d)
    twice :
        (w : World R.State S) (e : Fault) (later : S)
        → call_next q app ≡ (err e, later)
        → IsRedisFault e
        → Ran q app (reply R call_next settings w (call_next q later))

  pass_on-Ran : (q : Request) (w : World R.State S) → Ran q w.app (pass_on R call_next settings q w)
  unfolding pass_on
  pass_on-Ran q w = once w _ refl

  recover_passed :
      (q : Request) (w : World R.State S) (app : S) (d : Result Fault A × S)
      → call_next q app ≡ d
      → Ran q app (recover R call_next settings q (reply R call_next settings w d))
  unfolding recover pass_on
  recover_passed q w app (ok a, later) e = once w _ e
  recover_passed q w app (err connection_failed, later) e =
      twice (record w { redis_error_logged = true; app = later }) connection_failed later e tt
  recover_passed q w app (err redis_failed, later) e =
      twice (record w { app = later }) redis_failed later e tt
  recover_passed q w app (err other_fault, later) e = once w _ e

  -- Redis raises, and not the handler.
  recover_failed :
      (q : Request) (w : World R.State S) (e : Fault)
      → IsRedisFault e
      → Ran q w.app (recover R call_next settings q (err e, w))
  unfolding recover
  recover_failed q w connection_failed h = pass_on-Ran q (record w { redis_error_logged = true })
  recover_failed q w redis_failed h = pass_on-Ran q w
  recover_failed q w other_fault h = absurd h

  check_count-Ran :
      (count : ℕ) (q : Request) (w : World R.State S)
      → Ran q w.app (recover R call_next settings q (check_count R call_next settings count q w))
  unfolding check_count pass_on recover
  check_count-Ran count q w = elim (Bool-cases (ltb (limit_of settings q) count)) [
    | inl y ↦ rw y (refused w refl)
    | inr n ↦ rw n (recover_passed q w w.app (call_next q w.app) refl)
  ]

  -- Redis raises only its own errors.
  pub record IsRedisOnly : Type 0 where
    pub incr_raises :
        (now : ℕ) (key : CounterKey) (s : R.State) (e : Fault)
        → (R.incr now key s).0 ≡ err e
        → IsRedisFault e
    pub expire_raises :
        (now seconds : ℕ) (key : CounterKey) (s : R.State) (e : Fault)
        → (R.expire now key seconds s).0 ≡ err e
        → IsRedisFault e

  after_expire-Ran :
      (count : ℕ) (q : Request) (w : World R.State S) (d : Result Fault (Unit {0}) × R.State)
      → ((e : Fault) → d.0 ≡ err e → IsRedisFault e)
      → Ran q w.app (recover R call_next settings q (after_expire R call_next settings count q w d))
  unfolding after_expire
  after_expire-Ran count q w (ok u, redis) h = check_count-Ran count q (record w { redis = redis })
  after_expire-Ran count q w (err e, redis) h =
      recover_failed q (record w { redis = redis }) e (h e refl)

  after_incr-Ran :
      (now : ℕ) (key : CounterKey) (q : Request) (w : World R.State S)
      (d : Result Fault ℕ × R.State)
      → IsRedisOnly
      → ((e : Fault) → d.0 ≡ err e → IsRedisFault e)
      → Ran q w.app (recover R call_next settings q (after_incr R call_next settings now key q w d))
  unfolding after_incr
  after_incr-Ran now key q w (err e, redis) only h =
      recover_failed q (record w { redis = redis }) e (h e refl)
  after_incr-Ran now key q w (ok count, redis) only h = elim (Bool-cases (count == 1)) [
    | inl y ↦ rw y (
        after_expire-Ran count q w (R.expire now key 60 redis)
          (only.expire_raises now 60 key redis))
    | inr n ↦ rw n (check_count-Ran count q (record w { redis = redis }))
  ]

  count_request-Ran :
      (has_redis : Bool) (now : ℕ) (client_ip : Text) (q : Request) (w : World R.State S)
      → IsRedisOnly
      → Ran q w.app (count_request R call_next settings has_redis now client_ip q w)
  unfolding count_request pass_on
  count_request-Ran false now client_ip q w only = recover_passed q w w.app (call_next q w.app) refl
  count_request-Ran true now client_ip q w only =
      let key = rate_limit client_ip (minute_bucket now) in
      after_incr-Ran now key q w (R.incr now key w.redis) only (only.incr_raises now key w.redis)

  -- Where Redis raises only its own errors, a request is refused before anything behind the limit has
  -- run; or it has run once, and that run is its answer; or it has run twice, the second time from the
  -- state that the first run left when it raised an error of Redis itself, and the second run is its
  -- answer.
  pub dispatch-Ran :
      (has_redis : Bool) (now : ℕ) (q : Request) (w : World R.State S)
      → IsRedisOnly
      → Ran q w.app (dispatch R call_next settings has_redis now q w)
  unfolding dispatch
  dispatch-Ran has_redis now q w only = elim (Option-cases (client_of q)) [
    | inl e ↦ rw e (pass_on-Ran q w)
    | inr (client, e) ↦ rw e (count_request-Ran has_redis now client q w only)
  ]
