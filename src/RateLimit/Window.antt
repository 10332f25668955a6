-- ===== src/RateLimit/Window.antt =====
-- How many requests of a client pass in a minute (`dispatch` of
-- backend/app/api/v1/middleware/rate_limit.py).
use mathlib.Core.Path.{subst}
use sentinal.Prelude.{
  ℕ, suc, ◌*◌, ◌≤◌, ◌≡◌, refl, sym, ap, ◌∙◌, Bool, true, false, some, ◌==◌, ltb, arith, Bool-cases,
  inl, inr,
}
use sentinal.Prelude.Outcome.{Result, ok, err}
use sentinal.Validation.MediaType.{Text}
use sentinal.RateLimit.{
  Fault, connection_failed, redis_failed, other_fault, CounterKey, rate_limit, Redis,
  RateLimitSettings, Request, limit_of, minute_bucket, Answer, rate_limited, World, Reply, reply,
  pass_on, check_count, after_expire, after_incr, recover, count_request,
}

abbrev pub is_limited : {A : Type 0} → Result Fault (Answer A) → Bool
is_limited (ok rate_limited) = true
is_limited _ = false

module _ (R : Redis) where
  -- Redis answers every request.
  pub record IsUp : Type 0 where
    pub incr_answers :
        (now : ℕ) (key : CounterKey) (s : R.State)
        → (n : ℕ) × (s' : R.State) × (R.incr now key s ≡ (ok n, s'))
    pub expire_answers :
        (now seconds : ℕ) (key : CounterKey) (s : R.State)
        → (s' : R.State) × (R.expire now key seconds s ≡ (ok tt, s'))

  -- The counter of a minute stands at a number, and stays at least until the minute is over.
  pub record Counted (key : CounterKey) (bucket count : ℕ) (s : R.State) : Type 0 where
    pub counts : R.value s key ≡ count
    pub stays : (d : ℕ) → R.deadline s key ≡ some d → (suc bucket * 60) ≤ d

module _ (R : Redis) {A S : Type 0} (call_next : Request → S → Result Fault A × S)
    (settings : RateLimitSettings) where
  -- What becomes of the counters, and whether the request is refused.
  pub record Tells (redis : R.State) (limited : Bool) (r : Reply R call_next settings)
      : Type 0 where
    pub redis_is : r.1.redis ≡ redis
    pub limited_is : is_limited r.0 ≡ limited

  reply-Tells :
      (w : World R.State S) (d : Result Fault A × S)
      → Tells w.redis false (reply R call_next settings w d)
  reply-Tells w (ok a, app) = record { redis_is = refl; limited_is = refl }
  reply-Tells w (err e, app) = record { redis_is = refl; limited_is = refl }

  pub pass_on-Tells :
      (q : Request) (w : World R.State S) → Tells w.redis false (pass_on R call_next settings q w)
  unfolding pass_on
  pass_on-Tells q w = reply-Tells w (call_next q w.app)

  pub recover-Tells :
      (q : Request) (r : Reply R call_next settings) (redis : R.State) (limited : Bool)
      → Tells redis limited r
      → Tells redis limited (recover R call_next settings q r)
  unfolding recover
  recover-Tells q (ok a, w) redis limited t = t
  recover-Tells q (err connection_failed, w) redis limited t =
      let p = pass_on-Tells q (record w { redis_error_logged = true }) in
      record { redis_is = p.redis_is ∙ t.redis_is; limited_is = p.limited_is ∙ t.limited_is }
  recover-Tells q (err redis_failed, w) redis limited t =
      let p = pass_on-Tells q w in
      record { redis_is = p.redis_is ∙ t.redis_is; limited_is = p.limited_is ∙ t.limited_is }
  recover-Tells q (err other_fault, w) redis limited t = t

  pub check_count-Tells :
      (count : ℕ) (q : Request) (w : World R.State S)
      → Tells w.redis (ltb (limit_of settings q) count) (check_count R call_next settings count q w)
  unfolding check_count
  check_count-Tells count q w = elim (Bool-cases (ltb (limit_of settings q) count)) [
    | inl y ↦ rw y record { redis_is = refl; limited_is = refl }
    | inr n ↦ rw n (pass_on-Tells q w)
  ]

  live :
      (now count : ℕ) (key : CounterKey) (s : R.State)
      → Counted R key (minute_bucket now) count s
      → (d : ℕ) → R.deadline s key ≡ some d
      → ltb now d ≡ true
  unfolding minute_bucket
  live now count key s k d e = let late = k.stays d e in ground arith

  -- One more request is counted, and refused exactly when it is one too many.
  pub record Step (key : CounterKey) (bucket count : ℕ) (q : Request)
      (r : Reply R call_next settings) : Type 0 where
    pub counted : Counted R key bucket count r.1.redis
    pub verdict : is_limited r.0 ≡ ltb (limit_of settings q) count

  Tells-Step :
      (key : CounterKey) (bucket count : ℕ) (q : Request) (redis : R.State)
      (r : Reply R call_next settings)
      → Counted R key bucket count redis
      → Tells redis (ltb (limit_of settings q) count) r
      → Step key bucket count q r
  Tells-Step key bucket count q redis r k t = record {
    counted = subst (Counted R key bucket count) (sym t.redis_is) k;
    verdict = t.limited_is;
  }

  first-Counted :
      (now count : ℕ) (key : CounterKey) (s s' : R.State)
      → R.value s key ≡ count
      → R.expire now key 60 s ≡ (ok tt, s')
      → Counted R key (minute_bucket now) count s'
  unfolding minute_bucket
  first-Counted now count key s s' stands e =
      let (kept, due) = R.expire_there now 60 key s s' tt e in
      record { counts = kept ∙ stands; stays = λ d at. ground arith }

  after_incr-Step :
      (now count : ℕ) (key : CounterKey) (q : Request) (w : World R.State S) (s' : R.State)
      → IsUp R
      → Counted R key (minute_bucket now) count s'
      → Step key (minute_bucket now) count q (
          recover R call_next settings q
            (after_incr R call_next settings now key q w (ok count, s')))
  unfolding after_incr after_expire
  after_incr-Step now count key q w s' up k = elim (Bool-cases (count == 1)) [
    | inl y ↦
        let (later, e) = up.expire_answers now 60 key s' in
        rw (y, e)
          (Tells-Step key (minute_bucket now) count q later _
            (first-Counted now count key s' later k.counts e)
            (recover-Tells q _ later _ (check_count-Tells count q (record w { redis = later }))))
    | inr n ↦ rw n (
        Tells-Step key (minute_bucket now) count q s' _ k
          (recover-Tells q _ s' _ (check_count-Tells count q (record w { redis = s' }))))
  ]

  pub count_request-Step :
      (now count : ℕ) (client_ip : Text) (q : Request) (w : World R.State S)
      → IsUp R
      → Counted R (rate_limit client_ip (minute_bucket now)) (minute_bucket now) count w.redis
      → Step
          (rate_limit client_ip (minute_bucket now))
          (minute_bucket now)
          (suc count)
          q
          (count_request R call_next settings true now client_ip q w)
  unfolding count_request
  count_request-Step now count client_ip q w up k =
      let key = rate_limit client_ip (minute_bucket now) in
      let (n, s', e) = up.incr_answers now key w.redis in
      let (next, value, due) = R.incr_live now n key w.redis s' e (live now count key w.redis k) in
      let is_next : n ≡ suc count = next ∙ ap suc k.counts in
      rw (e, is_next)
        (after_incr-Step now (suc count) key q w s' up
          record { counts = value ∙ is_next; stays = λ d at. k.stays d (sym due ∙ at) })
