-- ===== src/RateLimit/Ranks.antt =====
-- The limit over any run of requests (`dispatch` of backend/app/api/v1/middleware/rate_limit.py).
use mathlib.Core.Path.{subst}
use sentinal.Prelude.{
  ℕ, suc, ◌≤◌, ◌≡◌, ◌≢◌, refl, sym, ◌∙◌, Bool, true, false, none, List, [], ◌∷◌, ◌==◌, arith,
  Bool-cases, Option-cases, if◌then◌else◌, inl, inr,
}
use sentinal.Prelude.Outcome.{Result, ok, err}
use sentinal.Validation.MediaType.{Text}
use sentinal.RateLimit.{
  Fault, CounterKey, rate_limit, Redis, RateLimitSettings, Request, client_of, minute_bucket, World,
  after_expire, after_incr, recover, count_request, dispatch,
}
use sentinal.RateLimit.Window.{
  is_limited, IsUp, Counted, pass_on-Tells, recover-Tells, check_count-Tells, Step,
  count_request-Step,
}
use sentinal.RateLimit.Order.{
  is_of, by_rank, let_through, highest_limit, by_rank_bounded, is_of_key, is_of_other,
}

module _ (R : Redis) {A S : Type 0} (call_next : Request → S → Result Fault A × S)
    (settings : RateLimitSettings) where
  -- The verdicts of the middleware on the requests of the client in the minute.
  unfoldable pub verdicts :
      (ip : Text) (bucket : ℕ) → List (ℕ × Request) → World R.State S → List Bool
  unfolding is_of dispatch
  verdicts ip bucket [] w = []
  verdicts ip bucket ((now, q) ∷ arrivals) w =
      let d = dispatch R call_next settings true now q w in
      let rest = verdicts ip bucket arrivals d.1 in
      if is_of ip bucket now q then is_limited d.0 ∷ rest else rest

  -- A counter that another request leaves alone.
  record Apart (key : CounterKey) (s s' : R.State) : Type 0 where
    pub same_value : R.value s' key ≡ R.value s key
    pub same_deadline : R.deadline s' key ≡ R.deadline s key

  Apart-Counted :
      (key : CounterKey) (bucket count : ℕ) (s s' : R.State)
      → Apart key s s'
      → Counted R key bucket count s
      → Counted R key bucket count s'
  Apart-Counted key bucket count s s' a k = record {
    counts = a.same_value ∙ k.counts;
    stays = λ d e. k.stays d (sym a.same_deadline ∙ e);
  }

  after_expire-Apart :
      (key : CounterKey) (count : ℕ) (q : Request) (s : R.State) (w : World R.State S)
      (d : Result Fault (Unit {0}) × R.State)
      → Apart key s d.1
      → Apart key s
          (recover R call_next settings q (after_expire R call_next settings count q w d)).1.redis
  unfolding after_expire
  after_expire-Apart key count q s w (ok u, redis) a =
      subst (Apart key s)
        (sym
          (recover-Tells R call_next settings q _ redis _
            (check_count-Tells R call_next settings count q (record w { redis = redis }))).redis_is)
        a
  after_expire-Apart key count q s w (err e, redis) a =
      subst (Apart key s)
        (sym
          (recover-Tells R call_next settings q (err e, record w { redis = redis }) redis _
            record { redis_is = refl; limited_is = refl }).redis_is)
        a

  after_incr-Apart :
      (now : ℕ) (key other : CounterKey) (q : Request) (s : R.State) (w : World R.State S)
      (d : Result Fault ℕ × R.State)
      → other ≢ key
      → Apart other s d.1
      → Apart other s
          (recover R call_next settings q (after_incr R call_next settings now key q w d)).1.redis
  unfolding after_incr
  after_incr-Apart now key other q s w (err e, redis) apart a =
      subst (Apart other s)
        (sym
          (recover-Tells R call_next settings q (err e, record w { redis = redis }) redis _
            record { redis_is = refl; limited_is = refl }).redis_is)
        a
  after_incr-Apart now key other q s w (ok count, redis) apart a = elim (Bool-cases (count == 1)) [
    | inl y ↦
        let (value, due) = R.expire_other now 60 key other redis apart in
        rw y (
          after_expire-Apart other count q s w (R.expire now key 60 redis)
            record { same_value = value ∙ a.same_value; same_deadline = due ∙ a.same_deadline })
    | inr n ↦ rw n (
        subst (Apart other s)
          (sym
            (recover-Tells R call_next settings q _ redis _ (
              check_count-Tells R call_next settings count q
                (record w { redis = redis }))).redis_is)
          a)
  ]

  count_request-Apart :
      (now : ℕ) (client_ip : Text) (other : CounterKey) (q : Request) (w : World R.State S)
      → other ≢ rate_limit client_ip (minute_bucket now)
      → Apart other w.redis (count_request R call_next settings true now client_ip q w).1.redis
  unfolding count_request
  count_request-Apart now client_ip other q w apart =
      let key = rate_limit client_ip (minute_bucket now) in
      let (value, due) = R.incr_other now key other w.redis apart in
      after_incr-Apart now key other q w.redis w (R.incr now key w.redis) apart
        record { same_value = value; same_deadline = due }

  -- A request of another client, or in another minute, or one that is not counted.
  dispatch_other :
      (ip : Text) (bucket now : ℕ) (q : Request) (w : World R.State S)
      → is_of ip bucket now q ≡ false
      → Apart (rate_limit ip bucket) w.redis (dispatch R call_next settings true now q w).1.redis
  unfolding dispatch
  dispatch_other ip bucket now q w h = elim (Option-cases (client_of q)) [
    | inl e ↦ rw e (
        subst (Apart (rate_limit ip bucket) w.redis)
          (sym (pass_on-Tells R call_next settings q w).redis_is)
          record { same_value = refl; same_deadline = refl })
    | inr (client, e) ↦ rw e (
        count_request-Apart now client (rate_limit ip bucket) q w
          (is_of_other ip client bucket now q h e))
  ]

  dispatch-Step :
      (ip : Text) (bucket now count : ℕ) (q : Request) (w : World R.State S)
      → IsUp R
      → is_of ip bucket now q ≡ true
      → Counted R (rate_limit ip bucket) bucket count w.redis
      → Step R call_next settings
          (rate_limit ip bucket)
          bucket
          (suc count)
          q
          (dispatch R call_next settings true now q w)
  unfolding dispatch
  dispatch-Step ip bucket now count q w up h k =
      let (client, minute) = is_of_key ip bucket now q h in
      rw client (
        subst
          (λ b.
            Counted R (rate_limit ip b) b count w.redis
            → Step R call_next settings (rate_limit ip b) b (suc count) q
                (count_request R call_next settings true now ip q w))
          minute (count_request-Step R call_next settings now count ip q w up) k)

  verdicts_ranked :
      (ip : Text) (bucket count : ℕ) (arrivals : List (ℕ × Request)) (w : World R.State S)
      → IsUp R
      → Counted R (rate_limit ip bucket) bucket count w.redis
      → verdicts ip bucket arrivals w ≡ by_rank settings ip bucket count arrivals
  unfolding verdicts by_rank
  verdicts_ranked ip bucket count [] w up k = refl
  verdicts_ranked ip bucket count ((now, q) ∷ arrivals) w up k =
      elim (Bool-cases (is_of ip bucket now q)) [
        | inl y ↦
            let step = dispatch-Step ip bucket now count q w up y k in
            let later =
              verdicts_ranked ip bucket (suc count) arrivals
                (dispatch R call_next settings true now q w).1 up step.counted in
            rw (y, step.verdict, later) refl
        | inr n ↦
            let same =
              Apart-Counted (rate_limit ip bucket) bucket count w.redis _
                (dispatch_other ip bucket now q w n) k in
            rw n (
              verdicts_ranked ip bucket count arrivals
                (dispatch R call_next settings true now q w).1 up same)
      ]

  -- With a Redis that answers every request and has not counted the client in the minute yet, over any
  -- run of requests of any clients at any times: the client's requests in this minute that are counted
  -- are refused exactly when their rank among them is above their limit, so that at most as many as
  -- the higher of the two limits are let through.
  pub verdicts-by_rank :
      (ip : Text) (bucket : ℕ) (arrivals : List (ℕ × Request)) (w : World R.State S)
      → IsUp R
      → R.value w.redis (rate_limit ip bucket) ≡ 0
      → R.deadline w.redis (rate_limit ip bucket) ≡ none
      → (verdicts ip bucket arrivals w ≡ by_rank settings ip bucket 0 arrivals)
        × (let_through (verdicts ip bucket arrivals w) ≤ highest_limit settings)
  verdicts-by_rank ip bucket arrivals w up unseen endless =
      let ranked =
        verdicts_ranked ip bucket 0 arrivals w up
          record { counts = unseen; stays = λ d e. ground arith } in
      let bounded = by_rank_bounded settings ip bucket 0 arrivals in
      (ranked, rw ranked (ground arith))
