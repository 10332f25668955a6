-- ===== src/Tests/Limits.antt =====
-- The limit on requests: backend/app/api/v1/middleware/rate_limit.py.
use sentinal.Prelude.{
  ℕ, zero, suc, ◌+◌, ◌≤◌, ◌≡◌, ◌≢◌, refl, sym, ap, ◌∙◌, Bool, true, false, not, ◌&&◌, Option, none,
  some, List, [], ◌∷◌, ◌==◌, ltb, arith, Bool-cases, Option-cases, if◌then◌else◌, inl, inr,
}
use sentinal.Prelude.Outcome.{Result, ok, err}
use sentinal.Validation.MediaType.{codes, text_eq, text_eq_iff}
use sentinal.RateLimit.{
  Fault, redis_failed, CounterKey, rate_limit, Redis, RateLimitSettings, Request, World, dispatch,
}
use sentinal.RateLimit.Window.{IsUp}
use sentinal.RateLimit.Order.{by_rank, let_through, highest_limit}
use sentinal.RateLimit.Ranks.{verdicts, verdicts-by_rank}
use sentinal.RateLimit.Runs.{IsRedisFault, IsRedisOnly, Ran, dispatch-Ran}

abbrev same_counter : CounterKey → CounterKey → Bool
same_counter (rate_limit a i) (rate_limit b j) = text_eq a b && i == j

same_counter_refl : (k : CounterKey) → same_counter k k ≡ true
same_counter_refl (rate_limit a i) = ground (arith, (text_eq_iff a a).1 refl)

same_counter_apart : (k l : CounterKey) → k ≢ l → same_counter k l ≡ false
same_counter_apart (rate_limit a i) (rate_limit b j) apart =
    elim (Bool-cases (text_eq a b && i == j)) [
      | inl y ↦
          let same : a ≡ b = (text_eq_iff a b).0 (ground arith) in
          let minute : i ≡ j = ground arith in absurd (apart (rw (same, minute) refl))
      | inr n ↦ n
    ]

-- Values, and deadlines.
abbrev Counters : Type 0
Counters = (CounterKey → ℕ) × (CounterKey → Option ℕ)

abbrev put : {A : Type 0} → CounterKey → A → (CounterKey → A) → CounterKey → A
put key a f other = if same_counter other key then a else f other

abbrev is_over : (now : ℕ) → Option ℕ → Bool
is_over now none = false
is_over now (some d) = not (ltb now d)

abbrev incr : (now : ℕ) → CounterKey → Counters → Result Fault ℕ × Counters
incr now key (value, deadline) =
    if is_over now (deadline key)
    then (ok 1, (put key 1 value, put key none deadline))
    else (ok (suc (value key)), (put key (suc (value key)) value, deadline))

abbrev expire :
    (now : ℕ) → CounterKey → (seconds : ℕ) → Counters → Result Fault (Unit {0}) × Counters
expire now key seconds (value, deadline) = (ok tt, (value, put key (some (now + seconds)) deadline))

of_ok : (m n : ℕ) → ◌≡◌ {A = Result Fault ℕ} (ok m) (ok n) → m ≡ n
of_ok m n e = ground (arith, e)

incr_live :
    (now n : ℕ) (key : CounterKey) (s s' : Counters)
    → incr now key s ≡ (ok n, s')
    → ((d : ℕ) → s.1 key ≡ some d → ltb now d ≡ true)
    → (n ≡ suc (s.0 key)) × (s'.0 key ≡ n) × (s'.1 key ≡ s.1 key)
incr_live now n key (value, deadline) (value', deadline') e live =
    let going : is_over now (deadline key) ≡ false = elim (Option-cases (deadline key)) [
      | inl none_set ↦ rw none_set refl
      | inr (d, at) ↦ let before = live d at in rw (at, before) refl
    ] in
    let unchanged : incr now key (value, deadline)
        ≡ (ok (suc (value key)), (put key (suc (value key)) value, deadline)) =
      rw going refl in
    let step = sym unchanged ∙ e in
    let next : suc (value key) ≡ n = of_ok (suc (value key)) n (ap (λ r. r.0) step) in
    let written : put key (suc (value key)) value key ≡ suc (value key) =
      rw (same_counter_refl key) refl in
    (sym next, sym (ap (λ r. r.1.0 key) step) ∙ written ∙ next, sym (ap (λ r. r.1.1 key) step))

incr_other :
    (now : ℕ) (key other : CounterKey) (s : Counters)
    → other ≢ key
    → ((incr now key s).1.0 other ≡ s.0 other) × ((incr now key s).1.1 other ≡ s.1 other)
incr_other now key other (value, deadline) apart = elim (Bool-cases (is_over now (deadline key))) [
  | inl y ↦ rw (y, same_counter_apart other key apart) (refl, refl)
  | inr n ↦ rw (n, same_counter_apart other key apart) (refl, refl)
]

expire_there :
    (now seconds : ℕ) (key : CounterKey) (s s' : Counters) (u : Unit {0})
    → expire now key seconds s ≡ (ok u, s')
    → (s'.0 key ≡ s.0 key) × (s'.1 key ≡ some (now + seconds))
expire_there now seconds key (value, deadline) s' u e =
    let written : put key (some (now + seconds)) deadline key ≡ some (now + seconds) =
      rw (same_counter_refl key) refl in
    (sym (ap (λ r. r.1.0 key) e), sym (ap (λ r. r.1.1 key) e) ∙ written)

expire_other :
    (now seconds : ℕ) (key other : CounterKey) (s : Counters)
    → other ≢ key
    → ((expire now key seconds s).1.0 other ≡ s.0 other)
      × ((expire now key seconds s).1.1 other ≡ s.1 other)
expire_other now seconds key other (value, deadline) apart =
    (refl, rw (same_counter_apart other key apart) refl)

-- What is behind the limit counts its runs; its first run fails in Redis.
abbrev handler : Request → ℕ → Result Fault ℕ × ℕ
handler q zero = (err redis_failed, 1)
handler q (suc n) = (ok n, suc (suc n))

abbrev strict : RateLimitSettings
strict = record { authenticated_requests_per_minute = 2; unauthenticated_requests_per_minute = 1 }

abbrev counters : Redis
counters = record {
  State = Counters;
  incr = incr;
  expire = expire;
  value = λ s key. s.0 key;
  deadline = λ s key. s.1 key;
  incr_live = incr_live;
  incr_other = incr_other;
  expire_there = expire_there;
  expire_other = expire_other;
}

incr_up :
    (now : ℕ) (key : CounterKey) (s : Counters)
    → (n : ℕ) × (s' : Counters) × (incr now key s ≡ (ok n, s'))
incr_up now key (value, deadline) = elim (Bool-cases (is_over now (deadline key))) [
  | inl y ↦ (1, (put key 1 value, put key none deadline), rw y refl)
  | inr n ↦ (suc (value key), (put key (suc (value key)) value, deadline), rw n refl)
]

counters-IsUp : IsUp counters
counters-IsUp = record {
  incr_answers = incr_up;
  expire_answers = λ now seconds key s. ((s.0, put key (some (now + seconds)) s.1), refl);
}

incr_only :
    (now : ℕ) (key : CounterKey) (s : Counters) (e : Fault)
    → (incr now key s).0 ≡ err e
    → IsRedisFault e
incr_only now key (value, deadline) e h = elim (Bool-cases (is_over now (deadline key))) [
  | inl y ↦ ground arith
  | inr n ↦ ground arith
]

counters-IsRedisOnly : IsRedisOnly counters handler strict
counters-IsRedisOnly = record {
  incr_raises = incr_only;
  expire_raises = λ now seconds key s e h. ground arith;
}

abbrev visit : Request
visit = record {
  path = codes "/api/v1/uploads";
  forwarded_for = some (codes "10.0.0.1, 10.0.0.2");
  client_host = some (codes "10.0.0.9");
  has_user = false;
}

abbrev fresh_counters : World Counters ℕ
fresh_counters = record { redis = (λ key. 0, λ key. none); redis_error_logged = false; app = 0 }

-- Two requests in a minute, the second is one too many; the third is in the next minute.
abbrev visits : List (ℕ × Request)
visits = (119, visit) ∷ (118, visit) ∷ (120, visit) ∷ []

visits_ranked :
    verdicts counters handler strict (codes "10.0.0.1") 1 visits fresh_counters ≡ false ∷ true ∷ []
unfolding verdicts dispatch
visits_ranked = refl

verdicts-by_rank_example :
    (verdicts counters handler strict (codes "10.0.0.1") 1 visits fresh_counters
      ≡ by_rank strict (codes "10.0.0.1") 1 0 visits)
    × (let_through (verdicts counters handler strict (codes "10.0.0.1") 1 visits fresh_counters)
        ≤ highest_limit strict)
verdicts-by_rank_example =
    verdicts-by_rank counters handler strict (codes "10.0.0.1") 1 visits fresh_counters
      counters-IsUp refl refl

-- The first request runs twice.
dispatch-Ran_example :
    Ran counters handler strict visit 0
      (dispatch counters handler strict true 119 visit fresh_counters)
dispatch-Ran_example =
    dispatch-Ran counters handler strict true 119 visit fresh_counters counters-IsRedisOnly
