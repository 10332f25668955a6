-- ===== src/Queue.antt =====
-- The job queue: backend/app/domain/services/queue_adapter.py, and its implementation over a broker
-- in backend/app/infrastructure/queue/redis_queue.py. `ready` holds the messages that the broker
-- can deliver, oldest first; `claims` holds the unacknowledged messages by job id. Whether the
-- broker accepts a message is the argument `accepts`; that its ack and reject calls fail is left out.
use sentinal.Prelude.{
  ℕ, String, Bool, Option, none, some, List, [], ◌∷◌, ◌++◌, ◌==◌, take, drop, if◌then◌else◌,
}
use sentinal.Prelude.Outcome.{Result, ok, err}

-- The payload is `{"analysis_id": ...}`; `none` is a payload without the key, or one whose value
-- is not a UUID.
pub record Job : Type 0 where
  pub id : ℕ
  pub job_type : String
  pub analysis_id : Option ℕ

pub data QueueError : Type 0 where
  broker_error : QueueError

pub record Queue : Type 0 where
  pub ready : List Job
  pub claims : List Job

unfoldable pub publish : (accepts : Bool) (job : Job) → Queue → Result QueueError Job × Queue
publish accepts job q =
    if accepts then (ok job, record q { ready = q.ready ++ job ∷ [] }) else (err broker_error, q)

-- `_pop_claim`
unfoldable pub find_claim : ℕ → List Job → Option Job
find_claim id [] = none
find_claim id (job ∷ claims) = if job.id == id then some job else find_claim id claims

unfoldable pub drop_claim : ℕ → List Job → List Job
drop_claim id [] = []
drop_claim id (job ∷ claims) = if job.id == id then claims else job ∷ drop_claim id claims

unfoldable claim_first : List Job → Queue → Option Job × Queue
unfolding drop_claim
claim_first [] q = (none, q)
claim_first (job ∷ ready) q =
    (some job, record q { ready = ready; claims = job ∷ drop_claim job.id q.claims })

-- `_claim_sync`: the oldest message, held unacknowledged under its id; `None` after the time limit.
unfoldable pub claim : Queue → Option Job × Queue
unfolding claim_first
claim q = claim_first q.ready q

-- `_ack_sync`: the broker forgets the message; an unknown job is no error.
unfoldable pub ack : ℕ → Queue → Queue
unfolding drop_claim
ack id q = record q { claims = drop_claim id q.claims }

-- the messages, with one more at a place
abbrev pub put_back : (place : ℕ) → Job → List Job → List Job
put_back place job ready = take place ready ++ job ∷ drop place ready

abbrev requeue : (place : ℕ) → Option Job → List Job → List Job
requeue place none ready = ready
requeue place (some job) ready = put_back place job ready

-- `_nack_sync`: the message is delivered again. Where the broker puts it among the others is not
-- in the code, and `place` is an argument.
unfoldable pub nack : (place : ℕ) → ℕ → Queue → Queue
unfolding find_claim drop_claim
nack place id q = record {
  ready = requeue place (find_claim id q.claims) q.ready;
  claims = drop_claim id q.claims;
}
