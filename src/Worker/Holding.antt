-- ===== src/Worker/Holding.antt =====
-- How `_handle_failure` of backend/app/workers/analysis_worker/worker.py settles the job that the
-- worker holds.
use sentinal.Prelude.{
  ℕ, ◌≡◌, refl, Bool, true, false, Option, none, some, ◌∷◌, if◌then◌else◌, arith, leb, ◌+◌,
}
use sentinal.Prelude.Outcome.{Result, ok, err}
use sentinal.Analysis
use sentinal.Analysis.{Analysis, AnalysisResult, AnalysisStateError, is_pending, is_running}
use sentinal.Repository.Session
use sentinal.Repository.Session.{Session, RepositoryException}
use sentinal.Queue
use sentinal.Queue.{Queue, Job, put_back, drop_claim, find_claim}
use sentinal.Service.{World}
use sentinal.Worker.{
  Failure, Env, handle_failure, after_fail, after_write, ack_job, nack_job, write_exhausted,
  write_retry,
}

-- The job is done with, or it waits again among the others, which keep their
-- order, or an exception has left the worker
-- and the job is still claimed. `q` is the queue without the job.
pub data Settled (job : Job) (q : Queue) (d : Result Failure Bool × World) : Type 0 where
  acknowledged : d.0 ≡ ok true → d.1.queue ≡ q → Settled job q d
  redelivered :
      (place : ℕ)
      → d.0 ≡ ok true
      → d.1.queue ≡ record q { ready = put_back place job q.ready }
      → Settled job q d
  escaped :
      (f : Failure)
      → d.0 ≡ err f
      → d.1.queue ≡ record q { claims = job ∷ q.claims }
      → Settled job q d

-- The worker holds the job: the queue without it is `q`.
pub record Holds (job : Job) (q : Queue) (w : World) : Type 0 where
  pub queue : w.queue ≡ record q { claims = job ∷ q.claims }

pub ack_job-Holds : (job : Job) (q : Queue) (w : World) → Holds job q w → (ack_job job w).queue ≡ q
unfolding Queue.ack drop_claim
ack_job-Holds job q w h = ground (arith, h.queue)

nack_job-Holds :
    (e : Env) (job : Job) (q : Queue) (w : World)
    → Holds job q w
    → (nack_job e job w).queue ≡ record q { ready = put_back e.place job q.ready }
unfolding Queue.nack drop_claim find_claim
nack_job-Holds e job q w h = ground (arith, h.queue)

after_write-Settled :
    (e : Env) (job : Job) (q : Queue) (w : World)
    (d : Result RepositoryException Analysis × Session)
    → Holds job q w
    → Settled job q (after_write e (ack_job job) w d)
      × Settled job q (after_write e (nack_job e job) w d)
unfolding after_write
after_write-Settled e job q w (ok a, s) h =
    let h' : Holds job q (record w { session = s }) = record { queue = h.queue } in
    (
      acknowledged refl (ack_job-Holds job q (record w { session = s }) h'),
      redelivered e.place refl (nack_job-Holds e job q (record w { session = s }) h'),
    )
after_write-Settled e job q w (err x, s) h = (
  escaped (e.messages.of_repository x) refl h.queue,
  escaped (e.messages.of_repository x) refl h.queue,
)

after_fail-Settled :
    (e : Env) (job : Job) (q : Queue) (next : ℕ) (w : World)
    (r : Result AnalysisStateError Analysis)
    → Holds job q w
    → Settled job q (after_fail e job next w r)
unfolding after_fail
after_fail-Settled e job q next w (ok a) h =
    (after_write-Settled e job q w (Session.update a.id (write_exhausted next a) w.session) h).0
after_fail-Settled e job q next w (err x) h = escaped (e.messages.of_state x) refl h.queue

-- A test decides between two ways of settling the job.
pub if-Settled :
    (b : Bool) (job : Job) (q : Queue) (d d' : Result Failure Bool × World)
    → Settled job q d
    → Settled job q d'
    → Settled job q (if b then d else d')
if-Settled true job q d d' s s' = s
if-Settled false job q d d' s s' = s'

pub handle_failure-Settled :
    (e : Env) (job : Job) (q : Queue) (o : Option Analysis) (f : Failure) (w : World)
    → Holds job q w
    → Settled job q (handle_failure e job o f w)
unfolding handle_failure
handle_failure-Settled e job q none f w h = acknowledged refl (ack_job-Holds job q w h)
handle_failure-Settled e job q (some a) f w h =
    let next = a.retry_count + 1 in
    let again =
      after_write e (nack_job e job) w (Session.update a.id (write_retry e next f) w.session) in
    let last = after_fail e job next w (Analysis.fail e.now f.message (some f.type_name) a) in
    if-Settled (leb next e.max_retries) job q again last
      (after_write-Settled e job q w (Session.update a.id (write_retry e next f) w.session) h).1
      (after_fail-Settled e job q next w (Analysis.fail e.now f.message (some f.type_name) a) h)
