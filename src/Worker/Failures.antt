-- ===== src/Worker/Failures.antt =====
-- What becomes of a failed attempt (`_handle_failure` of
-- backend/app/workers/analysis_worker/worker.py).
use sentinal.Prelude.{
  ℕ, String, ◌≡◌, refl, true, false, some, List, [], ◌∷◌, arith, is_empty, leb, ◌+◌,
}
use sentinal.Prelude.Outcome.{ok, err}
use sentinal.Analysis
use sentinal.Analysis.{
  Analysis, AnalysisResult, AnalysisStateError, message_required, failed, pending, running,
  is_pending, is_running,
}
use sentinal.Repository.Rows.{Row, to_domain}
use sentinal.Repository.Session.{find_row, write_row, checks_hold, columns_fit, fits}
use sentinal.Repository.Updates.{update_lem, violates_unique-open}
use sentinal.Queue
use sentinal.Queue.{Queue, Job, put_back, drop_claim, find_claim}
use sentinal.Service.{World}
use sentinal.Worker.{
  Failure, Env, handle_failure, after_fail, after_write, write_exhausted, write_retry,
}
use sentinal.Worker.Process.{after_claim, process_once}

-- the world in which the worker holds `job` and `rest` waits
abbrev pub holding : Job → List Job → World → World
holding job rest w = record w { queue = record { ready = rest; claims = job ∷ [] } }

abbrev pub waiting : List Job → World → World
waiting ready w = record w { queue = record { ready = ready; claims = [] } }

pub process_once-claim :
    (e : Env) (job : Job) (rest : List Job) (w : World)
    → process_once e (waiting (job ∷ rest) w) ≡ after_claim e (holding job rest w) (some job)
unfolding process_once Queue.claim drop_claim
process_once-claim e job rest w = refl

-- The columns have room for the message and for the name of the type.
pub record IsStorable (f : Failure) : Type 0 where
  pub message : fits 1024 (some f.message) ≡ true
  pub type_name : fits 100 (some f.type_name) ≡ true

-- `a`, after a failed attempt that will be tried again
abbrev pub retried : Env → ℕ → Failure → Analysis → Analysis
retried e next f a = record a {
  status = running;
  retry_count = next;
  error_message = some f.message;
  error_code = some f.type_name;
  updated_at = some e.now;
}

pub to_domain-retried :
    (e : Env) (next : ℕ) (f : Failure) (r : Row) (a : Analysis)
    → to_domain r ≡ ok a
    → a.status ≡ running
    → to_domain (write_retry e next f r) ≡ ok (retried e next f a)
unfolding to_domain
to_domain-retried e next f r a h is = ground arith

pub checks_hold-retried :
    (e : Env) (next : ℕ) (f : Failure) (r : Row)
    → checks_hold r ≡ true
    → IsStorable f
    → checks_hold (write_retry e next f r) ≡ true
unfolding checks_hold columns_fit
checks_hold-retried e next f r h short = ground (arith, short.message, short.type_name)

-- `w` with the row of the identifier `id` replaced
abbrev pub with_row : ℕ → Row → World → World
with_row id new w = record w {
  session = record w.session { rows = write_row id new w.session.rows };
}

-- A failed attempt with retries left is written down, and the job goes back to the queue.
pub handle_failure-retry :
    (e : Env) (job : Job) (rest : List Job) (loaded a : Analysis) (f : Failure) (w : World)
    (r : Row)
    → w.session.is_broken ≡ false
    → find_row loaded.id w.session.rows ≡ some r
    → to_domain r ≡ ok a
    → a.status ≡ running
    → checks_hold r ≡ true
    → leb (loaded.retry_count + 1) e.max_retries ≡ true
    → IsStorable f
    → handle_failure e job (some loaded) f (holding job rest w) ≡ (
      ok true,
      waiting
          (put_back e.place job rest)
          (with_row loaded.id (write_retry e (loaded.retry_count + 1) f r) w),
    )
unfolding handle_failure after_write Queue.nack find_claim drop_claim
handle_failure-retry e job rest loaded a f w r healthy row entity is checked more short =
    let next = loaded.retry_count + 1 in
    let new = write_retry e next f r in
    let stored =
      update_lem loaded.id (write_retry e next f) r (retried e next f a) w.session healthy row
        (to_domain-retried e next f r a entity is) (checks_hold-retried e next f r checked short)
        (violates_unique-open new (write_row loaded.id new w.session.rows) refl) in
    ground (arith, stored)

-- `a`, after its last attempt
abbrev pub failed_at : Env → Failure → Analysis → Analysis
failed_at e f a = record a {
  status = failed;
  error_message = some f.message;
  error_code = some f.type_name;
  completed_at = some e.now;
  updated_at = some e.now;
}

fail-running :
    (e : Env) (f : Failure) (r : Row) (a : Analysis)
    → to_domain r ≡ ok a
    → a.status ≡ running
    → is_empty f.message ≡ false
    → Analysis.fail e.now f.message (some f.type_name) a ≡ ok (failed_at e f a)
unfolding to_domain Analysis.fail
fail-running e f r a h is named = ground arith

to_domain-exhausted :
    (e : Env) (next : ℕ) (f : Failure) (r : Row) (a : Analysis)
    → to_domain r ≡ ok a
    → a.status ≡ running
    → is_empty f.message ≡ false
    → to_domain (write_exhausted next (failed_at e f a) r)
      ≡ ok (record (failed_at e f a) { retry_count = next })
unfolding to_domain
to_domain-exhausted e next f r a h is named = ground arith

checks_hold-exhausted :
    (e : Env) (next : ℕ) (f : Failure) (r : Row) (a : Analysis)
    → checks_hold r ≡ true
    → IsStorable f
    → checks_hold (write_exhausted next (failed_at e f a) r) ≡ true
unfolding checks_hold columns_fit
checks_hold-exhausted e next f r a h short = ground (arith, short.message, short.type_name)

-- The last failed attempt of a running analysis, by an exception with a message, fails it.
pub handle_failure-last :
    (e : Env) (job : Job) (rest : List Job) (a : Analysis) (f : Failure) (w : World) (r : Row)
    → w.session.is_broken ≡ false
    → find_row a.id w.session.rows ≡ some r
    → to_domain r ≡ ok a
    → a.status ≡ running
    → checks_hold r ≡ true
    → leb (a.retry_count + 1) e.max_retries ≡ false
    → is_empty f.message ≡ false
    → IsStorable f
    → handle_failure e job (some a) f (holding job rest w) ≡ (
      ok true,
      waiting rest (with_row a.id (write_exhausted (a.retry_count + 1) (failed_at e f a) r) w),
    )
unfolding handle_failure after_fail after_write Queue.ack drop_claim
handle_failure-last e job rest a f w r healthy row entity is checked none_left named short =
    let next = a.retry_count + 1 in
    let b = failed_at e f a in
    let new = write_exhausted next b r in
    let fails = fail-running e f r a entity is named in
    let stored =
      update_lem a.id (write_exhausted next b) r (record b { retry_count = next }) w.session healthy
        row (to_domain-exhausted e next f r a entity is named)
        (checks_hold-exhausted e next f r a checked short)
        (violates_unique-open new (write_row a.id new w.session.rows) refl) in
    ground (arith, fails, stored)

-- The last failed attempt of a running analysis, by an exception whose text is empty.
pub handle_failure-silent :
    (e : Env) (job : Job) (a : Analysis) (type_name : String) (w : World)
    → a.status ≡ running
    → leb (a.retry_count + 1) e.max_retries ≡ false
    → handle_failure e job (some a) (record { message = ""; type_name = type_name }) w
      ≡ (err (e.messages.of_state message_required), w)
unfolding handle_failure after_fail Analysis.fail
handle_failure-silent e job a type_name w is none_left = ground arith
