-- ===== src/Worker.antt =====
-- backend/app/workers/analysis_worker/worker.py: one worker that claims and executes jobs, and the
-- transaction that backend/app/workers/analysis_worker/__main__.py puts around each job.
--
-- An exception is its message and the name of its type, since both are stored. What an analyzer
-- does with an asset, the time limit included, is the registry's `analyze`; whether the asset's
-- content can be opened is part of it.
pub mod Process
pub mod Holding
pub mod Settled
pub mod Progress
pub mod Failures
pub mod Raising
pub mod Attempts
pub mod Exhaustion
pub mod Completion
pub mod Success
pub mod Lost
use Prim.Native.Char.{Char, code}
use sentinal.Prelude.{
  ℕ, ◌+◌, String, Bool, true, false, not, ◌&&◌, ◌||◌, Option, none, some, List, [], ◌∷◌, ◌==◌, leb,
  str_eq, any, is_empty, if◌then◌else◌,
}
use sentinal.Prelude.Outcome.{Result, ok, err}
use sentinal.Prelude.Case.{upper}
use sentinal.Value.{
  Scalar, text, number, Evidence, absent, dict, opaque, object, Payload, payload, dict_get,
}
use sentinal.Analysis
use sentinal.Analysis.{
  Analysis, AnalysisResult, AnalysisStateError, Status, running, pending, is_pending, is_running,
}
use sentinal.Repository.Rows.{Row}
use sentinal.Repository.Session
use sentinal.Repository.Session.{Session, RepositoryException}
use sentinal.Registry
use sentinal.Registry.{Analyzer, Outcome, returned, raised}
use sentinal.Queue
use sentinal.Queue.{Queue, Job}
use sentinal.Service.{World, get_asset}

pub record Failure : Type 0 where
  pub message : String
  pub type_name : String

-- The texts of the exceptions that the program raises itself.
pub record Messages : Type 0 where
  pub of_repository : RepositoryException → Failure
  pub of_state : AnalysisStateError → Failure
  pub of_registry : Failure
  pub of_payload : Failure
  pub of_storage_key : Failure
  pub of_attribute : Failure

-- What the worker is built with, and what it reads from outside in one call: the settings, the
-- storage key of each asset, the time, and where the broker puts a message that is given back.
pub record Env : Type 0 where
  pub messages : Messages
  pub max_retries : ℕ
  pub storage_key : ℕ → Option String
  pub now : ℕ
  pub place : ℕ

abbrev or_recommendation : Option Scalar → String → String
or_recommendation (some (text s)) recommendation = if is_empty s then recommendation else s
or_recommendation _ recommendation = recommendation

abbrev or_default : String → String
or_default recommendation =
    if is_empty recommendation then "Analyzer reported a failed result" else recommendation

-- `_result_error_message`; a value with no `get` raises `AttributeError`.
unfoldable pub result_error_message : Messages → AnalysisResult → Result Failure String
unfolding dict_get
result_error_message m r = elim r.evidence [
  | dict d ↦ ok (or_recommendation (dict_get "error" d) (or_default r.recommendation))
  | object p ↦ ok (or_default r.recommendation)
  | opaque s ↦ err m.of_attribute
  | absent ↦ err m.of_attribute
]

-- the dictionary that moves a row to running
abbrev pub write_running : Analysis → Row → Row
write_running a r = record r {
  status = a.status;
  started_at = a.started_at;
  updated_at = a.updated_at;
}

-- `_failed_result_updates`
unfoldable pub write_failed : Analysis → AnalysisResult → (message : String) → Row → Row
write_failed a result message r = record r {
  status = a.status;
  confidence = some result.confidence;
  severity = none;
  reasoning_payload =
      some (payload (some result.verdict) result.evidence (some result.recommendation));
  error_code = some "ANALYZER_FAILED";
  error_message = some message;
  completed_at = a.completed_at;
  updated_at = a.updated_at;
}

abbrev pub severity_of : String → Option String
severity_of verdict =
    if str_eq verdict "LOW"
      || str_eq verdict "MEDIUM"
      || str_eq verdict "HIGH"
      || str_eq verdict "CRITICAL"
    then some verdict
    else none

-- `_completed_updates`
unfoldable pub write_completed : Analysis → AnalysisResult → Row → Row
unfolding upper
write_completed a result r =
    let verdict = upper result.verdict in
    record r {
      status = a.status;
      confidence = some result.confidence;
      severity = severity_of verdict;
      reasoning_payload =
          some (payload (some verdict) result.evidence (some result.recommendation));
      completed_at = a.completed_at;
      updated_at = a.updated_at;
    }

-- the dictionaries of `_handle_failure`
abbrev pub write_retry : Env → ℕ → Failure → Row → Row
write_retry e next f r = record r {
  status = running;
  retry_count = next;
  error_message = some f.message;
  error_code = some f.type_name;
  updated_at = some e.now;
}

abbrev pub write_exhausted : ℕ → Analysis → Row → Row
write_exhausted next a r = record r {
  status = a.status;
  retry_count = next;
  error_message = a.error_message;
  error_code = a.error_code;
  completed_at = a.completed_at;
  updated_at = a.updated_at;
}

abbrev pub ack_job : Job → World → World
ack_job job w = record w { queue = Queue.ack job.id w.queue }

abbrev pub nack_job : Env → Job → World → World
nack_job e job w = record w { queue = Queue.nack e.place job.id w.queue }

-- after an update: `finish` is the ack or nack, and a repository error escapes
unfoldable pub after_write :
    Env
    → (World → World)
    → World
    → Result RepositoryException Analysis × Session
    → Result Failure Bool × World
after_write e finish w (ok a, s) = (ok true, finish (record w { session = s }))
after_write e finish w (err x, s) = (err (e.messages.of_repository x), record w { session = s })

-- after `analysis.fail(...)` in `_handle_failure`
unfoldable pub after_fail :
    Env → Job → ℕ → World → Result AnalysisStateError Analysis → Result Failure Bool × World
unfolding after_write
after_fail e job next w (ok failed) =
    after_write e (ack_job job) w (Session.update failed.id (write_exhausted next failed) w.session)
after_fail e job next w (err x) = (err (e.messages.of_state x), w)

-- `_handle_failure`, and the `return True` behind it; what it raises escapes `process_once`
unfoldable pub handle_failure :
    Env → Job → Option Analysis → Failure → World → Result Failure Bool × World
unfolding after_fail
handle_failure e job none f w = (ok true, ack_job job w)
handle_failure e job (some a) f w =
    let next = a.retry_count + 1 in
    if leb next e.max_retries
    then after_write e (nack_job e job) w (Session.update a.id (write_retry e next f) w.session)
    else after_fail e job next w (Analysis.fail e.now f.message (some f.type_name) a)
