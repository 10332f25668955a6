-- ===== src/Service.antt =====
-- backend/app/application/services/analysis_service.py: requesting, cancelling and reading an
-- analysis. The state is everything that the service reaches: the database session, the assets that
-- the asset repository finds, the analyzer registry, the queue, and the audit log.
--
-- `now`, `uuid4` and the outcomes that the outside decides are arguments. `ip_address`,
-- `request_id` and `user_agent`, and the actor's role, only go into the audit record; they are left
-- out, and so is logging.
pub mod Requests
pub mod Refusals
pub mod Grants
pub mod Audits
pub mod Cancels
use sentinal.Prelude.{
  ℕ, String, Bool, true, false, not, ◌||◌, Option, none, some, List, [], ◌∷◌, ◌++◌, ◌==◌, any,
  if◌then◌else◌,
}
use sentinal.Prelude.Outcome.{Result, ok, err, Exec}
use sentinal.Analysis
use sentinal.Analysis.{
  Analysis, AnalysisStateError, Status, pending, is_pending, is_running, construct,
}
use sentinal.Repository.Rows.{Row}
use sentinal.Repository.Session
use sentinal.Repository.Session.{Session, RepositoryException, not_found, conflict}
use sentinal.Registry
use sentinal.Registry.{Analyzer, Registry}
use sentinal.Queue
use sentinal.Queue.{Queue, Job}

pub data AuditEvent : Type 0 where
  requested :
      (analysis asset : ℕ) (key version : String) (by : ℕ) (is_idempotent : Bool) → AuditEvent
  cancellation : (analysis by : ℕ) (previous_status : Status) → AuditEvent

pub record World : Type 0 where
  pub session : Session
  pub asset_ids : List ℕ
  pub registry : Registry
  pub queue : Queue
  pub audit : List AuditEvent

-- What becomes of the audit record: written, refused before it reaches the database, or refused by
-- the database in the flush.
pub data AuditOutcome : Type 0 where
  written refused flush_failed : AuditOutcome

-- Whether the broker accepts a message, and what becomes of the audit record.
pub record Outside : Type 0 where
  pub broker_accepts : Bool
  pub audit_outcome : AuditOutcome

abbrev pub breaks_session : AuditOutcome → Bool
breaks_session flush_failed = true
breaks_session _ = false

pub data ServiceError : Type 0 where
  analyzer_not_found asset_not_found analysis_not_found queue_publication : ServiceError
  invalid_state : Status → ServiceError
  state_error : AnalysisStateError → ServiceError
  repository_error : RepositoryException → ServiceError

-- A failure is logged, and not raised again. The audit repository shares the database session, so
-- a failed flush leaves the session unusable.
unfoldable pub log_audit : Outside → AuditEvent → World → World
log_audit o e w = elim o.audit_outcome [
  | written ↦ record w { audit = w.audit ++ e ∷ [] }
  | refused ↦ w
  | flush_failed ↦ record w { session = Session.broken w.session }
]

-- `self.asset_repo.get_by_id`
unfoldable pub get_asset : ℕ → World → Result RepositoryException ℕ
get_asset asset w =
    if w.session.is_broken
    then err conflict
    else if any (λ a. a == asset) w.asset_ids
    then ok asset
    else err not_found

-- The fields that `Analysis(...)` does not name take their defaults.
abbrev pub new_analysis : (now id asset requested_by : ℕ) (key version : String) → Analysis
new_analysis now id asset requested_by key version = record {
  id = id;
  digital_asset_id = some asset;
  requested_by = requested_by;
  analyzer_key = key;
  analyzer_version = version;
  status = pending;
  result = none;
  threat_score = none;
  error_message = none;
  error_code = none;
  analyzer_slugs = none;
  retry_count = 0;
  celery_task_id = none;
  confidence = none;
  severity = none;
  reasoning_payload = none;
  enrichment_data = none;
  started_at = none;
  completed_at = none;
  created_at = now;
  updated_at = none;
}

-- The call's arguments, and the fresh identifiers of the analysis and of the job.
pub record Request : Type 0 where
  pub asset_id : ℕ
  pub analyzer_key : String
  pub requested_by : ℕ
  pub now : ℕ
  pub fresh_id : ℕ
  pub fresh_job_id : ℕ

-- after `self.queue.publish`: the audit of the creation, or the clean-up
unfoldable pub after_publish :
    Outside
    → Request
    → (version : String) → Analysis
    → World
    → Result Queue.QueueError Job × Queue
    → Result ServiceError Analysis × World
unfolding log_audit
after_publish o q version created w (ok job, queue) = (
  ok created,
  log_audit o (requested created.id q.asset_id q.analyzer_key version q.requested_by false)
      (record w { queue = queue }),
)
after_publish o q version created w (err e, queue) = (
  err queue_publication,
  record w { queue = queue; session = (Session.delete created.id w.session).1 },
)

abbrev pub job_for : Request → Analysis → Job
job_for q created = record {
  id = q.fresh_job_id;
  job_type = "analysis.requested";
  analysis_id = some created.id;
}

-- after `self.analysis_repo.create`
unfoldable pub after_create :
    Outside
    → Request
    → (version : String) → World
    → Result RepositoryException Analysis × Session
    → Result ServiceError Analysis × World
unfolding after_publish
after_create o q version w (ok created, s) =
    after_publish o q version created (record w { session = s })
      (Queue.publish o.broker_accepts (job_for q created) w.queue)
after_create o q version w (err e, s) = (err (repository_error e), record w { session = s })

-- after `Analysis(...)`
unfoldable pub after_construct :
    Outside
    → Request
    → (version : String) → World
    → Result AnalysisStateError Analysis
    → Result ServiceError Analysis × World
unfolding after_create
after_construct o q version w (ok analysis) =
    after_create o q version w (Session.create q.now q.asset_id analysis w.session)
after_construct o q version w (err e) = (err (state_error e), w)

-- after `self.analysis_repo.get_completed_analysis`
unfoldable pub after_lookup :
    Outside
    → Request
    → (version : String) → World
    → Result RepositoryException (Option Analysis)
    → Result ServiceError Analysis × World
unfolding after_construct log_audit
after_lookup o q version w (err e) = (err (repository_error e), w)
after_lookup o q version w (ok (some existing)) = (
  ok existing,
  log_audit o (requested existing.id q.asset_id q.analyzer_key version q.requested_by true) w,
)
after_lookup o q version w (ok none) =
    after_construct o q version w
      (construct (new_analysis q.now q.fresh_id q.asset_id q.requested_by q.analyzer_key version))

abbrev asset_error : RepositoryException → ServiceError
asset_error not_found = asset_not_found
asset_error e = repository_error e

-- after `self.asset_repo.get_by_id`
unfoldable pub after_asset :
    Outside
    → Request
    → (version : String) → World
    → Result RepositoryException ℕ
    → Result ServiceError Analysis × World
unfolding after_lookup
after_asset o q version w (err e) = (err (asset_error e), w)
after_asset o q version w (ok asset) =
    after_lookup o q version w
      (Session.get_completed_analysis asset q.analyzer_key version w.session).0

-- after `self.analyzer_registry.get`
unfoldable pub after_analyzer :
    Outside
    → Request
    → World
    → Result Registry.AnalyzerRegistryError Analyzer
    → Result ServiceError Analysis × World
unfolding after_asset
after_analyzer o q w (err e) = (err analyzer_not_found, w)
after_analyzer o q w (ok analyzer) = after_asset o q analyzer.version w (get_asset q.asset_id w)

unfoldable pub request_analysis : Outside → Request → Exec World ServiceError Analysis
unfolding after_analyzer
request_analysis o q w = after_analyzer o q w (Registry.get q.analyzer_key w.registry)

abbrev analysis_error : RepositoryException → ServiceError
analysis_error not_found = analysis_not_found
analysis_error e = repository_error e

-- the dictionary of `self.analysis_repo.update`
abbrev pub write_cancelled : Analysis → Row → Row
write_cancelled a r = record r {
  status = a.status;
  completed_at = a.completed_at;
  updated_at = a.updated_at;
}

-- after `self.analysis_repo.update`
unfoldable pub after_update :
    Outside
    → (id by : ℕ) → (previous : Status) → World
    → Result RepositoryException Analysis × Session
    → Result ServiceError Analysis × World
unfolding log_audit
after_update o id by previous w (ok updated, s) =
    (ok updated, log_audit o (cancellation id by previous) (record w { session = s }))
after_update o id by previous w (err e, s) = (err (repository_error e), record w { session = s })

-- after `analysis.cancel()`
unfoldable pub after_cancel :
    Outside
    → (id by : ℕ) → (previous : Status) → World
    → Result AnalysisStateError Analysis
    → Result ServiceError Analysis × World
unfolding after_update
after_cancel o id by previous w (ok cancelled) =
    after_update o id by previous w (Session.update id (write_cancelled cancelled) w.session)
after_cancel o id by previous w (err e) = (err (state_error e), w)

-- after `self.analysis_repo.get_by_id`
unfoldable pub after_get :
    Outside
    → (now id by : ℕ) → World
    → Result RepositoryException Analysis
    → Result ServiceError Analysis × World
unfolding after_cancel
after_get o now id by w (err e) = (err (analysis_error e), w)
after_get o now id by w (ok a) =
    if not (is_pending a.status || is_running a.status)
    then (err (invalid_state a.status), w)
    else after_cancel o id by a.status w (Analysis.cancel now a)

unfoldable pub cancel_analysis : Outside → (now id by : ℕ) → Exec World ServiceError Analysis
unfolding after_get
cancel_analysis o now id by w = after_get o now id by w (Session.get_by_id id w.session).0

unfoldable pub get_analysis : (id : ℕ) → World → Result ServiceError Analysis
get_analysis id w = elim (Session.get_by_id id w.session).0 [
  | ok a ↦ ok a
  | err e ↦ err (analysis_error e)
]
