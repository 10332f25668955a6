-- ===== src/Worker/Process.antt =====
-- `process_once` of backend/app/workers/analysis_worker/worker.py, and one round of the loop of
-- backend/app/workers/analysis_worker/__main__.py.
use sentinal.Prelude.{
  ℕ, String, Bool, true, false, not, ◌||◌, Option, none, some, str_eq, is_blank, if◌then◌else◌,
}
use sentinal.Prelude.Outcome.{Result, ok, err}
use sentinal.Analysis
use sentinal.Analysis.{Analysis, AnalysisResult, AnalysisStateError, Status, is_pending, is_running}
use sentinal.Repository.Session
use sentinal.Repository.Session.{Session, RepositoryException}
use sentinal.Registry
use sentinal.Registry.{Analyzer, Outcome, returned, raised}
use sentinal.Queue
use sentinal.Queue.{Queue, Job}
use sentinal.Service.{World, get_asset}
use sentinal.Worker.{
  Failure, Env, result_error_message, write_running, write_failed, write_completed, handle_failure,
  ack_job,
}
use sentinal.Prelude.Case.{lower}

-- The job, the analysis as it was loaded, and the analysis in its running state.
pub record Task : Type 0 where
  pub job : Job
  pub loaded : Analysis
  pub running : Analysis

-- after the last update: the acknowledgement, or the failure path
unfoldable pub after_save :
    Env → Task → World → Result RepositoryException Analysis × Session → Result Failure Bool × World
unfolding handle_failure
after_save e t w (ok a, s) = (ok true, ack_job t.job (record w { session = s }))
after_save e t w (err x, s) =
    handle_failure e t.job (some t.loaded) (e.messages.of_repository x) (record w { session = s })

-- after `running.fail(...)` on a result whose verdict is "failed"
unfoldable pub after_failed :
    Env
    → Task
    → AnalysisResult
    → String
    → World
    → Result AnalysisStateError Analysis
    → Result Failure Bool × World
unfolding after_save
after_failed e t r message w (ok failed) =
    after_save e t w (Session.update failed.id (write_failed failed r message) w.session)
after_failed e t r message w (err x) =
    handle_failure e t.job (some t.loaded) (e.messages.of_state x) w

-- after `_result_error_message`
unfoldable pub after_message :
    Env → Task → AnalysisResult → World → Result Failure String → Result Failure Bool × World
unfolding after_failed
after_message e t r w (ok message) =
    after_failed e t r message w (Analysis.fail e.now message (some "ANALYZER_FAILED") t.running)
after_message e t r w (err f) = handle_failure e t.job (some t.loaded) f w

-- after `running.complete(result)`
unfoldable pub after_complete :
    Env
    → Task
    → AnalysisResult
    → World
    → Result AnalysisStateError Analysis
    → Result Failure Bool × World
unfolding after_save
after_complete e t r w (ok completed) =
    after_save e t w (Session.update completed.id (write_completed completed r) w.session)
after_complete e t r w (err x) = handle_failure e t.job (some t.loaded) (e.messages.of_state x) w

-- after `asyncio.wait_for(analyzer.analyze(...))`
unfoldable pub after_analyze : Env → Task → World → Outcome → Result Failure Bool × World
unfolding lower after_message after_complete
after_analyze e t w (raised message type_name) =
    handle_failure e t.job (some t.loaded) (record { message = message; type_name = type_name }) w
after_analyze e t w (returned r) =
    if str_eq (lower r.verdict) "failed"
    then after_message e t r w (result_error_message e.messages r)
    else after_complete e t r w (Analysis.complete e.now r t.running)

-- after `self.registry.get`
unfoldable pub after_registry :
    Env
    → Task
    → (asset : ℕ) → World
    → Result Registry.AnalyzerRegistryError Analyzer
    → Result Failure Bool × World
unfolding after_analyze
after_registry e t asset w (ok analyzer) = after_analyze e t w (analyzer.analyze asset)
after_registry e t asset w (err x) = handle_failure e t.job (some t.loaded) e.messages.of_registry w

-- after `self.asset_repo.get_by_id`: `_content_stream`, and the look-up of the analyzer
unfoldable pub after_asset :
    Env → Task → World → Result RepositoryException ℕ → Result Failure Bool × World
unfolding after_registry
after_asset e t w (err x) = handle_failure e t.job (some t.loaded) (e.messages.of_repository x) w
after_asset e t w (ok asset) =
    if is_blank (e.storage_key asset)
    then handle_failure e t.job (some t.loaded) e.messages.of_storage_key w
    else after_registry e t asset w (Registry.get t.running.analyzer_key w.registry)

-- The entity has an asset: its constructor checked that.
abbrev pub asset_of : Analysis → World → Result RepositoryException ℕ
asset_of a w = elim a.digital_asset_id [ none ↦ err Session.not_found | some n ↦ get_asset n w ]

-- after the update that moves the row to running
unfoldable pub after_running :
    Env → Task → World → Result RepositoryException Analysis × Session → Result Failure Bool × World
unfolding after_asset
after_running e t w (ok a, s) =
    let w' = record w { session = s } in after_asset e t w' (asset_of t.running w')
after_running e t w (err x, s) =
    handle_failure e t.job (some t.loaded) (e.messages.of_repository x) (record w { session = s })

-- after `analysis.start()`
unfoldable pub after_start :
    Env → Job → Analysis → World → Result AnalysisStateError Analysis → Result Failure Bool × World
unfolding after_running
after_start e job a w (ok running) =
    after_running e (record { job = job; loaded = a; running = running }) w
      (Session.update running.id (write_running running) w.session)
after_start e job a w (err x) = handle_failure e job (some a) (e.messages.of_state x) w

-- after `self.analysis_repo.get_by_id`
unfoldable pub after_load :
    Env → Job → World → Result RepositoryException Analysis → Result Failure Bool × World
unfolding after_start
after_load e job w (err x) = handle_failure e job none (e.messages.of_repository x) w
after_load e job w (ok a) =
    if not (is_pending a.status || is_running a.status)
    then (ok true, ack_job job w)
    else if is_pending a.status
    then after_start e job a w (Analysis.start e.now a)
    else after_asset e (record { job = job; loaded = a; running = a }) w (asset_of a w)

-- after `_analysis_id`
unfoldable pub after_id : Env → Job → World → Option ℕ → Result Failure Bool × World
unfolding after_load
after_id e job w none = handle_failure e job none e.messages.of_payload w
after_id e job w (some id) = after_load e job w (Session.get_by_id id w.session).0

-- after `self.queue.claim`
unfoldable pub after_claim : Env → World → Option Job → Result Failure Bool × World
unfolding after_id
after_claim e w none = (ok false, w)
after_claim e w (some job) = after_id e job w job.analysis_id

unfoldable pub process_once : Env → World → Result Failure Bool × World
unfolding after_claim
process_once e w =
    let (job, queue) = Queue.claim w.queue in after_claim e (record w { queue = queue }) job

-- One round of `run_worker`: with `ok` the loop goes on, and with `err` the process ends. A
-- session that is not committed is rolled back when it is closed.
unfoldable pub after_process : Env → Result Failure Bool × World → Result Failure Bool × World
after_process e (ok true, w) = elim (Session.commit w.session).0 [
  | ok _ ↦ (ok true, record w { session = (Session.commit w.session).1 })
  | err x ↦ (err (e.messages.of_repository x), record w { session = (Session.commit w.session).1 })
]
after_process e (ok false, w) = (ok false, record w { session = Session.rollback w.session })
after_process e (err f, w) = (err f, record w { session = Session.rollback w.session })

unfoldable pub round : Env → World → Result Failure Bool × World
unfolding after_process
round e w = after_process e (process_once e w)
