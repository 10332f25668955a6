-- ===== src/Worker/Settled.antt =====
-- What `process_once` of backend/app/workers/analysis_worker/worker.py does with the job it claims.
use sentinal.Prelude.{
  ℕ, String, ◌≡◌, refl, ap, true, not, Option, none, some, List, [], ◌∷◌, ◌||◌, if◌then◌else◌,
  is_blank, str_eq,
}
use sentinal.Prelude.Outcome.{Result, ok, err}
use sentinal.Analysis
use sentinal.Analysis.{Analysis, AnalysisResult, AnalysisStateError, is_pending, is_running}
use sentinal.Repository.Session
use sentinal.Repository.Session.{Session, RepositoryException}
use sentinal.Registry
use sentinal.Registry.{Analyzer, Outcome, returned, raised}
use sentinal.Queue
use sentinal.Queue.{Queue, Job, drop_claim, find_claim}
use sentinal.Service.{World}
use sentinal.Worker.{
  Failure, Env, handle_failure, ack_job, write_failed, write_completed, write_running,
  result_error_message,
}
use sentinal.Prelude.Case.{lower}
use sentinal.Worker.Process.{
  Task, asset_of, after_save, after_failed, after_message, after_complete, after_analyze,
  after_registry, after_asset, after_running, after_start, after_load, after_id, after_claim,
  process_once,
}
use sentinal.Worker.Holding.{
  Settled, acknowledged, Holds, ack_job-Holds, if-Settled, handle_failure-Settled,
}

after_save-Settled :
    (e : Env) (t : Task) (q : Queue) (w : World) (d : Result RepositoryException Analysis × Session)
    → Holds t.job q w
    → Settled t.job q (after_save e t w d)
unfolding after_save
after_save-Settled e t q w (ok a, s) h =
    acknowledged refl
      (ack_job-Holds t.job q (record w { session = s }) (record { queue = h.queue }))
after_save-Settled e t q w (err x, s) h =
    handle_failure-Settled e t.job q (some t.loaded) (e.messages.of_repository x)
      (record w { session = s }) (record { queue = h.queue })

after_failed-Settled :
    (e : Env) (t : Task) (q : Queue) (r : AnalysisResult) (m : String) (w : World)
    (d : Result AnalysisStateError Analysis)
    → Holds t.job q w
    → Settled t.job q (after_failed e t r m w d)
unfolding after_failed
after_failed-Settled e t q r m w (ok a) h =
    after_save-Settled e t q w (Session.update a.id (write_failed a r m) w.session) h
after_failed-Settled e t q r m w (err x) h =
    handle_failure-Settled e t.job q (some t.loaded) (e.messages.of_state x) w h

after_message-Settled :
    (e : Env) (t : Task) (q : Queue) (r : AnalysisResult) (w : World) (m : Result Failure String)
    → Holds t.job q w
    → Settled t.job q (after_message e t r w m)
unfolding after_message
after_message-Settled e t q r w (ok m) h =
    after_failed-Settled e t q r m w (Analysis.fail e.now m (some "ANALYZER_FAILED") t.running) h
after_message-Settled e t q r w (err f) h = handle_failure-Settled e t.job q (some t.loaded) f w h

after_complete-Settled :
    (e : Env) (t : Task) (q : Queue) (r : AnalysisResult) (w : World)
    (d : Result AnalysisStateError Analysis)
    → Holds t.job q w
    → Settled t.job q (after_complete e t r w d)
unfolding after_complete
after_complete-Settled e t q r w (ok a) h =
    after_save-Settled e t q w (Session.update a.id (write_completed a r) w.session) h
after_complete-Settled e t q r w (err x) h =
    handle_failure-Settled e t.job q (some t.loaded) (e.messages.of_state x) w h

after_analyze-Settled :
    (e : Env) (t : Task) (q : Queue) (w : World) (o : Outcome)
    → Holds t.job q w
    → Settled t.job q (after_analyze e t w o)
unfolding after_analyze
after_analyze-Settled e t q w (raised m n) h =
    handle_failure-Settled e t.job q (some t.loaded) (record { message = m; type_name = n }) w h
after_analyze-Settled e t q w (returned r) h =
    let message = result_error_message e.messages r in
    let done = Analysis.complete e.now r t.running in
    if-Settled (str_eq (lower r.verdict) "failed") t.job q (after_message e t r w message)
      (after_complete e t r w done) (after_message-Settled e t q r w message h)
      (after_complete-Settled e t q r w done h)

after_registry-Settled :
    (e : Env) (t : Task) (q : Queue) (asset : ℕ) (w : World)
    (z : Result Registry.AnalyzerRegistryError Analyzer)
    → Holds t.job q w
    → Settled t.job q (after_registry e t asset w z)
unfolding after_registry
after_registry-Settled e t q asset w (ok z) h = after_analyze-Settled e t q w (z.analyze asset) h
after_registry-Settled e t q asset w (err x) h =
    handle_failure-Settled e t.job q (some t.loaded) e.messages.of_registry w h

after_asset-Settled :
    (e : Env) (t : Task) (q : Queue) (w : World) (asset : Result RepositoryException ℕ)
    → Holds t.job q w
    → Settled t.job q (after_asset e t w asset)
unfolding after_asset
after_asset-Settled e t q w (err x) h =
    handle_failure-Settled e t.job q (some t.loaded) (e.messages.of_repository x) w h
after_asset-Settled e t q w (ok n) h =
    let z = Registry.get t.running.analyzer_key w.registry in
    if-Settled (is_blank (e.storage_key n)) t.job q
      (handle_failure e t.job (some t.loaded) e.messages.of_storage_key w)
      (after_registry e t n w z)
      (handle_failure-Settled e t.job q (some t.loaded) e.messages.of_storage_key w h)
      (after_registry-Settled e t q n w z h)

after_running-Settled :
    (e : Env) (t : Task) (q : Queue) (w : World) (d : Result RepositoryException Analysis × Session)
    → Holds t.job q w
    → Settled t.job q (after_running e t w d)
unfolding after_running
after_running-Settled e t q w (ok a, s) h =
    let w' = record w { session = s } in
    after_asset-Settled e t q w' (asset_of t.running w') (record { queue = h.queue })
after_running-Settled e t q w (err x, s) h =
    handle_failure-Settled e t.job q (some t.loaded) (e.messages.of_repository x)
      (record w { session = s }) (record { queue = h.queue })

after_start-Settled :
    (e : Env) (job : Job) (q : Queue) (a : Analysis) (w : World)
    (d : Result AnalysisStateError Analysis)
    → Holds job q w
    → Settled job q (after_start e job a w d)
unfolding after_start
after_start-Settled e job q a w (ok b) h =
    after_running-Settled e (record { job = job; loaded = a; running = b }) q w
      (Session.update b.id (write_running b) w.session) h
after_start-Settled e job q a w (err x) h =
    handle_failure-Settled e job q (some a) (e.messages.of_state x) w h

after_load-Settled :
    (e : Env) (job : Job) (q : Queue) (w : World) (d : Result RepositoryException Analysis)
    → Holds job q w
    → Settled job q (after_load e job w d)
unfolding after_load
after_load-Settled e job q w (err x) h =
    handle_failure-Settled e job q none (e.messages.of_repository x) w h
after_load-Settled e job q w (ok a) h =
    let t : Task = record { job = job; loaded = a; running = a } in
    let open_path = after_start e job a w (Analysis.start e.now a) in
    let running_path = after_asset e t w (asset_of a w) in
    if-Settled (not (is_pending a.status || is_running a.status)) job q (ok true, ack_job job w)
      (if is_pending a.status then open_path else running_path)
      (acknowledged refl (ack_job-Holds job q w h))
      (if-Settled (is_pending a.status) job q open_path running_path
        (after_start-Settled e job q a w (Analysis.start e.now a) h)
        (after_asset-Settled e t q w (asset_of a w) h))

after_id-Settled :
    (e : Env) (job : Job) (q : Queue) (w : World) (id : Option ℕ)
    → Holds job q w
    → Settled job q (after_id e job w id)
unfolding after_id
after_id-Settled e job q w none h = handle_failure-Settled e job q none e.messages.of_payload w h
after_id-Settled e job q w (some id) h =
    after_load-Settled e job q w (Session.get_by_id id w.session).0 h

after_claim-Settled :
    (e : Env) (job : Job) (q : Queue) (w : World)
    → Holds job q w
    → Settled job q (after_claim e w (some job))
unfolding after_claim
after_claim-Settled e job q w h = after_id-Settled e job q w job.analysis_id h

claimed-Settled :
    (e : Env) (job : Job) (q : Queue) (w : World) (c : Option Job × Queue)
    → c ≡ (some job, record q { claims = job ∷ q.claims })
    → Settled job q (after_claim e (record w { queue = c.1 }) c.0)
claimed-Settled e job q w c h = rw h (
    after_claim-Settled e job q (record w { queue = record q { claims = job ∷ q.claims } })
      (record { queue = refl }))

-- When a worker that holds no job finds one waiting, and the broker's calls succeed, then the call
-- either settles the job, by acknowledging it or by putting it back among the waiting jobs, at the
-- place that the broker chooses, and returns true, or an exception leaves the call and the job stays
-- claimed. Nothing else happens to the queue.
pub process_once-Settled :
    (e : Env) (w : World) (job : Job) (ready : List Job)
    → w.queue ≡ record { ready = job ∷ ready; claims = [] }
    → Settled job (record { ready = ready; claims = [] }) (process_once e w)
unfolding process_once Queue.claim drop_claim
process_once-Settled e w job ready h =
    claimed-Settled e job (record { ready = ready; claims = [] }) w (Queue.claim w.queue)
      (ap Queue.claim h)
