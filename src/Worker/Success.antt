-- ===== src/Worker/Success.antt =====
-- One attempt of `process_once` (backend/app/workers/analysis_worker/worker.py) on an analysis
-- whose analyzer succeeds.
use mathlib.Core.Path.{subst}
use sentinal.Prelude.{ℕ, ◌≡◌, inl, inr, refl, ◌∙◌, true, false, some, List, ◌∷◌, ◌||◌, str_eq}
use sentinal.Prelude.Outcome.{ok}
use sentinal.Analysis.{
  Analysis, AnalysisResult, completed, new_result, pending, running, is_pending, is_running,
}
use sentinal.Repository.Rows.{Row, to_domain, entity_of}
use sentinal.Repository.Session
use sentinal.Repository.Session.{
  Session, RepositoryException, find_row, write_row, checks_hold, mapped, violates_unique,
  known_severity,
}
use sentinal.Repository.Laws.{to_domain-Denotes}
use sentinal.Repository.Updates.{find_row-write_row, write_row-write_row}
use sentinal.Registry.{Analyzer, returned}
use sentinal.Queue.{Job}
use sentinal.Service.{World, get_analysis}
use sentinal.Worker.{Env, write_completed, write_running}
use sentinal.Prelude.Case.{lower}
use sentinal.Worker.Process.{Task, process_once}
use sentinal.Worker.Progress.{
  Ready, after_claim-running, after_claim-pending, started_at, with_running, to_domain-running,
  checks_hold-running, get_by_id-Ready,
}
use sentinal.Worker.Failures.{holding, waiting, with_row, process_once-claim}
use sentinal.Worker.Failures.{holding, waiting, with_row, process_once-claim}
use sentinal.Worker.Raising.{Ready-holding, begun, begun-pending, begun-running, open-cases}
use sentinal.Worker.Completion.{
  completed_at, stored, to_domain-completed, after_analyze-returned, after_complete-Stored,
}

-- the row of an analysis that has been completed with `x`
abbrev pub finished : (now : ℕ) → AnalysisResult → Analysis → Row → Row
finished now x a r = write_completed (completed_at now x a) x (begun now a r)

get_analysis-ok :
    (id : ℕ) (w : World) (b : Analysis)
    → (Session.get_by_id id w.session).0 ≡ ok b
    → get_analysis id w ≡ ok b
unfolding get_analysis
get_analysis-ok id w b h = rw (get_analysis, h) refl

-- The analysis is read as completed, with the result `x` as it is stored.
pub record ReadsCompleted (id : ℕ) (x : AnalysisResult) (w : World) : Type 0 where
  pub entity : Analysis
  pub found : get_analysis id w ≡ ok entity
  pub status : entity.status ≡ completed
  pub result : entity.result ≡ some (stored x)

reads-completed :
    (id : ℕ) (x : AnalysisResult) (r : Row) (w : World) (now : ℕ) (a : Analysis) (old : Row)
    → w.session.is_broken ≡ false
    → find_row id w.session.rows ≡ some old
    → r.id ≡ id
    → to_domain r ≡ ok a
    → new_result x ≡ ok x
    → ReadsCompleted id x (with_row id (write_completed (completed_at now x a) x r) w)
unfolding write_completed entity_of
reads-completed id x r w now a old healthy row same entity valid =
    let new = write_completed (completed_at now x a) x r in
    let there = find_row-write_row id new old w.session.rows same row in
    let b = entity_of new (some (stored x)) in
    let after = with_row id new w in
    let loaded =
      get_by_id-Ready id after.session new b healthy there
        (to_domain-completed now x a r entity valid) in
    record { entity = b; found = get_analysis-ok id after b loaded; status = refl; result = refl }

running_completes :
    (e : Env) (w : World) (job : Job) (rest : List Job) (r : Row) (a : Analysis) (z : Analyzer)
    (x : AnalysisResult)
    → Ready e w job r a z
    → r.status ≡ running
    → z.analyze r.digital_asset_id ≡ returned x
    → str_eq (lower x.verdict) "failed" ≡ false
    → new_result x ≡ ok x
    → let new = write_completed (completed_at e.now x a) x r in
      violates_unique new (write_row r.id new w.session.rows) ≡ false
      → process_once e (waiting (job ∷ rest) w) ≡ (ok true, waiting rest (with_row r.id new w))
unfolding write_completed
running_completes e w job rest r a z x k is h succeeded valid unique =
    let d = to_domain-Denotes r a k.entity in
    let t : Task = record { job = job; loaded = a; running = a } in
    let new = write_completed (completed_at e.now x a) x r in
    process_once-claim e job rest w
    ∙ after_claim-running e (holding job rest w) job r a z (Ready-holding e w job rest r a z k) is
    ∙ after_analyze-returned e t (holding job rest w) (z.analyze r.digital_asset_id) x h succeeded
    ∙ after_complete-Stored e t rest w x r k.healthy (rw d.id k.row) k.entity (d.status ∙ is)
        k.checked valid (rw d.id unique)
    ∙ rw d.id refl

pending_completes :
    (e : Env) (w : World) (job : Job) (rest : List Job) (r : Row) (a : Analysis) (z : Analyzer)
    (x : AnalysisResult)
    → Ready e w job r a z
    → r.status ≡ pending
    → z.analyze r.digital_asset_id ≡ returned x
    → str_eq (lower x.verdict) "failed" ≡ false
    → new_result x ≡ ok x
    → let new = write_completed (completed_at e.now x a) x (write_running (started_at e.now a) r) in
      violates_unique new (write_row r.id new w.session.rows) ≡ false
      → process_once e (waiting (job ∷ rest) w) ≡ (ok true, waiting rest (with_row r.id new w))
unfolding violates_unique write_completed
pending_completes e w job rest r a z x k is h succeeded valid unique =
    let d = to_domain-Denotes r a k.entity in
    let b = started_at e.now a in
    let t : Task = record { job = job; loaded = a; running = b } in
    let began = write_running b r in
    let new = write_completed (completed_at e.now x a) x began in
    let there = find_row-write_row r.id began r w.session.rows refl k.row in
    let over : write_row r.id new (write_row r.id began w.session.rows)
        ≡ write_row r.id new w.session.rows =
      write_row-write_row r.id began new w.session.rows refl in
    process_once-claim e job rest w
    ∙ after_claim-pending e (holding job rest w) job r a z (Ready-holding e w job rest r a z k) is
    ∙ after_analyze-returned e t (with_running e.now r a (holding job rest w))
        (z.analyze r.digital_asset_id) x h succeeded
    ∙ after_complete-Stored e t rest (with_running e.now r a w) x began k.healthy (rw d.id there)
        (to_domain-running e.now r a k.entity (d.status ∙ is)) refl
        (checks_hold-running e.now r a k.checked) valid (rw (d.id, over) unique)
    ∙ rw (d.id, over) refl

-- When the worker's database session is not broken, the row of the analysis keeps the table's
-- checks, and its asset, the asset's storage key and its analyzer are there (`Ready`), and the
-- analyzer of the pending or running analysis returns a result that passed its checks and whose
-- verdict is not "failed", and no other analysis of this asset by this analyzer version is
-- completed, then the attempt stores the result and acknowledges the job. The analysis is then
-- read as completed, with the result as returned but for its verdict in capitals.
pub attempt_completes :
    (e : Env) (w : World) (job : Job) (rest : List Job) (r : Row) (a : Analysis) (z : Analyzer)
    (x : AnalysisResult)
    → Ready e w job r a z
    → is_pending r.status || is_running r.status ≡ true
    → z.analyze r.digital_asset_id ≡ returned x
    → str_eq (lower x.verdict) "failed" ≡ false
    → new_result x ≡ ok x
    → violates_unique (finished e.now x a r) (write_row r.id (finished e.now x a r) w.session.rows)
      ≡ false
    → (w' : World) × (process_once e (waiting (job ∷ rest) w) ≡ (ok true, waiting rest w'))
      × ReadsCompleted r.id x w'
unfolding write_completed
attempt_completes e w job rest r a z x k is_open h succeeded valid unique =
    elim (open-cases r.status is_open) [
      | inl is ↦
          let d = to_domain-Denotes r a k.entity in
          let b = started_at e.now a in
          let began = begun-pending e.now a r is in
          let unique' =
            subst
              (λ y.
                violates_unique (write_completed (completed_at e.now x a) x y)
                  (write_row r.id (write_completed (completed_at e.now x a) x y) w.session.rows)
                ≡ false)
              began unique in
          (
            with_row r.id (write_completed (completed_at e.now x a) x (write_running b r)) w,
            pending_completes e w job rest r a z x k is h succeeded valid unique',
            reads-completed r.id x (write_running b r) w e.now b r k.healthy k.row refl
                (to_domain-running e.now r a k.entity (d.status ∙ is)) valid,
          )
      | inr is ↦
          let began = begun-running e.now a r is in
          let unique' =
            subst
              (λ y.
                violates_unique (write_completed (completed_at e.now x a) x y)
                  (write_row r.id (write_completed (completed_at e.now x a) x y) w.session.rows)
                ≡ false)
              began unique in
          (
            with_row r.id (write_completed (completed_at e.now x a) x r) w,
            running_completes e w job rest r a z x k is h succeeded valid unique',
            reads-completed r.id x r w e.now a r k.healthy k.row refl k.entity valid,
          )
    ]
