-- ===== src/Worker/Progress.antt =====
-- How far `process_once` of backend/app/workers/analysis_worker/worker.py gets when the analysis,
-- its asset and its analyzer are there.
use sentinal.Prelude.{ℕ, ◌≡◌, refl, ap, ◌∙◌, true, false, some, ◌==◌, any, arith, is_blank}
use sentinal.Prelude.Outcome.{ok}
use sentinal.Analysis
use sentinal.Analysis.{
  Analysis, AnalysisResult, AnalysisStateError, pending, running, is_pending, is_running,
}
use sentinal.Repository.Rows.{Row, to_domain}
use sentinal.Repository.Session
use sentinal.Repository.Session.{
  Session, RepositoryException, find_row, write_row, checks_hold, mapped,
}
use sentinal.Repository.Laws.{to_domain-Denotes}
use sentinal.Repository.Updates.{update_lem, violates_unique-open}
use sentinal.Registry
use sentinal.Registry.{Analyzer, Outcome, returned, raised}
use sentinal.Queue.{Job}
use sentinal.Service.{World, get_asset}
use sentinal.Worker.{Env, write_running}
use sentinal.Worker.Process.{
  Task, asset_of, after_analyze, after_asset, after_running, after_start, after_load, after_id,
  after_claim,
}

-- The worker has claimed `job`, whose analysis is the row `r` and the entity `a`; its asset is
-- there and has content, and its analyzer is `z`.
pub record Ready (e : Env) (w : World) (job : Job) (r : Row) (a : Analysis) (z : Analyzer)
    : Type 0 where
  pub names : job.analysis_id ≡ some r.id
  pub healthy : w.session.is_broken ≡ false
  pub row : find_row r.id w.session.rows ≡ some r
  pub entity : to_domain r ≡ ok a
  pub checked : checks_hold r ≡ true
  pub asset : any (λ n. n == r.digital_asset_id) w.asset_ids ≡ true
  pub content : is_blank (e.storage_key r.digital_asset_id) ≡ false
  pub analyzer : Registry.get r.analyzer_key w.registry ≡ ok z

-- From the look-up of the asset to the analyzer.
after_asset-Ready :
    (e : Env) (w : World) (t : Task) (r : Row) (z : Analyzer)
    → t.running.digital_asset_id ≡ some r.digital_asset_id
    → t.running.analyzer_key ≡ r.analyzer_key
    → w.session.is_broken ≡ false
    → any (λ n. n == r.digital_asset_id) w.asset_ids ≡ true
    → is_blank (e.storage_key r.digital_asset_id) ≡ false
    → Registry.get r.analyzer_key w.registry ≡ ok z
    → after_asset e t w (asset_of t.running w) ≡ after_analyze e t w (z.analyze r.digital_asset_id)
unfolding after_asset get_asset
after_asset-Ready e w t r z asset key healthy there content analyzer =
    let found : asset_of t.running w ≡ ok r.digital_asset_id = ground arith in
    rw found (rw (content, key) (rw analyzer refl))

-- The analysis is loaded.
pub get_by_id-Ready :
    (id : ℕ) (s : Session) (r : Row) (a : Analysis)
    → s.is_broken ≡ false
    → find_row id s.rows ≡ some r
    → to_domain r ≡ ok a
    → (Session.get_by_id id s).0 ≡ ok a
unfolding Session.get_by_id mapped
get_by_id-Ready id s r a healthy row entity = ground arith

after_claim-Ready :
    (e : Env) (w : World) (job : Job) (r : Row) (a : Analysis) (z : Analyzer)
    → Ready e w job r a z
    → after_claim e w (some job) ≡ after_load e job w (ok a)
unfolding after_claim after_id
after_claim-Ready e w job r a z k =
    rw k.names
      (ap (after_load e job w) (get_by_id-Ready r.id w.session r a k.healthy k.row k.entity))

-- A running analysis goes to its analyzer.
pub after_claim-running :
    (e : Env) (w : World) (job : Job) (r : Row) (a : Analysis) (z : Analyzer)
    → Ready e w job r a z
    → r.status ≡ running
    → after_claim e w (some job)
      ≡ after_analyze e
          (record { job = job; loaded = a; running = a })
          w
          (z.analyze r.digital_asset_id)
unfolding after_load
after_claim-running e w job r a z k status =
    let d = to_domain-Denotes r a k.entity in
    let t : Task = record { job = job; loaded = a; running = a } in
    let is : a.status ≡ running = d.status ∙ status in
    let here : after_load e job w (ok a) ≡ after_asset e t w (asset_of a w) = rw is refl in
    let there =
      after_asset-Ready e w t r z d.asset d.analyzer_key k.healthy k.asset k.content k.analyzer in
    after_claim-Ready e w job r a z k ∙ here ∙ there

-- `a`, started at the time `now`
abbrev pub started_at : ℕ → Analysis → Analysis
started_at now a = record a { status = running; started_at = some now; updated_at = some now }

-- the world with the row `r` of `a` moved to running
abbrev pub with_running : ℕ → Row → Analysis → World → World
with_running now r a w = record w {
  session = record w.session {
    rows = write_row r.id (write_running (started_at now a) r) w.session.rows;
  };
}

start-Ready :
    (now : ℕ) (r : Row) (a : Analysis)
    → to_domain r ≡ ok a
    → a.status ≡ pending
    → Analysis.start now a ≡ ok (started_at now a)
unfolding Analysis.start to_domain
start-Ready now r a h status = ground arith

pub to_domain-running :
    (now : ℕ) (r : Row) (a : Analysis)
    → to_domain r ≡ ok a
    → a.status ≡ pending
    → to_domain (write_running (started_at now a) r) ≡ ok (started_at now a)
unfolding to_domain
to_domain-running now r a h status = ground arith

pub checks_hold-running :
    (now : ℕ) (r : Row) (a : Analysis)
    → checks_hold r ≡ true
    → checks_hold (write_running (started_at now a) r) ≡ true
unfolding checks_hold
checks_hold-running now r a h = ground arith

after_load-pending :
    (e : Env) (w : World) (job : Job) (a : Analysis)
    → a.status ≡ pending
    → after_load e job w (ok a) ≡ after_start e job a w (Analysis.start e.now a)
unfolding after_load
after_load-pending e w job a is = ground arith

-- A pending analysis is stored as running and goes to its analyzer.
pub after_claim-pending :
    (e : Env) (w : World) (job : Job) (r : Row) (a : Analysis) (z : Analyzer)
    → Ready e w job r a z
    → r.status ≡ pending
    → after_claim e w (some job)
      ≡ after_analyze e
          (record { job = job; loaded = a; running = started_at e.now a })
          (with_running e.now r a w)
          (z.analyze r.digital_asset_id)
unfolding after_load after_start after_running
after_claim-pending e w job r a z k status =
    let d = to_domain-Denotes r a k.entity in
    let b = started_at e.now a in
    let t : Task = record { job = job; loaded = a; running = b } in
    let is : a.status ≡ pending = d.status ∙ status in
    let start = start-Ready e.now r a k.entity is in
    let here : after_load e job w (ok a)
        ≡ after_running e t w (Session.update b.id (write_running b) w.session) =
      after_load-pending e w job a is ∙ ap (after_start e job a w) start in
    let moved =
      update_lem r.id (write_running b) r b w.session k.healthy k.row
        (to_domain-running e.now r a k.entity is) (checks_hold-running e.now r a k.checked)
        (violates_unique-open (write_running b r)
          (write_row r.id (write_running b r) w.session.rows) refl) in
    let named : Session.update b.id (write_running b) w.session
        ≡ Session.update r.id (write_running b) w.session =
      rw d.id refl in
    let there =
      after_asset-Ready e (with_running e.now r a w) t r z d.asset d.analyzer_key k.healthy k.asset
        k.content k.analyzer in
    after_claim-Ready e w job r a z k ∙ here ∙ ap (after_running e t w) (named ∙ moved) ∙ there
