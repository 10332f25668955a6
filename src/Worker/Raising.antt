-- ===== src/Worker/Raising.antt =====
-- What `process_once` of backend/app/workers/analysis_worker/worker.py does with an exception of
-- the
-- analyzer.
use sentinal.Prelude.{
  ℕ, String, ◌≡◌, ◌⊎◌, refl, ◌∙◌, true, some, List, ◌∷◌, ◌||◌, if◌then◌else◌, arith,
}
use sentinal.Analysis.{Analysis, Status, pending, running, is_pending, is_running}
use sentinal.Repository.Rows.{Row}
use sentinal.Registry.{Analyzer, Outcome, raised}
use sentinal.Queue.{Job}
use sentinal.Service.{World}
use sentinal.Worker.{Env, handle_failure, write_running}
use sentinal.Worker.Process.{Task, after_analyze, process_once}
use sentinal.Worker.Progress.{
  Ready, after_claim-running, after_claim-pending, started_at, with_running,
}
use sentinal.Worker.Failures.{holding, waiting, process_once-claim}

-- The row as the attempt finds it: a pending one has been moved to running.
unfoldable pub begun : (now : ℕ) → Analysis → Row → Row
begun now a r = if is_pending r.status then write_running (started_at now a) r else r

-- Claiming a job changes nothing that `Ready` reads.
pub Ready-holding :
    (e : Env) (w : World) (job : Job) (rest : List Job) (r : Row) (a : Analysis) (z : Analyzer)
    → Ready e w job r a z
    → Ready e (holding job rest w) job r a z
Ready-holding e w job rest r a z k = record {
  names = k.names;
  healthy = k.healthy;
  row = k.row;
  entity = k.entity;
  checked = k.checked;
  asset = k.asset;
  content = k.content;
  analyzer = k.analyzer;
}

pub after_analyze-raised :
    (e : Env) (t : Task) (w : World) (o : Outcome) (m n : String)
    → o ≡ raised m n
    → after_analyze e t w o
      ≡ handle_failure e t.job (some t.loaded) (record { message = m; type_name = n }) w
unfolding after_analyze
after_analyze-raised e t w o m n h = rw h refl

pub running_attempt :
    (e : Env) (w : World) (job : Job) (rest : List Job) (r : Row) (a : Analysis) (z : Analyzer)
    (m n : String)
    → Ready e w job r a z
    → r.status ≡ running
    → z.analyze r.digital_asset_id ≡ raised m n
    → process_once e (waiting (job ∷ rest) w)
      ≡ handle_failure e job (some a) (record { message = m; type_name = n }) (holding job rest w)
running_attempt e w job rest r a z m n k is h =
    let t : Task = record { job = job; loaded = a; running = a } in
    process_once-claim e job rest w
    ∙ after_claim-running e (holding job rest w) job r a z (Ready-holding e w job rest r a z k) is
    ∙ after_analyze-raised e t (holding job rest w) (z.analyze r.digital_asset_id) m n h

pub pending_attempt :
    (e : Env) (w : World) (job : Job) (rest : List Job) (r : Row) (a : Analysis) (z : Analyzer)
    (m n : String)
    → Ready e w job r a z
    → r.status ≡ pending
    → z.analyze r.digital_asset_id ≡ raised m n
    → process_once e (waiting (job ∷ rest) w)
      ≡ handle_failure e job
          (some a)
          (record { message = m; type_name = n })
          (holding job rest (with_running e.now r a w))
pending_attempt e w job rest r a z m n k is h =
    let t : Task = record { job = job; loaded = a; running = started_at e.now a } in
    process_once-claim e job rest w
    ∙ after_claim-pending e (holding job rest w) job r a z (Ready-holding e w job rest r a z k) is
    ∙ after_analyze-raised e t (with_running e.now r a (holding job rest w))
        (z.analyze r.digital_asset_id) m n h

pub begun-pending :
    (now : ℕ) (a : Analysis) (r : Row)
    → r.status ≡ pending
    → begun now a r ≡ write_running (started_at now a) r
unfolding begun
begun-pending now a r is = ground arith

pub begun-running : (now : ℕ) (a : Analysis) (r : Row) → r.status ≡ running → begun now a r ≡ r
unfolding begun
begun-running now a r is = ground arith

pub open-cases : (s : Status) → is_pending s || is_running s ≡ true → (s ≡ pending) ⊎ (s ≡ running)
open-cases s h = ground arith
