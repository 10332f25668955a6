-- ===== src/Worker/Attempts.antt =====
-- One attempt of `process_once` (backend/app/workers/analysis_worker/worker.py) with an analyzer
-- that raises.
use sentinal.Prelude.{
  ℕ, String, ◌≡◌, ◌≢◌, Option, some, [], refl, ◌∙◌, true, false, List, ◌∷◌, is_empty, leb, ◌+◌,
}
use sentinal.Prelude.Outcome.{ok, err}
use sentinal.Analysis.{Analysis, Status, message_required, failed, running}
use sentinal.Repository.Rows.{Row}
use sentinal.Repository.Laws.{to_domain-Denotes}
use sentinal.Repository.Updates.{find_row-write_row, find_row-write_row_other}
use sentinal.Registry.{Analyzer, raised}
use sentinal.Repository.Session.{find_row}
use sentinal.Queue.{Queue, Job, put_back}
use sentinal.Service.{World}
use sentinal.Worker.{Failure, Env, write_exhausted, write_retry}
use sentinal.Worker.Process.{process_once}
use sentinal.Worker.Progress.{Ready}
use sentinal.Worker.Failures.{
  IsStorable, holding, waiting, with_row, failed_at, handle_failure-retry, handle_failure-last,
  handle_failure-silent,
}
use sentinal.Worker.Raising.{running_attempt}

pub running_retried :
    (e : Env) (w : World) (job : Job) (rest : List Job) (r : Row) (a : Analysis) (z : Analyzer)
    (m n : String)
    → Ready e w job r a z
    → r.status ≡ running
    → z.analyze r.digital_asset_id ≡ raised m n
    → leb (r.retry_count + 1) e.max_retries ≡ true
    → IsStorable (record { message = m; type_name = n })
    → process_once e (waiting (job ∷ rest) w) ≡ (
      ok true,
      waiting (put_back e.place job rest) (
          with_row r.id
            (write_retry e (r.retry_count + 1) (record { message = m; type_name = n }) r)
            w),
    )
running_retried e w job rest r a z m n k is h more short =
    let d = to_domain-Denotes r a k.entity in
    let f : Failure = record { message = m; type_name = n } in
    running_attempt e w job rest r a z m n k is h
    ∙ handle_failure-retry e job rest a a f w r k.healthy (rw d.id k.row) k.entity (d.status ∙ is)
        k.checked (rw d.retry_count more) short
    ∙ rw (d.id, d.retry_count) refl

pub last_written :
    (e : Env) (w : World) (job : Job) (rest : List Job) (r : Row) (a : Analysis) (z : Analyzer)
    (m n : String)
    → Ready e w job r a z
    → r.status ≡ running
    → z.analyze r.digital_asset_id ≡ raised m n
    → leb (r.retry_count + 1) e.max_retries ≡ false
    → is_empty m ≡ false
    → IsStorable (record { message = m; type_name = n })
    → process_once e (waiting (job ∷ rest) w) ≡ (
      ok true,
      waiting rest (
          with_row r.id
            (write_exhausted
              (r.retry_count + 1)
              (failed_at e (record { message = m; type_name = n }) a)
              r)
            w),
    )
last_written e w job rest r a z m n k is h none_left named short =
    let d = to_domain-Denotes r a k.entity in
    let f : Failure = record { message = m; type_name = n } in
    running_attempt e w job rest r a z m n k is h
    ∙ handle_failure-last e job rest a f w r k.healthy (rw d.id k.row) k.entity (d.status ∙ is)
        k.checked (rw d.retry_count none_left) named short
    ∙ rw (d.id, d.retry_count) refl

-- What a failed attempt leaves: the row of the analysis with its new status and time of completion,
-- one retry more and the exception; every other row, what is committed, and the queue.
pub record Attempted (r : Row) (status : Status) (m n : String) (closed : Option ℕ) (queue : Queue)
    (w w' : World) : Type 0 where
  pub row : Row
  pub found : find_row r.id w'.session.rows ≡ some row
  pub status_is : row.status ≡ status
  pub retry_count : row.retry_count ≡ r.retry_count + 1
  pub message : row.error_message ≡ some m
  pub code : row.error_code ≡ some n
  pub closed_at : row.completed_at ≡ closed
  pub asset : row.digital_asset_id ≡ r.digital_asset_id
  pub others : (id : ℕ) → id ≢ r.id → find_row id w'.session.rows ≡ find_row id w.session.rows
  pub committed : w'.session.committed ≡ w.session.committed
  pub queue_is : w'.queue ≡ queue

-- When the worker's database session is not broken, the row of the analysis keeps the table's
-- sizes and checks, and its asset, the asset's storage key and its analyzer are there (`Ready`),
-- and the analyzer of a running analysis raises, in the last attempt, an exception that has a
-- message and that the columns have room for, then the row of the analysis is found as failed and
-- completed at this time, with one retry more and with the exception's message and type; every
-- other row stays, nothing is committed yet, and the job is out of the queue.
pub attempt_last :
    (e : Env) (w : World) (job : Job) (rest : List Job) (r : Row) (a : Analysis) (z : Analyzer)
    (m n : String)
    → Ready e w job r a z
    → r.status ≡ running
    → z.analyze r.digital_asset_id ≡ raised m n
    → leb (r.retry_count + 1) e.max_retries ≡ false
    → is_empty m ≡ false
    → IsStorable (record { message = m; type_name = n })
    → (w' : World) × (process_once e (waiting (job ∷ rest) w) ≡ (ok true, w'))
      × Attempted r failed m n (some e.now) (record { ready = rest; claims = [] }) w w'
attempt_last e w job rest r a z m n k is h none_left named short =
    let new =
      write_exhausted (r.retry_count + 1) (failed_at e (record { message = m; type_name = n }) a)
        r in
    (
      waiting rest (with_row r.id new w),
      last_written e w job rest r a z m n k is h none_left named short,
      record {
        row = new;
        found = find_row-write_row r.id new r w.session.rows refl k.row;
        status_is = refl;
        retry_count = refl;
        message = refl;
        code = refl;
        closed_at = refl;
        asset = refl;
        others = λ id apart. find_row-write_row_other r.id id new w.session.rows refl apart;
        committed = refl;
        queue_is = refl;
      },
    )

-- When the worker's database session is not broken, the row of the analysis keeps the table's
-- checks, and its asset, the asset's storage key and its analyzer are there (`Ready`), and the
-- analyzer raises an exception without a text in the last attempt on a running analysis, as the
-- time limit does, then the failure cannot be stored: an exception leaves the call, the database
-- session is as it was, and the job stays claimed.
pub attempt_silent :
    (e : Env) (w : World) (job : Job) (rest : List Job) (r : Row) (a : Analysis) (z : Analyzer)
    (n : String)
    → Ready e w job r a z
    → r.status ≡ running
    → z.analyze r.digital_asset_id ≡ raised "" n
    → leb (r.retry_count + 1) e.max_retries ≡ false
    → process_once e (waiting (job ∷ rest) w)
      ≡ (err (e.messages.of_state message_required), holding job rest w)
attempt_silent e w job rest r a z n k is h none_left =
    let d = to_domain-Denotes r a k.entity in
    running_attempt e w job rest r a z "" n k is h
    ∙ handle_failure-silent e job a n (holding job rest w) (d.status ∙ is)
        (rw d.retry_count none_left)
