-- ===== src/Worker/Exhaustion.antt =====
-- How the attempts on one analysis end: rounds of the loop of
-- backend/app/workers/analysis_worker/__main__.py.
use sentinal.Prelude.{ℕ, String, ◌≡◌, true, false, some, List, [], ◌∷◌, arith, ◌+◌}
use sentinal.Prelude.Outcome.{ok}
use sentinal.Analysis.{Analysis, failed}
use sentinal.Repository.Rows.{Row}
use sentinal.Repository.Session
use sentinal.Repository.Session.{
  Session, RepositoryException, find_row, write_row, checks_hold, mapped,
}
use sentinal.Service.{World}
use sentinal.Worker.{Env}
use sentinal.Worker.Process.{process_once, round}

-- rounds of the worker's loop, at the given times
unfoldable pub rounds : List ℕ → Env → World → World
rounds [] e w = w
rounds (t ∷ ts) e w = rounds ts e (round (record e { now = t }) w).1

-- the database, after the transaction is committed
abbrev pub committed : World → World
committed w = record w { session = record w.session { committed = w.session.rows } }

pub round-ok :
    (e : Env) (w w' : World)
    → process_once e w ≡ (ok true, w')
    → w'.session.is_broken ≡ false
    → round e w ≡ (ok true, committed w')
unfolding round Session.commit
round-ok e w w' h healthy = ground arith

-- The analysis with the identifier `id` is stored as failed after all attempts, for good, and no job
-- waits.
pub record Exhausted (e : Env) (id : ℕ) (m : String) (w : World) : Type 0 where
  pub row : Row
  pub found : find_row id w.session.committed ≡ some row
  pub status : row.status ≡ failed
  pub message : row.error_message ≡ some m
  pub retry_count : row.retry_count ≡ e.max_retries + 1
  pub queue : w.queue ≡ record { ready = []; claims = [] }
