-- ===== src/Worker/Lost.antt =====
-- Jobs that are taken too early: the queue of
-- backend/app/application/services/analysis_service.py and the transactions of
-- backend/app/workers/analysis_worker/__main__.py.
use sentinal.Prelude.{
  ℕ, String, ◌≡◌, refl, ap, ◌∙◌, true, false, none, some, List, [], ◌∷◌, ◌++◌, arith,
}
use sentinal.Prelude.Outcome.{ok, err}
use sentinal.Analysis.{Analysis}
use sentinal.Repository.Session
use sentinal.Repository.Session.{
  Session, RepositoryException, not_found, find_row, write_row, checks_hold, mapped,
}
use sentinal.Queue
use sentinal.Queue.{Queue, Job, drop_claim, find_claim}
use sentinal.Service.{World}
use sentinal.Worker.{Env, handle_failure}
use sentinal.Worker.Process.{after_load, after_id, after_claim, process_once, round}
use sentinal.Worker.Failures.{waiting, process_once-claim}
use sentinal.Worker.Exhaustion.{round-ok}
use sentinal.Repository.Rows.{to_orm}
use sentinal.Repository.Session.{rollback}
use sentinal.Service.{Request, new_analysis, job_for}
use sentinal.Service.Grants.{Enqueued}

-- What a worker has before it while the transaction of `w` is not committed.
abbrev pub seen_by_worker : World → World
seen_by_worker w = record w { session = rollback w.session }

get_by_id-absent :
    (id : ℕ) (s : Session)
    → s.is_broken ≡ false
    → find_row id s.rows ≡ none
    → (Session.get_by_id id s).0 ≡ err not_found
unfolding Session.get_by_id
get_by_id-absent id s healthy absent = ground arith

-- A job whose analysis the worker does not see is acknowledged all the same.
pub absent_job :
    (e : Env) (w : World) (job : Job) (rest : List Job) (id : ℕ)
    → job.analysis_id ≡ some id
    → w.session.is_broken ≡ false
    → find_row id w.session.rows ≡ none
    → process_once e (waiting (job ∷ rest) w) ≡ (ok true, waiting rest w)
unfolding after_claim after_id after_load handle_failure Queue.ack drop_claim
absent_job e w job rest id names healthy absent =
    process_once-claim e job rest w
    ∙ rw names (rw (get_by_id-absent id w.session healthy absent) (ground arith))

-- When a request in a session that is not broken has created an analysis, whose identifier is not
-- committed yet, and published its job to an empty queue (`Enqueued`), and a worker takes the job
-- before the transaction of the request is committed, then the round ends normally, nothing is
-- stored, and the queue is empty. The commit that follows stores the analysis as pending.
pub early_job_lost :
    (e : Env) (q : Request) (version : String) (a : Analysis) (w w' : World)
    → Enqueued q version a w w'
    → w.session.is_broken ≡ false
    → w.queue ≡ record { ready = []; claims = [] }
    → find_row q.fresh_id w.session.committed ≡ none
    → (round e (seen_by_worker w') ≡ (ok true, waiting [] (seen_by_worker w')))
      × ((Session.commit w'.session).1.committed
          ≡ w.session.rows
            ++ to_orm q.now q.asset_id
                (new_analysis q.now q.fresh_id q.asset_id q.requested_by q.analyzer_key version)
              ∷ [])
unfolding Session.commit rollback
early_job_lost e q version a w w' k healthy empty absent =
    let job = job_for q a in
    let here : seen_by_worker w' ≡ waiting (job ∷ []) (seen_by_worker w') =
      ground (arith, k.queue) in
    let unseen : find_row q.fresh_id w'.session.committed ≡ none = ground (arith, k.session) in
    let taken =
      absent_job e (seen_by_worker w') job [] q.fresh_id (ap (λ b. some b.id) k.entity) refl
        unseen in
    (
      ap (round e) here
          ∙ round-ok e (waiting (job ∷ []) (seen_by_worker w')) (waiting [] (seen_by_worker w'))
              taken refl,
      ground (arith, k.session),
    )
