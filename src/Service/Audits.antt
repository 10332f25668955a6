-- ===== src/Service/Audits.antt =====
-- What a failed flush of the audit record does to a request (`request_analysis` of
-- backend/app/application/services/analysis_service.py, and the session dependency of
-- backend/app/infrastructure/database/session.py).
use sentinal.Prelude.{ℕ, false, Bool, ◌≡◌, refl, arith, ◌∙◌, none, ◌++◌, ◌∷◌, [], ap}
use sentinal.Prelude.Outcome.{ok, err}
use sentinal.Analysis.{Analysis}
use sentinal.Repository.Session
use sentinal.Repository.Session.{
  Session, RepositoryException, conflict, rollback, find_row, find_completed,
}
use sentinal.Registry
use sentinal.Registry.{Analyzer}
use sentinal.Queue
use sentinal.Queue.{Queue}
use sentinal.Service.{
  World, Outside, Request, written, flush_failed, log_audit, job_for, request_analysis,
  get_analysis, analysis_not_found,
}
use sentinal.Service.Requests.{request_ignores_audit}
use sentinal.Service.Grants.{reused, enqueued, request_analysis-Granted}

commit_raises :
    (broker : Bool) (q : Request) (a : Analysis) (w w' : World)
    → request_analysis (record { broker_accepts = broker; audit_outcome = flush_failed }) q w
      ≡ (ok a, w')
    → Session.commit w'.session ≡ (err conflict, rollback w.session)
unfolding request_analysis log_audit Session.commit rollback Session.create Session.flush
    Session.read_back Queue.publish
commit_raises broker q a w w' h = ground arith

-- A granted request that finds no completed analysis has published a job of its fresh identifier.
published :
    (broker : Bool) (q : Request) (a : Analysis) (w w' : World) (z : Analyzer)
    → Registry.get q.analyzer_key w.registry ≡ ok z
    → find_completed q.asset_id q.analyzer_key z.version w.session.rows ≡ none
    → request_analysis (record { broker_accepts = broker; audit_outcome = written }) q w
      ≡ (ok a, w')
    → (a.id ≡ q.fresh_id)
      × (w'.queue ≡ record w.queue { ready = w.queue.ready ++ job_for q a ∷ [] })
published broker q a w w' z registered unseen h =
    let o : Outside = record { broker_accepts = broker; audit_outcome = written } in
    let (x, found, g) = request_analysis-Granted o refl q a w w' h in
    elim g [
      | reused k ↦ ground (arith, k.found)
      | enqueued e k ↦ (ap (λ (b : Analysis). b.id) k.entity, k.queue)
    ]

rolled_back : (s : Session) → ((rollback s).is_broken ≡ false) × ((rollback s).rows ≡ s.committed)
unfolding rollback
rolled_back s = (refl, refl)

get_analysis-absent :
    (id : ℕ) (w : World)
    → w.session.is_broken ≡ false
    → find_row id w.session.rows ≡ none
    → get_analysis id w ≡ err analysis_not_found
unfolding get_analysis Session.get_by_id
get_analysis-absent id w healthy absent = ground arith

-- A request with a registered analyzer that finds no completed analysis, under an identifier that is
-- not committed yet, and that would be granted if its audit record were written: when the database
-- refuses the audit record in the flush, the call returns the same analysis and its job is behind the
-- jobs that wait, but the commit raises and takes the session back to what was committed before the
-- request, where the analysis of the job is not found.
pub audit_failure :
    (broker : Bool) (q : Request) (a : Analysis) (w w1 : World) (z : Analyzer)
    → Registry.get q.analyzer_key w.registry ≡ ok z
    → find_completed q.asset_id q.analyzer_key z.version w.session.rows ≡ none
    → find_row q.fresh_id w.session.committed ≡ none
    → request_analysis (record { broker_accepts = broker; audit_outcome = written }) q w
      ≡ (ok a, w1)
    → (w2 : World) × (request_analysis
          (record { broker_accepts = broker; audit_outcome = flush_failed })
          q
          w
        ≡ (ok a, w2))
      × (w2.queue ≡ record w.queue { ready = w.queue.ready ++ job_for q a ∷ [] })
      × (Session.commit w2.session ≡ (err conflict, rollback w.session))
      × (get_analysis a.id (record w2 { session = rollback w.session }) ≡ err analysis_not_found)
audit_failure broker q a w w1 z registered unseen absent h =
    let o : Outside = record { broker_accepts = broker; audit_outcome = flush_failed } in
    let (same, queue) = request_ignores_audit broker written flush_failed q w in
    let w2 = (request_analysis o q w).1 in
    let returns : request_analysis o q w ≡ (ok a, w2) = ground (arith, same) in
    let (fresh, job) = published broker q a w w1 z registered unseen h in
    let (healthy, rows) = rolled_back w.session in
    (
      w2,
      returns,
      ground (arith, queue, job),
      commit_raises broker q a w w2 returns,
      get_analysis-absent a.id (record w2 { session = rollback w.session }) healthy
          (ap (λ l. find_row a.id l) rows
            ∙ ap (λ i. find_row i w.session.committed) fresh
            ∙ absent),
    )
