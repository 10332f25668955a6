-- ===== src/Service/Refusals.antt =====
-- What a refused request leaves behind (`request_analysis` of
-- backend/app/application/services/analysis_service.py).
use sentinal.Prelude.{
  ℕ, String, ◌≡◌, ◌⊎◌, inl, inr, refl, sym, ap, ◌∙◌, true, Option, none, some, arith,
}
use sentinal.Prelude.Outcome.{Result, ok, err, Result-cases}
use sentinal.Analysis.{Analysis, construct}
use sentinal.Repository.Rows.{to_orm, to_domain}
use sentinal.Repository.Laws.{construct-keeps, create-refused, delete-create}
use sentinal.Repository.Session
use sentinal.Repository.Session.{
  Session, RepositoryException, find_row, find_completed, delete_row, flush, read_back,
}
use sentinal.Registry
use sentinal.Registry.{Analyzer}
use sentinal.Queue
use sentinal.Queue.{Queue, Job}
use sentinal.Service.{
  World, Outside, Request, ServiceError, new_analysis, job_for, get_asset, after_publish,
  after_create, after_construct, after_lookup, after_asset, after_analyzer, request_analysis,
}
use sentinal.Service.Requests.{new_analysis-entity}

-- What a refused call leaves: the queue and the audit log as they were, and a database session that
-- is as it was or that can only be rolled back.
pub record Untouched (w w' : World) : Type 0 where
  pub queue : w'.queue ≡ w.queue
  pub audit : w'.audit ≡ w.audit
  pub session : (w'.session ≡ w.session) ⊎ (w'.session.is_broken ≡ true)

after_publish-refused :
    (o : Outside) (q : Request) (version : String) (c : Analysis) (e : ServiceError) (w w' : World)
    → after_publish o q version c w (Queue.publish o.broker_accepts (job_for q c) w.queue)
      ≡ (err e, w')
    → w' ≡ record w { session = (Session.delete c.id w.session).1 }
unfolding after_publish Queue.publish
after_publish-refused o q version c e w w' h = ground arith

after_create-refused :
    (o : Outside) (q : Request) (version : String) (e : ServiceError) (w w' : World)
    (new b : Analysis)
    → to_domain (to_orm q.now q.asset_id new) ≡ ok b
    → (d : Result RepositoryException Analysis × Session)
    → Session.create q.now q.asset_id new w.session ≡ d
    → after_create o q version w d ≡ (err e, w')
    → Untouched w w'
unfolding after_create
after_create-refused o q version e w w' new b entity (ok c, s) made h =
    let at = record w { session = s } in
    let undone = delete-create q.now q.asset_id new c w.session s made in
    let end = after_publish-refused o q version c e at w' h in
    record {
      queue = ap World.queue end;
      audit = ap World.audit end;
      session = inl (ap World.session end ∙ undone);
    }
after_create-refused o q version e w w' new b entity (err x, s) made h =
    let outcome = create-refused q.now q.asset_id new b w.session s x entity made in ground arith

after_construct-refused :
    (o : Outside) (q : Request) (version : String) (e : ServiceError) (w w' : World)
    → after_construct o q version w
        (construct (new_analysis q.now q.fresh_id q.asset_id q.requested_by q.analyzer_key version))
      ≡ (err e, w')
    → Untouched w w'
unfolding after_construct
after_construct-refused o q version e w w' h =
    let new = new_analysis q.now q.fresh_id q.asset_id q.requested_by q.analyzer_key version in
    elim (Result-cases (construct new)) [
      | inl (x, c) ↦
          let kept : construct new ≡ ok new = c ∙ ap ok (construct-keeps new x c) in
          let entity =
            new_analysis-entity q.now q.fresh_id q.asset_id q.requested_by q.analyzer_key version x
              c in
          let d = Session.create q.now q.asset_id new w.session in
          after_create-refused o q version e w w' new (record new { updated_at = some q.now })
            entity d refl (sym (ap (after_construct o q version w) kept) ∙ h)
      | inr (x, c) ↦ ground arith
    ]

after_lookup-refused :
    (o : Outside) (q : Request) (version : String) (e : ServiceError) (w w' : World)
    (found : Result RepositoryException (Option Analysis))
    → after_lookup o q version w found ≡ (err e, w')
    → Untouched w w'
unfolding after_lookup
after_lookup-refused o q version e w w' (ok none) h = after_construct-refused o q version e w w' h
after_lookup-refused o q version e w w' (ok (some a)) h = ground arith
after_lookup-refused o q version e w w' (err x) h = ground arith

after_asset-refused :
    (o : Outside) (q : Request) (version : String) (e : ServiceError) (w w' : World)
    (asset : Result RepositoryException ℕ)
    → after_asset o q version w asset ≡ (err e, w')
    → Untouched w w'
unfolding after_asset
after_asset-refused o q version e w w' (ok n) h =
    after_lookup-refused o q version e w w'
      (Session.get_completed_analysis n q.analyzer_key version w.session).0 h
after_asset-refused o q version e w w' (err x) h = ground arith

after_analyzer-refused :
    (o : Outside) (q : Request) (e : ServiceError) (w w' : World)
    (found : Result Registry.AnalyzerRegistryError Analyzer)
    → after_analyzer o q w found ≡ (err e, w')
    → Untouched w w'
unfolding after_analyzer
after_analyzer-refused o q e w w' (ok z) h =
    after_asset-refused o q z.version e w w' (get_asset q.asset_id w) h
after_analyzer-refused o q e w w' (err x) h = ground arith

-- A request that is refused, for whatever reason, a failed publication included, has published no
-- job and written no audit record, and it leaves the database session as it was, or broken, so
-- that only a rollback is possible.
pub request_refused :
    (o : Outside) (q : Request) (e : ServiceError) (w w' : World)
    → request_analysis o q w ≡ (err e, w')
    → Untouched w w'
unfolding request_analysis
request_refused o q e w w' h =
    after_analyzer-refused o q e w w' (Registry.get q.analyzer_key w.registry) h
