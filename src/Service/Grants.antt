-- ===== src/Service/Grants.antt =====
-- What a granted request has done (`request_analysis` of
-- backend/app/application/services/analysis_service.py).
use sentinal.Prelude.{
  false, ℕ, String, ◌≡◌, inl, inr, refl, sym, ap, ◌∙◌, Option, none, some, [], ◌∷◌, ◌++◌, arith,
}
use sentinal.Prelude.Outcome.{Result, ok, err, Result-cases}
use sentinal.Analysis.{Analysis, construct}
use sentinal.Repository.Rows.{Row, to_orm, to_domain}
use sentinal.Repository.Laws.{
  construct-keeps, create-Created, get_completed_analysis-none, get_completed_analysis-some,
}
use sentinal.Repository.Session
use sentinal.Repository.Session.{
  Session, RepositoryException, find_row, find_completed, delete_row, flush, read_back,
}
use sentinal.Registry
use sentinal.Registry.{Analyzer}
use sentinal.Queue
use sentinal.Queue.{Queue, Job}
use sentinal.Service.{
  breaks_session, World, Outside, Request, log_audit, new_analysis, job_for, get_asset,
  after_publish, after_create, after_construct, after_lookup, after_asset, after_analyzer,
  request_analysis,
}
use sentinal.Service.Requests.{new_analysis-entity}

-- A new analysis: its pending row at the end of the table, and one job with its identifier behind
-- the jobs that wait.
pub record Enqueued (q : Request) (version : String) (a : Analysis) (w w' : World) : Type 0 where
  pub entity :
      a ≡ record (new_analysis q.now q.fresh_id q.asset_id q.requested_by q.analyzer_key version) {
        updated_at = some q.now;
      }
  pub session : w'.session ≡ record w.session {
    rows =
        w.session.rows
        ++ to_orm q.now q.asset_id
            (new_analysis q.now q.fresh_id q.asset_id q.requested_by q.analyzer_key version)
          ∷ [];
  }
  pub queue : w'.queue ≡ record w.queue { ready = w.queue.ready ++ job_for q a ∷ [] }

after_publish-Enqueued :
    (o : Outside) (audited : breaks_session o.audit_outcome ≡ false) (q : Request)
    (version : String) (c a : Analysis) (w w' : World)
    → after_publish o q version c w (Queue.publish o.broker_accepts (job_for q c) w.queue)
      ≡ (ok a, w')
    → (a ≡ c)
      × (w'.session ≡ w.session)
      × (w'.queue ≡ record w.queue { ready = w.queue.ready ++ job_for q a ∷ [] })
unfolding after_publish Queue.publish log_audit
after_publish-Enqueued o audited q version c a w w' h = ground arith

after_create-Enqueued :
    (o : Outside) (audited : breaks_session o.audit_outcome ≡ false) (q : Request)
    (version : String) (a : Analysis) (w w' : World)
    (d : Result RepositoryException Analysis × Session)
    → after_create o q version w d ≡ (ok a, w')
    → (d ≡ (ok a, w'.session))
      × (w'.queue ≡ record w.queue { ready = w.queue.ready ++ job_for q a ∷ [] })
unfolding after_create
after_create-Enqueued o audited q version a w w' (ok c, s) h =
    ground (arith, after_publish-Enqueued o audited q version c a (record w { session = s }) w' h)
after_create-Enqueued o audited q version a w w' (err x, s) h = ground arith

after_construct-Enqueued :
    (o : Outside) (audited : breaks_session o.audit_outcome ≡ false) (q : Request)
    (version : String) (a : Analysis) (w w' : World)
    → after_construct o q version w
        (construct (new_analysis q.now q.fresh_id q.asset_id q.requested_by q.analyzer_key version))
      ≡ (ok a, w')
    → Enqueued q version a w w'
unfolding after_construct
after_construct-Enqueued o audited q version a w w' h =
    let new = new_analysis q.now q.fresh_id q.asset_id q.requested_by q.analyzer_key version in
    elim (Result-cases (construct new)) [
      | inl (x, e) ↦
          let kept : construct new ≡ ok new = e ∙ ap ok (construct-keeps new x e) in
          let d = Session.create q.now q.asset_id new w.session in
          let (made, queue) =
            after_create-Enqueued o audited q version a w w' d
              (sym (ap (after_construct o q version w) kept) ∙ h) in
          let c = create-Created q.now q.asset_id new a w.session w'.session made in
          let entity =
            new_analysis-entity q.now q.fresh_id q.asset_id q.requested_by q.analyzer_key version x
              e in
          record { entity = cc; session = c.appended; queue = queue }
      | inr (x, e) ↦ ground arith
    ]

-- A completed analysis that is handed back.
pub record Reused (q : Request) (version : String) (a : Analysis) (w w' : World) : Type 0 where
  pub row : Row
  pub found : find_completed q.asset_id q.analyzer_key version w.session.rows ≡ some row
  pub entity : to_domain row ≡ ok a
  pub session : w'.session ≡ w.session
  pub queue : w'.queue ≡ w.queue

-- What a granted request has done.
pub data Granted (q : Request) (version : String) (a : Analysis) (w w' : World) : Type 0 where
  reused : Reused q version a w w' → Granted q version a w w'
  enqueued :
      find_completed q.asset_id q.analyzer_key version w.session.rows ≡ none
      → Enqueued q version a w w'
      → Granted q version a w w'

after_lookup-Granted :
    (o : Outside) (audited : breaks_session o.audit_outcome ≡ false) (q : Request)
    (version : String) (a : Analysis) (w w' : World)
    (found : Result RepositoryException (Option Analysis))
    → (Session.get_completed_analysis q.asset_id q.analyzer_key version w.session).0 ≡ found
    → after_lookup o q version w found ≡ (ok a, w')
    → Granted q version a w w'
unfolding after_lookup log_audit
after_lookup-Granted o audited q version a w w' (ok none) e h =
    enqueued (get_completed_analysis-none q.asset_id q.analyzer_key version w.session e)
      (after_construct-Enqueued o audited q version a w w' h)
after_lookup-Granted o audited q version a w w' (ok (some b)) e h =
    let (r, found, entity) =
      get_completed_analysis-some q.asset_id q.analyzer_key version w.session b e in
    reused (record {
      row = r;
      found = found;
      entity = ground arith;
      session = ground arith;
      queue = ground arith;
    })
after_lookup-Granted o audited q version a w w' (err x) e h = ground arith

get_asset-id : (n m : ℕ) (w : World) → get_asset n w ≡ ok m → m ≡ n
unfolding get_asset
get_asset-id n m w h = ground arith

after_asset-Granted :
    (o : Outside) (audited : breaks_session o.audit_outcome ≡ false) (q : Request)
    (version : String) (a : Analysis) (w w' : World)
    → after_asset o q version w (get_asset q.asset_id w) ≡ (ok a, w')
    → Granted q version a w w'
unfolding after_asset
after_asset-Granted o audited q version a w w' h = elim (Result-cases (get_asset q.asset_id w)) [
  | inl (m, e) ↦
      let e' : get_asset q.asset_id w ≡ ok q.asset_id = e ∙ ap ok (get_asset-id q.asset_id m w e) in
      after_lookup-Granted o audited q version a w w'
        (Session.get_completed_analysis q.asset_id q.analyzer_key version w.session).0 refl
        (sym (ap (after_asset o q version w) e') ∙ h)
  | inr (x, e) ↦ ground arith
]

after_analyzer-Granted :
    (o : Outside) (audited : breaks_session o.audit_outcome ≡ false) (q : Request) (a : Analysis)
    (w w' : World) (found : Result Registry.AnalyzerRegistryError Analyzer)
    → after_analyzer o q w found ≡ (ok a, w')
    → (z : Analyzer) × (found ≡ ok z) × Granted q z.version a w w'
unfolding after_analyzer
after_analyzer-Granted o audited q a w w' (ok z) h =
    (z, refl, after_asset-Granted o audited q z.version a w w' h)
after_analyzer-Granted o audited q a w w' (err x) h = ground arith

-- Unless the flush of its audit record fails, a request that is granted has found the analyzer,
-- and either hands back the completed analysis of the asset by this analyzer version and leaves
-- the database session and the queue as they were, or, when there is no such analysis, adds one
-- pending analysis to the end of the table and publishes one job with its identifier.
pub request_analysis-Granted :
    (o : Outside) (audited : breaks_session o.audit_outcome ≡ false) (q : Request) (a : Analysis)
    (w w' : World)
    → request_analysis o q w ≡ (ok a, w')
    → (z : Analyzer) × (Registry.get q.analyzer_key w.registry ≡ ok z) × Granted q z.version a w w'
unfolding request_analysis
request_analysis-Granted o audited q a w w' h =
    after_analyzer-Granted o audited q a w w' (Registry.get q.analyzer_key w.registry) h
