-- ===== src/Tests/Pipeline.antt =====
-- The requests and cancellations of backend/app/application/services/analysis_service.py.
use sentinal.Prelude.{ℕ, ◌≡◌, ◌≢◌, refl, true, none, some, [], ◌∷◌}
use sentinal.Prelude.Outcome.{ok, err}
use sentinal.Analysis.{Analysis, cancelled, construct}
use sentinal.Repository.Rows.{to_domain, to_orm}
use sentinal.Repository.Session
use sentinal.Repository.Session.{
  Session, RepositoryException, find_row, checks_hold, columns_fit, fits, find_completed,
  violates_unique, write_row,
}
use sentinal.Registry
use sentinal.Registry.{Analyzer, Outcome, raised, returned}
use sentinal.Queue
use sentinal.Queue.{Job, Queue}
use sentinal.Service.{
  written, flush_failed, World, Outside, Request, ServiceError, queue_publication, request_analysis,
  cancel_analysis, get_analysis, invalid_state, write_cancelled, analysis_not_found,
}
use sentinal.Service.Refusals.{Untouched, request_refused}
use sentinal.Service.Grants.{Granted, request_analysis-Granted}
use sentinal.Service.Audits.{audit_failure}
use sentinal.Service.Cancels.{cancel_get}
use sentinal.Service
use sentinal.Tests.Data.{
  job, pending_row, pending_entity, answer, analyzer_with, world_with, request, all_up, broker_down,
  find_pending_row, pending_row_entity, pending_row_checks, get_analyzer, fresh_world,
  requested_world,
}

request_fresh : request_analysis all_up request fresh_world ≡ (ok pending_entity, requested_world)
unfolding request_analysis Registry.get Registry.find Service.get_asset
    Session.get_completed_analysis find_completed construct Session.create to_orm to_domain
    Session.flush Session.read_back checks_hold columns_fit fits violates_unique Queue.publish
    Service.log_audit
request_fresh = refl

request_unpublished :
    request_analysis broker_down request fresh_world ≡ (err queue_publication, fresh_world)
unfolding request_analysis Registry.get Registry.find Service.get_asset
    Session.get_completed_analysis find_completed construct Session.create Session.delete
    Session.delete_row to_orm to_domain Session.flush Session.read_back checks_hold columns_fit fits
    violates_unique Queue.publish
request_unpublished = refl

request_refused_example : Untouched fresh_world fresh_world
request_refused_example =
    request_refused broker_down request queue_publication fresh_world fresh_world
      request_unpublished

request_analysis-Granted_example :
    (z : Analyzer) × (Registry.get "metadata" fresh_world.registry ≡ ok z)
    × Granted request z.version pending_entity fresh_world requested_world
request_analysis-Granted_example =
    request_analysis-Granted all_up refl request pending_entity fresh_world requested_world
      request_fresh

abbrev cancelled_entity : Analysis
cancelled_entity = record pending_entity {
  status = cancelled;
  completed_at = some 105;
  updated_at = some 105;
}

cancel_get_example :
    let w = world_with (pending_row ∷ []) (returned answer) in
    let d = cancel_analysis all_up 105 7 1 w in
    (d.0 ≡ ok cancelled_entity)
    × (d.1.queue ≡ w.queue)
    × (get_analysis 7 d.1 ≡ ok cancelled_entity)
    × ((j : ℕ) → j ≢ 7 → get_analysis j d.1 ≡ get_analysis j w)
cancel_get_example =
    cancel_get all_up refl 105 7 1 (world_with (pending_row ∷ []) (returned answer)) pending_row
      pending_entity refl find_pending_row pending_row_entity refl pending_row_checks

abbrev unaudited : Outside
unaudited = record { broker_accepts = true; audit_outcome = flush_failed }

nothing_completed : find_completed 3 "metadata" "1.0.0" [] ≡ none
unfolding find_completed
nothing_completed = refl

nothing_committed : find_row 7 [] ≡ none
unfolding find_row
nothing_committed = refl

audit_failure_example :
    (w2 : World) × (request_analysis unaudited request fresh_world ≡ (ok pending_entity, w2))
    × (w2.queue ≡ record { ready = job ∷ []; claims = [] })
    × (Session.commit w2.session ≡ (err Session.conflict, Session.rollback fresh_world.session))
    × (get_analysis 7 (record w2 { session = Session.rollback fresh_world.session })
        ≡ err analysis_not_found)
audit_failure_example =
    audit_failure true request pending_entity fresh_world requested_world
      (analyzer_with (returned answer)) get_analyzer nothing_completed nothing_committed
      request_fresh
