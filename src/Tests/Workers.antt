-- ===== src/Tests/Workers.antt =====
-- The attempts of backend/app/workers/analysis_worker/worker.py.
use sentinal.Prelude.{◌≡◌, refl, true, false, none, some, [], ◌∷◌, str_eq}
use sentinal.Prelude.Outcome.{ok, err}
use sentinal.Analysis.{new_result, failed}
use sentinal.Repository.Rows.{to_domain, to_orm}
use sentinal.Repository.Session
use sentinal.Repository.Session.{
  Session, RepositoryException, find_row, checks_hold, columns_fit, fits, find_completed,
  violates_unique, write_row,
}
use sentinal.Registry
use sentinal.Registry.{Analyzer, Outcome, raised, returned}
use sentinal.Service.{World}
use sentinal.Service.Grants.{Enqueued}
use sentinal.Worker
use sentinal.Worker.{Env, Failure, Messages, write_retry, write_exhausted}
use sentinal.Prelude.Case.{lower}
use sentinal.Worker.Process.{process_once, round}
use sentinal.Worker.Holding.{Settled}
use sentinal.Worker.Settled.{process_once-Settled}
use sentinal.Worker.Progress.{Ready}
use sentinal.Worker.Failures.{IsStorable, holding, waiting}
use sentinal.Worker.Attempts.{Attempted, attempt_last, attempt_silent}
use sentinal.Worker.Raising.{begun}
use sentinal.Worker.Success.{ReadsCompleted, finished, attempt_completes}
use sentinal.Worker.Lost.{seen_by_worker, early_job_lost}
use sentinal.Tests.Entities
use sentinal.Tests.Data.{
  pending_row, pending_entity, running_row, running_entity, answer, analyzer_with, world_with, job,
  request, some_failure, env, fresh_world, requested_world,
}

pending_Ready :
    (o : Outcome)
    → Ready env (world_with (pending_row ∷ []) o) job pending_row pending_entity (analyzer_with o)
unfolding find_row to_domain checks_hold columns_fit fits Registry.get Registry.find
pending_Ready o = record {
  names = refl;
  healthy = refl;
  row = refl;
  entity = refl;
  checked = refl;
  asset = refl;
  content = refl;
  analyzer = refl;
}

running_Ready :
    (o : Outcome)
    → Ready env (world_with (running_row ∷ []) o) job running_row running_entity (analyzer_with o)
unfolding find_row to_domain checks_hold columns_fit fits Registry.get Registry.find
running_Ready o = record {
  names = refl;
  healthy = refl;
  row = refl;
  entity = refl;
  checked = refl;
  asset = refl;
  content = refl;
  analyzer = refl;
}

process_once-Settled_example :
    Settled job (record { ready = []; claims = [] }) (process_once env requested_world)
process_once-Settled_example = process_once-Settled env requested_world job [] refl

no_header_IsStorable : IsStorable (record { message = "no header"; type_name = "ValueError" })
unfolding fits
no_header_IsStorable = record { message = refl; type_name = refl }

attempt_last_example :
    let w = world_with (running_row ∷ []) (raised "no header" "ValueError") in
    (w' : World) × (process_once env (waiting (job ∷ []) w) ≡ (ok true, w'))
    × Attempted running_row failed "no header" "ValueError"
        (some 110)
        (record { ready = []; claims = [] })
        w
        w'
attempt_last_example =
    attempt_last env (world_with (running_row ∷ []) (raised "no header" "ValueError")) job []
      running_row running_entity (analyzer_with (raised "no header" "ValueError")) "no header"
      "ValueError" (running_Ready (raised "no header" "ValueError")) refl refl refl refl
      no_header_IsStorable

attempt_silent_example :
    let w = world_with (running_row ∷ []) (raised "" "TimeoutError") in
    process_once env (waiting (job ∷ []) w) ≡ (err some_failure, holding job [] w)
attempt_silent_example =
    attempt_silent env (world_with (running_row ∷ []) (raised "" "TimeoutError")) job [] running_row
      running_entity (analyzer_with (raised "" "TimeoutError")) "TimeoutError"
      (running_Ready (raised "" "TimeoutError")) refl refl refl

answer_Passed : new_result answer ≡ ok answer
unfolding new_result
answer_Passed = refl

answer_verdict : str_eq (lower "low") "failed" ≡ false
unfolding lower
answer_verdict = refl

answer_unique :
    let new = finished 110 answer pending_entity pending_row in
    violates_unique new (write_row 7 new (pending_row ∷ [])) ≡ false
unfolding violates_unique write_row begun Worker.write_completed
answer_unique = refl

attempt_completes_example :
    (w' : World) × (process_once env
        (waiting (job ∷ []) (world_with (pending_row ∷ []) (returned answer)))
      ≡ (ok true, waiting [] w'))
    × ReadsCompleted 7 answer w'
attempt_completes_example =
    attempt_completes env (world_with (pending_row ∷ []) (returned answer)) job [] pending_row
      pending_entity (analyzer_with (returned answer)) answer (pending_Ready (returned answer)) refl
      refl answer_verdict answer_Passed answer_unique

requested_Enqueued : Enqueued request "1.0.0" pending_entity fresh_world requested_world
unfolding to_orm
requested_Enqueued = record { entity = refl; session = refl; queue = refl }

nothing_committed : find_row 7 [] ≡ none
unfolding find_row
nothing_committed = refl

early_job_lost_example :
    (round env (seen_by_worker requested_world)
      ≡ (ok true, waiting [] (seen_by_worker requested_world)))
    × ((Session.commit requested_world.session).1.committed ≡ to_orm 100 3 Entities.waiting ∷ [])
early_job_lost_example =
    early_job_lost env request "1.0.0" pending_entity fresh_world requested_world requested_Enqueued
      refl refl nothing_committed
