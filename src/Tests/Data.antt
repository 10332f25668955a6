-- ===== src/Tests/Data.antt =====
-- Rows, entities and worlds that the tests of the pipeline share.
use sentinal.Prelude.{◌≡◌, refl, true, false, none, some, List, [], ◌∷◌}
use sentinal.Prelude.Outcome.{ok}
use sentinal.Value.{millionths, dict}
use sentinal.Analysis.{Analysis, AnalysisResult, pending, running, completed}
use sentinal.Repository.Rows.{Row, to_domain}
use sentinal.Repository.Session.{find_row, checks_hold, columns_fit, fits, find_completed}
use sentinal.Registry
use sentinal.Registry.{Analyzer, Outcome, raised, returned}
use sentinal.Queue.{Job}
use sentinal.Service.{
  written, World, Outside, Request, ServiceError, queue_publication, request_analysis,
  cancel_analysis, get_analysis, invalid_state, write_cancelled,
}
use sentinal.Service
use sentinal.Worker.{Env, Failure}
use sentinal.Tests.Entities

-- the row of a pending analysis
abbrev pub pending_row : Row
pending_row = record {
  id = 7;
  digital_asset_id = 3;
  requested_by = 1;
  analyzer_key = "metadata";
  analyzer_version = "1.0.0";
  status = pending;
  analyzer_slugs = [];
  retry_count = 0;
  celery_task_id = none;
  error_message = none;
  error_code = none;
  threat_score = none;
  confidence = none;
  severity = none;
  reasoning_payload = none;
  enrichment_data = none;
  started_at = none;
  completed_at = none;
  created_at = 100;
  updated_at = some 100;
}

abbrev pub pending_entity : Analysis
pending_entity = record Entities.waiting { updated_at = some 100 }

-- an attempt has failed, and it is the last but one of two
abbrev pub running_row : Row
running_row = record pending_row { status = running; retry_count = 1; started_at = some 101 }

abbrev pub running_entity : Analysis
running_entity = record pending_entity { status = running; retry_count = 1; started_at = some 101 }

abbrev pub completed_row : Row
completed_row = record pending_row {
  status = completed;
  confidence = some (millionths 900000);
  completed_at = some 102;
}

abbrev pub completed_entity : Analysis
completed_entity = record pending_entity {
  status = completed;
  confidence = some (millionths 900000);
  completed_at = some 102;
  result = some (record {
    verdict = "unknown";
    evidence = dict [];
    confidence = millionths 900000;
    recommendation = "Review the analysis evidence";
  });
}

abbrev pub answer : AnalysisResult
answer = record {
  verdict = "low";
  evidence = dict [];
  confidence = millionths 900000;
  recommendation = "Keep the file";
}

abbrev pub analyzer_with : Outcome → Analyzer
analyzer_with o = record { key = "metadata"; version = "1.0.0"; analyze = λ asset. o }

abbrev pub world_with : List Row → Outcome → World
world_with rows o = record {
  session = record { committed = rows; rows = rows; is_broken = false };
  asset_ids = 3 ∷ [];
  registry = analyzer_with o ∷ [];
  queue = record { ready = []; claims = [] };
  audit = [];
}

abbrev pub job : Job
job = record { id = 50; job_type = "analysis.requested"; analysis_id = some 7 }

abbrev pub request : Request
request = record {
  asset_id = 3;
  analyzer_key = "metadata";
  requested_by = 1;
  now = 100;
  fresh_id = 7;
  fresh_job_id = 50;
}

abbrev pub some_failure : Failure
some_failure = record { message = "failure"; type_name = "Exception" }

abbrev pub env : Env
env = record {
  messages = record {
    of_repository = λ x. some_failure;
    of_state = λ x. some_failure;
    of_registry = some_failure;
    of_payload = some_failure;
    of_storage_key = some_failure;
    of_attribute = some_failure;
  };
  max_retries = 1;
  place = 0;
  storage_key = λ asset. some "assets/3";
  now = 110;
}

abbrev pub all_up : Outside
all_up = record { broker_accepts = true; audit_outcome = written }

abbrev pub broker_down : Outside
broker_down = record { broker_accepts = false; audit_outcome = written }

pub find_pending_row : find_row 7 (pending_row ∷ []) ≡ some pending_row
unfolding find_row
find_pending_row = refl

pub pending_row_entity : to_domain pending_row ≡ ok pending_entity
unfolding to_domain
pending_row_entity = refl

pub pending_row_checks : checks_hold pending_row ≡ true
unfolding checks_hold columns_fit fits
pending_row_checks = refl

pub find_completed_row : find_row 7 (completed_row ∷ []) ≡ some completed_row
unfolding find_row
find_completed_row = refl

pub find_completed_triple :
    find_completed 3 "metadata" "1.0.0" (completed_row ∷ []) ≡ some completed_row
unfolding find_completed
find_completed_triple = refl

pub completed_row_entity : to_domain completed_row ≡ ok completed_entity
unfolding to_domain
completed_row_entity = refl

pub get_analyzer :
    Registry.get "metadata" (analyzer_with (returned answer) ∷ [])
    ≡ ok (analyzer_with (returned answer))
unfolding Registry.get Registry.find
get_analyzer = refl

abbrev pub fresh_world : World
fresh_world = world_with [] (returned answer)

abbrev pub requested_world : World
requested_world = record fresh_world {
  session = record { committed = []; rows = pending_row ∷ []; is_broken = false };
  queue = record { ready = job ∷ []; claims = [] };
  audit = Service.requested 7 3 "metadata" "1.0.0" 1 false ∷ [];
}
