-- ===== src/Tests/Entities.antt =====
-- The entities: backend/app/domain/entities/analysis.py and upload.py, and the analyzer registry.
use sentinal.Prelude.{ℕ, ◌≤◌, ◌≡◌, ◌↔◌, inr, refl, true, none, some, List, [], ◌∷◌, arith}
use sentinal.Prelude.Outcome.{ok, err}
use sentinal.Analysis
use sentinal.Analysis.{
  Analysis, AnalysisResult, pending, running, completed, failed, cancelled, immutable, validate,
  set_attribute,
}
use sentinal.Analysis.Valid.{IsValid, IsTerminal}
use sentinal.Analysis.Lifecycle.{
  starting, cancelling, completing, failing, perform, ◌⟶◌, SameJob, Returns, Allowed, run,
  transition_sound, transition_exact, run_bounded, terminal_immutable,
}
use sentinal.Registry
use sentinal.Registry.{Analyzer, Registry, raised, unknown_key, get-register}

abbrev pub waiting : Analysis
waiting = record {
  id = 7;
  digital_asset_id = some 3;
  requested_by = 1;
  analyzer_key = "metadata";
  analyzer_version = "1.0.0";
  status = pending;
  result = none;
  threat_score = none;
  error_message = none;
  error_code = none;
  analyzer_slugs = none;
  retry_count = 0;
  celery_task_id = none;
  confidence = none;
  severity = none;
  reasoning_payload = none;
  enrichment_data = none;
  started_at = none;
  completed_at = none;
  created_at = 100;
  updated_at = none;
}

abbrev started : Analysis
started = record waiting { status = running; started_at = some 101; updated_at = some 101 }

abbrev withdrawn : Analysis
withdrawn = record waiting { status = cancelled; completed_at = some 101; updated_at = some 101 }

waiting-IsValid : IsValid waiting
waiting-IsValid = ground arith

start_waiting : perform 101 starting waiting ≡ ok started
unfolding perform
start_waiting = refl

transition_sound_example : (pending ⟶ running) × IsValid started × SameJob waiting started
transition_sound_example = transition_sound 101 starting waiting started start_waiting

transition_exact_example :
    Returns (perform 101 (failing "boom" none) waiting) ↔ Allowed (failing "boom" none) pending
transition_exact_example = transition_exact 101 (failing "boom" none) waiting waiting-IsValid

abbrev calls : List (ℕ × Analysis.Lifecycle.Operation)
calls = (101, starting) ∷ (102, starting) ∷ (103, failing "boom" none) ∷ (104, cancelling) ∷ []

run_bounded_example :
    IsValid (run calls waiting).0
    × ((run calls waiting).1 ≤ 2)
    × (pending ≡ running → (run calls waiting).1 ≤ 1)
    × (IsTerminal pending → (run calls waiting).1 ≡ 0)
run_bounded_example = run_bounded calls waiting waiting-IsValid

run-calls : (run calls waiting).1 ≡ 2
unfolding run perform
run-calls = refl

abbrev forget_asset : Analysis → Analysis
forget_asset a = record a { digital_asset_id = none }

terminal_immutable_example :
    (run calls withdrawn ≡ (withdrawn, 0))
    × (set_attribute true withdrawn forget_asset ≡ err immutable)
terminal_immutable_example = terminal_immutable calls forget_asset withdrawn (inr (inr refl))

abbrev metadata : Analyzer
metadata = record {
  key = "metadata";
  version = "1.0.0";
  analyze = λ asset. raised "boom" "ValueError";
}

register-metadata : Registry.register metadata [] ≡ ok (metadata ∷ [])
unfolding Registry.register Registry.find
register-metadata = refl
