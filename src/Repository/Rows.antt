-- ===== src/Repository/Rows.antt =====
-- A row of the analyses table, and its conversions from and to the entity (`_to_orm` and
-- `_to_domain` of backend/app/infrastructure/database/repositories/analysis.py).
use Prim.Native.Char.{Char, code}
use sentinal.Prelude.{
  ℕ, String, ◌&&◌, Option, none, some, List, [], ◌∷◌, ◌==◌, is_none, is_blank, is_empty,
  if◌then◌else◌,
}
use sentinal.Prelude.Outcome.{Result, ok, ◌>>=◌}
use sentinal.Value.{Confidence, millionths, Evidence, dict, object, Payload, payload}
use sentinal.Analysis.{
  Status, is_completed, is_failed, in_terminal_statuses, Analysis, AnalysisResult,
  AnalysisStateError, new_result, construct,
}

pub record Row : Type 0 where
  pub id : ℕ
  pub digital_asset_id : ℕ
  pub requested_by : ℕ
  pub analyzer_key : String
  pub analyzer_version : String
  pub status : Status
  pub analyzer_slugs : List String
  pub retry_count : ℕ
  pub celery_task_id : Option String
  pub error_message : Option String
  pub error_code : Option String
  pub threat_score : Option Confidence
  pub confidence : Option Confidence
  pub severity : Option String
  pub reasoning_payload : Option Payload
  pub enrichment_data : Option Payload
  pub started_at : Option ℕ
  pub completed_at : Option ℕ
  pub created_at : ℕ
  pub updated_at : Option ℕ

abbrev onto_first : Char → List String → List String
onto_first c [] = []
onto_first c (w ∷ ws) = (String.◌∷◌ c w) ∷ ws

-- `s.split(",")`
unfoldable pub split_commas : String → List String
split_commas String.[] = String.[] ∷ []
split_commas (String.◌∷◌ c s) =
    let rest = split_commas s in if code c == b',' then String.[] ∷ rest else onto_first c rest

-- `slugs.split(",") if slugs else []`
abbrev slug_list : Option String → List String
slug_list none = []
slug_list (some s) = if is_empty s then [] else split_commas s

-- `_to_orm`; the entity's asset is a number, as `validate` has seen. The timestamps of the row are
-- the column defaults.
unfoldable pub to_orm : (now asset : ℕ) → Analysis → Row
unfolding split_commas
to_orm now asset a = record {
  id = a.id;
  digital_asset_id = asset;
  requested_by = a.requested_by;
  analyzer_key = a.analyzer_key;
  analyzer_version = a.analyzer_version;
  status = a.status;
  analyzer_slugs = slug_list a.analyzer_slugs;
  retry_count = a.retry_count;
  celery_task_id = a.celery_task_id;
  error_message = a.error_message;
  error_code = a.error_code;
  threat_score = a.threat_score;
  confidence = a.confidence;
  severity = a.severity;
  reasoning_payload = a.reasoning_payload;
  enrichment_data = a.enrichment_data;
  started_at = a.started_at;
  completed_at = a.completed_at;
  created_at = now;
  updated_at = some now;
}

append_text : String → String → String
append_text String.[] t = t
append_text (String.◌∷◌ c s) t = String.◌∷◌ c (append_text s t)

-- `",".join(slugs)`
unfoldable pub join_commas : List String → String
unfolding append_text
join_commas [] = ""
join_commas (w ∷ []) = w
join_commas (w ∷ v ∷ ws) = append_text w (append_text "," (join_commas (v ∷ ws)))

abbrev joined_slugs : List String → Option String
joined_slugs [] = none
joined_slugs (w ∷ ws) = some (join_commas (w ∷ ws))

abbrev pub verdict_of : Option Payload → Option String
verdict_of none = none
verdict_of (some (payload v e r)) = v

abbrev pub recommendation_of : Option Payload → Option String
recommendation_of none = none
recommendation_of (some (payload v e r)) = r

-- `x or y`, for texts that may be `None`
abbrev pub or_text : Option String → String → String
or_text none d = d
or_text (some s) d = if is_empty s then d else s

-- `reasoning.get("evidence", enrichment)`
abbrev evidence_of : Option Payload → Option Payload → Evidence
evidence_of (some (payload v e r)) enrichment = e
evidence_of none none = dict []
evidence_of none (some p) = object p

abbrev confidence_or_zero : Option Confidence → Confidence
confidence_or_zero none = millionths 0
confidence_or_zero (some c) = c

-- The fields of the result that a completed row denotes.
unfoldable pub denoted : Row → AnalysisResult
denoted r = record {
  verdict =
      or_text (verdict_of r.reasoning_payload)
        (or_text (verdict_of r.enrichment_data) (or_text r.severity "unknown"));
  evidence = evidence_of r.reasoning_payload r.enrichment_data;
  confidence = confidence_or_zero r.confidence;
  recommendation =
      or_text (recommendation_of r.reasoning_payload)
        (or_text (recommendation_of r.enrichment_data) "Review the analysis evidence");
}

unfoldable pub row_result : Row → Result AnalysisStateError AnalysisResult
unfolding new_result denoted
row_result r = new_result (denoted r)

unfoldable pub optional_result : Row → Result AnalysisStateError (Option AnalysisResult)
unfolding row_result
optional_result r =
    if is_completed r.status then (do result ← row_result r; ok (some result)) else ok none

-- `updated_at or created_at`, for a terminal row without `completed_at`
abbrev closing_time : Row → Option ℕ
closing_time r =
    if in_terminal_statuses r.status && is_none r.completed_at
    then (elim r.updated_at [ none ↦ some r.created_at | some t ↦ some t ])
    else r.completed_at

abbrev failure_message : Row → Option String
failure_message r =
    if is_failed r.status && is_blank r.error_message
    then some "Analysis failed"
    else r.error_message

-- `_to_domain`, up to the checks of the entity's constructor
unfoldable pub entity_of : Row → Option AnalysisResult → Analysis
unfolding in_terminal_statuses join_commas
entity_of r result = record {
  id = r.id;
  digital_asset_id = some r.digital_asset_id;
  requested_by = r.requested_by;
  analyzer_key = r.analyzer_key;
  analyzer_version = r.analyzer_version;
  status = r.status;
  result = result;
  threat_score = r.threat_score;
  error_message = failure_message r;
  error_code = r.error_code;
  analyzer_slugs = joined_slugs r.analyzer_slugs;
  retry_count = r.retry_count;
  celery_task_id = r.celery_task_id;
  confidence = r.confidence;
  severity = r.severity;
  reasoning_payload = r.reasoning_payload;
  enrichment_data = r.enrichment_data;
  started_at = r.started_at;
  completed_at = closing_time r;
  created_at = r.created_at;
  updated_at = r.updated_at;
}

unfoldable pub to_domain : Row → Result AnalysisStateError Analysis
unfolding optional_result entity_of construct
to_domain r = do result ← optional_result r; construct (entity_of r result)
