-- ===== src/Analysis.antt =====
-- backend/app/domain/entities/analysis.py: an analysis job, its result and its lifecycle.
-- `datetime.now` is the argument `now`; a `raise AnalysisStateError` is a value of the type
-- `AnalysisStateError`, one constructor for each message.
pub mod Valid
pub mod Lifecycle
use sentinal.Prelude.{
  ℕ, ◌+◌, String, Bool, true, false, not, ◌&&◌, ◌||◌, Option, none, some, is_empty, is_none,
  is_blank, if◌then◌else◌,
}
use sentinal.Prelude.Outcome.{Result, ok, err, ◌>>=◌, ◌>>◌, refuse}
use sentinal.Value.{Confidence, Evidence, absent, dict, opaque, Payload, in_unit}

-- `status: str`; `other` is a text that is not in `VALID_STATUSES`.
pub data Status : Type 0 where
  pending running completed failed cancelled : Status
  other : String → Status

unfoldable pub in_valid_statuses : Status → Bool
in_valid_statuses (other s) = false
in_valid_statuses _ = true

unfoldable pub in_terminal_statuses : Status → Bool
in_terminal_statuses completed = true
in_terminal_statuses failed = true
in_terminal_statuses cancelled = true
in_terminal_statuses _ = false

abbrev pub is_pending : Status → Bool
is_pending pending = true
is_pending _ = false

abbrev pub is_running : Status → Bool
is_running running = true
is_running _ = false

abbrev pub is_completed : Status → Bool
is_completed completed = true
is_completed _ = false

abbrev pub is_failed : Status → Bool
is_failed failed = true
is_failed _ = false

pub data AnalysisStateError : Type 0 where
  verdict_required evidence_required confidence_range recommendation_required : AnalysisStateError
  asset_required invalid_status analyzer_required completed_needs_result failed_needs_message :
      AnalysisStateError
  negative_retry_count terminal_needs_completed_at open_has_completed_at message_required
        immutable :
      AnalysisStateError
  bad_transition : Status → AnalysisStateError

pub record AnalysisResult : Type 0 where
  pub verdict : String
  pub evidence : Evidence
  pub confidence : Confidence
  pub recommendation : String

abbrev is_absent : Evidence → Bool
is_absent absent = true
is_absent _ = false

-- `AnalysisResult(...)` with its `__post_init__`
unfoldable pub new_result : AnalysisResult → Result AnalysisStateError AnalysisResult
unfolding in_unit
new_result r = do
  refuse (is_empty r.verdict) verdict_required
  refuse (is_absent r.evidence) evidence_required
  refuse (not (in_unit r.confidence)) confidence_range
  refuse (is_empty r.recommendation) recommendation_required
  ok r

pub record Analysis : Type 0 where
  pub id : ℕ
  pub digital_asset_id : Option ℕ
  pub requested_by : ℕ
  pub analyzer_key : String
  pub analyzer_version : String
  pub status : Status
  pub result : Option AnalysisResult
  pub threat_score : Option Confidence
  pub error_message : Option String
  pub error_code : Option String
  pub analyzer_slugs : Option String
  pub retry_count : ℕ
  pub celery_task_id : Option String
  pub confidence : Option Confidence
  pub severity : Option String
  pub reasoning_payload : Option Payload
  pub enrichment_data : Option Payload
  pub started_at : Option ℕ
  pub completed_at : Option ℕ
  pub created_at : ℕ
  pub updated_at : Option ℕ

-- `self.retry_count < 0`: a retry count is a natural number here, 0 at first, and the code only ever
-- adds 1 to it, so the test never fires.
abbrev is_negative : ℕ → Bool
is_negative n = false

unfoldable pub validate : Analysis → Result AnalysisStateError (Unit {0})
unfolding in_valid_statuses in_terminal_statuses
validate a = do
  refuse (is_none a.digital_asset_id) asset_required
  refuse (not (in_valid_statuses a.status)) invalid_status
  refuse (is_empty a.analyzer_key || is_empty a.analyzer_version) analyzer_required
  refuse (is_negative a.retry_count) negative_retry_count
  refuse (is_completed a.status && is_none a.result) completed_needs_result
  refuse (is_failed a.status && is_blank a.error_message) failed_needs_message
  refuse (in_terminal_statuses a.status && is_none a.completed_at) terminal_needs_completed_at
  refuse (not (in_terminal_statuses a.status) && not (is_none a.completed_at)) open_has_completed_at

-- `Analysis(...)`, and `replace(self, ...)`: both run `__post_init__`.
unfoldable pub construct : Analysis → Result AnalysisStateError Analysis
unfolding validate
construct a = do validate a; ok a

-- `__setattr__`: `write` is the assignment. It is refused once the object is terminal.
unfoldable pub set_attribute :
    (initialized : Bool) (a : Analysis) (write : Analysis → Analysis)
    → Result AnalysisStateError Analysis
unfolding in_terminal_statuses
set_attribute initialized a write =
    if initialized && in_terminal_statuses a.status then err immutable else ok (write a)

unfoldable pub require_status : (Status → Bool) → Status → Result AnalysisStateError (Unit {0})
require_status expected s = refuse (not (expected s)) (bad_transition s)

unfoldable pub start : (now : ℕ) → Analysis → Result AnalysisStateError Analysis
unfolding require_status construct
start now a = do
  require_status is_pending a.status
  construct (record a { status = running; started_at = some now; updated_at = some now })

unfoldable pub complete : (now : ℕ) → AnalysisResult → Analysis → Result AnalysisStateError Analysis
unfolding require_status construct
complete now r a = do
  require_status is_running a.status
  construct (record a {
    status = completed;
    result = some r;
    completed_at = some now;
    updated_at = some now;
  })

unfoldable pub fail :
    (now : ℕ) (error_message : String) (error_code : Option String)
    → Analysis
    → Result AnalysisStateError Analysis
unfolding require_status construct
fail now error_message error_code a = do
  require_status is_running a.status
  refuse (is_empty error_message) message_required
  construct (record a {
    status = failed;
    error_message = some error_message;
    error_code = error_code;
    completed_at = some now;
    updated_at = some now;
  })

unfoldable pub cancel : (now : ℕ) → Analysis → Result AnalysisStateError Analysis
unfolding construct
cancel now a = do
  refuse (not (is_pending a.status || is_running a.status)) (bad_transition a.status)
  construct (record a { status = cancelled; completed_at = some now; updated_at = some now })
