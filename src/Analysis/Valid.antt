-- ===== src/Analysis/Valid.antt =====
-- What `validate` of backend/app/domain/entities/analysis.py accepts.
use sentinal.Prelude.{◌≡◌, ◌≢◌, ◌⊎◌, false, none, arith, is_empty, is_blank}
use sentinal.Prelude.Outcome.{ok}
use sentinal.Analysis.{Analysis, Status, pending, running, completed, failed, cancelled, validate}

abbrev pub IsTerminal : Status → Type 0
IsTerminal s = (s ≡ completed) ⊎ (s ≡ failed) ⊎ (s ≡ cancelled)

abbrev pub IsOpen : Status → Type 0
IsOpen s = (s ≡ pending) ⊎ (s ≡ running)

-- The invariants of the entity, as its documentation lists them.
pub record IsValid (a : Analysis) : Type 0 where
  pub has_asset : a.digital_asset_id ≢ none
  pub known_status : IsOpen a.status ⊎ IsTerminal a.status
  pub has_key : is_empty a.analyzer_key ≡ false
  pub has_version : is_empty a.analyzer_version ≡ false
  pub has_result : a.status ≡ completed → a.result ≢ none
  pub has_message : a.status ≡ failed → is_blank a.error_message ≡ false
  pub closed : IsTerminal a.status → a.completed_at ≢ none
  pub still_open : IsOpen a.status → a.completed_at ≡ none

pub validate-IsValid : (a : Analysis) → validate a ≡ ok tt → IsValid a
unfolding validate
validate-IsValid a h = ground arith

pub IsValid-validate : (a : Analysis) → IsValid a → validate a ≡ ok tt
unfolding validate
IsValid-validate a v = ground arith
