-- ===== src/Repository/Session.antt =====
-- The operations of backend/app/infrastructure/database/repositories/base.py on the analyses table,
-- inside a database session. The state is the session: what is committed, what the transaction
-- sees, and whether a failed flush has left it unusable until it is rolled back.
use sentinal.Prelude.{
  ℕ, String, Bool, true, false, not, ◌&&◌, ◌||◌, Option, none, some, List, [], ◌∷◌, ◌++◌, ◌==◌,
  str_eq, any, leb, if◌then◌else◌,
}
use sentinal.Prelude.Outcome.{Result, ok, err, Exec}
use sentinal.Upload.{text_length}
use sentinal.Value.{Confidence, in_unit}
use sentinal.Analysis.{is_completed, in_valid_statuses, Analysis, AnalysisStateError}
use sentinal.Repository.Rows.{Row, to_orm, to_domain}

-- backend/app/domain/exceptions.py, as `map_db_exception` makes them
pub data RepositoryException : Type 0 where
  not_found already_exists constraint_violation conflict : RepositoryException

pub record Session : Type 0 where
  pub committed : List Row
  pub rows : List Row
  pub is_broken : Bool

unfoldable pub find_row : ℕ → List Row → Option Row
find_row id [] = none
find_row id (r ∷ rows) = if r.id == id then some r else find_row id rows

unfoldable pub write_row : ℕ → Row → List Row → List Row
write_row id new [] = []
write_row id new (r ∷ rows) = if r.id == id then new ∷ rows else r ∷ write_row id new rows

unfoldable pub delete_row : ℕ → List Row → List Row
delete_row id [] = []
delete_row id (r ∷ rows) = if r.id == id then rows else r ∷ delete_row id rows

abbrev pub known_severity : Option String → Bool
known_severity none = true
known_severity (some s) =
    str_eq s "LOW" || str_eq s "MEDIUM" || str_eq s "HIGH" || str_eq s "CRITICAL"

abbrev in_unit_or_null : Option Confidence → Bool
in_unit_or_null none = true
in_unit_or_null (some c) = in_unit c

-- a text has at most `size` characters
unfoldable pub fits : (size : ℕ) → Option String → Bool
unfolding text_length
fits size none = true
fits size (some s) = leb (text_length s) size

-- the sizes of the VARCHAR columns; those of `status` and `severity` hold the words of the CHECK
-- constraints
unfoldable pub columns_fit : Row → Bool
unfolding fits
columns_fit r =
    fits 255 (some r.analyzer_key)
    && fits 50 (some r.analyzer_version)
    && fits 255 r.celery_task_id
    && fits 1024 r.error_message
    && fits 100 r.error_code

-- the VARCHAR sizes and the CHECK constraints of the table
unfoldable pub checks_hold : Row → Bool
unfolding in_unit in_valid_statuses columns_fit
checks_hold r =
    columns_fit r
    && in_valid_statuses r.status
    && in_unit_or_null r.threat_score
    && in_unit_or_null r.confidence
    && known_severity r.severity

abbrev pub same_triple : Row → Row → Bool
same_triple r s =
    r.digital_asset_id == s.digital_asset_id
    && str_eq r.analyzer_key s.analyzer_key
    && str_eq r.analyzer_version s.analyzer_version

-- the unique index on the triple, for completed rows, seen from the row that is written
unfoldable pub violates_unique : Row → List Row → Bool
violates_unique new rows =
    is_completed new.status
    && any (λ r. not (r.id == new.id) && is_completed r.status && same_triple new r) rows

abbrev pub broken : Session → Session
broken s = record s { rows = s.committed; is_broken = true }

-- `flush` of one written row: `after` is the table with the row in it. A text that is too long for its
-- column is no `IntegrityError`, and is mapped to `ConflictError`.
unfoldable pub flush : Row → List Row → Exec Session RepositoryException (Unit {0})
unfolding checks_hold columns_fit violates_unique
flush new after s =
    if not (columns_fit new)
    then (err conflict, broken s)
    else if violates_unique new after
    then (err already_exists, broken s)
    else if checks_hold new
    then (ok tt, record s { rows = after })
    else (err constraint_violation, broken s)

-- An entity that `_to_domain` cannot build is mapped to `ConflictError`.
unfoldable pub mapped : Result AnalysisStateError Analysis → Result RepositoryException Analysis
mapped (ok a) = ok a
mapped (err e) = err conflict

unfoldable pub read_back :
    Row
    → Result RepositoryException (Unit {0}) × Session
    → Result RepositoryException Analysis × Session
unfolding mapped
read_back new (ok u, s) = (mapped (to_domain new), s)
read_back new (err e, s) = (err e, s)

abbrev has_id : ℕ → List Row → Bool
has_id id rows = any (λ r. r.id == id) rows

unfoldable pub create :
    (now : ℕ) → (asset : ℕ) → Analysis → Exec Session RepositoryException Analysis
unfolding flush read_back
create now asset a s =
    let new = to_orm now asset a in
    if s.is_broken
    then (err conflict, s)
    else if has_id new.id s.rows
    then (err already_exists, broken s)
    else read_back new (flush new (s.rows ++ new ∷ []) s)

abbrev found_by_id : Option Row → Result RepositoryException Analysis
found_by_id none = err not_found
found_by_id (some r) = mapped (to_domain r)

unfoldable pub get_by_id : ℕ → Exec Session RepositoryException Analysis
unfolding mapped
get_by_id id s = if s.is_broken then (err conflict, s) else (found_by_id (find_row id s.rows), s)

-- `update(entity_id, updates)`: `write` sets the attributes that the dictionary names.
unfoldable pub update_row : ℕ → (Row → Row) → Option Row → Exec Session RepositoryException Analysis
unfolding flush read_back
update_row id write none s = (err not_found, s)
update_row id write (some r) s =
    read_back (write r) (flush (write r) (write_row id (write r) s.rows) s)

unfoldable pub update : ℕ → (Row → Row) → Exec Session RepositoryException Analysis
unfolding update_row
update id write s =
    if s.is_broken then (err conflict, s) else update_row id write (find_row id s.rows) s

-- Analyses are removed, and a missing row is no error.
unfoldable pub delete : ℕ → Exec Session RepositoryException (Unit {0})
delete id s =
    if s.is_broken then (err conflict, s) else (ok tt, record s { rows = delete_row id s.rows })

unfoldable pub find_completed : (asset : ℕ) (key version : String) → List Row → Option Row
find_completed asset key version [] = none
find_completed asset key version (r ∷ rows) =
    if r.digital_asset_id == asset
      && str_eq r.analyzer_key key
      && str_eq r.analyzer_version version
      && is_completed r.status
    then some r
    else find_completed asset key version rows

abbrev optional_entity : Option Row → Result RepositoryException (Option Analysis)
optional_entity none = ok none
optional_entity (some r) = elim (to_domain r) [ ok a ↦ ok (some a) | err e ↦ err conflict ]

unfoldable pub get_completed_analysis :
    (asset : ℕ) (key version : String) → Exec Session RepositoryException (Option Analysis)
get_completed_analysis asset key version s =
    if s.is_broken
    then (err conflict, s)
    else (optional_entity (find_completed asset key version s.rows), s)

unfoldable pub rollback : Session → Session
rollback s = record { committed = s.committed; rows = s.committed; is_broken = false }

-- `session.commit()`, which a failed flush before it makes raise; closing the session rolls back.
unfoldable pub commit : Exec Session RepositoryException (Unit {0})
unfolding rollback
commit s =
    if s.is_broken then (err conflict, rollback s) else (ok tt, record s { committed = s.rows })
