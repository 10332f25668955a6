-- ===== src/Intake/Handle.antt =====
-- A request to upload a file, from its session's start to its end: `process_upload` of
-- backend/app/application/services/upload_service.py inside `get_db_session` of
-- backend/app/infrastructure/database/session.py.
use sentinal.Prelude.{ℕ, String, false, List, if◌then◌else◌}
use sentinal.Prelude.Outcome.{Result, ok, err, Exec}
use sentinal.Upload
use sentinal.Repository.Session.{RepositoryException, conflict}
use sentinal.Intake.Tables.{Tables, Records, rollback}
use sentinal.Intake.World.{
  Bucket, Settings, Request, Outside, IntakeError, repository_error, World, Returned,
}
use sentinal.Intake.Process.{process_upload}

-- `session.commit()`
unfoldable pub commit : Exec Records RepositoryException (Unit {0})
unfolding rollback
commit db =
    if db.is_broken
    then (err conflict, rollback db)
    else (ok tt, record db { committed = db.tables })

-- What outlives a request: the committed tables, and the objects.
pub record Kept (S : Type 0) : Type 0 where
  pub tables : Tables
  pub bucket : S

abbrev pub open_session : {S : Type 0} → Kept S → World S
open_session k = record {
  records = record { committed = k.tables; tables = k.tables; is_broken = false };
  bucket = k.bucket;
}

abbrev pub kept_of : {S : Type 0} → World S → Records → Kept S
kept_of w db = record { tables = db.committed; bucket = w.bucket }

unfoldable pub after_commit :
    {S : Type 0}
    → World S
    → Upload.Upload
    → Result RepositoryException (Unit {0}) × Records
    → Result IntakeError Upload.Upload × Kept S
after_commit w u (ok v, db) = (ok u, kept_of w db)
after_commit w u (err e, db) = (err (repository_error e), kept_of w db)

unfoldable pub end_session : {S : Type 0} → Returned S → Result IntakeError Upload.Upload × Kept S
unfolding after_commit commit rollback
end_session (ok u, w) = after_commit w u (commit w.records)
end_session (err e, w) = (err e, kept_of w (rollback w.records))

unfoldable pub handle_upload :
    (B : Bucket) (sha256 : List ℕ → String)
    → Settings
    → (o : Outside) → Request
    → Kept B.State
    → Result IntakeError Upload.Upload × Kept B.State
unfolding end_session process_upload
handle_upload B sha256 s o q k = end_session (process_upload B sha256 s o q (open_session k))
