-- ===== src/Intake/Cleanup.antt =====
-- The clean-up of abandoned uploads: backend/app/workers/scheduled/upload_cleanup.py, with
-- `list_pending_before` of backend/app/infrastructure/database/repositories/upload.py.
--
-- The caller owns the session. Whether the deletion of an object fails is an argument.
use sentinal.Prelude.{
  ℕ, ◌-◌, ◌≡◌, refl, ap, String, Bool, true, false, ◌&&◌, suc, Option, none, some, List, [], ◌∷◌,
  ltb, leb, take, take_all, arith, if◌then◌else◌, is_empty,
}
use sentinal.Prelude.Outcome.{Result, ok, err, ◌>>=◌}
use sentinal.Upload
use sentinal.Storage.{UploadFault}
use sentinal.Repository.Session.{RepositoryException, conflict}
use sentinal.Intake.Tables.{Records, update_upload, read_upload}
use sentinal.Intake.World.{
  Bucket, Settings, Request, Outside, IntakeError, storage_error, repository_error, World,
  with_records,
}
use sentinal.Intake.Handle.{Kept, open_session, handle_upload}
use sentinal.Intake.Completed.{are_completed, handle_upload_completes}

unfoldable pub is_stale : (cutoff : ℕ) → Upload.Upload → Bool
is_stale cutoff u = Upload.is_pending u.upload_status && ltb u.created_at cutoff

-- `ORDER BY created_at`
unfoldable pub insert_by_age : Upload.Upload → List Upload.Upload → List Upload.Upload
insert_by_age u [] = u ∷ []
insert_by_age u (v ∷ uploads) =
    let later = insert_by_age u uploads in
    if leb u.created_at v.created_at then u ∷ v ∷ uploads else v ∷ later

unfoldable pub stale_by_age : (cutoff : ℕ) → List Upload.Upload → List Upload.Upload
unfolding is_stale insert_by_age
stale_by_age cutoff [] = []
stale_by_age cutoff (u ∷ uploads) =
    let rest = stale_by_age cutoff uploads in
    if is_stale cutoff u then insert_by_age u rest else rest

unfoldable pub read_all : List Upload.Upload → Result RepositoryException (List Upload.Upload)
unfolding Upload.construct
read_all [] = ok []
read_all (u ∷ uploads) = do v ← read_upload u; rest ← read_all uploads; ok (v ∷ rest)

unfoldable pub list_pending_before :
    (cutoff limit : ℕ) → Records → Result RepositoryException (List Upload.Upload)
unfolding stale_by_age read_all
list_pending_before cutoff limit db =
    if db.is_broken
    then err conflict
    else read_all (take limit (stale_by_age cutoff db.tables.uploads))

abbrev pub write_abandoned : (now : ℕ) → Upload.Upload → Upload.Upload
write_abandoned now row = record row {
  upload_status = Upload.failed;
  completed_at = some now;
  updated_at = some now;
}

module _ (B : Bucket) (delete_fault : String → Option UploadFault) where
  abbrev pub Cleaned : Type 0
  Cleaned = Result IntakeError ℕ × World B.State

  -- `await storage.delete(upload.storage_key)`, when there is a key
  unfoldable pub delete_object :
      (key : String) → World B.State → Result IntakeError (Unit {0}) × World B.State
  delete_object key w = if is_empty key then (ok tt, w) else elim (delete_fault key) [
    | some e ↦ (err (storage_error e), w)
    | none ↦ (ok tt, record w { bucket = B.delete key w.bucket })
  ]

  unfoldable pub after_abandoned :
      (key : String)
      → World B.State
      → Result RepositoryException Upload.Upload × Records
      → Result IntakeError (Unit {0}) × World B.State
  unfolding delete_object
  after_abandoned key w (err e, db) = (err (repository_error e), with_records w db)
  after_abandoned key w (ok u, db) = delete_object key (with_records w db)

  unfoldable pub clean_all :
      (now : ℕ) → List Upload.Upload → (cleaned_count : ℕ) → World B.State → Cleaned
  unfolding after_abandoned update_upload
  clean_all now [] cleaned_count w = (ok cleaned_count, w)
  clean_all now (u ∷ uploads) cleaned_count w =
      let d =
        after_abandoned u.storage_key w (update_upload u.id (write_abandoned now) w.records) in
      let rest = clean_all now uploads (suc cleaned_count) d.1 in
      elim d.0 [ err e ↦ (err e, d.1) | ok v ↦ rest ]

  unfoldable pub after_listing :
      (now : ℕ) → World B.State → Result RepositoryException (List Upload.Upload) → Cleaned
  unfolding clean_all
  after_listing now w (err e) = (err (repository_error e), w)
  after_listing now w (ok uploads) = clean_all now uploads 0 w

  -- A day is 86400 seconds, and times count from 1970.
  unfoldable pub cleanup_abandoned_uploads : (now max_batch_size : ℕ) → World B.State → Cleaned
  unfolding after_listing list_pending_before
  cleanup_abandoned_uploads now max_batch_size w =
      after_listing now w (list_pending_before (now - 86400) max_batch_size w.records)

  none_stale :
      (cutoff : ℕ) (uploads : List Upload.Upload)
      → are_completed uploads ≡ true
      → stale_by_age cutoff uploads ≡ []
  unfolding are_completed stale_by_age is_stale
  none_stale cutoff [] h = refl
  none_stale cutoff (u ∷ uploads) h = ground (arith, none_stale cutoff uploads)

  none_listed :
      (cutoff limit : ℕ) (db : Records)
      → db.is_broken ≡ false
      → are_completed db.tables.uploads ≡ true
      → list_pending_before cutoff limit db ≡ ok []
  unfolding list_pending_before read_all
  none_listed cutoff limit db whole h =
      rw (whole, none_stale cutoff db.tables.uploads h)
        (ap read_all (take_all limit [] (omega arith)))

-- Requests one after the other.
unfoldable pub handle_all :
    (B : Bucket) (sha256 : List ℕ → String)
    → Settings
    → List (Outside × Request)
    → Kept B.State
    → Kept B.State
unfolding handle_upload
handle_all B sha256 st [] k = k
handle_all B sha256 st ((o, q) ∷ requests) k =
    handle_all B sha256 st requests (handle_upload B sha256 st o q k).1

handle_all_completes :
    (B : Bucket) (sha256 : List ℕ → String) (st : Settings) (requests : List (Outside × Request))
    (k : Kept B.State)
    → are_completed k.tables.uploads ≡ true
    → are_completed (handle_all B sha256 st requests k).tables.uploads ≡ true
unfolding handle_all
handle_all_completes B sha256 st [] k h = h
handle_all_completes B sha256 st ((o, q) ∷ requests) k h =
    handle_all_completes B sha256 st requests (handle_upload B sha256 st o q k).1
      (handle_upload_completes B sha256 st o q k h)

-- Where only completed uploads are committed, that stays so over any sequence of upload requests,
-- refused ones included; and a clean-up after them finds no abandoned upload, whatever its time and
-- batch size, and leaves the session and object storage alone.
pub cleanup_idle :
    (B : Bucket) (sha256 : List ℕ → String) (st : Settings) (requests : List (Outside × Request))
    (k : Kept B.State) (delete_fault : String → Option UploadFault) (now max_batch_size : ℕ)
    → are_completed k.tables.uploads ≡ true
    → (are_completed (handle_all B sha256 st requests k).tables.uploads ≡ true)
      × (cleanup_abandoned_uploads B delete_fault now max_batch_size
            (open_session (handle_all B sha256 st requests k))
          ≡ (ok 0, open_session (handle_all B sha256 st requests k)))
unfolding cleanup_abandoned_uploads
cleanup_idle B sha256 st requests k delete_fault now max_batch_size h =
    let after = handle_all_completes B sha256 st requests k h in
    (
      after,
      rw
          (none_listed B delete_fault (now - 86400) max_batch_size
            (open_session (handle_all B sha256 st requests k)).records refl after)
          refl,
    )
