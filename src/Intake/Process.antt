-- ===== src/Intake/Process.antt =====
-- `process_upload` of backend/app/application/services/upload_service.py, with `_resolve_asset` and
-- `_fail_upload`: from a stream of bytes to a completed upload with its digital asset.
--
-- The SHA-256 digest is the library's, a parameter. The address, the request's id and the user agent only go into audit
-- records and are left out, and so is logging.
use sentinal.Prelude.{ℕ, String, Bool, true, false, Option, none, some, List, if◌then◌else◌}
use sentinal.Prelude.Chars.{text}
use sentinal.Prelude.Outcome.{Result, ok, err}
use sentinal.Upload
use sentinal.Upload.{Status, UploadError, start_processing}
use sentinal.Asset.{DigitalAsset, AssetError, Labels, create_file}
use sentinal.Validation.MediaType.{Text, codes, FileValidationError, validate_declared_mime_type}
use sentinal.Validation.Stream.{validate_upload_stream}
use sentinal.Storage.{
  UploadFault, from_client, unforeseen, Carried, default_part_size, upload_stream,
}
use sentinal.Repository.Session.{RepositoryException, not_found}
use sentinal.Intake.{derive_storage_key}
use sentinal.Intake.World.{
  Bucket, Settings, Request, Outside, IntakeError, upload_error, asset_error, validation_error,
  storage_error, repository_error, World, with_records, Returned,
}
use sentinal.Intake.Tables.{
  Records, upload_completed, create_upload, update_upload, get_by_idempotency_key, get_by_hash,
  create_asset, log_completed,
}

unfoldable pub storage_key_of : Outside → Request → String
unfolding derive_storage_key text
storage_key_of o q = text (derive_storage_key o.date o.key_id (codes q.original_filename))

abbrev pub write_status : (now : ℕ) → Upload.Upload → Upload.Upload → Upload.Upload
write_status now v row = record row { upload_status = v.upload_status; updated_at = some now }

abbrev pub write_failed : Upload.Upload → Upload.Upload → Upload.Upload
write_failed v row = record row {
  upload_status = v.upload_status;
  completed_at = v.completed_at;
  updated_at = v.updated_at;
}

-- `replace(completed, file_size_bytes=...)`
abbrev pub final_of : (size_bytes : ℕ) → Upload.Upload → Upload.Upload
final_of size_bytes completed = record completed { file_size_bytes = size_bytes }

abbrev pub write_final : Upload.Upload → Upload.Upload → Upload.Upload
write_final v row = record row {
  upload_status = v.upload_status;
  checksum_sha256 = v.checksum_sha256;
  digital_asset_id = v.digital_asset_id;
  file_size_bytes = v.file_size_bytes;
  completed_at = v.completed_at;
  updated_at = v.updated_at;
}

abbrev pub no_labels : Labels
no_labels = record { display_label = none; metadata_json = none; created_at = none }

-- an exception of the client that the adapter does not map passes `except (StorageError, ...)`
abbrev pub is_caught : UploadFault → Bool
is_caught (from_client unforeseen) = false
is_caught _ = true

-- after `self.asset_repo.create`
unfoldable pub after_asset :
    {S : Type 0}
    → World S
    → Result RepositoryException DigitalAsset × Records
    → Result IntakeError DigitalAsset × World S
after_asset w (ok a, db) = (ok a, with_records w db)
after_asset w (err e, db) = (err (repository_error e), with_records w db)

module _ (B : Bucket) (sha256 : List ℕ → String) where
  -- `_fail_upload`: an error of the update is logged and not raised again; one of `fail` is raised
  -- in place of the error that it was called for.
  unfoldable pub fail_upload :
      (o : Outside) (processing : Upload.Upload) (reason : IntakeError)
      → World B.State
      → Returned B.State
  unfolding Upload.fail update_upload
  fail_upload o processing reason w = elim (Upload.fail o.now processing) [
    | err e ↦ (err (upload_error e), w)
    | ok failed ↦
        (err reason, with_records w (update_upload processing.id (write_failed failed) w.records).1)
  ]

  -- after the final `self.upload_repo.update`
  unfoldable pub after_final :
      (o : Outside) (user_id asset_id : ℕ) (final : Upload.Upload)
      → World B.State
      → Result RepositoryException Upload.Upload × Records
      → Returned B.State
  after_final o user_id asset_id final w (err e, db) = (err (repository_error e), with_records w db)
  after_final o user_id asset_id final w (ok u, db) = (
    ok final,
    with_records w (log_completed o.audit (upload_completed user_id final.id asset_id) db),
  )

  -- after `processing.complete`
  unfoldable pub after_complete :
      (o : Outside) (user_id asset_id size_bytes : ℕ)
      → World B.State
      → Result UploadError Upload.Upload
      → Returned B.State
  unfolding after_final
  after_complete o user_id asset_id size_bytes w (err e) = (err (upload_error e), w)
  after_complete o user_id asset_id size_bytes w (ok completed) =
      let final = final_of size_bytes completed in
      after_final o user_id asset_id final w (update_upload final.id (write_final final) w.records)

  -- `self.asset_repo.create` of a new asset, behind `DigitalAsset.create_file`
  unfoldable pub store_asset :
      (o : Outside)
      → World B.State
      → Result AssetError DigitalAsset
      → Result IntakeError DigitalAsset × World B.State
  unfolding after_asset
  store_asset o w (err e) = (err (asset_error e), w)
  store_asset o w (ok a) = after_asset w (create_asset o.now a w.records)

  -- the best-effort deletion of the redundant object
  unfoldable pub drop_object : (o : Outside) (key : String) → World B.State → World B.State
  drop_object o key w = if o.delete_fails then w else record w { bucket = B.delete key w.bucket }

  -- `_resolve_asset`, after `self.asset_repo.get_by_hash`
  unfoldable pub resolve_asset :
      (o : Outside) (user_id : ℕ) (processing : Upload.Upload) (content_type checksum : String)
      (size_bytes : ℕ)
      → World B.State
      → Result RepositoryException DigitalAsset
      → Result IntakeError DigitalAsset × World B.State
  unfolding store_asset drop_object create_file
  resolve_asset o user_id processing content_type checksum size_bytes w (ok existing) =
      (ok existing, drop_object o processing.storage_key w)
  resolve_asset o user_id processing content_type checksum size_bytes w (err not_found) =
      store_asset o w (
        create_file o.now user_id checksum content_type size_bytes processing.original_filename
          o.asset_id (some processing.storage_key) no_labels)
  resolve_asset o user_id processing content_type checksum size_bytes w (err e) =
      (err (repository_error e), w)

  -- after `self._resolve_asset`
  unfoldable pub after_resolve :
      (o : Outside) (user_id : ℕ) (processing : Upload.Upload) (checksum : String) (size_bytes : ℕ)
      → Result IntakeError DigitalAsset × World B.State
      → Returned B.State
  unfolding after_complete Upload.complete
  after_resolve o user_id processing checksum size_bytes (err e, w) = (err e, w)
  after_resolve o user_id processing checksum size_bytes (ok asset, w) =
      after_complete o user_id asset.id size_bytes w
        (Upload.complete o.now asset.id checksum processing)

  -- after `self.storage.upload_stream`
  unfoldable pub after_stream :
      (o : Outside) (user_id : ℕ) (processing : Upload.Upload) (content_type : String)
      → World B.State
      → Result UploadFault (Unit {0}) × Carried
      → Returned B.State
  unfolding fail_upload resolve_asset after_resolve get_by_hash
  after_stream o user_id processing content_type w (err e, c) =
      if is_caught e
      then fail_upload o processing (storage_error e) w
      else (err (storage_error e), w)
  after_stream o user_id processing content_type w (ok u, (tee, s)) =
      let stored = record w { bucket = B.complete processing.storage_key s.parts w.bucket } in
      let checksum = sha256 tee.received in
      after_resolve o user_id processing checksum tee.size_bytes (
        resolve_asset o user_id processing content_type checksum tee.size_bytes stored
          (get_by_hash checksum stored.records))

  -- after `validate_upload_stream`
  unfoldable pub after_validation :
      Settings
      → (o : Outside) (user_id : ℕ) (processing : Upload.Upload) (content_type : String)
      → World B.State
      → Result FileValidationError (List (List ℕ))
      → Returned B.State
  unfolding after_stream
  after_validation s o user_id processing content_type w (err e) =
      fail_upload o processing (validation_error e) w
  after_validation s o user_id processing content_type w (ok replay) =
      after_stream o user_id processing content_type w
        (upload_stream default_part_size s.max_file_size o.replies replay)

  -- after `self.upload_repo.update` to the processing status
  unfoldable pub after_processing :
      Settings
      → (o : Outside) → Request
      → (processing : Upload.Upload) (normalized_type : Text) → World B.State
      → Result RepositoryException Upload.Upload × Records
      → Returned B.State
  unfolding after_validation
  after_processing s o q processing normalized_type w (err e, db) =
      (err (repository_error e), with_records w db)
  after_processing s o q processing normalized_type w (ok u, db) =
      after_validation s o q.user_id processing (text normalized_type) (with_records w db)
        (validate_upload_stream q.stream normalized_type s.allowed_mime_types)

  -- after `persisted.start_processing`
  unfoldable pub after_start :
      Settings
      → (o : Outside) → Request
      → (id : ℕ) (normalized_type : Text) → World B.State
      → Result UploadError Upload.Upload
      → Returned B.State
  unfolding after_processing
  after_start s o q id normalized_type w (err e) = (err (upload_error e), w)
  after_start s o q id normalized_type w (ok processing) =
      after_processing s o q processing normalized_type w
        (update_upload id (write_status o.now processing) w.records)

  -- after `self.upload_repo.create`
  unfoldable pub after_create :
      Settings
      → (o : Outside) → Request
      → (normalized_type : Text) → World B.State
      → Result RepositoryException Upload.Upload × Records
      → Returned B.State
  unfolding after_start start_processing
  after_create s o q normalized_type w (err e, db) = (err (repository_error e), with_records w db)
  after_create s o q normalized_type w (ok persisted, db) =
      after_start s o q persisted.id normalized_type (with_records w db)
        (start_processing o.now persisted)

  -- after `Upload.create`
  unfoldable pub after_entity :
      Settings
      → (o : Outside) → Request
      → (normalized_type : Text) → World B.State
      → Result UploadError Upload.Upload
      → Returned B.State
  unfolding after_create
  after_entity s o q normalized_type w (err e) = (err (upload_error e), w)
  after_entity s o q normalized_type w (ok u) =
      after_create s o q normalized_type w (create_upload o.now u w.records)

  -- after `validate_declared_mime_type`
  unfoldable pub after_declared :
      Settings
      → (o : Outside) → Request
      → World B.State
      → Result FileValidationError Text
      → Returned B.State
  unfolding after_entity Upload.create storage_key_of
  after_declared s o q w (err e) = (err (validation_error e), w)
  after_declared s o q w (ok normalized_type) = after_entity s o q normalized_type w (
      Upload.create o.now o.upload_id (some q.user_id) q.original_filename (storage_key_of o q)
        (text normalized_type) 0 q.idempotency_key none)

  -- the pipeline for a request that is no replay
  unfoldable pub take_in : Settings → (o : Outside) → Request → World B.State → Returned B.State
  unfolding after_declared
  take_in s o q w =
      after_declared s o q w
        (validate_declared_mime_type (codes q.content_type) s.allowed_mime_types)

  -- `self.upload_repo.get_by_idempotency_key`, with `suppress(NotFound)`
  unfoldable pub after_replay :
      Settings
      → (o : Outside) → Request
      → World B.State
      → Result RepositoryException Upload.Upload
      → Returned B.State
  unfolding take_in
  after_replay s o q w (ok original) = (ok original, w)
  after_replay s o q w (err not_found) = take_in s o q w
  after_replay s o q w (err e) = (err (repository_error e), w)

  -- the look-up of the original upload, when there is a key
  unfoldable pub replay_or_take :
      Settings
      → (o : Outside) → Request
      → (idempotency_key : Option String) → World B.State
      → Returned B.State
  unfolding after_replay
  replay_or_take s o q none w = take_in s o q w
  replay_or_take s o q (some key) w =
      after_replay s o q w (get_by_idempotency_key q.user_id key w.records)

  unfoldable pub process_upload :
      Settings → (o : Outside) → Request → World B.State → Returned B.State
  unfolding replay_or_take
  process_upload s o q w = replay_or_take s o q q.idempotency_key w
