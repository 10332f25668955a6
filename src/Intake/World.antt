-- ===== src/Intake/World.antt =====
-- What `process_upload` of backend/app/application/services/upload_service.py works on: its settings and
-- arguments, the database session, and object storage.
--
-- Object storage is the parameter `Bucket`, with what it documents as its laws.
use mathlib.Core.List.{flatten}
use sentinal.Prelude.{ℕ, ◌≡◌, ◌≢◌, String, Bool, Option, some, List, map}
use sentinal.Prelude.Outcome.{Result}
use sentinal.Upload
use sentinal.Upload.{Status, UploadError, start_processing}
use sentinal.Asset.{AssetError}
use sentinal.Validation.MediaType.{Text, FileValidationError}
use sentinal.Storage.{Replies, Part, UploadFault}
use sentinal.Storage.Parts.{body_of}
use sentinal.Service.{AuditOutcome}
use sentinal.Repository.Session.{RepositoryException}
use sentinal.Intake.Tables.{Records}

-- Object storage, to which only complete uploads and deletions matter: what PUT, DELETE and GET of
-- one object document.
pub record Bucket : Type 1 where
  pub State : Type 0
  pub complete : (key : String) → List Part → State → State
  pub delete : (key : String) → State → State
  pub get : State → (key : String) → Option (List ℕ)
  pub get-complete :
      (s : State) (key : String) (parts : List Part)
      → get (complete key parts s) key ≡ some (flatten (map body_of parts))
  pub get-complete_other :
      (s : State) (key other : String) (parts : List Part)
      → other ≢ key
      → get (complete key parts s) other ≡ get s other
  pub get-delete_other :
      (s : State) (key other : String) → other ≢ key → get (delete key s) other ≡ get s other

pub record Settings : Type 0 where
  pub allowed_mime_types : List Text
  pub max_file_size : ℕ

pub record Request : Type 0 where
  pub user_id : ℕ
  pub original_filename : String
  pub content_type : String
  pub stream : List (List ℕ)
  pub idempotency_key : Option String

-- What one call reads from outside: the time, the date in the object key, fresh identifiers, the
-- answers of storage, whether the deletion of a redundant object fails, and what becomes of the audit
-- record.
pub record Outside : Type 0 where
  pub now : ℕ
  pub date : Text
  pub upload_id : ℕ
  pub key_id : Text
  pub asset_id : ℕ
  pub replies : Replies
  pub delete_fails : Bool
  pub audit : AuditOutcome

pub data IntakeError : Type 0 where
  upload_error : UploadError → IntakeError
  asset_error : AssetError → IntakeError
  validation_error : FileValidationError → IntakeError
  storage_error : UploadFault → IntakeError
  repository_error : RepositoryException → IntakeError

pub record World (S : Type 0) : Type 0 where
  pub records : Records
  pub bucket : S

abbrev pub with_records : {S : Type 0} → World S → Records → World S
with_records w db = record w { records = db }

abbrev pub Returned : Type 0 → Type 0
Returned S = Result IntakeError Upload.Upload × World S
