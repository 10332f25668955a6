-- ===== src/Intake/Tables.antt =====
-- The tables of uploads and assets inside a request's database session
-- (backend/app/infrastructure/database/repositories/upload.py, digital_asset.py and base.py, with the
-- constraints of backend/app/models/upload.py and digital_asset.py).
--
-- The owner of a row is a user that the request has authenticated, so the foreign keys on users hold.
-- A flush that violates a constraint leaves the session broken until it is rolled back.
use sentinal.Prelude.{
  ℕ, String, Bool, true, false, not, ◌&&◌, ◌||◌, Option, none, some, List, [], ◌∷◌, ◌++◌, ◌==◌, any,
  is_none, str_eq, if◌then◌else◌,
}
use sentinal.Prelude.Case.{lower}
use sentinal.Prelude.Outcome.{Result, ok, err, Exec}
use sentinal.Upload
use sentinal.Upload.{UploadError}
use sentinal.Asset
use sentinal.Asset.{DigitalAsset, AssetError, same_type}
use sentinal.Service.{AuditOutcome, written, refused, flush_failed}
use sentinal.Repository.Session.{
  RepositoryException, not_found, already_exists, constraint_violation, conflict,
}

-- `log_upload_completed`
pub data UploadEvent : Type 0 where
  upload_completed : (user_id upload_id asset_id : ℕ) → UploadEvent

pub record Tables : Type 0 where
  pub uploads : List Upload.Upload
  pub assets : List DigitalAsset
  pub audit : List UploadEvent

pub record Records : Type 0 where
  pub committed : Tables
  pub tables : Tables
  pub is_broken : Bool

abbrev pub broken : Records → Records
broken db = record db { tables = db.committed; is_broken = true }

unfoldable pub rollback : Records → Records
rollback db = record { committed = db.committed; tables = db.committed; is_broken = false }

abbrev pub with_uploads : List Upload.Upload → Records → Records
with_uploads uploads db = record db { tables = record db.tables { uploads = uploads } }

abbrev pub with_assets : List DigitalAsset → Records → Records
with_assets assets db = record db { tables = record db.tables { assets = assets } }

-- `_to_orm` leaves the timestamps to the column defaults, and `_to_domain` leaves `deleted_at` out.
abbrev pub stored_upload : (now : ℕ) → Upload.Upload → Upload.Upload
stored_upload now u = record u { created_at = now; updated_at = some now; deleted_at = none }

-- An entity that `_to_domain` cannot build is mapped to `ConflictError`.
abbrev pub read_upload : Upload.Upload → Result RepositoryException Upload.Upload
read_upload u = elim (Upload.construct u) [ ok v ↦ ok v | err e ↦ err conflict ]

-- both are keys, and they are the same
unfoldable pub same_key : Option String → Option String → Bool
same_key (some k) (some l) = str_eq k l
same_key _ _ = false

unfoldable pub same_user : Option ℕ → Option ℕ → Bool
same_user (some i) (some j) = i == j
same_user _ _ = false

-- the primary key, the unique storage key, and the unique index on a user's idempotency keys
unfoldable pub upload_clashes : Upload.Upload → Upload.Upload → Bool
unfolding same_key same_user
upload_clashes new u =
    u.id == new.id
    || str_eq u.storage_key new.storage_key
    || (same_user u.user_id new.user_id && same_key u.idempotency_key new.idempotency_key)

unfoldable pub create_upload :
    (now : ℕ) → Upload.Upload → Exec Records RepositoryException Upload.Upload
unfolding upload_clashes Upload.construct
create_upload now u db =
    if db.is_broken
    then (err conflict, db)
    else if any (upload_clashes u) db.tables.uploads
    then (err already_exists, broken db)
    else (
      read_upload (stored_upload now u),
      with_uploads (db.tables.uploads ++ stored_upload now u ∷ []) db,
    )

unfoldable pub find_upload : ℕ → List Upload.Upload → Option Upload.Upload
find_upload id [] = none
find_upload id (u ∷ uploads) = if u.id == id then some u else find_upload id uploads

unfoldable pub write_upload :
    ℕ → (Upload.Upload → Upload.Upload) → List Upload.Upload → List Upload.Upload
write_upload id write [] = []
write_upload id write (u ∷ uploads) =
    if u.id == id then write u ∷ uploads else u ∷ write_upload id write uploads

-- `ck_uploads_digital_asset_completed`, and the check of the status
abbrev pub upload_checks : Upload.Upload → Bool
upload_checks u =
    Upload.in_valid_statuses u.upload_status
    && (is_none u.digital_asset_id || Upload.is_completed u.upload_status)

-- The flush of a changed row sets `updated_at` where the dictionary does not.
unfoldable pub update_upload :
    ℕ → (Upload.Upload → Upload.Upload) → Exec Records RepositoryException Upload.Upload
unfolding Upload.construct Upload.in_valid_statuses
update_upload id write db =
    if db.is_broken then (err conflict, db) else elim (find_upload id db.tables.uploads) [
      | none ↦ (err not_found, db)
      | some u ↦
          if not (upload_checks (write u))
          then (err constraint_violation, broken db)
          else (read_upload (write u), with_uploads (write_upload id write db.tables.uploads) db)
    ]

unfoldable pub find_idempotent :
    (user_id : ℕ) (key : String) → List Upload.Upload → Option Upload.Upload
unfolding same_key same_user
find_idempotent user_id key [] = none
find_idempotent user_id key (u ∷ uploads) =
    if same_user u.user_id (some user_id)
      && same_key u.idempotency_key (some key)
      && is_none u.deleted_at
    then some u
    else find_idempotent user_id key uploads

unfoldable pub get_by_idempotency_key :
    (user_id : ℕ) (key : String) → Records → Result RepositoryException Upload.Upload
unfolding find_idempotent Upload.construct
get_by_idempotency_key user_id key db =
    if db.is_broken then err conflict else elim (find_idempotent user_id key db.tables.uploads) [
      | none ↦ err not_found
      | some u ↦ read_upload u
    ]

abbrev pub hash_matches : String → Option String → Bool
hash_matches hash none = false
hash_matches hash (some s) = str_eq (lower s) (lower hash)

unfoldable pub find_hash : String → List DigitalAsset → Option DigitalAsset
unfolding lower
find_hash hash [] = none
find_hash hash (a ∷ assets) =
    if hash_matches hash a.sha256_hash && is_none a.deleted_at
    then some a
    else find_hash hash assets

abbrev pub found_asset : Option DigitalAsset → Result RepositoryException DigitalAsset
found_asset none = err not_found
found_asset (some a) = elim (Asset.construct a) [ ok v ↦ ok v | err e ↦ err conflict ]

unfoldable pub get_by_hash : String → Records → Result RepositoryException DigitalAsset
unfolding find_hash Asset.construct
get_by_hash hash db =
    if db.is_broken then err conflict else found_asset (find_hash hash db.tables.assets)

-- the primary key, the unique identity, and the unique index on hashes
unfoldable pub asset_clashes : DigitalAsset → DigitalAsset → Bool
unfolding same_key same_type
asset_clashes new a =
    a.id == new.id
    || (a.user_id == new.user_id
        && str_eq a.normalized_value new.normalized_value
        && same_type a.asset_type new.asset_type)
    || same_key a.sha256_hash new.sha256_hash

abbrev pub stored_asset : (now : ℕ) → DigitalAsset → DigitalAsset
stored_asset now a = record a { created_at = now; updated_at = some now }

unfoldable pub create_asset :
    (now : ℕ) → DigitalAsset → Exec Records RepositoryException DigitalAsset
unfolding asset_clashes Asset.construct
create_asset now a db =
    if db.is_broken
    then (err conflict, db)
    else if any (asset_clashes a) db.tables.assets
    then (err already_exists, broken db)
    else (
      found_asset (some (stored_asset now a)),
      with_assets (db.tables.assets ++ stored_asset now a ∷ []) db,
    )

-- The audit record is written in the same session; its failure is logged and not raised again.
unfoldable pub log_completed : AuditOutcome → UploadEvent → Records → Records
log_completed o e db = if db.is_broken then db else elim o [
  | written ↦ record db { tables = record db.tables { audit = db.tables.audit ++ e ∷ [] } }
  | refused ↦ db
  | flush_failed ↦ broken db
]
