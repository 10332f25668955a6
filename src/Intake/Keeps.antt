-- ===== src/Intake/Keeps.antt =====
-- What the operations on the tables of backend/app/infrastructure/database/repositories/upload.py and
-- digital_asset.py leave alone.
use sentinal.Prelude.{ℕ, ◌≡◌, ◌⊎◌, inl, inr, true, [], ◌∷◌, ◌++◌, any, arith, Bool-cases}
use sentinal.Prelude.Outcome.{Result, ok}
use sentinal.Upload
use sentinal.Asset.{DigitalAsset}
use sentinal.Service.{AuditOutcome}
use sentinal.Repository.Session.{RepositoryException}
use sentinal.Intake.Tables.{
  Records, UploadEvent, create_upload, update_upload, create_asset, log_completed, asset_clashes,
  stored_asset,
}

-- The committed tables stay; and after a call that returns so do the assets.
pub record Keeps {A : Type 0} (db : Records) (d : Result RepositoryException A × Records)
    : Type 0 where
  pub committed : d.1.committed ≡ db.committed
  pub assets : (a : A) → d.0 ≡ ok a → d.1.tables.assets ≡ db.tables.assets

pub create_upload-Keeps :
    (now : ℕ) (u : Upload.Upload) (db : Records) → Keeps db (create_upload now u db)
unfolding create_upload
create_upload-Keeps now u db = record { committed = ground arith; assets = λ a h. ground arith }

pub update_upload-Keeps :
    (id : ℕ) (write : Upload.Upload → Upload.Upload) (db : Records)
    → Keeps db (update_upload id write db)
unfolding update_upload
update_upload-Keeps id write db = record { committed = ground arith; assets = λ a h. ground arith }

pub log_completed_committed :
    (o : AuditOutcome) (e : UploadEvent) (db : Records)
    → (log_completed o e db).committed ≡ db.committed
unfolding log_completed
log_completed_committed o e db = ground arith

-- A record that is written or refused leaves the assets; one that fails in the flush breaks the session.
pub log_completed_assets :
    (o : AuditOutcome) (e : UploadEvent) (db : Records)
    → ((log_completed o e db).is_broken ≡ true)
      ⊎ ((log_completed o e db).tables.assets ≡ db.tables.assets)
unfolding log_completed
log_completed_assets AuditOutcome.written e db = inr (ground arith)
log_completed_assets AuditOutcome.refused e db = inr (ground arith)
log_completed_assets AuditOutcome.flush_failed e db = inl (ground arith)

-- An asset that is created stands at the end, and the table had no row with its identifiers.
pub create_asset_ok :
    (now : ℕ) (a b : DigitalAsset) (db : Records)
    → (create_asset now a db).0 ≡ ok b
    → (create_asset now a db).1.tables.assets ≡ db.tables.assets ++ stored_asset now a ∷ []
unfolding create_asset
create_asset_ok now a b db h = elim (Bool-cases db.is_broken) [
  | inl e ↦ ground arith
  | inr e ↦ elim (Bool-cases (any (asset_clashes a) db.tables.assets)) [
    | inl c ↦ ground arith
    | inr c ↦ ground arith
  ]
]

pub create_asset_committed :
    (now : ℕ) (a : DigitalAsset) (db : Records) → (create_asset now a db).1.committed ≡ db.committed
unfolding create_asset
create_asset_committed now a db = ground arith
