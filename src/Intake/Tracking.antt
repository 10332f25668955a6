-- ===== src/Intake/Tracking.antt =====
-- What an upload request leaves of the uploads (`process_upload` of
-- backend/app/application/services/upload_service.py).
use mathlib.Core.Path.{subst}
use sentinal.Prelude.{
  ℕ, none, some, String, ◌≡◌, inl, inr, refl, sym, ap, ◌∙◌, false, List, arith, Bool-cases,
}
use sentinal.Prelude.Outcome.{Result, ok, err, Result-cases}
use sentinal.Upload
use sentinal.Upload.{UploadError, start_processing}
use sentinal.Asset.{DigitalAsset, AssetError}
use sentinal.Validation.MediaType.{FileValidationError}
use sentinal.Storage.{UploadFault, Carried}
use sentinal.Repository.Session.{
  RepositoryException, not_found, already_exists, constraint_violation, conflict,
}
use sentinal.Intake.Tables.{
  Records, create_upload, get_by_idempotency_key, upload_completed, create_asset, update_upload,
  get_by_hash, log_completed,
}
use sentinal.Intake.World.{
  Bucket, Settings, Request, Outside, IntakeError, World, Returned, with_records, storage_error,
}
use sentinal.Intake.Process.{
  fail_upload, drop_object, after_asset, store_asset, write_status, write_final, write_failed,
  final_of, after_final, after_complete, resolve_asset, after_resolve, after_stream,
  after_validation, is_caught,
}
use sentinal.Intake.Remembered.{log_completed_uploads}

pub ok_same : {E A : Type 0} (a b : A) → ◌≡◌ {A = Result E A} (ok a) (ok b) → a ≡ b
ok_same a b h = ground arith

pub not_ok : {E A : Type 0} (e : E) (a : A) → ◌≡◌ {A = Result E A} (err e) (ok a) → ⊥
not_ok e a h = ground arith

complete_lem :
    (now asset_id : ℕ) (checksum : String) (p u : Upload.Upload)
    → Upload.complete now asset_id checksum p ≡ ok u
    → (u.id ≡ p.id) × (u.upload_status ≡ Upload.completed)
unfolding Upload.complete Upload.transitioned Upload.construct
complete_lem now asset_id checksum p u h = ground arith

pub start_id : (now : ℕ) (p u : Upload.Upload) → start_processing now p ≡ ok u → u.id ≡ p.id
unfolding start_processing Upload.transitioned Upload.construct
start_id now p u h = ground arith

create_asset_uploads :
    (now : ℕ) (a b : DigitalAsset) (db : Records)
    → (create_asset now a db).0 ≡ ok b
    → (create_asset now a db).1.tables.uploads ≡ db.tables.uploads
unfolding create_asset
create_asset_uploads now a b db h = ground arith

-- What is followed of the uploads through a request: from its start, over the creation of its row, to
-- its completion.
pub record Tracking (q : Request) : Type 1 where
  pub Start : List Upload.Upload → Type 0
  pub Fresh : List Upload.Upload → Type 0
  pub Open : ℕ → List Upload.Upload → Type 0
  pub Done : ℕ → List Upload.Upload → Type 0
  pub unkeyed :
      (uploads : List Upload.Upload) → q.idempotency_key ≡ none → Start uploads → Fresh uploads
  pub missed :
      (key : String) (db : Records)
      → q.idempotency_key ≡ some key
      → get_by_idempotency_key q.user_id key db ≡ err not_found
      → Start db.tables.uploads
      → Fresh db.tables.uploads
  pub replayed :
      (key : String) (u : Upload.Upload) (db : Records)
      → q.idempotency_key ≡ some key
      → get_by_idempotency_key q.user_id key db ≡ ok u
      → Start db.tables.uploads
      → Done u.id db.tables.uploads
  pub begun :
      (now : ℕ) (u v : Upload.Upload) (db : Records)
      → u.user_id ≡ some q.user_id
      → u.idempotency_key ≡ q.idempotency_key
      → (create_upload now u db).0 ≡ ok v
      → Fresh db.tables.uploads
      → Open v.id (create_upload now u db).1.tables.uploads
  pub progressed :
      (id now : ℕ) (p v : Upload.Upload) (db : Records)
      → (update_upload id (write_status now p) db).0 ≡ ok v
      → Open id db.tables.uploads
      → Open id (update_upload id (write_status now p) db).1.tables.uploads
  pub finished :
      (c v : Upload.Upload) (db : Records)
      → c.upload_status ≡ Upload.completed
      → (update_upload c.id (write_final c) db).0 ≡ ok v
      → Open c.id db.tables.uploads
      → Done c.id (update_upload c.id (write_final c) db).1.tables.uploads

module _ (B : Bucket) (sha256 : List ℕ → String) (q : Request) (t : Tracking q) where
  -- What holds of the uploads behind an answer.
  abbrev pub Answered : Returned B.State → Type 0
  Answered (r, w) =
      (u : Upload.Upload)
      → r ≡ ok u
      → w.records.is_broken ≡ false
      → t.Done u.id w.records.tables.uploads

  pub no_answer : (e : IntakeError) (w : World B.State) → Answered (err e, w)
  no_answer e w u h = absurd (not_ok e u h)

  fail_upload-Answered :
      (o : Outside) (p : Upload.Upload) (reason : IntakeError) (w : World B.State)
      → Answered (fail_upload B sha256 o p reason w)
  unfolding fail_upload
  fail_upload-Answered o p reason w = elim (Result-cases (Upload.fail o.now p)) [
    | inl (failed, e) ↦
        rw (fail_upload, e)
          (no_answer reason (with_records w (update_upload p.id (write_failed failed) w.records).1))
    | inr (x, e) ↦ rw (fail_upload, e) (no_answer _ w)
  ]

  after_final-Answered :
      (o : Outside) (asset_id : ℕ) (final : Upload.Upload) (w : World B.State)
      (d : Result RepositoryException Upload.Upload × Records)
      → ((v : Upload.Upload) → d.0 ≡ ok v → t.Done final.id d.1.tables.uploads)
      → Answered (after_final B sha256 o q.user_id asset_id final w d)
  unfolding after_final
  after_final-Answered o asset_id final w (err e, db) m = no_answer _ (with_records w db)
  after_final-Answered o asset_id final w (ok v, db) m = λ u h whole.
      elim (log_completed_uploads o.audit (upload_completed q.user_id final.id asset_id) db) [
        | inl broken ↦ ground arith
        | inr same ↦
            subst
              (λ x.
                t.Done x.id
                  (log_completed o.audit (upload_completed q.user_id final.id asset_id)
                    db).tables.uploads)
              (ok_same final u h) (subst (t.Done final.id) (sym same) (m v refl))
      ]

  after_complete-Answered :
      (o : Outside) (asset_id size : ℕ) (id : ℕ) (w : World B.State)
      (r : Result UploadError Upload.Upload)
      → t.Open id w.records.tables.uploads
      → ((u : Upload.Upload) → r ≡ ok u → (u.id ≡ id) × (u.upload_status ≡ Upload.completed))
      → Answered (after_complete B sha256 o q.user_id asset_id size w r)
  unfolding after_complete
  after_complete-Answered o asset_id size id w (err e) m at = no_answer _ w
  after_complete-Answered o asset_id size id w (ok c) m at =
      let final = final_of size c in
      after_final-Answered o asset_id final w _ (λ v h.
        t.finished final v w.records (at c refl).1 h
          (subst (λ x. t.Open x w.records.tables.uploads) (sym (at c refl).0) m))

  -- A step that, when it returns, leaves the uploads.
  abbrev KeepsUploads : World B.State → Result IntakeError DigitalAsset × World B.State → Type 0
  KeepsUploads w (r, w') =
      (a : DigitalAsset) → r ≡ ok a → w'.records.tables.uploads ≡ w.records.tables.uploads

  keeps_nothing : (w w' : World B.State) (e : IntakeError) → KeepsUploads w (err e, w')
  keeps_nothing w w' e a h = ground arith

  after_asset-KeepsUploads :
      (w : World B.State) (now : ℕ) (a : DigitalAsset)
      (d : Result RepositoryException DigitalAsset × Records)
      → create_asset now a w.records ≡ d
      → KeepsUploads w (after_asset w d)
  unfolding after_asset
  after_asset-KeepsUploads w now a (err e, db) made = keeps_nothing w (with_records w db) _
  after_asset-KeepsUploads w now a (ok b, db) made = λ c h.
      ap (λ x. x.1.tables.uploads) (sym made)
      ∙ create_asset_uploads now a b w.records (ap (λ x. x.0) made)

  store_asset-KeepsUploads :
      (o : Outside) (w : World B.State) (r : Result AssetError DigitalAsset)
      → KeepsUploads w (store_asset B sha256 o w r)
  unfolding store_asset
  store_asset-KeepsUploads o w (err e) = keeps_nothing w w _
  store_asset-KeepsUploads o w (ok a) = after_asset-KeepsUploads w o.now a _ refl

  drop_object_uploads :
      (o : Outside) (at : String) (w : World B.State)
      → (drop_object B sha256 o at w).records.tables.uploads ≡ w.records.tables.uploads
  unfolding drop_object
  drop_object_uploads o at w = ground arith

  resolve_asset-KeepsUploads :
      (o : Outside) (p : Upload.Upload) (type checksum : String) (size : ℕ) (w : World B.State)
      (r : Result RepositoryException DigitalAsset)
      → KeepsUploads w (resolve_asset B sha256 o q.user_id p type checksum size w r)
  unfolding resolve_asset
  resolve_asset-KeepsUploads o p type checksum size w (ok existing) =
      λ a h. drop_object_uploads o p.storage_key w
  resolve_asset-KeepsUploads o p type checksum size w (err not_found) =
      store_asset-KeepsUploads o w _
  resolve_asset-KeepsUploads o p type checksum size w (err already_exists) = keeps_nothing w w _
  resolve_asset-KeepsUploads o p type checksum size w (err constraint_violation) =
      keeps_nothing w w _
  resolve_asset-KeepsUploads o p type checksum size w (err conflict) = keeps_nothing w w _

  after_resolve-Answered :
      (o : Outside) (p : Upload.Upload) (checksum : String) (size : ℕ) (w : World B.State)
      (d : Result IntakeError DigitalAsset × World B.State)
      → t.Open p.id w.records.tables.uploads
      → KeepsUploads w d
      → Answered (after_resolve B sha256 o q.user_id p checksum size d)
  unfolding after_resolve
  after_resolve-Answered o p checksum size w (err e, w') m k = no_answer e w'
  after_resolve-Answered o p checksum size w (ok a, w') m k =
      after_complete-Answered o a.id size p.id w' _ (subst (t.Open p.id) (sym (k a refl)) m)
        (λ u h. complete_lem o.now a.id checksum p u h)

  after_stream-Answered :
      (o : Outside) (p : Upload.Upload) (type : String) (w : World B.State)
      (d : Result UploadFault (Unit {0}) × Carried)
      → t.Open p.id w.records.tables.uploads
      → Answered (after_stream B sha256 o q.user_id p type w d)
  unfolding after_stream
  after_stream-Answered o p type w (err e, c) m = elim (Bool-cases (is_caught e)) [
    | inl y ↦ rw y (fail_upload-Answered o p (storage_error e) w)
    | inr n ↦ rw n (no_answer (storage_error e) w)
  ]
  after_stream-Answered o p type w (ok u, (tee, st)) m =
      let stored = record w { bucket = B.complete p.storage_key st.parts w.bucket } in
      let checksum = sha256 tee.received in
      after_resolve-Answered o p checksum tee.size_bytes stored _ m (
        resolve_asset-KeepsUploads o p type checksum tee.size_bytes stored
          (get_by_hash checksum stored.records))

  pub after_validation-Answered :
      (st : Settings) (o : Outside) (p : Upload.Upload) (type : String) (w : World B.State)
      (r : Result FileValidationError (List (List ℕ)))
      → t.Open p.id w.records.tables.uploads
      → Answered (after_validation B sha256 st o q.user_id p type w r)
  unfolding after_validation
  after_validation-Answered st o p type w (err e) m = fail_upload-Answered o p _ w
  after_validation-Answered st o p type w (ok replay) m = after_stream-Answered o p type w _ m
