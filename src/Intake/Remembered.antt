-- ===== src/Intake/Remembered.antt =====
-- Creating and updating the row of an upload that has an idempotency key
-- (backend/app/infrastructure/database/repositories/upload.py and base.py).
use sentinal.Prelude.{
  ℕ, String, ◌≡◌, ◌⊎◌, inl, inr, refl, sym, ap, ◌∙◌, true, false, none, some, List, [], ◌∷◌, ◌++◌,
  any, arith, Bool-cases, Option-cases,
}
use sentinal.Prelude.Outcome.{Result, ok, err}
use sentinal.Upload
use sentinal.Upload.{UploadError, start_processing}
use sentinal.Service.{AuditOutcome}
use sentinal.Repository.Session.{RepositoryException, constraint_violation}
use sentinal.Intake.Tables.{
  Tables, Records, UploadEvent, log_completed, create_upload, update_upload, find_upload,
  write_upload, find_idempotent, get_by_idempotency_key, upload_clashes, stored_upload, read_upload,
  upload_checks,
}
use sentinal.Intake.Process.{write_status, write_final}
use sentinal.Intake.Rows.{
  has_key, find_upload_id, Tracked, Identity, unclashed_id, find_upload-append,
  find_idempotent-append, write_upload_id, write_upload_key,
}

read_upload_id : (u v : Upload.Upload) → read_upload u ≡ ok v → v.id ≡ u.id
unfolding Upload.construct
read_upload_id u v h = ground arith

-- The row with the key, and what reading it gives.
pub record Remembered (user_id : ℕ) (key : String) (id : ℕ) (uploads : List Upload.Upload)
    : Type 0 where
  pub row : Upload.Upload
  pub upload : Upload.Upload
  pub tracked : Tracked user_id key id uploads row
  pub reads : read_upload row ≡ ok upload
  pub has_id : upload.id ≡ id

-- What the key finds, and what reading it gives.
pub record Recalled (user_id : ℕ) (key : String) (id : ℕ) (uploads : List Upload.Upload)
    : Type 0 where
  pub row : Upload.Upload
  pub upload : Upload.Upload
  pub by_key : find_idempotent user_id key uploads ≡ some row
  pub reads : read_upload row ≡ ok upload
  pub has_id : upload.id ≡ id

pub Remembered-Recalled :
    (user_id : ℕ) (key : String) (id : ℕ) (uploads : List Upload.Upload)
    → Remembered user_id key id uploads
    → Recalled user_id key id uploads
Remembered-Recalled user_id key id uploads m = record {
  row = m.row;
  upload = m.upload;
  by_key = m.tracked.by_key;
  reads = m.reads;
  has_id = m.has_id;
}

pub created_returns :
    (now : ℕ) (u v : Upload.Upload) (db : Records)
    → (create_upload now u db).0 ≡ ok v
    → (any (upload_clashes u) db.tables.uploads ≡ false)
      × (read_upload (stored_upload now u) ≡ ok v)
      × ((create_upload now u db).1.tables.uploads ≡ db.tables.uploads ++ stored_upload now u ∷ [])
unfolding create_upload
created_returns now u v db h = elim (Bool-cases db.is_broken) [
  | inl y ↦ ground arith
  | inr n ↦ elim (Bool-cases (any (upload_clashes u) db.tables.uploads)) [
    | inl c ↦ ground arith
    | inr c ↦ (c, ground arith, ground arith)
  ]
]

pub create_upload-Remembered :
    (now user_id : ℕ) (key : String) (u v : Upload.Upload) (db : Records)
    → (create_upload now u db).0 ≡ ok v
    → find_idempotent user_id key db.tables.uploads ≡ none
    → has_key user_id key (stored_upload now u) ≡ true
    → Remembered user_id key u.id (create_upload now u db).1.tables.uploads
create_upload-Remembered now user_id key u v db h fresh has =
    let (apart, reads, grown) = created_returns now u v db h in
    let stored = stored_upload now u in
    record {
      row = stored;
      upload = v;
      tracked = record {
        by_key =
            ap (find_idempotent user_id key) grown
            ∙ find_idempotent-append user_id key db.tables.uploads stored fresh has;
        by_id =
            ap (find_upload u.id) grown
            ∙ find_upload-append u.id db.tables.uploads stored
                (unclashed_id u db.tables.uploads apart) refl;
      };
      reads = reads;
      has_id = read_upload_id stored v reads;
    }

apart_results :
    (v : Upload.Upload)
    → ◌≡◌ {A = Result RepositoryException Upload.Upload} (ok v) (err constraint_violation)
    → ⊥
apart_results v h = ground arith

pub create_upload_id :
    (now : ℕ) (u v : Upload.Upload) (db : Records) → (create_upload now u db).0 ≡ ok v → v.id ≡ u.id
create_upload_id now u v db h =
    let (apart, reads, grown) = created_returns now u v db h in
    read_upload_id (stored_upload now u) v reads

no_row :
    (id : ℕ) (write : Upload.Upload → Upload.Upload) (v : Upload.Upload) (db : Records)
    → (update_upload id write db).0 ≡ ok v
    → find_upload id db.tables.uploads ≡ none
    → ⊥
unfolding update_upload
no_row id write v db h e = ground arith

updated_returns :
    (id : ℕ) (write : Upload.Upload → Upload.Upload) (r v : Upload.Upload) (db : Records)
    → (update_upload id write db).0 ≡ ok v
    → find_upload id db.tables.uploads ≡ some r
    → (read_upload (write r) ≡ ok v)
      × ((update_upload id write db).1.tables.uploads ≡ write_upload id write db.tables.uploads)
unfolding update_upload
updated_returns id write r v db h e = elim (Bool-cases db.is_broken) [
  | inl y ↦ ground arith
  | inr n ↦ elim (Bool-cases (upload_checks (write r))) [
    | inl c ↦
        let runs : (update_upload id write db).0 ≡ read_upload (write r) = rw (n, e, c) refl in
        (sym runs ∙ h, rw (n, e, c) refl)
    | inr c ↦
        let runs : (update_upload id write db).0 ≡ err constraint_violation = rw (n, e, c) refl in
        absurd (apart_results v (sym h ∙ runs))
  ]
]

pub update_upload_uploads :
    (id : ℕ) (write : Upload.Upload → Upload.Upload) (v : Upload.Upload) (db : Records)
    → (update_upload id write db).0 ≡ ok v
    → (update_upload id write db).1.tables.uploads ≡ write_upload id write db.tables.uploads
update_upload_uploads id write v db h = elim (Option-cases (find_upload id db.tables.uploads)) [
  | inl e ↦ absurd (no_row id write v db h e)
  | inr (r, e) ↦ (updated_returns id write r v db h e).1
]

pub update_upload-Remembered :
    (user_id : ℕ) (key : String) (id : ℕ) (write : Upload.Upload → Upload.Upload)
    (v : Upload.Upload) (db : Records)
    → Identity id write
    → (update_upload id write db).0 ≡ ok v
    → Remembered user_id key id db.tables.uploads
    → Remembered user_id key id (update_upload id write db).1.tables.uploads
update_upload-Remembered user_id key id write v db w h m =
    let (reads, changed) = updated_returns id write m.row v db h m.tracked.by_id in
    record {
      row = write m.row;
      upload = v;
      tracked = record {
        by_key =
            ap (find_idempotent user_id key) changed
            ∙ write_upload_key user_id key id write db.tables.uploads m.row w m.tracked;
        by_id =
            ap (find_upload id) changed
            ∙ write_upload_id id write db.tables.uploads m.row w m.tracked.by_id;
      };
      reads = reads;
      has_id =
          read_upload_id (write m.row) v reads
          ∙ w.same_id m.row
          ∙ find_upload_id id db.tables.uploads m.row m.tracked.by_id;
    }

pub write_status-Identity : (id now : ℕ) (v : Upload.Upload) → Identity id (write_status now v)
unfolding has_key
write_status-Identity id now v = record {
  same_id = λ u. refl;
  same_has_key = λ user_id key u. refl;
}

pub write_final-Identity : (id : ℕ) (v : Upload.Upload) → Identity id (write_final v)
unfolding has_key
write_final-Identity id v = record { same_id = λ u. refl; same_has_key = λ user_id key u. refl }

pub log_completed_uploads :
    (o : AuditOutcome) (e : UploadEvent) (db : Records)
    → ((log_completed o e db).is_broken ≡ true)
      ⊎ ((log_completed o e db).tables.uploads ≡ db.tables.uploads)
unfolding log_completed
log_completed_uploads AuditOutcome.written e db = inr (ground arith)
log_completed_uploads AuditOutcome.refused e db = inr (ground arith)
log_completed_uploads AuditOutcome.flush_failed e db = inl (ground arith)

-- A session that begins finds the upload by its key.
pub lookup-Recalled :
    (user_id : ℕ) (key : String) (id : ℕ) (t : Tables) (m : Recalled user_id key id t.uploads)
    → get_by_idempotency_key user_id key (record { committed = t; tables = t; is_broken = false })
      ≡ ok m.upload
unfolding get_by_idempotency_key
lookup-Recalled user_id key id t m = rw m.by_key m.reads

-- What a look-up in a session has found.
pub found_Recalled :
    (user_id : ℕ) (key : String) (db : Records) (u : Upload.Upload)
    → get_by_idempotency_key user_id key db ≡ ok u
    → Recalled user_id key u.id db.tables.uploads
unfolding get_by_idempotency_key
found_Recalled user_id key db u h = elim (Bool-cases db.is_broken) [
  | inl y ↦ absurd (ground arith)
  | inr n ↦ elim (Option-cases (find_idempotent user_id key db.tables.uploads)) [
    | inl e ↦ absurd (ground arith)
    | inr (row, e) ↦
        let runs : get_by_idempotency_key user_id key db ≡ read_upload row = rw (n, e) refl in
        record { row = row; upload = u; by_key = e; reads = sym runs ∙ h; has_id = refl }
  ]
]
