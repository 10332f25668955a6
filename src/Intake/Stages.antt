-- ===== src/Intake/Stages.antt =====
-- The steps of `process_upload` (backend/app/application/services/upload_service.py), from the last to
-- the first: what each leaves of the assets and of object storage.
use mathlib.Core.Path.{subst}
use mathlib.Core.List.{flatten}
use sentinal.Prelude.{
  ℕ, String, ◌≡◌, inl, inr, refl, sym, ap, ◌∙◌, true, Option, some, List, map, arith, Bool-cases,
}
use sentinal.Prelude.Outcome.{Result, ok, err, ◌>>◌, Result-cases}
use sentinal.Upload
use sentinal.Upload.{UploadError, start_processing}
use sentinal.Asset.{DigitalAsset}
use sentinal.Validation.MediaType.{Text, FileValidationError}
use sentinal.Validation.Stream.{validate_upload_stream, stream_equivalence, map_ok, validate_whole}
use sentinal.Storage.Parts.{body_of}
use sentinal.Storage.{Part, UploadFault, Carried, default_part_size, upload_stream}
use sentinal.Storage.Multipart.{upload_stream-Stored}
use sentinal.Repository.Session.{RepositoryException}
use sentinal.Intake.Tables.{
  Tables, Records, upload_completed, update_upload, get_by_hash, log_completed,
}
use sentinal.Intake.World.{
  Bucket, Settings, Outside, IntakeError, storage_error, validation_error, repository_error, World,
  Returned, with_records,
}
use sentinal.Intake.Process.{
  fail_upload, write_failed, write_final, final_of, after_final, after_complete, resolve_asset,
  after_resolve, after_stream, after_validation, is_caught,
}
use sentinal.Intake.Keeps.{
  Keeps, update_upload-Keeps, log_completed_committed, log_completed_assets,
}
use sentinal.Intake.Lookups.{Frame}
use sentinal.Intake.Resolving.{Found, known, added, Resolved, Before, resolve_asset-Resolved}

handed_back :
    {E A : Type 0} (v : Result E (Unit {0})) (given received : A)
    → ok received ≡ (v >> ok given)
    → received ≡ given
handed_back (ok u) given received h = ground arith
handed_back (err e) given received h = ground arith

-- The validator hands back the bytes that it was given.
replayed_bytes :
    (stream : List (List ℕ)) (declared : Text) (allowed : List Text) (replay : List (List ℕ))
    → validate_upload_stream stream declared allowed ≡ ok replay
    → flatten replay ≡ flatten stream
replayed_bytes stream declared allowed replay h =
    handed_back (validate_whole (flatten stream) declared allowed) (flatten stream) (flatten replay)
      (ap (map_ok flatten) (sym h) ∙ stream_equivalence stream declared allowed)

module _ (B : Bucket) (sha256 : List ℕ → String) (T : Tables) (key : String) (content : List ℕ)
    (idem : Option String) where
  -- What a request has come to, before its session ends.
  pub data Kind (w : World B.State) : Result IntakeError Upload.Upload → Type 0 where
    refused : (e : IntakeError) → Kind w (err e)
    undone : (u : Upload.Upload) → w.records.is_broken ≡ true → Kind w (ok u)
    replayed :
        (u : Upload.Upload) (i : String)
        → idem ≡ some i
        → w.records.tables.assets ≡ T.assets
        → Kind w (ok u)
    taken : (u : Upload.Upload) → Found B sha256 T key content w → Kind w (ok u)

  pub record Settled (s : B.State) (d : Returned B.State) : Type 0 where
    pub committed : d.1.records.committed ≡ T
    pub frame : Frame B sha256 key s d.1.bucket
    pub kind : Kind d.1 d.0

  pub refusal :
      (s : B.State) (w : World B.State) (e : IntakeError)
      → w.records.committed ≡ T
      → Frame B sha256 key s w.bucket
      → Settled s (err e, w)
  refusal s w e c f = record { committed = c; frame = f; kind = refused e }

  pub fail_upload-Settled :
      (o : Outside) (p : Upload.Upload) (reason : IntakeError) (s : B.State) (w : World B.State)
      → Before B sha256 T key content s w
      → Settled s (fail_upload B sha256 o p reason w)
  unfolding fail_upload
  fail_upload-Settled o p reason s w k = elim (Result-cases (Upload.fail o.now p)) [
    | inl (failed, e) ↦
        rw (fail_upload, e)
          (refusal s (with_records w (update_upload p.id (write_failed failed) w.records).1) reason
            ((update_upload-Keeps p.id (write_failed failed) w.records).committed ∙ k.committed)
            k.frame)
    | inr (x, e) ↦ rw (fail_upload, e) (refusal s w _ k.committed k.frame)
  ]

  Found_same :
      (w : World B.State) (db : Records)
      → db.tables.assets ≡ w.records.tables.assets
      → Found B sha256 T key content w
      → Found B sha256 T key content (with_records w db)
  Found_same w db same (known a as' there) = known a (same ∙ as') there
  Found_same w db same (added n as' fresh hash at live got) =
      added n (same ∙ as') fresh hash at live got

  logged :
      (o : Outside) (user_id asset_id : ℕ) (u : Upload.Upload) (w : World B.State) (db : Records)
      → db.tables.assets ≡ w.records.tables.assets
      → Found B sha256 T key content w
      → Kind
          (with_records w (log_completed o.audit (upload_completed user_id u.id asset_id) db))
          (ok u)
  logged o user_id asset_id u w db same f =
      elim (log_completed_assets o.audit (upload_completed user_id u.id asset_id) db) [
        | inl e ↦ undone u e
        | inr e ↦ taken u (Found_same w _ (e ∙ same) f)
      ]

  after_final-Settled :
      (o : Outside) (user_id asset_id : ℕ) (final : Upload.Upload) (s : B.State) (w : World B.State)
      (d : Result RepositoryException Upload.Upload × Records)
      → Keeps w.records d
      → w.records.committed ≡ T
      → Frame B sha256 key s w.bucket
      → Found B sha256 T key content w
      → Settled s (after_final B sha256 o user_id asset_id final w d)
  unfolding after_final
  after_final-Settled o user_id asset_id final s w (err e, db) k c fr f =
      refusal s (with_records w db) (repository_error e) (k.committed ∙ c) fr
  after_final-Settled o user_id asset_id final s w (ok u, db) k c fr f = record {
    committed =
        log_completed_committed o.audit (upload_completed user_id final.id asset_id) db
        ∙ k.committed
        ∙ c;
    frame = fr;
    kind = logged o user_id asset_id final w db (k.assets u refl) f;
  }

  after_complete-Settled :
      (o : Outside) (user_id asset_id size : ℕ) (s : B.State) (w : World B.State)
      (r : Result UploadError Upload.Upload)
      → w.records.committed ≡ T
      → Frame B sha256 key s w.bucket
      → Found B sha256 T key content w
      → Settled s (after_complete B sha256 o user_id asset_id size w r)
  unfolding after_complete
  after_complete-Settled o user_id asset_id size s w (err e) c fr f = refusal s w _ c fr
  after_complete-Settled o user_id asset_id size s w (ok u) c fr f =
      after_final-Settled o user_id asset_id (final_of size u) s w _
        (update_upload-Keeps u.id (write_final (final_of size u)) w.records) c fr f

  after_resolve-Settled :
      (o : Outside) (user_id : ℕ) (p : Upload.Upload) (checksum : String) (size : ℕ) (s : B.State)
      (d : Result IntakeError DigitalAsset × World B.State)
      → Resolved B sha256 T key content s d
      → Settled s (after_resolve B sha256 o user_id p checksum size d)
  unfolding after_resolve
  after_resolve-Settled o user_id p checksum size s (err e, w) k = refusal s w e k.committed k.frame
  after_resolve-Settled o user_id p checksum size s (ok a, w) k =
      after_complete-Settled o user_id a.id size s w _ k.committed k.frame (k.found a refl)

  object_stored :
      (p : Upload.Upload) (parts : List Part) (s : B.State) (w : World B.State)
      → Before B sha256 T key content s w
      → p.storage_key ≡ key
      → flatten (map body_of parts) ≡ content
      → Before B sha256 T key content s
          (record w { bucket = B.complete p.storage_key parts w.bucket })
        × (B.get (B.complete p.storage_key parts w.bucket) key ≡ some content)
  object_stored p parts s w k at whole =
      let here : B.complete p.storage_key parts w.bucket ≡ B.complete key parts w.bucket =
        ap (λ x. B.complete x parts w.bucket) at in
      (
        record {
          committed = k.committed;
          assets = k.assets;
          frame = record {
            others = λ other apart.
                ap (λ x. B.get x other) here
                ∙ B.get-complete_other w.bucket key other parts apart
                ∙ k.frame.others other apart;
          };
        },
        ap (λ x. B.get x key) here ∙ B.get-complete w.bucket key parts ∙ ap some whole,
      )

  after_object-Settled :
      (o : Outside) (user_id : ℕ) (p : Upload.Upload) (content_type : String) (size : ℕ)
      (received : List ℕ) (s : B.State) (w : World B.State)
      → Before B sha256 T key content s w
      → p.storage_key ≡ key
      → B.get w.bucket key ≡ some content
      → received ≡ content
      → Settled s (
          after_resolve B sha256 o user_id p (sha256 received) size (
            resolve_asset B sha256 o user_id p content_type
              (sha256 received)
              size
              w
              (get_by_hash (sha256 received) w.records)))
  after_object-Settled o user_id p content_type size received s w k at got same =
      subst
        (λ bytes. Settled s (
          after_resolve B sha256 o user_id p (sha256 bytes) size (
            resolve_asset B sha256 o user_id p content_type (sha256 bytes) size w
              (get_by_hash (sha256 bytes) w.records))))
        (sym same)
        (after_resolve-Settled o user_id p (sha256 content) size s _ (
          resolve_asset-Resolved B sha256 T key content o user_id p content_type size s w
            (get_by_hash (sha256 content) w.records) k at got refl))

  after_stream-Settled :
      (o : Outside) (user_id : ℕ) (p : Upload.Upload) (content_type : String) (max_bytes : ℕ)
      (replay : List (List ℕ)) (s : B.State) (w : World B.State)
      (d : Result UploadFault (Unit {0}) × Carried)
      → Before B sha256 T key content s w
      → p.storage_key ≡ key
      → flatten replay ≡ content
      → upload_stream default_part_size max_bytes o.replies replay ≡ d
      → Settled s (after_stream B sha256 o user_id p content_type w d)
  unfolding after_stream
  after_stream-Settled o user_id p content_type max_bytes replay s w (err e, c) k at same h =
      elim (Bool-cases (is_caught e)) [
        | inl y ↦ rw y (fail_upload-Settled o p (storage_error e) s w k)
        | inr n ↦ rw n (refusal s w (storage_error e) k.committed k.frame)
      ]
  after_stream-Settled o user_id p content_type max_bytes replay s w (ok u, (tee, st)) k at same h =
      let whole =
        upload_stream-Stored default_part_size max_bytes o.replies replay (tee, st) (omega arith)
          h in
      let (before, got) = object_stored p st.parts s w k at (whole.parts_content ∙ same) in
      after_object-Settled o user_id p content_type tee.size_bytes tee.received s
        (record w { bucket = B.complete p.storage_key st.parts w.bucket }) before at got
        (whole.received ∙ same)

  pub after_validation-Settled :
      (st : Settings) (o : Outside) (user_id : ℕ) (p : Upload.Upload) (content_type : String)
      (declared : Text) (stream : List (List ℕ)) (s : B.State) (w : World B.State)
      (r : Result FileValidationError (List (List ℕ)))
      → Before B sha256 T key content s w
      → p.storage_key ≡ key
      → flatten stream ≡ content
      → validate_upload_stream stream declared st.allowed_mime_types ≡ r
      → Settled s (after_validation B sha256 st o user_id p content_type w r)
  unfolding after_validation
  after_validation-Settled st o user_id p content_type declared stream s w (err e) k at same h =
      fail_upload-Settled o p (validation_error e) s w k
  after_validation-Settled st o user_id p content_type declared stream s w (ok replay) k at same h =
      after_stream-Settled o user_id p content_type st.max_file_size replay s w _ k at
        (replayed_bytes stream declared st.allowed_mime_types replay h ∙ same) refl
