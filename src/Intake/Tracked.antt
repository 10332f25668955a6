-- ===== src/Intake/Tracked.antt =====
-- The uploads behind a whole request (`process_upload` of
-- backend/app/application/services/upload_service.py with the end of its session).
use mathlib.Core.Path.{subst}
use sentinal.Prelude.{
  ℕ, String, ◌≡◌, inl, inr, refl, sym, ap, ◌∙◌, Option, none, some, List, arith, Bool-cases,
}
use sentinal.Prelude.Chars.{text}
use sentinal.Prelude.Outcome.{Result, ok, err}
use sentinal.Upload
use sentinal.Upload.{UploadError, start_processing}
use sentinal.Validation.MediaType.{Text, FileValidationError}
use sentinal.Repository.Session.{
  RepositoryException, not_found, already_exists, constraint_violation, conflict,
}
use sentinal.Intake.Tables.{Records, create_upload, update_upload, get_by_idempotency_key}
use sentinal.Intake.World.{
  Bucket, Settings, Request, Outside, repository_error, World, Returned, with_records,
}
use sentinal.Intake.Process.{
  write_status, after_processing, after_start, after_create, after_entity, after_declared, take_in,
  after_replay, replay_or_take, process_upload, storage_key_of,
}
use sentinal.Intake.Handle.{Kept, open_session, commit, after_commit, end_session, handle_upload}
use sentinal.Intake.Tracking.{
  Tracking, Answered, no_answer, after_validation-Answered, start_id, ok_same, not_ok,
}

create_identity :
    (now id : ℕ) (user_id : Option ℕ) (name at type : String) (size : ℕ) (idem : Option String)
    (asset : Option ℕ) (u : Upload.Upload)
    → Upload.create now id user_id name at type size idem asset ≡ ok u
    → (u.user_id ≡ user_id) × (u.idempotency_key ≡ idem)
unfolding Upload.create
create_identity now id user_id name at type size idem asset u h = ground arith

module _ (B : Bucket) (sha256 : List ℕ → String) (q : Request) (t : Tracking q) (st : Settings)
    (o : Outside) where
  after_processing-Answered :
      (p : Upload.Upload) (type : Text) (w : World B.State)
      (d : Result RepositoryException Upload.Upload × Records)
      → ((v : Upload.Upload) → d.0 ≡ ok v → t.Open p.id d.1.tables.uploads)
      → Answered B sha256 q t (after_processing B sha256 st o q p type w d)
  unfolding after_processing
  after_processing-Answered p type w (err e, db) m = no_answer B sha256 q t _ (with_records w db)
  after_processing-Answered p type w (ok u, db) m =
      after_validation-Answered B sha256 q t st o p _ (with_records w db) _ (m u refl)

  after_start-Answered :
      (id : ℕ) (type : Text) (w : World B.State) (r : Result UploadError Upload.Upload)
      → ((p : Upload.Upload) → r ≡ ok p → p.id ≡ id)
      → t.Open id w.records.tables.uploads
      → Answered B sha256 q t (after_start B sha256 st o q id type w r)
  unfolding after_start
  after_start-Answered id type w (err e) at m = no_answer B sha256 q t _ w
  after_start-Answered id type w (ok p) at m = after_processing-Answered p type w _ (λ v h.
      subst (λ x. t.Open x (update_upload id (write_status o.now p) w.records).1.tables.uploads)
        (sym (at p refl)) (t.progressed id o.now p v w.records h m))

  after_create-Answered :
      (type : Text) (w : World B.State) (d : Result RepositoryException Upload.Upload × Records)
      → ((v : Upload.Upload) → d.0 ≡ ok v → t.Open v.id d.1.tables.uploads)
      → Answered B sha256 q t (after_create B sha256 st o q type w d)
  unfolding after_create
  after_create-Answered type w (err e, db) m = no_answer B sha256 q t _ (with_records w db)
  after_create-Answered type w (ok u, db) m =
      after_start-Answered u.id type (with_records w db) _ (λ p h. start_id o.now u p h) (m u refl)

  after_entity-Answered :
      (type : Text) (w : World B.State) (r : Result UploadError Upload.Upload)
      → t.Fresh w.records.tables.uploads
      → ((u : Upload.Upload)
          → r ≡ ok u
          → (u.user_id ≡ some q.user_id) × (u.idempotency_key ≡ q.idempotency_key))
      → Answered B sha256 q t (after_entity B sha256 st o q type w r)
  unfolding after_entity
  after_entity-Answered type w (err e) fresh made = no_answer B sha256 q t _ w
  after_entity-Answered type w (ok u) fresh made =
      let (owner, idem) = made u refl in
      after_create-Answered type w (create_upload o.now u w.records)
        (λ v h. t.begun o.now u v w.records owner idem h fresh)

  after_declared-Answered :
      (w : World B.State) (r : Result FileValidationError Text)
      → t.Fresh w.records.tables.uploads
      → Answered B sha256 q t (after_declared B sha256 st o q w r)
  unfolding after_declared
  after_declared-Answered w (err e) fresh = no_answer B sha256 q t _ w
  after_declared-Answered w (ok type) fresh = after_entity-Answered type w _ fresh (λ u h.
      create_identity o.now o.upload_id (some q.user_id) q.original_filename (storage_key_of o q)
        (text type) 0 q.idempotency_key none u h)

  take_in-Answered :
      (w : World B.State)
      → t.Fresh w.records.tables.uploads
      → Answered B sha256 q t (take_in B sha256 st o q w)
  unfolding take_in
  take_in-Answered w fresh = after_declared-Answered w _ fresh

  after_replay-Answered :
      (key : String) (w : World B.State) (r : Result RepositoryException Upload.Upload)
      → q.idempotency_key ≡ some key
      → get_by_idempotency_key q.user_id key w.records ≡ r
      → t.Start w.records.tables.uploads
      → Answered B sha256 q t (after_replay B sha256 st o q w r)
  unfolding after_replay
  after_replay-Answered key w (ok original) keyed h start = λ u e whole.
      subst (λ x. t.Done x.id w.records.tables.uploads) (ok_same original u e)
        (t.replayed key original w.records keyed h start)
  after_replay-Answered key w (err not_found) keyed h start =
      take_in-Answered w (t.missed key w.records keyed h start)
  after_replay-Answered key w (err already_exists) keyed h start = no_answer B sha256 q t _ w
  after_replay-Answered key w (err constraint_violation) keyed h start = no_answer B sha256 q t _ w
  after_replay-Answered key w (err conflict) keyed h start = no_answer B sha256 q t _ w

  replay_or_take-Answered :
      (idem : Option String) (w : World B.State)
      → q.idempotency_key ≡ idem
      → t.Start w.records.tables.uploads
      → Answered B sha256 q t (replay_or_take B sha256 st o q idem w)
  unfolding replay_or_take
  replay_or_take-Answered none w h start =
      take_in-Answered w (t.unkeyed w.records.tables.uploads h start)
  replay_or_take-Answered (some key) w h start = after_replay-Answered key w _ h refl start

  process_upload-Answered :
      (w : World B.State)
      → t.Start w.records.tables.uploads
      → Answered B sha256 q t (process_upload B sha256 st o q w)
  unfolding process_upload
  process_upload-Answered w start = replay_or_take-Answered q.idempotency_key w refl start

  end_session_done :
      (d : Returned B.State) (u : Upload.Upload) (k : Kept B.State)
      → Answered B sha256 q t d
      → end_session d ≡ (ok u, k)
      → t.Done u.id k.tables.uploads
  unfolding end_session after_commit commit
  end_session_done (err e, w) u k m h = absurd (not_ok e u (ap (λ d. d.0) h))
  end_session_done (ok v, w) u k m h = elim (Bool-cases w.records.is_broken) [
    | inl y ↦
        let lost : (end_session (ok v, w)).0 ≡ err (repository_error conflict) = rw y refl in
        absurd (not_ok _ u (sym lost ∙ ap (λ d. d.0) h))
    | inr n ↦
        let answer : (end_session (ok v, w)).0 ≡ ok v = rw n refl in
        let tables : (end_session (ok v, w)).1.tables ≡ w.records.tables = rw n refl in
        let same = ok_same v u (sym answer ∙ ap (λ d. d.0) h) in
        let committed = sym tables ∙ ap (λ d. d.1.tables) h in
        subst (λ x. t.Done x.id k.tables.uploads) same
          (subst (λ k'. t.Done v.id k'.uploads) committed (m v refl n))
  ]

  pub handle_upload_done :
      (u : Upload.Upload) (k after : Kept B.State)
      → t.Start k.tables.uploads
      → handle_upload B sha256 st o q k ≡ (ok u, after)
      → t.Done u.id after.tables.uploads
  unfolding handle_upload
  handle_upload_done u k after start h =
      end_session_done _ u after (process_upload-Answered (open_session k) start) h
