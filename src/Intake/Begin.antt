-- ===== src/Intake/Begin.antt =====
-- The first steps of `process_upload` (backend/app/application/services/upload_service.py), before the
-- content is looked at.
use mathlib.Core.List.{flatten}
use sentinal.Prelude.{ℕ, String, ◌≡◌, refl, ◌∙◌, Option, none, some, List, arith}
use sentinal.Prelude.Chars.{text}
use sentinal.Prelude.Outcome.{Result, ok, err}
use sentinal.Upload
use sentinal.Upload.{UploadError, start_processing}
use sentinal.Validation.MediaType.{Text, FileValidationError}
use sentinal.Repository.Session.{RepositoryException, not_found}
use sentinal.Intake.Tables.{Tables, Records, create_upload}
use sentinal.Intake.World.{
  Bucket, Settings, Request, Outside, repository_error, upload_error, validation_error, World,
  with_records,
}
use sentinal.Intake.Process.{
  storage_key_of, write_status, after_processing, after_start, after_create, after_entity,
  after_declared, take_in, after_replay, replay_or_take, process_upload,
}
use sentinal.Intake.Keeps.{Keeps, update_upload-Keeps, create_upload-Keeps}
use sentinal.Intake.Resolving.{Before}
use sentinal.Intake.Stages.{Settled, replayed, refusal, after_validation-Settled}

-- The object key of an upload stays through its creation and its start.
create_key :
    (now id : ℕ) (user_id : Option ℕ) (name key type : String) (size : ℕ) (idem : Option String)
    (at : Option ℕ) (u : Upload.Upload)
    → Upload.create now id user_id name key type size idem at ≡ ok u
    → u.storage_key ≡ key
unfolding Upload.create
create_key now id user_id name key type size idem at u h = ground arith

create_upload_key :
    (now : ℕ) (u v : Upload.Upload) (db : Records)
    → (create_upload now u db).0 ≡ ok v
    → v.storage_key ≡ u.storage_key
unfolding create_upload Upload.construct
create_upload_key now u v db h = ground arith

start_key :
    (now : ℕ) (u v : Upload.Upload) → start_processing now u ≡ ok v → v.storage_key ≡ u.storage_key
unfolding start_processing Upload.transitioned Upload.construct
start_key now u v h = ground arith

module _ (B : Bucket) (sha256 : List ℕ → String) (T : Tables) (st : Settings) (o : Outside)
    (q : Request) where
  abbrev pub key_of : String
  key_of = storage_key_of o q

  abbrev pub content : List ℕ
  content = flatten q.stream

  kept-Before :
      {A : Type 0} (s : B.State) (w : World B.State) (a : A)
      (d : Result RepositoryException A × Records)
      → d.0 ≡ ok a
      → Keeps w.records d
      → Before B sha256 T key_of content s w
      → Before B sha256 T key_of content s (with_records w d.1)
  kept-Before s w a d returned keeps k = record {
    committed = keeps.committed ∙ k.committed;
    assets = keeps.assets a returned ∙ k.assets;
    frame = k.frame;
  }

  after_processing-Settled :
      (p : Upload.Upload) (type : Text) (s : B.State) (w : World B.State)
      (d : Result RepositoryException Upload.Upload × Records)
      → Before B sha256 T key_of content s w
      → p.storage_key ≡ key_of
      → Keeps w.records d
      → Settled B sha256 T key_of content q.idempotency_key s
          (after_processing B sha256 st o q p type w d)
  unfolding after_processing
  after_processing-Settled p type s w (err e, db) k at keeps =
      refusal B sha256 T key_of content q.idempotency_key s (with_records w db) (repository_error e)
        (keeps.committed ∙ k.committed) k.frame
  after_processing-Settled p type s w (ok u, db) k at keeps =
      after_validation-Settled B sha256 T key_of content q.idempotency_key st o q.user_id p _ type
        q.stream s (with_records w db) _ (kept-Before s w u (ok u, db) refl keeps k) at refl refl

  after_start-Settled :
      (id : ℕ) (type : Text) (s : B.State) (w : World B.State)
      (r : Result UploadError Upload.Upload)
      → Before B sha256 T key_of content s w
      → ((p : Upload.Upload) → r ≡ ok p → p.storage_key ≡ key_of)
      → Settled B sha256 T key_of content q.idempotency_key s
          (after_start B sha256 st o q id type w r)
  unfolding after_start
  after_start-Settled id type s w (err e) k at =
      refusal B sha256 T key_of content q.idempotency_key s w (upload_error e) k.committed k.frame
  after_start-Settled id type s w (ok p) k at =
      after_processing-Settled p type s w _ k (at p refl)
        (update_upload-Keeps id (write_status o.now p) w.records)

  after_create-Settled :
      (type : Text) (s : B.State) (w : World B.State)
      (d : Result RepositoryException Upload.Upload × Records)
      → Before B sha256 T key_of content s w
      → Keeps w.records d
      → ((u : Upload.Upload) → d.0 ≡ ok u → u.storage_key ≡ key_of)
      → Settled B sha256 T key_of content q.idempotency_key s
          (after_create B sha256 st o q type w d)
  unfolding after_create
  after_create-Settled type s w (err e, db) k keeps at =
      refusal B sha256 T key_of content q.idempotency_key s (with_records w db) (repository_error e)
        (keeps.committed ∙ k.committed) k.frame
  after_create-Settled type s w (ok u, db) k keeps at =
      after_start-Settled u.id type s (with_records w db) _
        (kept-Before s w u (ok u, db) refl keeps k) (λ p h. start_key o.now u p h ∙ at u refl)

  after_entity-Settled :
      (type : Text) (s : B.State) (w : World B.State) (r : Result UploadError Upload.Upload)
      → Before B sha256 T key_of content s w
      → ((u : Upload.Upload) → r ≡ ok u → u.storage_key ≡ key_of)
      → Settled B sha256 T key_of content q.idempotency_key s
          (after_entity B sha256 st o q type w r)
  unfolding after_entity
  after_entity-Settled type s w (err e) k at =
      refusal B sha256 T key_of content q.idempotency_key s w (upload_error e) k.committed k.frame
  after_entity-Settled type s w (ok u) k at =
      after_create-Settled type s w _ k (create_upload-Keeps o.now u w.records)
        (λ v h. create_upload_key o.now u v w.records h ∙ at u refl)

  after_declared-Settled :
      (s : B.State) (w : World B.State) (r : Result FileValidationError Text)
      → Before B sha256 T key_of content s w
      → Settled B sha256 T key_of content q.idempotency_key s (after_declared B sha256 st o q w r)
  unfolding after_declared
  after_declared-Settled s w (err e) k =
      refusal B sha256 T key_of content q.idempotency_key s w (validation_error e) k.committed
        k.frame
  after_declared-Settled s w (ok type) k = after_entity-Settled type s w _ k (λ u h.
      create_key o.now o.upload_id (some q.user_id) q.original_filename key_of (text type) 0
        q.idempotency_key none u h)

  take_in-Settled :
      (s : B.State) (w : World B.State)
      → Before B sha256 T key_of content s w
      → Settled B sha256 T key_of content q.idempotency_key s (take_in B sha256 st o q w)
  unfolding take_in
  take_in-Settled s w k = after_declared-Settled s w _ k

  after_replay-Settled :
      (s : B.State) (w : World B.State) (r : Result RepositoryException Upload.Upload)
      → (i : String) → q.idempotency_key ≡ some i
      → Before B sha256 T key_of content s w
      → Settled B sha256 T key_of content q.idempotency_key s (after_replay B sha256 st o q w r)
  unfolding after_replay
  after_replay-Settled s w (ok u) i e k = record {
    committed = k.committed;
    frame = k.frame;
    kind = replayed u i e k.assets;
  }
  after_replay-Settled s w (err not_found) i e k = take_in-Settled s w k
  after_replay-Settled s w (err x) i e k =
      refusal B sha256 T key_of content q.idempotency_key s w (repository_error x) k.committed
        k.frame

  replay_or_take-Settled :
      (s : B.State) (w : World B.State) (idem : Option String)
      → q.idempotency_key ≡ idem
      → Before B sha256 T key_of content s w
      → Settled B sha256 T key_of content q.idempotency_key s
          (replay_or_take B sha256 st o q idem w)
  unfolding replay_or_take
  replay_or_take-Settled s w none e k = take_in-Settled s w k
  replay_or_take-Settled s w (some i) e k = after_replay-Settled s w _ i e k

  pub process_upload-Settled :
      (s : B.State) (w : World B.State)
      → Before B sha256 T key_of content s w
      → Settled B sha256 T key_of content q.idempotency_key s (process_upload B sha256 st o q w)
  unfolding process_upload
  process_upload-Settled s w k = replay_or_take-Settled s w q.idempotency_key refl k
