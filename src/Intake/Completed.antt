-- ===== src/Intake/Completed.antt =====
-- Which uploads are ever committed (`process_upload` of
-- backend/app/application/services/upload_service.py with the end of its session).
use sentinal.Prelude.{
  ℕ, String, ◌≡◌, inl, inr, refl, sym, ap, ◌∙◌, Bool, true, false, ◌&&◌, ◌==◌, List, [], ◌∷◌, ◌++◌,
  all, any, arith, Bool-cases, if◌then◌else◌,
}
use sentinal.Prelude.Outcome.{ok, err, Result-cases}
use sentinal.Upload
use sentinal.Intake.Tables.{create_upload, write_upload, upload_clashes, stored_upload, rollback}
use sentinal.Intake.World.{Bucket, Settings, Request, Outside, IntakeError, Returned}
use sentinal.Intake.Process.{write_status, write_final, process_upload}
use sentinal.Intake.Handle.{Kept, open_session, commit, after_commit, end_session, handle_upload}
use sentinal.Intake.Remembered.{created_returns, create_upload_id, update_upload_uploads}
use sentinal.Intake.Tracking.{Tracking, not_ok}
use sentinal.Intake.Tracked.{handle_upload_done}
use sentinal.Intake.Begin.{process_upload-Settled}

unfoldable pub are_completed : List Upload.Upload → Bool
unfolding Upload.is_completed
are_completed uploads = all (λ u. Upload.is_completed u.upload_status) uploads

-- All are completed but the one with the identifier.
unfoldable all_but : (id : ℕ) → List Upload.Upload → Bool
unfolding are_completed
all_but id [] = true
all_but id (u ∷ uploads) =
    let rest = all_but id uploads in
    if u.id == id then are_completed uploads else Upload.is_completed u.upload_status && rest

all_but-append :
    (now : ℕ) (new : Upload.Upload) (uploads : List Upload.Upload)
    → are_completed uploads ≡ true
    → any (upload_clashes new) uploads ≡ false
    → all_but new.id (uploads ++ stored_upload now new ∷ []) ≡ true
unfolding all_but are_completed upload_clashes
all_but-append now new [] h e = ground arith
all_but-append now new (u ∷ uploads) h e = ground (arith, all_but-append now new uploads)

all_but-progress :
    (id now : ℕ) (p : Upload.Upload) (uploads : List Upload.Upload)
    → all_but id uploads ≡ true
    → all_but id (write_upload id (write_status now p) uploads) ≡ true
unfolding all_but are_completed write_upload
all_but-progress id now p [] h = refl
all_but-progress id now p (u ∷ uploads) h = ground (arith, all_but-progress id now p uploads)

all_but-finish :
    (id : ℕ) (c : Upload.Upload) (uploads : List Upload.Upload)
    → c.upload_status ≡ Upload.completed
    → all_but id uploads ≡ true
    → are_completed (write_upload id (write_final c) uploads) ≡ true
unfolding all_but are_completed write_upload Upload.is_completed
all_but-finish id c [] closed h = refl
all_but-finish id c (u ∷ uploads) closed h = ground (arith, all_but-finish id c uploads closed)

abbrev completion : (q : Request) → Tracking q
completion q = record {
  Start = λ uploads. are_completed uploads ≡ true;
  Fresh = λ uploads. are_completed uploads ≡ true;
  Open = λ id uploads. all_but id uploads ≡ true;
  Done = λ id uploads. are_completed uploads ≡ true;
  unkeyed = λ uploads h start. start;
  missed = λ key db h e start. start;
  replayed = λ key u db h e start. start;
  begun = λ now u v db owner idem h fresh.
      let (apart, reads, grown) = created_returns now u v db h in
      ap (λ x. all_but x (create_upload now u db).1.tables.uploads) (create_upload_id now u v db h)
      ∙ ap (all_but u.id) grown
      ∙ all_but-append now u db.tables.uploads fresh apart;
  progressed = λ id now p v db h m.
      ap (all_but id) (update_upload_uploads id (write_status now p) v db h)
      ∙ all_but-progress id now p db.tables.uploads m;
  finished = λ c v db closed h m.
      ap are_completed (update_upload_uploads c.id (write_final c) v db h)
      ∙ all_but-finish c.id c db.tables.uploads closed m;
}

-- A refused request leaves what was committed before.
end_session_refused :
    {S : Type 0} (d : Returned S) (e : IntakeError)
    → (end_session d).0 ≡ err e
    → (end_session d).1.tables ≡ d.1.records.committed
unfolding end_session after_commit commit rollback
end_session_refused (err x, w) e h = refl
end_session_refused (ok u, w) e h = elim (Bool-cases w.records.is_broken) [
  | inl y ↦ rw y refl
  | inr n ↦
      let answer : (end_session (ok u, w)).0 ≡ ok u = rw n refl in
      absurd (not_ok e u (sym h ∙ answer))
]

handle_upload_refused :
    (B : Bucket) (sha256 : List ℕ → String) (st : Settings) (o : Outside) (q : Request)
    (k : Kept B.State) (e : IntakeError)
    → (handle_upload B sha256 st o q k).0 ≡ err e
    → (handle_upload B sha256 st o q k).1.tables ≡ k.tables
unfolding handle_upload
handle_upload_refused B sha256 st o q k e h =
    end_session_refused (process_upload B sha256 st o q (open_session k)) e h
    ∙ (process_upload-Settled B sha256 k.tables st o q k.bucket (open_session k) record {
      committed = refl;
      assets = refl;
      frame = record { others = λ other apart. refl };
    }).committed

-- A request, whatever its answer, commits no upload that is not completed.
pub handle_upload_completes :
    (B : Bucket) (sha256 : List ℕ → String) (st : Settings) (o : Outside) (q : Request)
    (k : Kept B.State)
    → are_completed k.tables.uploads ≡ true
    → are_completed (handle_upload B sha256 st o q k).1.tables.uploads ≡ true
handle_upload_completes B sha256 st o q k before =
    elim (Result-cases (handle_upload B sha256 st o q k).0) [
      | inl (u, e) ↦
          handle_upload_done B sha256 q (completion q) st o u k (handle_upload B sha256 st o q k).1
            before (ap (λ r. (r, (handle_upload B sha256 st o q k).1)) e)
      | inr (x, e) ↦
          ap (λ t. are_completed t.uploads) (handle_upload_refused B sha256 st o q k x e) ∙ before
    ]
