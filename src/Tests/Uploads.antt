-- ===== src/Tests/Uploads.antt =====
-- backend/app/domain/entities/upload.py
use sentinal.Prelude.{ℕ, ◌≡◌, ◌↔◌, inl, refl, String, true, none, some, List, [], ◌∷◌, arith}
use sentinal.Prelude.Outcome.{ok}
use sentinal.Upload.{Upload, pending, processing, completed, is_sha256}
use sentinal.Upload.Lifecycle.{
  IsValid, Operation, starting, completing, failing, perform, ◌⟶◌, SameUpload, Returns, Allowed,
  run, upload_transition_sound, upload_transition_exact,
}

abbrev intake : Upload
intake = record {
  id = 5;
  user_id = some 1;
  original_filename = "report.pdf";
  storage_key = "uploads/5/report.pdf";
  content_type = "application/pdf";
  file_size_bytes = 0;
  upload_status = pending;
  created_at = 100;
  checksum_sha256 = none;
  digital_asset_id = none;
  idempotency_key = some "key-1";
  completed_at = none;
  updated_at = none;
  deleted_at = none;
}

abbrev in_progress : Upload
in_progress = record intake {
  upload_status = processing;
  idempotency_key = none;
  updated_at = some 101;
}

intake-IsValid : IsValid intake
intake-IsValid = record {
  known_status = inl (inl refl);
  has_owner = λ e. cc;
  has_filename = refl;
  has_storage_key = refl;
  has_content_type = refl;
  checksum = λ s e. cc;
  asset_when_completed = λ h. absurd (h refl);
  closed = λ h. ground arith;
  still_open = λ h. refl;
}

start_intake : perform 101 starting intake ≡ ok in_progress
unfolding perform
start_intake = refl

upload_transition_sound_example :
    (pending ⟶ processing) × IsValid in_progress × SameUpload intake in_progress
upload_transition_sound_example =
    upload_transition_sound 101 starting intake in_progress intake-IsValid start_intake

upload_transition_exact_example : Returns (perform 101 failing intake) ↔ Allowed failing pending
upload_transition_exact_example = upload_transition_exact 101 failing intake intake-IsValid

abbrev digest : String
digest = "0123456789abcdef0123456789abcdef0123456789abcdef0123456789abcdef"

digest-is_sha256 : is_sha256 digest ≡ true
unfolding is_sha256
digest-is_sha256 = refl

abbrev calls : List (ℕ × Operation)
calls = (101, starting) ∷ (102, completing 9 digest) ∷ (103, failing) ∷ []

run-calls : (run calls intake).0.upload_status ≡ completed
unfolding run perform is_sha256
run-calls = refl
