-- ===== src/Tests/Intake.antt =====
-- Uploads from their stream to their asset: backend/app/application/services/upload_service.py.
use mathlib.Core.List.{flatten}
use sentinal.Prelude.{
  ℕ, ◌≡◌, ◌≢◌, refl, String, Bool, true, false, Option, none, some, List, [], ◌∷◌, if◌then◌else◌,
  map, arith, str_eq, eq_iff,
}
use sentinal.Prelude.Outcome.{Result, ok, err}
use sentinal.Upload
use sentinal.Asset
use sentinal.Storage.{upload_stream}
use sentinal.Storage.Parts.{body_of}
use sentinal.Service.{written}
use sentinal.Validation.MediaType.{
  codes, validate_declared_mime_type, text_eq, normalize_content_type,
}
use sentinal.Validation.Signature.{
  pdf_mime, validate_magic_bytes, is_text_type, check_signature, patterns_of, mime_signatures,
  matches,
}
use sentinal.Intake.{derive_storage_key, safe_name, sub_unusual, sub_dots, lstrip_dots, is_usual}
use sentinal.Prelude.Chars.{text, chr, with_scalar}
use sentinal.Intake.Tables.{
  Tables, upload_completed, find_hash, get_by_idempotency_key, create_upload, find_upload,
  create_asset, write_upload, log_completed,
}
use sentinal.Validation.Stream.{validate_upload_stream, sniff, replay}
use sentinal.Upload.{is_sha256}
use sentinal.Intake.World.{World, Bucket, Settings, Request, Outside, IntakeError}
use sentinal.Intake.Process.{storage_key_of}
use sentinal.Intake.Handle.{open_session, Kept, handle_upload}
use sentinal.Intake.Contents.{object_of, content_of, key_is_free, AllGenuine, stored}
use sentinal.Intake.Completed.{are_completed}
use sentinal.Intake.Cleanup.{cleanup_abandoned_uploads, handle_all, cleanup_idle}
use sentinal.Intake.Refinement.{Refined, handle_upload-Refined}

abbrev Objects : Type 0
Objects = String → Option (List ℕ)

abbrev put : String → List ℕ → Objects → Objects
put key content s other = if str_eq other key then some content else s other

abbrev remove : String → Objects → Objects
remove key s other = if str_eq other key then none else s other

put_there : (s : Objects) (key : String) (content : List ℕ) → put key content s key ≡ some content
put_there s key content = ground (arith, eq_iff key key)

put_other :
    (s : Objects) (key other : String) (content : List ℕ)
    → other ≢ key
    → put key content s other ≡ s other
put_other s key other content apart = ground (arith, eq_iff other key)

remove_other : (s : Objects) (key other : String) → other ≢ key → remove key s other ≡ s other
remove_other s key other apart = ground (arith, eq_iff other key)

abbrev objects : Bucket
objects = record {
  State = Objects;
  complete = λ key parts s. put key (flatten (map body_of parts)) s;
  delete = remove;
  get = λ s key. s key;
  get-complete = λ s key parts. put_there s key (flatten (map body_of parts));
  get-complete_other =
      λ s key other parts apart. put_other s key other (flatten (map body_of parts)) apart;
  get-delete_other = remove_other;
}

-- A stand-in for a digest: it tells the empty content from the others.
abbrev digest : List ℕ → String
digest [] = "e3b0c44298fc1c149afbf4c8996fb92427ae41e4649b934ca495991b7852b855"
digest (b ∷ content) = "0123456789abcdef0123456789abcdef0123456789abcdef0123456789abcdef"

abbrev settings : Settings
settings = record { allowed_mime_types = pdf_mime ∷ []; max_file_size = 1000 }

abbrev request : Request
request = record {
  user_id = 1;
  original_filename = "r.pdf";
  content_type = "application/pdf";
  stream = codes "%P" ∷ codes "DF-1.7" ∷ [];
  idempotency_key = some "key-1";
}

abbrev first_time : Outside
first_time = record {
  now = 100;
  date = codes "2024/01/02";
  upload_id = 7;
  key_id = codes "a1";
  asset_id = 20;
  replies = record { to_create = none; to_part = λ n. none; to_complete = none };
  delete_fails = false;
  audit = written;
}

abbrev nothing_kept : Kept Objects
nothing_kept = record {
  tables = record { uploads = []; assets = []; audit = [] };
  bucket = λ key. none;
}

first_key : storage_key_of first_time request ≡ "uploads/2024/01/02/a1/r.pdf"
unfolding storage_key_of derive_storage_key safe_name sub_unusual sub_dots lstrip_dots is_usual text
    chr with_scalar
first_key = refl

abbrev answer_of : Result IntakeError Upload.Upload × Kept Objects → Bool
answer_of (ok u, k) = true
answer_of (err e, k) = false

first_taken :
    answer_of (handle_upload objects digest settings first_time request nothing_kept) ≡ true
unfolding handle_upload storage_key_of derive_storage_key safe_name sub_unusual sub_dots lstrip_dots
    is_usual text chr with_scalar get_by_idempotency_key validate_declared_mime_type text_eq
    normalize_content_type create_upload find_upload validate_upload_stream validate_magic_bytes
    is_text_type check_signature patterns_of mime_signatures sniff matches upload_stream replay
    is_sha256 create_asset write_upload log_completed
first_taken = refl

-- An asset with the same content is there, with an object of its own.
abbrev known_asset : Asset.DigitalAsset
known_asset = record {
  id = 3;
  user_id = 1;
  asset_type = Asset.file;
  raw_value = "older.pdf";
  normalized_value = "0123456789abcdef0123456789abcdef0123456789abcdef0123456789abcdef";
  created_at = 50;
  display_label = none;
  mime_type = some "application/pdf";
  size_bytes = some 8;
  is_active = true;
  sha256_hash = some "0123456789abcdef0123456789abcdef0123456789abcdef0123456789abcdef";
  storage_key = some "uploads/older.pdf";
  metadata_json = none;
  updated_at = none;
  deleted_at = none;
}

abbrev one_kept : Kept Objects
one_kept = record {
  tables = record { uploads = []; assets = known_asset ∷ []; audit = [] };
  bucket = put "uploads/older.pdf" (codes "%PDF-1.7") (λ key. none);
}

one_kept-AllGenuine : AllGenuine objects digest one_kept.bucket one_kept.tables.assets
unfolding AllGenuine
one_kept-AllGenuine = (stored "uploads/older.pdf" (codes "%PDF-1.7") refl refl refl, tt)

one_kept_free : key_is_free (storage_key_of first_time request) one_kept.tables.assets ≡ true
unfolding key_is_free storage_key_of derive_storage_key safe_name sub_unusual sub_dots lstrip_dots
    is_usual text chr with_scalar
one_kept_free = refl

one_kept_content :
    (h : String) (c : List ℕ)
    → content_of objects digest one_kept.tables.assets one_kept.bucket h ≡ some c
    → c ≡ flatten request.stream
unfolding content_of object_of find_hash flatten
one_kept_content h c e = let same : c ≡ codes "%PDF-1.7" = ground arith in same

-- The content is taken again, the asset is the one that was there, and the new object is gone.
duplicate_answer :
    answer_of (handle_upload objects digest settings first_time request one_kept) ≡ true
unfolding handle_upload storage_key_of derive_storage_key safe_name sub_unusual sub_dots lstrip_dots
    is_usual text chr with_scalar get_by_idempotency_key validate_declared_mime_type text_eq
    normalize_content_type create_upload find_upload validate_upload_stream validate_magic_bytes
    is_text_type check_signature patterns_of mime_signatures sniff matches upload_stream replay
    is_sha256 create_asset write_upload log_completed
duplicate_answer = refl

duplicate_dropped :
    (handle_upload objects digest settings first_time request one_kept).1.bucket
      (storage_key_of first_time request)
    ≡ none
unfolding handle_upload storage_key_of derive_storage_key safe_name sub_unusual sub_dots lstrip_dots
    is_usual text chr with_scalar get_by_idempotency_key validate_declared_mime_type text_eq
    normalize_content_type create_upload find_upload validate_upload_stream validate_magic_bytes
    is_text_type check_signature patterns_of mime_signatures sniff matches upload_stream replay
    is_sha256 create_asset write_upload log_completed
duplicate_dropped = refl

handle_upload-Refined_example :
    Refined objects digest
      (flatten request.stream)
      request.idempotency_key
      (content_of objects digest one_kept.tables.assets one_kept.bucket)
      (handle_upload objects digest settings first_time request one_kept)
handle_upload-Refined_example =
    handle_upload-Refined objects digest settings first_time request one_kept one_kept-AllGenuine
      one_kept_free (λ h c e same. one_kept_content h c e)

abbrev first_upload : Upload.Upload
first_upload = record {
  id = 7;
  user_id = some 1;
  original_filename = "r.pdf";
  storage_key = "uploads/2024/01/02/a1/r.pdf";
  content_type = "application/pdf";
  file_size_bytes = 8;
  upload_status = Upload.completed;
  created_at = 100;
  checksum_sha256 = some "0123456789abcdef0123456789abcdef0123456789abcdef0123456789abcdef";
  digital_asset_id = some 3;
  idempotency_key = some "key-1";
  completed_at = some 100;
  updated_at = some 100;
  deleted_at = none;
}

-- The state that the first request leaves.
abbrev uploaded : Kept Objects
uploaded = record {
  tables = record {
    uploads = first_upload ∷ [];
    assets = known_asset ∷ [];
    audit = upload_completed 1 7 3 ∷ [];
  };
  bucket =
      remove "uploads/2024/01/02/a1/r.pdf"
        (put "uploads/2024/01/02/a1/r.pdf" (codes "%PDF-1.7") one_kept.bucket);
}

abbrev other_file : Request
other_file = record request { original_filename = "other.pdf"; stream = codes "none" ∷ [] }

one_kept_completed : are_completed one_kept.tables.uploads ≡ true
unfolding are_completed
one_kept_completed = refl

cleanup_idle_example :
    (are_completed
        (handle_all objects digest settings
          ((first_time, request) ∷ (first_time, other_file) ∷ [])
          one_kept).tables.uploads
      ≡ true)
    × (cleanup_abandoned_uploads objects
          (λ key. none)
          200000
          1000
          (open_session (
            handle_all objects digest settings
              ((first_time, request) ∷ (first_time, other_file) ∷ [])
              one_kept))
        ≡ (
          ok 0,
          open_session (
              handle_all objects digest settings
                ((first_time, request) ∷ (first_time, other_file) ∷ [])
                one_kept),
        ))
cleanup_idle_example =
    cleanup_idle objects digest settings ((first_time, request) ∷ (first_time, other_file) ∷ [])
      one_kept (λ key. none) 200000 1000 one_kept_completed

abbrev abandoned : World Objects
abandoned = record {
  records = record {
    committed = one_kept.tables;
    tables = record {
      uploads =
          record first_upload {
            upload_status = Upload.pending;
            digital_asset_id = none;
            completed_at = none;
          }
          ∷ [];
      assets = [];
      audit = [];
    };
    is_broken = false;
  };
  bucket = put "uploads/2024/01/02/a1/r.pdf" (codes "%PDF-1.7") (λ key. none);
}

abbrev upload_statuses : Tables → List Upload.Status
upload_statuses t = map (λ (u : Upload.Upload). u.upload_status) t.uploads

-- A stale pending upload is failed, and its object is deleted.
stale_cleaned :
    let (answer, w) = cleanup_abandoned_uploads objects (λ key. none) 200000 1000 abandoned in
    (answer ≡ ok 1)
    × (upload_statuses w.records.tables ≡ Upload.failed ∷ [])
    × (w.bucket "uploads/2024/01/02/a1/r.pdf" ≡ none)
unfolding cleanup_abandoned_uploads is_sha256 find_upload write_upload
stale_cleaned = (refl, refl, refl)
