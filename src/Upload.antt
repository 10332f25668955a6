-- ===== src/Upload.antt =====
-- backend/app/domain/entities/upload.py: an upload and its state machine.
-- `datetime.now` is the argument `now`; a `ValueError` or `UploadTransitionError` is a value of
-- `UploadError`, one constructor for each message.
pub mod Lifecycle
use Prim.Native.Char.{code}
use sentinal.Prelude.{
  ℕ, suc, String, Bool, true, false, not, ◌&&◌, ◌||◌, Option, none, some, leb, ◌==◌, is_empty,
  is_none, if◌then◌else◌,
}
use sentinal.Prelude.Outcome.{Result, ok, err, ◌>>=◌, ◌>>◌, refuse}

-- `upload_status: str`; `other` is a text that is not in `VALID_UPLOAD_STATUSES`.
pub data Status : Type 0 where
  pending processing completed failed : Status
  other : String → Status

unfoldable pub in_valid_statuses : Status → Bool
in_valid_statuses (other s) = false
in_valid_statuses _ = true

unfoldable pub in_terminal_statuses : Status → Bool
in_terminal_statuses completed = true
in_terminal_statuses failed = true
in_terminal_statuses _ = false

abbrev pub is_pending : Status → Bool
is_pending pending = true
is_pending _ = false

abbrev pub is_processing : Status → Bool
is_processing processing = true
is_processing _ = false

abbrev pub is_completed : Status → Bool
is_completed completed = true
is_completed _ = false

pub data UploadError : Type 0 where
  invalid_status user_required filename_required storage_key_required : UploadError
  content_type_required checksum_format asset_before_completed : UploadError
  terminal_needs_completed_at open_has_completed_at : UploadError
  terminal_state bad_transition : Status → UploadError

-- `[a-f0-9]`
unfoldable pub is_hex : ℕ → Bool
is_hex c = (leb b'a' c && leb c b'f') || (leb b'0' c && leb c b'9')

unfoldable pub all_hex : String → Bool
unfolding is_hex
all_hex String.[] = true
all_hex (String.◌∷◌ c s) = is_hex (code c) && all_hex s

unfoldable pub text_length : String → ℕ
text_length String.[] = 0
text_length (String.◌∷◌ c s) = suc (text_length s)

-- `_SHA256_PATTERN.fullmatch(s)`
unfoldable pub is_sha256 : String → Bool
unfolding all_hex text_length
is_sha256 s = all_hex s && text_length s == 64

abbrev bad_checksum : Option String → Bool
bad_checksum none = false
bad_checksum (some s) = not (is_sha256 s)

pub record Upload : Type 0 where
  pub id : ℕ
  pub user_id : Option ℕ
  pub original_filename : String
  pub storage_key : String
  pub content_type : String
  pub file_size_bytes : ℕ
  pub upload_status : Status
  pub created_at : ℕ
  pub checksum_sha256 : Option String
  pub digital_asset_id : Option ℕ
  pub idempotency_key : Option String
  pub completed_at : Option ℕ
  pub updated_at : Option ℕ
  pub deleted_at : Option ℕ

-- `file_size_bytes` is a natural number here, so the test `file_size_bytes < 0` never fires.
unfoldable pub validate : Upload → Result UploadError (Unit {0})
unfolding in_valid_statuses in_terminal_statuses
validate u = do
  refuse (not (in_valid_statuses u.upload_status)) invalid_status
  refuse (is_none u.user_id) user_required
  refuse (is_empty u.original_filename) filename_required
  refuse (is_empty u.storage_key) storage_key_required
  refuse (is_empty u.content_type) content_type_required
  refuse (bad_checksum u.checksum_sha256) checksum_format
  refuse (not (is_none u.digital_asset_id) && not (is_completed u.upload_status))
      asset_before_completed
  refuse (in_terminal_statuses u.upload_status && is_none u.completed_at)
      terminal_needs_completed_at
  refuse (not (in_terminal_statuses u.upload_status) && not (is_none u.completed_at))
      open_has_completed_at

-- `Upload(...)` with its `__post_init__`
unfoldable pub construct : Upload → Result UploadError Upload
unfolding validate
construct u = do validate u; ok u

-- `Upload.create`: a pending upload with no checksum and no asset; `created_at or now`.
unfoldable pub create :
    (now id : ℕ) (user_id : Option ℕ) (original_filename storage_key content_type : String)
    (file_size_bytes : ℕ) (idempotency_key : Option String) (created_at : Option ℕ)
    → Result UploadError Upload
unfolding construct
create now id user_id original_filename storage_key content_type file_size_bytes idempotency_key
      created_at =
    construct (record {
      id = id;
      user_id = user_id;
      original_filename = original_filename;
      storage_key = storage_key;
      content_type = content_type;
      file_size_bytes = file_size_bytes;
      upload_status = pending;
      created_at = (elim created_at [ none ↦ now | some t ↦ t ]);
      checksum_sha256 = none;
      digital_asset_id = none;
      idempotency_key = idempotency_key;
      completed_at = none;
      updated_at = none;
      deleted_at = none;
    })

-- `_transitioned` names every field of the next state but `idempotency_key`, which takes its
-- default, `None`.
unfoldable pub transitioned :
    (now : ℕ)
    → Status
    → (checksum_sha256 : Option String) (digital_asset_id : Option ℕ) (set_completed_at : Bool)
    → Upload
    → Result UploadError Upload
unfolding construct
transitioned now status checksum_sha256 digital_asset_id set_completed_at u = construct (record {
  id = u.id;
  user_id = u.user_id;
  original_filename = u.original_filename;
  storage_key = u.storage_key;
  content_type = u.content_type;
  file_size_bytes = u.file_size_bytes;
  upload_status = status;
  created_at = u.created_at;
  checksum_sha256 = checksum_sha256;
  digital_asset_id = digital_asset_id;
  idempotency_key = none;
  completed_at = (if set_completed_at then some now else none);
  updated_at = some now;
  deleted_at = u.deleted_at;
})

unfoldable pub assert_not_terminal : Upload → Result UploadError (Unit {0})
unfolding in_terminal_statuses
assert_not_terminal u =
    refuse (in_terminal_statuses u.upload_status) (terminal_state u.upload_status)

unfoldable pub start_processing : (now : ℕ) → Upload → Result UploadError Upload
unfolding assert_not_terminal transitioned
start_processing now u = do
  assert_not_terminal u
  refuse (not (is_pending u.upload_status)) (bad_transition u.upload_status)
  transitioned now processing none none false u

unfoldable pub complete :
    (now digital_asset_id : ℕ) (checksum_sha256 : String) → Upload → Result UploadError Upload
unfolding assert_not_terminal transitioned
complete now digital_asset_id checksum_sha256 u = do
  assert_not_terminal u
  refuse (not (is_processing u.upload_status)) (bad_transition u.upload_status)
  transitioned now completed (some checksum_sha256) (some digital_asset_id) true u

unfoldable pub fail : (now : ℕ) → Upload → Result UploadError Upload
unfolding assert_not_terminal transitioned
fail now u = do assert_not_terminal u; transitioned now failed none none true u
