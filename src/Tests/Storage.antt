-- ===== src/Tests/Storage.antt =====
-- Streams into object storage, and their keys: backend/app/infrastructure/storage/s3_adapter.py and
-- backend/app/application/services/upload_service.py.
use mathlib.Core.List.{flatten}
use sentinal.Prelude.{◌⊎◌, ◌≤◌, ◌<◌, true, length, ℕ, ◌+◌, ◌≡◌, refl, none, List, [], ◌∷◌, arith}
use sentinal.Prelude.Outcome.{ok, err}
use sentinal.Storage.{
  Tee, Progress, asked, Replies, too_large, upload_part, create_multipart_upload,
  abort_multipart_upload, complete_multipart_upload, Carried, upload_stream, consume, drain,
  send_part, next_chunk, finish, last_part, complete_upload,
}
use sentinal.Validation.MediaType.{codes}
use sentinal.Intake.{is_usual, safe_name, derive_storage_key}
use sentinal.Intake.Names.{IsSafe, count_slashes, safe_name_sanitizes}
use sentinal.Storage.Multipart.{Stored}
use sentinal.Storage.Limit.{is_uncompleted, upload_stream_decides}

abbrev willing : Replies
willing = record { to_create = none; to_part = λ n. none; to_complete = none }

-- Seven bytes in three chunks.
abbrev chunks : List (List ℕ)
chunks = (1 ∷ 2 ∷ []) ∷ (3 ∷ 4 ∷ 5 ∷ 6 ∷ []) ∷ (7 ∷ []) ∷ []

-- Parts of three bytes: two full ones and the rest.
seven_bytes :
    (upload_stream 3 100 willing chunks).1.1.requests
    ≡ create_multipart_upload
      ∷ upload_part 1 (1 ∷ 2 ∷ 3 ∷ [])
      ∷ upload_part 2 (4 ∷ 5 ∷ 6 ∷ [])
      ∷ upload_part 3 (7 ∷ [])
      ∷ complete_multipart_upload (
          record { part_number = 1; body = 1 ∷ 2 ∷ 3 ∷ [] }
          ∷ record { part_number = 2; body = 4 ∷ 5 ∷ 6 ∷ [] }
          ∷ record { part_number = 3; body = 7 ∷ [] }
          ∷ [])
      ∷ []
unfolding upload_stream consume drain send_part next_chunk finish last_part complete_upload
seven_bytes = refl

-- Too many bytes: nothing is completed.
too_many :
    ((upload_stream 3 4 willing chunks).0 ≡ err (too_large 6 4))
    × ((upload_stream 3 4 willing chunks).1.1.requests
        ≡ create_multipart_upload ∷ abort_multipart_upload ∷ [])
unfolding upload_stream consume drain send_part next_chunk finish last_part complete_upload
too_many = (refl, refl)

upload_stream_decides_example :
    ((length (flatten chunks) ≤ 100)
      × (c : Carried) × (upload_stream 3 100 willing chunks ≡ (ok tt, c))
      × Stored 3 100 (flatten chunks) c)
    ⊎ ((100 < length (flatten chunks))
        × (t : Tee) × (s : Progress) × (size : ℕ) × (upload_stream 3 100 willing chunks
            ≡ (err (too_large size 100), (t, asked abort_multipart_upload s)))
        × (100 < size)
        × (is_uncompleted s.requests ≡ true))
upload_stream_decides_example =
    upload_stream_decides 3 100 willing chunks (omega arith) refl (λ n. refl) refl

-- A name that tries to leave its place.
climbing_name : safe_name (codes "../../a  b..pdf") ≡ codes "_._a_b.pdf"
unfolding safe_name is_usual
climbing_name = refl

safe_name_sanitizes_example :
    IsSafe (safe_name (codes "../../a  b..pdf"))
    × (safe_name (safe_name (codes "../../a  b..pdf")) ≡ safe_name (codes "../../a  b..pdf"))
    × (count_slashes
          (derive_storage_key (codes "2026/01/02") (codes "77") (codes "../../a  b..pdf"))
        ≡ 3 + (count_slashes (codes "2026/01/02") + count_slashes (codes "77")))
safe_name_sanitizes_example =
    safe_name_sanitizes (codes "2026/01/02") (codes "77") (codes "../../a  b..pdf")
