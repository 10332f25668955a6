-- ===== src/Storage.antt =====
-- The way of an upload's bytes into object storage: the hashing wrapper `_HashingTee` of
-- backend/app/application/services/upload_service.py, and `upload_stream` of
-- backend/app/infrastructure/storage/s3_adapter.py. The storage client is third-party code: what it
-- answers to each request is the argument `Replies`, and the requests are recorded in their order.
pub mod Parts
pub mod Rounds
pub mod Multipart
pub mod Returns
pub mod Limit
use sentinal.Prelude.{
  ℕ, zero, suc, ◌+◌, ◌*◌, Bool, true, false, not, ◌||◌, Option, none, some, List, [], ◌∷◌, ◌++◌,
  ltb, length, take, drop, if◌then◌else◌,
}
use sentinal.Prelude.Outcome.{Result, ok, err, Exec}

-- The chunks that went through: the bytes fed to the digest, and their number.
pub record Tee : Type 0 where
  pub received : List ℕ
  pub size_bytes : ℕ

-- What a call of the client raises: a connection error, another error of the library, or neither.
pub data ClientFault : Type 0 where
  connection library unforeseen : ClientFault

pub data UploadFault : Type 0 where
  too_large : (size_bytes max_bytes : ℕ) → UploadFault
  from_client : ClientFault → UploadFault

-- `__anext__`, on a chunk of the source
unfoldable pub next_chunk : (max_bytes : ℕ) → Tee → List ℕ → Result UploadFault Tee
next_chunk max_bytes t chunk =
    let size = t.size_bytes + length chunk in
    if ltb max_bytes size
    then err (too_large size max_bytes)
    else ok (record { received = t.received ++ chunk; size_bytes = size })

-- A part that storage has confirmed; its ETag stands for its body.
pub record Part : Type 0 where
  pub part_number : ℕ
  pub body : List ℕ

pub data Request : Type 0 where
  create_multipart_upload abort_multipart_upload : Request
  upload_part : (part_number : ℕ) (body : List ℕ) → Request
  complete_multipart_upload : List Part → Request

-- What the client raises at the creation, at the part with a number, and at the completion.
pub record Replies : Type 0 where
  pub to_create : Option ClientFault
  pub to_part : ℕ → Option ClientFault
  pub to_complete : Option ClientFault

pub record Progress : Type 0 where
  pub buffer : List ℕ
  pub parts : List Part
  pub part_number : ℕ
  pub requests : List Request

abbrev pub asked : Request → Progress → Progress
asked q s = record s { requests = s.requests ++ q ∷ [] }

-- `_upload_part`, and `parts.append(part)`
unfoldable pub send_part : Replies → (body : List ℕ) → Exec Progress UploadFault (Unit {0})
send_part r body s = elim (r.to_part s.part_number) [
  | some e ↦ (err (from_client e), asked (upload_part s.part_number body) s)
  | none ↦ (
    ok tt,
    record (asked (upload_part s.part_number body) s) {
      parts = s.parts ++ record { part_number = s.part_number; body = body } ∷ [];
    },
  )
]

-- `part_number += 1` and `del buffer[:_PART_SIZE]`
abbrev pub advance : (part_size : ℕ) → Progress → Progress
advance part_size s = record s { part_number = suc s.part_number; buffer = drop part_size s.buffer }

abbrev pub then_do :
    {W : Type 0}
    → Result UploadFault (Unit {0}) × W
    → Exec W UploadFault (Unit {0})
    → Result UploadFault (Unit {0}) × W
then_do (ok u, s) next = next s
then_do (err e, s) next = (err e, s)

-- The `while` loop over the buffer, on fuel; the length of the buffer is enough.
unfoldable pub drain : (part_size fuel : ℕ) → Replies → Exec Progress UploadFault (Unit {0})
unfolding send_part
drain part_size zero r s = (ok tt, s)
drain part_size (suc fuel) r s =
    if ltb (length s.buffer) part_size
    then (ok tt, s)
    else then_do (send_part r (take part_size s.buffer) s)
        (λ s'. drain part_size fuel r (advance part_size s'))

abbrev pub extend : List ℕ → Progress → Progress
extend chunk s = record s { buffer = s.buffer ++ chunk }

-- What the loop over the stream carries.
abbrev pub Carried : Type 0
Carried = Tee × Progress

abbrev pub carry :
    Tee → Result UploadFault (Unit {0}) × Progress → Result UploadFault (Unit {0}) × Carried
carry t (r, s) = (r, (t, s))

abbrev pub after_chunk :
    (part_size : ℕ)
    → Replies
    → (chunk : List ℕ) → Carried
    → Result UploadFault Tee
    → Result UploadFault (Unit {0}) × Carried
after_chunk part_size r chunk (t, s) (err e) = (err e, (t, s))
after_chunk part_size r chunk (t, s) (ok t') =
    carry t' (drain part_size (length (s.buffer ++ chunk)) r (extend chunk s))

-- `async for chunk in stream`, over the wrapper
unfoldable pub consume :
    (part_size max_bytes : ℕ) → Replies → List (List ℕ) → Exec Carried UploadFault (Unit {0})
unfolding drain next_chunk
consume part_size max_bytes r [] c = (ok tt, c)
consume part_size max_bytes r (chunk ∷ stream) c =
    then_do (after_chunk part_size r chunk c (next_chunk max_bytes c.0 chunk))
      (consume part_size max_bytes r stream)

abbrev pub is_nil : {A : Type 0} → List A → Bool
is_nil [] = true
is_nil (a ∷ rest) = false

-- the final part
unfoldable pub last_part : Replies → Exec Progress UploadFault (Unit {0})
unfolding send_part
last_part r s =
    if not (is_nil s.buffer) || is_nil s.parts then send_part r s.buffer s else (ok tt, s)

unfoldable pub complete_upload : Replies → Exec Progress UploadFault (Unit {0})
complete_upload r s = elim r.to_complete [
  | some e ↦ (err (from_client e), asked (complete_multipart_upload s.parts) s)
  | none ↦ (ok tt, asked (complete_multipart_upload s.parts) s)
]

-- what raises inside is followed by an abort, whose own errors are suppressed
abbrev pub or_abort :
    Result UploadFault (Unit {0}) × Carried → Result UploadFault (Unit {0}) × Carried
or_abort (ok u, c) = (ok u, c)
or_abort (err e, (t, s)) = (err e, (t, asked abort_multipart_upload s))

unfoldable pub finish : Replies → Exec Carried UploadFault (Unit {0})
unfolding last_part complete_upload
finish r (t, s) = carry t (then_do (last_part r s) (complete_upload r))

abbrev pub intake : Tee
intake = record { received = []; size_bytes = 0 }

abbrev pub created : Progress
created = record {
  buffer = [];
  parts = [];
  part_number = 1;
  requests = create_multipart_upload ∷ [];
}

-- `upload_stream` over the wrapper, from its start
unfoldable pub upload_stream :
    (part_size max_bytes : ℕ) → Replies → List (List ℕ) → Result UploadFault (Unit {0}) × Carried
unfolding consume finish
upload_stream part_size max_bytes r stream = elim r.to_create [
  | some e ↦ (err (from_client e), (intake, created))
  | none ↦ or_abort (then_do (consume part_size max_bytes r stream (intake, created)) (finish r))
]

-- `_PART_SIZE`
abbrev pub default_part_size : ℕ
default_part_size = 8 * 1024 * 1024
