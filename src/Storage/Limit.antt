-- ===== src/Storage/Limit.antt =====
-- The size limit of `_HashingTee` (backend/app/application/services/upload_service.py) inside
-- `upload_stream` of backend/app/infrastructure/storage/s3_adapter.py.
use mathlib.Core.List.{flatten}
use sentinal.Prelude.{
  ℕ, zero, suc, ◌+◌, ◌≤◌, ◌<◌, ◌≡◌, ◌⊎◌, inl, inr, refl, ap, ◌∙◌, Bool, true, false, ◌&&◌, none,
  List, [], ◌∷◌, ◌++◌, ltb, length, take, length-append, arith, Bool-cases,
}
use sentinal.Prelude.Outcome.{ok, err}
use sentinal.Storage.{
  Tee, Replies, Progress, Request, create_multipart_upload, abort_multipart_upload,
  complete_multipart_upload, upload_part, too_large, next_chunk, send_part, advance, then_do, drain,
  extend, Carried, carry, consume, finish, or_abort, intake, created, upload_stream, asked,
}
use sentinal.Storage.Multipart.{Stored}
use sentinal.Storage.Returns.{send_part_returns, upload_stream_created, upload_stream_returns}

-- No request asks to complete the upload.
unfoldable pub is_uncompleted : List Request → Bool
is_uncompleted [] = true
is_uncompleted (complete_multipart_upload parts ∷ qs) = false
is_uncompleted (_ ∷ qs) = is_uncompleted qs

is_uncompleted-append :
    (qs : List Request) (q : Request)
    → is_uncompleted (qs ++ q ∷ []) ≡ (is_uncompleted qs && is_uncompleted (q ∷ []))
unfolding is_uncompleted
is_uncompleted-append [] q = refl
is_uncompleted-append (complete_multipart_upload parts ∷ qs) q = refl
is_uncompleted-append (upload_part n body ∷ qs) q = is_uncompleted-append qs q
is_uncompleted-append (create_multipart_upload ∷ qs) q = is_uncompleted-append qs q
is_uncompleted-append (abort_multipart_upload ∷ qs) q = is_uncompleted-append qs q

send_part_uncompleted :
    (r : Replies) (body : List ℕ) (s s' : Progress)
    → send_part r body s ≡ (ok tt, s')
    → is_uncompleted s.requests ≡ true
    → is_uncompleted s'.requests ≡ true
unfolding send_part is_uncompleted
send_part_uncompleted r body s s' h u =
    ground (arith, is_uncompleted-append s.requests (upload_part s.part_number body))

drain_uncompleted :
    (part_size fuel : ℕ) (r : Replies) (s : Progress)
    → ((n : ℕ) → r.to_part n ≡ none)
    → is_uncompleted s.requests ≡ true
    → (s' : Progress) × (drain part_size fuel r s ≡ (ok tt, s'))
      × (is_uncompleted s'.requests ≡ true)
unfolding drain
drain_uncompleted part_size zero r s takes u = (s, refl, u)
drain_uncompleted part_size (suc fuel) r s takes u =
    elim (Bool-cases (ltb (length s.buffer) part_size)) [
      | inl short ↦ (s, ground arith, u)
      | inr enough ↦
          let body = take part_size s.buffer in
          let (m, sent) = send_part_returns r body s takes in
          let (s', ran, v) =
            drain_uncompleted part_size fuel r (advance part_size m) takes
              (send_part_uncompleted r body s m sent u) in
          (
            s',
            rw (drain, enough)
                (ap (λ d. then_do d (λ x. drain part_size fuel r (advance part_size x))) sent
                  ∙ ran),
            v,
          )
    ]

-- A stream that goes over the limit, from a state that has not.
consume_over :
    (part_size max_bytes : ℕ) (r : Replies) (stream : List (List ℕ)) (c : Carried)
    → ((n : ℕ) → r.to_part n ≡ none)
    → is_uncompleted c.1.requests ≡ true
    → c.0.size_bytes ≤ max_bytes
    → max_bytes < c.0.size_bytes + length (flatten stream)
    → (c' : Carried) × (size : ℕ) × (consume part_size max_bytes r stream c
        ≡ (err (too_large size max_bytes), c'))
      × (max_bytes < size)
      × (is_uncompleted c'.1.requests ≡ true)
unfolding consume flatten next_chunk
consume_over part_size max_bytes r [] c takes u within over = absurd (omega (arith, within, over))
consume_over part_size max_bytes r (chunk ∷ stream) (t, s) takes u within over =
    elim (Bool-cases (ltb max_bytes (t.size_bytes + length chunk))) [
      | inl more ↦ ((t, s), t.size_bytes + length chunk, rw more refl, ground arith, u)
      | inr fits ↦
          let t' : Tee = record {
            received = t.received ++ chunk;
            size_bytes = t.size_bytes + length chunk;
          } in
          let (s', ran, v) =
            drain_uncompleted part_size (length (s.buffer ++ chunk)) r (extend chunk s) takes u in
          let joined = length-append chunk (flatten stream) in
          let (c', size, raised, big, w) =
            consume_over part_size max_bytes r stream (t', s') takes v (ground arith)
              (ground (arith, joined)) in
          (
            c',
            size,
            rw fits (
                ap (λ d. then_do (carry t' d) (consume part_size max_bytes r stream)) ran ∙ raised),
            big,
            w,
          )
    ]

start_uncompleted : is_uncompleted created.requests ≡ true
unfolding is_uncompleted
start_uncompleted = refl

-- When the client raises nothing, the size of the stream decides. A stream with no more bytes than
-- allowed is uploaded: the digest is fed with exactly its bytes and counts them, and storage is asked
-- to create the upload, to take the parts in their order, numbered from 1, and to complete it with
-- these parts, which joined are the bytes of the stream; all but the last have the part size, which
-- is positive, and none is empty unless it is the only one. A longer stream is refused as too large,
-- and storage is never asked to complete the upload but in the end to abort it.
pub upload_stream_decides :
    (part_size max_bytes : ℕ) (r : Replies) (stream : List (List ℕ))
    → 0 < part_size
    → r.to_create ≡ none
    → ((n : ℕ) → r.to_part n ≡ none)
    → r.to_complete ≡ none
    → ((length (flatten stream) ≤ max_bytes)
        × (c : Carried) × (upload_stream part_size max_bytes r stream ≡ (ok tt, c))
        × Stored part_size max_bytes (flatten stream) c)
      ⊎ ((max_bytes < length (flatten stream))
          × (t : Tee) × (s : Progress) × (size : ℕ) × (upload_stream part_size max_bytes r stream
              ≡ (err (too_large size max_bytes), (t, asked abort_multipart_upload s)))
          × (max_bytes < size)
          × (is_uncompleted s.requests ≡ true))
upload_stream_decides part_size max_bytes r stream positive creates takes completes =
    elim (Bool-cases (ltb max_bytes (length (flatten stream)))) [
      | inr fits ↦
          let within : length (flatten stream) ≤ max_bytes = ground arith in
          let (c, whole, stored) =
            upload_stream_returns part_size max_bytes r stream positive creates takes completes
              within in
          inl (within, c, whole, stored)
      | inl over ↦
          let (c, size, raised, big, u) =
            consume_over part_size max_bytes r stream (intake, created) takes start_uncompleted
              (omega arith) (ground arith) in
          inr (
            ground arith,
            c.0,
            c.1,
            size,
            upload_stream_created part_size max_bytes r stream creates
                ∙ ap (λ d. or_abort (then_do d (finish r))) raised,
            big,
            u,
          )
    ]
