-- ===== src/Storage/Returns.antt =====
-- When `upload_stream` of backend/app/infrastructure/storage/s3_adapter.py returns.
use mathlib.Core.List.{flatten}
use sentinal.Prelude.{
  ℕ, zero, suc, ◌+◌, ◌≤◌, ◌<◌, ◌≡◌, inl, inr, refl, ap, ◌∙◌, not, ◌||◌, none, List, [], ◌∷◌, ◌++◌,
  ltb, length, take, length-append, arith, Bool-cases,
}
use sentinal.Prelude.Outcome.{Result, ok}
use sentinal.Storage.{
  Tee, Replies, Progress, UploadFault, next_chunk, send_part, is_nil, advance, then_do, drain,
  extend, Carried, after_chunk, carry, consume, last_part, complete_upload, finish, or_abort,
  intake, created, upload_stream,
}
use sentinal.Storage.Multipart.{Stored, upload_stream-Stored}

-- The client raises at no part.
abbrev pub TakesParts : Replies → Type 0
TakesParts r = (n : ℕ) → r.to_part n ≡ none

pub send_part_returns :
    (r : Replies) (body : List ℕ) (s : Progress)
    → TakesParts r
    → (s' : Progress) × (send_part r body s ≡ (ok tt, s'))
unfolding send_part
send_part_returns r body s takes = ((send_part r body s).1, ground (arith, takes s.part_number))

pub then_do_returns :
    {W : Type 0} (d : Result UploadFault (Unit {0}) × W)
    (next : W → Result UploadFault (Unit {0}) × W) (m : W)
    → d ≡ (ok tt, m)
    → ((s : W) × (next m ≡ (ok tt, s)))
    → (s : W) × (then_do d next ≡ (ok tt, s))
then_do_returns d next m first (s, rest) = (s, ap (λ x. then_do x next) first ∙ rest)

drain_returns :
    (part_size fuel : ℕ) (r : Replies) (s : Progress)
    → TakesParts r
    → (s' : Progress) × (drain part_size fuel r s ≡ (ok tt, s'))
unfolding drain
drain_returns part_size zero r s takes = (s, refl)
drain_returns part_size (suc fuel) r s takes = elim (Bool-cases (ltb (length s.buffer) part_size)) [
  | inl short ↦ (s, ground arith)
  | inr enough ↦
      let (m, sent) = send_part_returns r (take part_size s.buffer) s takes in
      let rest = drain_returns part_size fuel r (advance part_size m) takes in
      let (s', ran) =
        then_do_returns (send_part r (take part_size s.buffer) s)
          (λ s'. drain part_size fuel r (advance part_size s')) m sent rest in
      (s', rw (drain, enough) ran)
]

after_chunk_returns :
    (part_size max_bytes : ℕ) (r : Replies) (chunk : List ℕ) (c : Carried)
    → TakesParts r
    → c.0.size_bytes + length chunk ≤ max_bytes
    → (c' : Carried) × (after_chunk part_size r chunk c (next_chunk max_bytes c.0 chunk)
        ≡ (ok tt, c'))
      × (c'.0.size_bytes ≡ c.0.size_bytes + length chunk)
unfolding next_chunk
after_chunk_returns part_size max_bytes r chunk (t, s) takes fits =
    let (s', ran) = drain_returns part_size (length (s.buffer ++ chunk)) r (extend chunk s) takes in
    let t' : Tee = record {
      received = t.received ++ chunk;
      size_bytes = t.size_bytes + length chunk;
    } in
    let allowed : next_chunk max_bytes t chunk ≡ ok t' = ground arith in
    ((t', s'), ap (after_chunk part_size r chunk (t, s)) allowed ∙ ap (carry t') ran, refl)

consume_returns :
    (part_size max_bytes : ℕ) (r : Replies) (stream : List (List ℕ)) (c : Carried)
    → TakesParts r
    → c.0.size_bytes + length (flatten stream) ≤ max_bytes
    → (c' : Carried) × (consume part_size max_bytes r stream c ≡ (ok tt, c'))
unfolding consume flatten
consume_returns part_size max_bytes r [] c takes fits = (c, refl)
consume_returns part_size max_bytes r (chunk ∷ stream) c takes fits =
    let joined = length-append chunk (flatten stream) in
    let (m, read, size) =
      after_chunk_returns part_size max_bytes r chunk c takes (omega (arith, joined)) in
    then_do_returns (after_chunk part_size r chunk c (next_chunk max_bytes c.0 chunk))
      (consume part_size max_bytes r stream) m read
      (consume_returns part_size max_bytes r stream m takes (omega (arith, joined, size)))

finish_returns :
    (r : Replies) (c : Carried)
    → TakesParts r
    → r.to_complete ≡ none
    → (c' : Carried) × (finish r c ≡ (ok tt, c'))
unfolding finish last_part complete_upload
finish_returns r (t, s) takes completes =
    elim (Bool-cases (not (is_nil s.buffer) || is_nil s.parts)) [
      | inr done ↦ ((finish r (t, s)).1, ground arith)
      | inl last ↦
          let (m, sent) = send_part_returns r s.buffer s takes in
          ((finish r (t, s)).1, ground (arith, sent))
    ]

pub upload_stream_created :
    (part_size max_bytes : ℕ) (r : Replies) (stream : List (List ℕ))
    → r.to_create ≡ none
    → upload_stream part_size max_bytes r stream
      ≡ or_abort (then_do (consume part_size max_bytes r stream (intake, created)) (finish r))
unfolding upload_stream
upload_stream_created part_size max_bytes r stream creates = ground arith

-- When the client raises nothing and the stream has no more bytes than allowed, the upload returns;
-- it has then fed the digest with exactly the bytes of the stream and counted them; and it has asked
-- storage to create the upload, to take the parts in their order, numbered from 1, and to complete it
-- with these parts, which joined are the bytes of the stream; all but the last have the part size,
-- which is positive, and none is empty unless it is the only one.
pub upload_stream_returns :
    (part_size max_bytes : ℕ) (r : Replies) (stream : List (List ℕ))
    → 0 < part_size
    → r.to_create ≡ none
    → ((n : ℕ) → r.to_part n ≡ none)
    → r.to_complete ≡ none
    → length (flatten stream) ≤ max_bytes
    → (c : Carried) × (upload_stream part_size max_bytes r stream ≡ (ok tt, c))
      × Stored part_size max_bytes (flatten stream) c
upload_stream_returns part_size max_bytes r stream positive creates takes completes fits =
    let (m, read) =
      consume_returns part_size max_bytes r stream (intake, created) takes (omega (arith, fits)) in
    let (c, ran) =
      then_do_returns (consume part_size max_bytes r stream (intake, created)) (finish r) m read
        (finish_returns r m takes completes) in
    let whole : upload_stream part_size max_bytes r stream ≡ (ok tt, c) =
      upload_stream_created part_size max_bytes r stream creates ∙ ap or_abort ran in
    (c, whole, upload_stream-Stored part_size max_bytes r stream c positive whole)
