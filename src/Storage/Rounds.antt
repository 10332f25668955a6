-- ===== src/Storage/Rounds.antt =====
-- The rounds of the loops of `upload_stream` (backend/app/infrastructure/storage/s3_adapter.py).
use mathlib.Core.List.{flatten, append_assoc, append-nil}
use mathlib.Core.Path.{subst}
use sentinal.Prelude.{
  ℕ, zero, suc, ◌+◌, ◌≤◌, ◌<◌, ◌≡◌, inl, inr, refl, sym, ap, ◌∙◌, true, false, none, List, [], ◌∷◌,
  ◌++◌, ltb, length, take, drop, map, length-append, take-append-drop, length-take, arith,
  Bool-cases, Option-cases,
}
use sentinal.Prelude.Outcome.{Result, ok, err}
use sentinal.Storage.{
  Tee, Replies, Progress, Part, UploadFault, upload_part, create_multipart_upload, next_chunk,
  send_part, advance, then_do, drain, extend, Carried, after_chunk, carry, consume, asked,
}
use sentinal.Storage.Parts.{
  upload_of, body_of, all_full, counts_from, all_full-append, counts_from-append,
  flatten-append_last, map-append_last,
}

-- Between two rounds: the bytes so far, in full parts and the buffer.
pub record Sent (part_size : ℕ) (content : List ℕ) (s : Progress) : Type 0 where
  pub bytes : flatten (map body_of s.parts) ++ s.buffer ≡ content
  pub full : all_full part_size s.parts ≡ true
  pub next_number : s.part_number ≡ suc (length s.parts)
  pub numbered : counts_from 1 s.parts ≡ true
  pub requested : s.requests ≡ create_multipart_upload ∷ map upload_of s.parts

pub send_part_ok :
    (r : Replies) (body : List ℕ) (s s' : Progress)
    → send_part r body s ≡ (ok tt, s')
    → s' ≡ record (asked (upload_part s.part_number body) s) {
      parts = s.parts ++ record { part_number = s.part_number; body = body } ∷ [];
    }
unfolding send_part
send_part_ok r body s s' h = ground arith

-- A round of the `while` loop.
flush-Sent :
    (part_size : ℕ) (content : List ℕ) (s : Progress)
    → part_size ≤ length s.buffer
    → Sent part_size content s
    → Sent part_size content (
        advance part_size (record (asked (upload_part s.part_number (take part_size s.buffer)) s) {
          parts =
              s.parts
              ++ record { part_number = s.part_number; body = take part_size s.buffer } ∷ [];
        }))
flush-Sent part_size content s enough k =
    let body = take part_size s.buffer in
    let p : Part = record { part_number = s.part_number; body = body } in
    let joined = append_assoc (flatten (map body_of s.parts)) body (drop part_size s.buffer) in
    record {
      bytes = rw (flatten-append_last s.parts p) (
          joined
          ∙ ap (λ (bs : List ℕ). flatten (map body_of s.parts) ++ bs)
              (take-append-drop part_size s.buffer)
          ∙ k.bytes);
      full =
          ground
            (arith, all_full-append part_size s.parts p, k.full, length-take part_size s.buffer);
      next_number = ground (arith, k.next_number, length-append s.parts (p ∷ []));
      numbered = ground (arith, counts_from-append 1 s.parts p, k.numbered, k.next_number);
      requested = ground (arith, k.requested, map-append_last s.parts p);
    }

length-drop : (n : ℕ) (xs : List ℕ) → n ≤ length xs → n + length (drop n xs) ≡ length xs
length-drop n xs h =
    let joined : length (take n xs) + length (drop n xs) ≡ length xs =
      sym (length-append (take n xs) (drop n xs)) ∙ ap length (take-append-drop n xs) in
    omega (arith, joined, length-take n xs)

Sent-same :
    (part_size : ℕ) (content : List ℕ) (s s' : Progress)
    → s ≡ s'
    → length s.buffer < part_size
    → Sent part_size content s
    → Sent part_size content s' × (length s'.buffer < part_size)
Sent-same part_size content s s' same short k =
    (subst (Sent part_size content) same k, subst (λ u. length u.buffer < part_size) same short)

drain_flush :
    (part_size fuel : ℕ) (r : Replies) (s : Progress)
    → ltb (length s.buffer) part_size ≡ false
    → r.to_part s.part_number ≡ none
    → drain part_size (suc fuel) r s
      ≡ drain part_size fuel r (
          advance part_size
            (record (asked (upload_part s.part_number (take part_size s.buffer)) s) {
              parts =
                  s.parts
                  ++ record { part_number = s.part_number; body = take part_size s.buffer } ∷ [];
            }))
unfolding drain send_part
drain_flush part_size fuel r s enough sent = rw (drain, enough, send_part, sent) refl

-- Fuel for as many rounds as there are bytes in the buffer is enough.
drain-Sent :
    (part_size fuel : ℕ) (r : Replies) (content : List ℕ) (s s' : Progress)
    → 0 < part_size
    → length s.buffer ≤ fuel
    → Sent part_size content s
    → drain part_size fuel r s ≡ (ok tt, s')
    → Sent part_size content s' × (length s'.buffer < part_size)
unfolding drain send_part
drain-Sent part_size zero r content s s' positive fuelled k h =
    Sent-same part_size content s s' (ap (λ x. x.1) h) (omega arith) k
drain-Sent part_size (suc fuel) r content s s' positive fuelled k h =
    elim (Bool-cases (ltb (length s.buffer) part_size)) [
      | inl short ↦ Sent-same part_size content s s' (ground arith) (ground arith) k
      | inr enough ↦ elim (Option-cases (r.to_part s.part_number)) [
        | inr (e, raised) ↦ ground arith
        | inl sent ↦
            drain-Sent part_size fuel r content _ s' positive
              (ground (arith, length-drop part_size s.buffer))
              (flush-Sent part_size content s (ground arith) k)
              (sym (drain_flush part_size fuel r s enough sent) ∙ h)
      ]
    ]

-- Between two chunks.
pub record Kept (part_size max_bytes : ℕ) (content : List ℕ) (c : Carried) : Type 0 where
  pub sent : Sent part_size content c.1
  pub short : length c.1.buffer < part_size
  pub received : c.0.received ≡ content
  pub counted : c.0.size_bytes ≡ length content
  pub within : length content ≤ max_bytes

extend-Sent :
    (part_size : ℕ) (content chunk : List ℕ) (s : Progress)
    → Sent part_size content s
    → Sent part_size (content ++ chunk) (extend chunk s)
extend-Sent part_size content chunk s k = record {
  bytes =
      sym (append_assoc (flatten (map body_of s.parts)) s.buffer chunk)
      ∙ ap (λ (bs : List ℕ). bs ++ chunk) k.bytes;
  full = k.full;
  next_number = k.next_number;
  numbered = k.numbered;
  requested = k.requested;
}

next_chunk_ok :
    (max_bytes : ℕ) (t t' : Tee) (chunk content : List ℕ)
    → next_chunk max_bytes t chunk ≡ ok t'
    → t.received ≡ content
    → t.size_bytes ≡ length content
    → (t'.received ≡ content ++ chunk)
      × (t'.size_bytes ≡ length (content ++ chunk))
      × (length (content ++ chunk) ≤ max_bytes)
unfolding next_chunk
next_chunk_ok max_bytes t t' chunk content h received counted =
    elim (Bool-cases (ltb max_bytes (t.size_bytes + length chunk))) [
      | inl over ↦ ground arith
      | inr fits ↦ (
        ground arith,
        ground (arith, length-append content chunk),
        ground (arith, length-append content chunk),
      )
    ]

pub carry_ok :
    (t t' : Tee) (d : Result UploadFault (Unit {0}) × Progress) (s : Progress)
    → carry t d ≡ (ok tt, (t', s))
    → (d ≡ (ok tt, s)) × (t ≡ t')
carry_ok t t' (ok u, s') s h = (ap (λ x. (ok tt, x.1.1)) h, ap (λ x. x.1.0) h)
carry_ok t t' (err e, s') s h = ground arith

after_chunk-Kept :
    (part_size max_bytes : ℕ) (r : Replies) (content chunk : List ℕ) (c c' : Carried)
    (n : Result UploadFault Tee)
    → 0 < part_size
    → Kept part_size max_bytes content c
    → next_chunk max_bytes c.0 chunk ≡ n
    → after_chunk part_size r chunk c n ≡ (ok tt, c')
    → Kept part_size max_bytes (content ++ chunk) c'
after_chunk-Kept part_size max_bytes r content chunk (t, s) (t', s') (err e) positive k read h =
    ground arith
after_chunk-Kept part_size max_bytes r content chunk (t, s) (t', s') (ok u) positive k read h =
    let (fed, counted, within) =
      next_chunk_ok max_bytes t u chunk content read k.received k.counted in
    let (ran, same) =
      carry_ok u t' (drain part_size (length (s.buffer ++ chunk)) r (extend chunk s)) s' h in
    let (sent, short) =
      drain-Sent part_size (length (s.buffer ++ chunk)) r (content ++ chunk) (extend chunk s) s'
        positive (omega arith) (extend-Sent part_size content chunk s k.sent) ran in
    record {
      sent = sent;
      short = short;
      received = ap (λ (x : Tee). x.received) (sym same) ∙ fed;
      counted = ap (λ (x : Tee). x.size_bytes) (sym same) ∙ counted;
      within = within;
    }

pub then_do_ok :
    {W : Type 0} (d : Result UploadFault (Unit {0}) × W)
    (next : W → Result UploadFault (Unit {0}) × W) (s : W)
    → then_do d next ≡ (ok tt, s)
    → (m : W) × (d ≡ (ok tt, m)) × (next m ≡ (ok tt, s))
then_do_ok (ok u, m) next s h = (m, refl, h)
then_do_ok (err e, m) next s h = absurd (ground arith)

pub consume-Kept :
    (part_size max_bytes : ℕ) (r : Replies) (content : List ℕ) (stream : List (List ℕ))
    (c c' : Carried)
    → 0 < part_size
    → Kept part_size max_bytes content c
    → consume part_size max_bytes r stream c ≡ (ok tt, c')
    → Kept part_size max_bytes (content ++ flatten stream) c'
unfolding consume flatten
consume-Kept part_size max_bytes r content [] c c' positive k h =
    rw (append-nil content) (subst (Kept part_size max_bytes content) (ap (λ x. x.1) h) k)
consume-Kept part_size max_bytes r content (chunk ∷ stream) c c' positive k h =
    let (m, first, rest) =
      then_do_ok (after_chunk part_size r chunk c (next_chunk max_bytes c.0 chunk))
        (consume part_size max_bytes r stream) c' h in
    let kept =
      after_chunk-Kept part_size max_bytes r content chunk c m (next_chunk max_bytes c.0 chunk)
        positive k refl first in
    subst (λ bs. Kept part_size max_bytes bs c') (append_assoc content chunk (flatten stream))
      (consume-Kept part_size max_bytes r (content ++ chunk) stream m c' positive kept rest)
