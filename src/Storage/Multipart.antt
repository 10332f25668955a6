-- ===== src/Storage/Multipart.antt =====
-- What reaches object storage by `upload_stream` (backend/app/infrastructure/storage/s3_adapter.py).
use sentinal.Storage.Rounds.{Sent, Kept, send_part_ok, carry_ok, then_do_ok, consume-Kept}
use sentinal.Storage.Parts.{
  upload_of, body_of, all_full, counts_from, counts_from-append, flatten-append_last,
  map-append_last,
}
use mathlib.Core.List.{flatten, append-nil}
use mathlib.Core.Path.{subst}
use sentinal.Prelude.{
  ℕ, ◌≤◌, ◌<◌, ◌≡◌, inl, inr, refl, sym, ap, ◌∙◌, Bool, true, false, not, ◌&&◌, ◌||◌, ◌==◌, List,
  [], ◌∷◌, ◌++◌, ltb, leb, length, map, arith, Bool-cases, Option-cases,
}
use sentinal.Prelude.Outcome.{Result, ok, err}
use sentinal.Storage.{
  Tee, Replies, Progress, Part, UploadFault, upload_part, create_multipart_upload,
  complete_multipart_upload, is_nil, then_do, Carried, consume, last_part, complete_upload, finish,
  or_abort, intake, created, upload_stream, asked,
}

abbrev pub has_bytes : Part → Bool
has_bytes p = ltb 0 (length p.body)

-- At least one part; every part but the last is full; only a part that is the only one is empty.
unfoldable pub well_cut : (part_size : ℕ) → List Part → Bool
well_cut part_size [] = false
well_cut part_size (p ∷ []) = leb (length p.body) part_size
well_cut part_size (p ∷ q ∷ parts) =
    length p.body == part_size && has_bytes q && well_cut part_size (q ∷ parts)

not-is_nil : {A : Type 0} (xs : List A) → not (is_nil xs) ≡ ltb 0 (length xs)
not-is_nil [] = ground arith
not-is_nil (x ∷ xs) = ground arith

is_nil_eq : {A : Type 0} (xs : List A) → is_nil xs ≡ true → xs ≡ []
is_nil_eq [] h = refl
is_nil_eq (x ∷ xs) h = ground arith

-- Full parts with a last one behind them, and full parts alone.
well_cut-append :
    (part_size : ℕ) (parts : List Part) (p : Part)
    → 0 < part_size
    → all_full part_size parts ≡ true
    → length p.body ≤ part_size
    → (is_nil parts || has_bytes p) ≡ true
    → well_cut part_size (parts ++ p ∷ []) ≡ true
unfolding well_cut all_full
well_cut-append part_size [] p positive full small last = ground arith
well_cut-append part_size (q ∷ []) p positive full small last = ground arith
well_cut-append part_size (q ∷ q' ∷ parts) p positive full small last =
    ground (arith, well_cut-append part_size (q' ∷ parts) p positive)

well_cut-all_full :
    (part_size : ℕ) (parts : List Part)
    → 0 < part_size
    → all_full part_size parts ≡ true
    → is_nil parts ≡ false
    → well_cut part_size parts ≡ true
unfolding well_cut all_full
well_cut-all_full part_size [] positive full some_part = ground arith
well_cut-all_full part_size (q ∷ []) positive full some_part = ground arith
well_cut-all_full part_size (q ∷ q' ∷ parts) positive full some_part =
    ground (arith, well_cut-all_full part_size (q' ∷ parts) positive)

-- The parts that storage has, when every byte is sent.
record Whole (part_size : ℕ) (content : List ℕ) (s : Progress) : Type 0 where
  content_of : flatten (map body_of s.parts) ≡ content
  cut : well_cut part_size s.parts ≡ true
  numbered : counts_from 1 s.parts ≡ true
  requested : s.requests ≡ create_multipart_upload ∷ map upload_of s.parts

with_last-Whole :
    (part_size : ℕ) (content : List ℕ) (s : Progress)
    → 0 < part_size
    → length s.buffer < part_size
    → (not (is_nil s.buffer) || is_nil s.parts) ≡ true
    → Sent part_size content s
    → Whole part_size content (record (asked (upload_part s.part_number s.buffer) s) {
      parts = s.parts ++ record { part_number = s.part_number; body = s.buffer } ∷ [];
    })
with_last-Whole part_size content s positive short last k =
    let p : Part = record { part_number = s.part_number; body = s.buffer } in
    record {
      content_of = flatten-append_last s.parts p ∙ k.bytes;
      cut =
          well_cut-append part_size s.parts p positive k.full (omega (arith, short))
            (ground (arith, last, not-is_nil s.buffer));
      numbered = ground (arith, counts_from-append 1 s.parts p, k.numbered, k.next_number);
      requested = ground (arith, k.requested, map-append_last s.parts p);
    }

without_last-Whole :
    (part_size : ℕ) (content : List ℕ) (s : Progress)
    → 0 < part_size
    → is_nil s.buffer ≡ true
    → is_nil s.parts ≡ false
    → Sent part_size content s
    → Whole part_size content s
without_last-Whole part_size content s positive empty some_part k = record {
  content_of =
      sym (append-nil (flatten (map body_of s.parts)))
      ∙ ap (λ (bs : List ℕ). flatten (map body_of s.parts) ++ bs) (sym (is_nil_eq s.buffer empty))
      ∙ k.bytes;
  cut = well_cut-all_full part_size s.parts positive k.full some_part;
  numbered = k.numbered;
  requested = k.requested;
}

last_part-Whole :
    (part_size : ℕ) (r : Replies) (content : List ℕ) (s s' : Progress)
    → 0 < part_size
    → length s.buffer < part_size
    → Sent part_size content s
    → last_part r s ≡ (ok tt, s')
    → Whole part_size content s'
unfolding last_part
last_part-Whole part_size r content s s' positive short k h =
    elim (Bool-cases (not (is_nil s.buffer) || is_nil s.parts)) [
      | inl last ↦
          subst (Whole part_size content) (sym (send_part_ok r s.buffer s s' (ground arith)))
            (with_last-Whole part_size content s positive short last k)
      | inr done ↦
          subst (Whole part_size content) (ground arith)
            (without_last-Whole part_size content s positive (ground arith) (ground arith) k)
    ]

-- What an upload that returns has received and left in storage.
pub record Stored (part_size max_bytes : ℕ) (content : List ℕ) (c : Carried) : Type 0 where
  pub received : c.0.received ≡ content
  pub counted : c.0.size_bytes ≡ length content
  pub within : length content ≤ max_bytes
  pub parts_content : flatten (map body_of c.1.parts) ≡ content
  pub cut : well_cut part_size c.1.parts ≡ true
  pub numbered : counts_from 1 c.1.parts ≡ true
  pub requested :
      c.1.requests
      ≡ (create_multipart_upload ∷ map upload_of c.1.parts)
        ++ complete_multipart_upload c.1.parts ∷ []

complete_upload_ok :
    (r : Replies) (s s' : Progress)
    → complete_upload r s ≡ (ok tt, s')
    → s' ≡ asked (complete_multipart_upload s.parts) s
unfolding complete_upload
complete_upload_ok r s s' h = ground arith

finish-Stored :
    (part_size max_bytes : ℕ) (r : Replies) (content : List ℕ) (c c' : Carried)
    → 0 < part_size
    → Kept part_size max_bytes content c
    → finish r c ≡ (ok tt, c')
    → Stored part_size max_bytes content c'
unfolding finish
finish-Stored part_size max_bytes r content (t, s) (t', s') positive k h =
    let (ran, same) = carry_ok t t' (then_do (last_part r s) (complete_upload r)) s' h in
    let (m, sent, completed) = then_do_ok (last_part r s) (complete_upload r) s' ran in
    let w = last_part-Whole part_size r content s m positive k.short k.sent sent in
    let end = complete_upload_ok r m s' completed in
    record {
      received = ap (λ (x : Tee). x.received) (sym same) ∙ k.received;
      counted = ap (λ (x : Tee). x.size_bytes) (sym same) ∙ k.counted;
      within = k.within;
      parts_content = ap (λ (x : Progress). flatten (map body_of x.parts)) end ∙ w.content_of;
      cut = ap (λ (x : Progress). well_cut part_size x.parts) end ∙ w.cut;
      numbered = ap (λ (x : Progress). counts_from 1 x.parts) end ∙ w.numbered;
      requested = ground (arith, end, w.requested);
    }

or_abort_ok :
    (d : Result UploadFault (Unit {0}) × Carried) (c : Carried)
    → or_abort d ≡ (ok tt, c)
    → d ≡ (ok tt, c)
or_abort_ok (ok u, c') c h = h
or_abort_ok (err e, (t, s)) c h = ground arith

start-Kept :
    (part_size max_bytes : ℕ) → 0 < part_size → Kept part_size max_bytes [] (intake, created)
unfolding all_full counts_from flatten
start-Kept part_size max_bytes positive = record {
  sent = record {
    bytes = refl;
    full = refl;
    next_number = refl;
    numbered = refl;
    requested = refl;
  };
  short = positive;
  received = refl;
  counted = refl;
  within = omega arith;
}

-- An upload that returns has fed the digest with exactly the bytes of the stream, counted them, and
-- found no more of them than allowed. It has asked storage to create the upload, to take the parts
-- in their order, numbered from 1, and to complete it with these parts; the parts joined are the
-- bytes of the stream, all but the last have the part size, and none is empty unless it is the only
-- one. The part size is positive.
pub upload_stream-Stored :
    (part_size max_bytes : ℕ) (r : Replies) (stream : List (List ℕ)) (c : Carried)
    → 0 < part_size
    → upload_stream part_size max_bytes r stream ≡ (ok tt, c)
    → Stored part_size max_bytes (flatten stream) c
unfolding upload_stream
upload_stream-Stored part_size max_bytes r stream c positive h = elim (Option-cases r.to_create) [
  | inr (e, raised) ↦ ground arith
  | inl free ↦
      let (m, read, ended) =
        then_do_ok (consume part_size max_bytes r stream (intake, created)) (finish r) c
          (or_abort_ok _ c (ground arith)) in
      finish-Stored part_size max_bytes r (flatten stream) m c positive
        (consume-Kept part_size max_bytes r [] stream (intake, created) m positive
          (start-Kept part_size max_bytes positive) read)
        ended
]
