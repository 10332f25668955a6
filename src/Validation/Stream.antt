-- ===== src/Validation/Stream.antt =====
-- `validate_upload_stream` of backend/app/utils/file_validation.py. An asynchronous iterator of
-- chunks is the list of the chunks that it will yield.
use mathlib.Core.List.{flatten, append_assoc, append-nil}
use sentinal.Prelude.{
  ◌≤◌, ℕ, ◌<◌, ◌≡◌, refl, sym, ap, ◌∙◌, Bool, true, false, List, [], ◌∷◌, ◌++◌, leb, ltb,
  if◌then◌else◌, take, drop, length, length-append, take-append-drop, take_all, take-append_le,
  leb→le, arith, Bool-cases, inl, inr,
}
use sentinal.Prelude.Outcome.{Result, ok, err, ◌>>=◌, ◌>>◌}
use sentinal.Validation.MediaType.{Text, FileValidationError, validate_declared_mime_type}
use sentinal.Validation.Signature.{validate_magic_bytes}

abbrev pub sniff_bytes : ℕ
sniff_bytes = 16

-- What the sniffing loop leaves: the window, the rest of the chunk that filled it, whether the
-- stream ended first, and what the stream still holds.
pub record Sniffed : Type 0 where
  pub window : List ℕ
  pub overflow : List ℕ
  pub exhausted : Bool
  pub stream : List (List ℕ)

unfoldable pub sniff : List ℕ → List (List ℕ) → Sniffed
sniff window [] = record { window = window; overflow = []; exhausted = true; stream = [] }
sniff window (chunk ∷ stream) =
    let filled = window ++ chunk in
    let more = sniff filled stream in
    if leb sniff_bytes (length filled)
    then record {
      window = take sniff_bytes filled;
      overflow = drop sniff_bytes filled;
      exhausted = false;
      stream = stream;
    }
    else more

-- `if bytes: yield bytes`
abbrev yield_if : List ℕ → List (List ℕ) → List (List ℕ)
yield_if [] chunks = chunks
yield_if (b ∷ bs) chunks = (b ∷ bs) ∷ chunks

unfoldable pub replay : Sniffed → List (List ℕ)
replay s = yield_if s.window (yield_if s.overflow s.stream)

unfoldable pub validate_upload_stream :
    List (List ℕ) → Text → List Text → Result FileValidationError (List (List ℕ))
validate_upload_stream stream declared allowed = do
  expected ← validate_declared_mime_type declared allowed
  let s = sniff [] stream
  validate_magic_bytes s.window expected s.exhausted
  ok (replay s)

flatten-yield_if :
    (bs : List ℕ) (chunks : List (List ℕ)) → flatten (yield_if bs chunks) ≡ bs ++ flatten chunks
unfolding flatten
flatten-yield_if [] chunks = refl
flatten-yield_if (b ∷ bs) chunks = refl

-- The same verdict from the whole content at once.
unfoldable pub validate_whole : List ℕ → Text → List Text → Result FileValidationError (Unit {0})
validate_whole content declared allowed = do
  expected ← validate_declared_mime_type declared allowed
  validate_magic_bytes (take sniff_bytes content) expected (ltb (length content) sniff_bytes)

flatten-replay : (s : Sniffed) → flatten (replay s) ≡ s.window ++ (s.overflow ++ flatten s.stream)
unfolding replay
flatten-replay s = rw (flatten-yield_if, flatten-yield_if)

-- What the loop has found, from a window that is not yet full.
record HasSniffed (content : List ℕ) (s : Sniffed) : Type 0 where
  window : s.window ≡ take sniff_bytes content
  bytes : s.window ++ (s.overflow ++ flatten s.stream) ≡ content
  exhausted : s.exhausted ≡ ltb (length content) sniff_bytes

sniff_full :
    (filled : List ℕ) (stream : List (List ℕ))
    → sniff_bytes ≤ length filled
    → HasSniffed (filled ++ flatten stream) (record {
      window = take sniff_bytes filled;
      overflow = drop sniff_bytes filled;
      exhausted = false;
      stream = stream;
    })
sniff_full filled stream h = record {
  window = sym (take-append_le sniff_bytes filled (flatten stream) h);
  bytes =
      sym (append_assoc (take sniff_bytes filled) (drop sniff_bytes filled) (flatten stream))
      ∙ ap (λ (bs : List ℕ). bs ++ flatten stream) (take-append-drop sniff_bytes filled);
  exhausted = ground (arith, length-append filled (flatten stream));
}

sniff_lem :
    (window : List ℕ) (stream : List (List ℕ))
    → length window < sniff_bytes
    → HasSniffed (window ++ flatten stream) (sniff window stream)
unfolding sniff flatten
sniff_lem window [] h = rw append-nil (record {
  window = sym (take_all sniff_bytes window (omega arith));
  bytes = append-nil window;
  exhausted = ground arith;
})
sniff_lem window (chunk ∷ stream) h =
    rw (← append_assoc window chunk (flatten stream))
      (elim (Bool-cases (leb sniff_bytes (length (window ++ chunk)))) [
        | inl full ↦ rw full (sniff_full (window ++ chunk) stream (leb→le _ _ full))
        | inr short ↦ rw short (sniff_lem (window ++ chunk) stream (ground arith))
      ])

abbrev pub map_ok : {E A B : Type 0} → (A → B) → Result E A → Result E B
map_ok f (ok a) = ok (f a)
map_ok f (err e) = err e

verdict_of :
    {E A B : Type 0} (r : Result E (Unit {0})) (chunks : B) (f : B → A)
    → map_ok f (r >> ok chunks) ≡ (r >> ok (f chunks))
verdict_of (ok u) chunks f = refl
verdict_of (err e) chunks f = refl

verdict_after :
    {E A B C : Type 0} (m : Result E C) (v : C → Result E (Unit {0})) (chunks : B) (f : B → A)
    → map_ok f (m >>= λ e. v e >> ok chunks) ≡ (m >>= v >> ok (f chunks))
verdict_after (ok e) v chunks f = verdict_of (v e) chunks f
verdict_after (err e) v chunks f = refl

-- Validating a stream chunk by chunk gives the verdict, and the error, that validating its whole
-- content gives; and the stream that it hands back holds exactly the bytes of the one it was given.
pub stream_equivalence :
    (stream : List (List ℕ)) (declared : Text) (allowed : List Text)
    → map_ok flatten (validate_upload_stream stream declared allowed)
      ≡ (validate_whole (flatten stream) declared allowed >> ok (flatten stream))
unfolding validate_upload_stream validate_whole
stream_equivalence stream declared allowed =
    let s = sniff [] stream in
    let found = sniff_lem [] stream (omega arith) in
    verdict_after (validate_declared_mime_type declared allowed)
      (λ expected. validate_magic_bytes s.window expected s.exhausted) (replay s) flatten
    ∙ rw (flatten-replay, found.bytes, found.window, found.exhausted)
