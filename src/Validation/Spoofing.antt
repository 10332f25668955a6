-- ===== src/Validation/Spoofing.antt =====
-- What acceptance by backend/app/utils/file_validation.py says of the content.
use mathlib.Core.List.{append_assoc, flatten}
use sentinal.Prelude.{
  ℕ, ◌≡◌, ◌⊎◌, refl, sym, ap, ◌∙◌, Bool, true, false, Option, none, some, List, [], ◌∷◌, ◌++◌, not,
  ◌||◌, ◌&&◌, take, drop, length, take-append-drop, length-take, arith, Bool-cases, inl, inr,
}
use sentinal.Prelude.Outcome.{Result-cases, Result, ok, err, ◌>>◌, refuse}
use sentinal.Validation.Utf8.{is_decodable_text}
use sentinal.Validation.MediaType.{
  Text, codes, text_eq, text_eq_iff, normalize_content_type, validate_declared_mime_type,
}
use sentinal.Validation.Signature.{
  MagicPattern, matches, pdf_mime, png_mime, jpeg_mime, gif_mime, webp_mime, zip_mime, docx_mime,
  xlsx_mime, pptx_mime, text_mime, mime_signatures, is_text_type, patterns_of, signature_matches,
  check_patterns, check_signature, validate_magic_bytes,
}
use sentinal.Validation.Signature.{is_nil}
use sentinal.Validation.MediaType.{undecodable_content, normalize-normalize, validate_declared_lem}
use sentinal.Validation.Stream.{
  sniff_bytes, validate_whole, validate_upload_stream, stream_equivalence, map_ok,
}

-- The content has these bytes at this offset.
pub record BytesAt (offset : ℕ) (bytes content : List ℕ) : Type 0 where
  pub before : List ℕ
  pub rest : List ℕ
  pub split : content ≡ before ++ (bytes ++ rest)
  pub at : length before ≡ offset

matches-BytesAt :
    (p : MagicPattern) (content : List ℕ)
    → matches p content ≡ true
    → BytesAt p.offset p.prefix content
unfolding matches
matches-BytesAt p content h =
    let at_offset : List ℕ = drop p.offset content in
    let here : take (length p.prefix) at_offset ≡ p.prefix =
      (text_eq_iff (take (length p.prefix) at_offset) p.prefix).0 (ground arith) in
    record {
      before = take p.offset content;
      rest = drop (length p.prefix) at_offset;
      split =
          sym (take-append-drop p.offset content)
          ∙ ap (λ (bs : List ℕ). take p.offset content ++ bs)
              (sym (take-append-drop (length p.prefix) at_offset)
                ∙ ap (λ (bs : List ℕ). bs ++ drop (length p.prefix) at_offset) here);
      at = ground (arith, length-take p.offset content);
    }

BytesAt-take :
    (n offset : ℕ) (bytes content : List ℕ)
    → BytesAt offset bytes (take n content)
    → BytesAt offset bytes content
BytesAt-take n offset bytes content found = record {
  before = found.before;
  rest = found.rest ++ drop n content;
  split =
      sym (take-append-drop n content)
      ∙ ap (λ (bs : List ℕ). bs ++ drop n content) found.split
      ∙ simp append_assoc;
  at = found.at;
}

abbrev pk34 : List ℕ
pk34 = 0x50 ∷ 0x4b ∷ 0x03 ∷ 0x04 ∷ []

abbrev pk56 : List ℕ
pk56 = 0x50 ∷ 0x4b ∷ 0x05 ∷ 0x06 ∷ []

abbrev pk78 : List ℕ
pk78 = 0x50 ∷ 0x4b ∷ 0x07 ∷ 0x08 ∷ []

-- The content that each binary type stands for.
pub data Carries (content : List ℕ) (m : Text) : Type 0 where
  pdf : m ≡ pdf_mime → BytesAt 0 (codes "%PDF-") content → Carries content m
  png :
      m ≡ png_mime
      → BytesAt 0 (0x89 ∷ 0x50 ∷ 0x4e ∷ 0x47 ∷ 0x0d ∷ 0x0a ∷ 0x1a ∷ 0x0a ∷ []) content
      → Carries content m
  jpeg : m ≡ jpeg_mime → BytesAt 0 (0xff ∷ 0xd8 ∷ 0xff ∷ []) content → Carries content m
  gif :
      m ≡ gif_mime
      → BytesAt 0 (codes "GIF87a") content ⊎ BytesAt 0 (codes "GIF89a") content
      → Carries content m
  webp :
      m ≡ webp_mime
      → BytesAt 0 (codes "RIFF") content
      → BytesAt 8 (codes "WEBP") content
      → Carries content m
  zip :
      m ≡ zip_mime
      → BytesAt 0 pk34 content ⊎ BytesAt 0 pk56 content ⊎ BytesAt 0 pk78 content
      → Carries content m
  office :
      (m ≡ docx_mime) ⊎ (m ≡ xlsx_mime) ⊎ (m ≡ pptx_mime)
      → BytesAt 0 pk34 content
      → Carries content m

-- The same of the window, by the tests of the code.
check_patterns-signature :
    (sniffed : List ℕ) (e : Bool) (m : Text) (ps : List MagicPattern)
    → check_patterns sniffed e m ps ≡ ok tt
    → signature_matches sniffed ps m ≡ true
unfolding check_patterns
check_patterns-signature sniffed e m ps h = ground arith

-- A property of every entry of a signature table.
abbrev All : (Text → List MagicPattern → Type 0) → List (Text × List MagicPattern) → Type 0
All P [] = Unit {0}
All P ((mime, patterns) ∷ table) = P mime patterns × All P table

patterns_of-All :
    (P : Text → List MagicPattern → Type 0) (m : Text) (ps : List MagicPattern)
    (table : List (Text × List MagicPattern))
    → All P table
    → patterns_of m table ≡ some ps
    → P m ps
unfolding patterns_of
patterns_of-All P m ps [] every h = cc
patterns_of-All P m ps ((mime, patterns) ∷ table) every h = elim (Bool-cases (text_eq mime m)) [
  | inl this ↦
      (let same : patterns ≡ ps = ground arith in
        rw (← (text_eq_iff mime m).0 this, ← same) every.0)
  | inr that ↦ patterns_of-All P m ps table every.1 (rw that at h)
]

or-cases : (a b : Bool) → a || b ≡ true → (a ≡ true) ⊎ (b ≡ true)
or-cases true b h = inl refl
or-cases false b h = inr h

module _ (sniffed : List ℕ) where
  abbrev Sound : Text → List MagicPattern → Type 0
  Sound m ps = signature_matches sniffed ps m ≡ true → Carries sniffed m

  starts :
      (bytes : List ℕ)
      → matches (record { prefix = bytes; offset = 0 }) sniffed ≡ true
      → BytesAt 0 bytes sniffed
  starts bytes h = matches-BytesAt (record { prefix = bytes; offset = 0 }) sniffed h

  table-Sound : All Sound mime_signatures
  unfolding mime_signatures signature_matches
  table-Sound = (
    λ h. pdf refl (starts (codes "%PDF-") (ground arith)),
    (
      λ h.
          png refl
            (starts (0x89 ∷ 0x50 ∷ 0x4e ∷ 0x47 ∷ 0x0d ∷ 0x0a ∷ 0x1a ∷ 0x0a ∷ []) (ground arith)),
      (
        λ h. jpeg refl (starts (0xff ∷ 0xd8 ∷ 0xff ∷ []) (ground arith)),
        (
          λ h. gif refl (elim (or-cases _ _ h) [
            | inl a ↦ inl (starts (codes "GIF87a") a)
            | inr b ↦ inr (starts (codes "GIF89a") (ground arith))
          ]),
          (
            λ h. webp refl (starts (codes "RIFF") (ground arith)) (
                matches-BytesAt (record { prefix = codes "WEBP"; offset = 8 }) sniffed
                  (ground arith)),
            (
              λ h. zip refl (elim (or-cases _ _ h) [
                | inl a ↦ inl (starts pk34 a)
                | inr r ↦ (elim (or-cases _ _ r) [
                  | inl b ↦ inr (inl (starts pk56 b))
                  | inr c ↦ inr (inr (starts pk78 (ground arith)))
                ])
              ]),
              (
                λ h. office (inl refl) (starts pk34 (ground arith)),
                (
                  λ h. office (inr (inl refl)) (starts pk34 (ground arith)),
                  (λ h. office (inr (inr refl)) (starts pk34 (ground arith)), tt),
                ),
              ),
            ),
          ),
        ),
      ),
    ),
  )

Carries-take :
    (n : ℕ) (content : List ℕ) (m : Text) → Carries (take n content) m → Carries content m
Carries-take n content m (pdf e a) = pdf e (BytesAt-take n 0 _ content a)
Carries-take n content m (png e a) = png e (BytesAt-take n 0 _ content a)
Carries-take n content m (jpeg e a) = jpeg e (BytesAt-take n 0 _ content a)
Carries-take n content m (gif e (inl a)) = gif e (inl (BytesAt-take n 0 _ content a))
Carries-take n content m (gif e (inr a)) = gif e (inr (BytesAt-take n 0 _ content a))
Carries-take n content m (webp e a b) =
    webp e (BytesAt-take n 0 _ content a) (BytesAt-take n 8 _ content b)
Carries-take n content m (zip e (inl a)) = zip e (inl (BytesAt-take n 0 _ content a))
Carries-take n content m (zip e (inr (inl a))) = zip e (inr (inl (BytesAt-take n 0 _ content a)))
Carries-take n content m (zip e (inr (inr a))) = zip e (inr (inr (BytesAt-take n 0 _ content a)))
Carries-take n content m (office e a) = office e (BytesAt-take n 0 _ content a)

check_signature-Carries :
    (sniffed : List ℕ) (e : Bool) (m : Text) (found : Option (List MagicPattern))
    → patterns_of m mime_signatures ≡ found
    → check_signature sniffed e m found ≡ ok tt
    → Carries sniffed m
unfolding check_signature
check_signature-Carries sniffed e m none f h = cc
check_signature-Carries sniffed e m (some ps) f h =
    patterns_of-All (Sound sniffed) m ps mime_signatures (table-Sound sniffed) f
      (check_patterns-signature sniffed e m ps h)

-- Plain text, as far as the window shows, or content with the signature of its type.
abbrev pub Genuine : List ℕ → Text → Type 0
Genuine content m =
    ((m ≡ text_mime) × ((is_decodable_text (take sniff_bytes content) ≡ true) ⊎ (content ≡ [])))
    ⊎ Carries content m

is_text_type_lem : (m : Text) → is_text_type m ≡ true → m ≡ text_mime
unfolding is_text_type
is_text_type_lem m h = (text_eq_iff m text_mime).0 h

text_checks :
    (content : List ℕ)
    → refuse
        (not (is_nil (take sniff_bytes content))
          && not (is_decodable_text (take sniff_bytes content)))
        undecodable_content
      ≡ ok tt
    → (is_decodable_text (take sniff_bytes content) ≡ true) ⊎ (content ≡ [])
text_checks [] h = inr refl
text_checks (b ∷ bs) h = ground arith

magic_bytes-Genuine :
    (content : List ℕ) (declared : Text) (e : Bool)
    → validate_magic_bytes (take sniff_bytes content) declared e ≡ ok tt
    → Genuine content (normalize_content_type declared)
unfolding validate_magic_bytes
magic_bytes-Genuine content declared e h =
    elim (Bool-cases (is_text_type (normalize_content_type declared))) [
      | inl is_text ↦ inl (is_text_type_lem _ is_text, text_checks content (rw is_text at h))
      | inr binary ↦ inr (
          Carries-take sniff_bytes content _
            (check_signature-Carries _ e _ _ refl (rw binary at h)))
    ]

err-ne-ok : {E A : Type 0} {a : A} (x : E) → err x ≡ ok a → ⊥
err-ne-ok x h = cc

whole-Genuine :
    (content : List ℕ) (declared : Text) (allowed : List Text)
    → validate_whole content declared allowed ≡ ok tt
    → Genuine content (normalize_content_type declared)
unfolding validate_whole
whole-Genuine content declared allowed h =
    elim (Result-cases (validate_declared_mime_type declared allowed)) [
      | inl (m, e) ↦
          (let same : m ≡ normalize_content_type declared =
              validate_declared_lem declared allowed m e in
            rw (ap normalize_content_type same ∙ normalize-normalize declared) at
              (magic_bytes-Genuine content m _ (rw e at h)))
      | inr (x, e) ↦ absurd (err-ne-ok x (rw e at h))
    ]

then-ok :
    {E A : Type 0} (r : Result E (Unit {0})) (c b : A) → (r >> ok c) ≡ ok b → (r ≡ ok tt) × (b ≡ c)
then-ok (ok u) c b h = (refl, ground arith)
then-ok (err x) c b h = cc

-- What a successful validation hands to storage is the given stream's bytes, and they are genuine:
-- declared as plain text, with a prefix that decodes and has no binary control (or nothing at
-- all), or with the signature of the declared type at its offset in the content itself.
pub accepted-Genuine :
    (stream chunks : List (List ℕ)) (declared : Text) (allowed : List Text)
    → validate_upload_stream stream declared allowed ≡ ok chunks
    → (flatten chunks ≡ flatten stream) × Genuine (flatten chunks) (normalize_content_type declared)
accepted-Genuine stream chunks declared allowed h =
    let (verdict, same) =
      then-ok _ (flatten stream) (flatten chunks)
        (sym (stream_equivalence stream declared allowed) ∙ ap (map_ok flatten) h) in
    (same, rw same (whole-Genuine (flatten stream) declared allowed verdict))
