-- ===== src/Tests/Validations.antt =====
-- backend/app/utils/file_validation.py
use mathlib.Core.List.{flatten}
use sentinal.Prelude.{
  false, ℕ, ◌≡◌, ◌⊎◌, refl, true, some, List, [], ◌∷◌, ◌++◌, if◌then◌else◌, arith, ltb, any, all,
  map,
}
use sentinal.Prelude.Outcome.{ok, err, ◌>>◌}
use sentinal.Validation.Utf8.{is_binary_control}
use sentinal.Validation.Characters.{IsText, nothing, character, one, two, ends_between}
use sentinal.Validation.MediaType.{
  Text, codes, normalize_content_type, validate_declared_mime_type, undecodable_content,
}
use sentinal.Validation.Signature.{
  pdf_mime, text_mime, detect_content_type, png_mime, detect_in, mime_signatures, matches,
  validate_magic_bytes, is_text_type, patterns_of, check_signature,
}
use sentinal.Validation.Stream.{
  sniff, replay, validate_upload_stream, validate_whole, map_ok, stream_equivalence,
}
use sentinal.Validation.Spoofing.{Genuine, accepted-Genuine}
use sentinal.Validation.Exclusive.{IsZip, accepted_types_agree}
use sentinal.Validation.Boundary.{text_verdict}

abbrev declared : Text
declared = codes " Application/PDF ; charset=x"

abbrev allowed : List Text
allowed = pdf_mime ∷ text_mime ∷ []

-- the signature stands in two chunks
abbrev pdf_stream : List (List ℕ)
pdf_stream = codes "%P" ∷ codes "DF-1.7" ∷ []

normalize_declared : normalize_content_type declared ≡ pdf_mime
unfolding normalize_content_type
normalize_declared = refl

stream_equivalence_example :
    map_ok flatten (validate_upload_stream pdf_stream declared allowed)
    ≡ (validate_whole (flatten pdf_stream) declared allowed >> ok (flatten pdf_stream))
stream_equivalence_example = stream_equivalence pdf_stream declared allowed

abbrev replayed : List (List ℕ)
replayed = codes "%PDF-1.7" ∷ []

pdf_accepted : validate_upload_stream pdf_stream declared allowed ≡ ok replayed
unfolding validate_upload_stream validate_declared_mime_type normalize_content_type sniff replay
    validate_magic_bytes is_text_type patterns_of mime_signatures check_signature matches
pdf_accepted = refl

accepted-Genuine_example :
    (flatten replayed ≡ flatten pdf_stream)
    × Genuine (flatten replayed) (normalize_content_type declared)
accepted-Genuine_example = accepted-Genuine pdf_stream replayed declared allowed pdf_accepted

accepted_types_agree_example :
    (normalize_content_type declared ≡ normalize_content_type declared)
    ⊎ (IsZip (normalize_content_type declared) × IsZip (normalize_content_type declared))
accepted_types_agree_example =
    accepted_types_agree pdf_stream replayed replayed declared declared allowed
      (λ e. ground (arith, normalize_declared)) (λ e. ground (arith, normalize_declared))
      pdf_accepted pdf_accepted

-- fifteen letters and an e with an acute accent, which the window cuts
abbrev cut_text : List (List ℕ)
cut_text = map (λ b. b ∷ []) (codes "fifteen letters") ++ ((0xc3 ∷ 0xa9 ∷ []) ∷ [])

letters :
    (bs : List ℕ) (cs : List (List ℕ))
    → all (λ b. ltb b 0x80) bs ≡ true
    → IsText cs
    → IsText (map (λ b. b ∷ []) bs ++ cs)
letters [] cs h t = t
letters (b ∷ bs) cs h t = character b (one (ground arith)) (letters bs cs (ground arith) t)

cut_text-IsText : IsText cut_text
cut_text-IsText =
    letters (codes "fifteen letters") ((0xc3 ∷ 0xa9 ∷ []) ∷ []) refl
      (character 0xe9 (two 3 41 refl (omega arith) (omega arith) (omega arith)) nothing)

cut_text_clean : any is_binary_control (flatten cut_text) ≡ false
unfolding is_binary_control flatten
cut_text_clean = refl

text_verdict_example :
    validate_whole (flatten cut_text) text_mime (text_mime ∷ [])
    ≡ (if ends_between 16 cut_text then ok tt else err undecodable_content)
text_verdict_example = text_verdict cut_text cut_text-IsText cut_text_clean

cut_text_refused :
    validate_whole (flatten cut_text) text_mime (text_mime ∷ []) ≡ err undecodable_content
unfolding ends_between flatten
cut_text_refused = text_verdict_example

png_detected :
    detect_content_type (0x89 ∷ codes "PNG" ++ (0x0d ∷ 0x0a ∷ 0x1a ∷ 0x0a ∷ [])) ≡ some png_mime
unfolding detect_content_type detect_in mime_signatures matches
png_detected = refl
