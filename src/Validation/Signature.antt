-- ===== src/Validation/Signature.antt =====
-- The signature table of backend/app/utils/file_validation.py, `detect_content_type` and
-- `validate_magic_bytes`.
use Prim.Native.Nat.{max}
use sentinal.Prelude.{
  ℕ, ◌+◌, Bool, true, false, not, ◌&&◌, Option, none, some, List, [], ◌∷◌, leb, if◌then◌else◌, any,
  all, take, drop, length,
}
use sentinal.Prelude.Outcome.{Result, err, refuse, ◌>>◌}
use sentinal.Validation.Utf8.{is_decodable_text}
use sentinal.Validation.MediaType.{
  Text, codes, text_eq, normalize_content_type, FileValidationError, mime_type_mismatch,
  truncated_file, undecodable_content,
}

pub record MagicPattern : Type 0 where
  pub prefix : List ℕ
  pub offset : ℕ

-- `self.offset + len(self.prefix)`
abbrev pub end_of : MagicPattern → ℕ
end_of p = p.offset + length p.prefix

-- `sniffed[offset:end] == prefix`, with the length test in front
unfoldable pub matches : MagicPattern → List ℕ → Bool
unfolding text_eq
matches p sniffed =
    leb (end_of p) (length sniffed)
    && text_eq (take (length p.prefix) (drop p.offset sniffed)) p.prefix

abbrev at_start : List ℕ → MagicPattern
at_start bytes = record { prefix = bytes; offset = 0 }

abbrev pub pdf_mime : Text
pdf_mime = codes "application/pdf"

abbrev pub png_mime : Text
png_mime = codes "image/png"

abbrev pub jpeg_mime : Text
jpeg_mime = codes "image/jpeg"

abbrev pub gif_mime : Text
gif_mime = codes "image/gif"

abbrev pub webp_mime : Text
webp_mime = codes "image/webp"

abbrev pub zip_mime : Text
zip_mime = codes "application/zip"

abbrev pub docx_mime : Text
docx_mime = codes "application/vnd.openxmlformats-officedocument.wordprocessingml.document"

abbrev pub xlsx_mime : Text
xlsx_mime = codes "application/vnd.openxmlformats-officedocument.spreadsheetml.sheet"

abbrev pub pptx_mime : Text
pptx_mime = codes "application/vnd.openxmlformats-officedocument.presentationml.presentation"

abbrev pub text_mime : Text
text_mime = codes "text/plain"

abbrev zip_header : MagicPattern
zip_header = at_start (0x50 ∷ 0x4b ∷ 0x03 ∷ 0x04 ∷ [])

-- `_MIME_SIGNATURES`, in the order of the source
unfoldable pub mime_signatures : List (Text × List MagicPattern)
mime_signatures =
    (pdf_mime, at_start (codes "%PDF-") ∷ [])
    ∷ (png_mime, at_start (0x89 ∷ 0x50 ∷ 0x4e ∷ 0x47 ∷ 0x0d ∷ 0x0a ∷ 0x1a ∷ 0x0a ∷ []) ∷ [])
    ∷ (jpeg_mime, at_start (0xff ∷ 0xd8 ∷ 0xff ∷ []) ∷ [])
    ∷ (gif_mime, at_start (codes "GIF87a") ∷ at_start (codes "GIF89a") ∷ [])
    ∷ (webp_mime, at_start (codes "RIFF") ∷ record { prefix = codes "WEBP"; offset = 8 } ∷ [])
    ∷ (
      zip_mime,
      zip_header
          ∷ at_start (0x50 ∷ 0x4b ∷ 0x05 ∷ 0x06 ∷ [])
          ∷ at_start (0x50 ∷ 0x4b ∷ 0x07 ∷ 0x08 ∷ [])
          ∷ [],
    )
    ∷ (docx_mime, zip_header ∷ [])
    ∷ (xlsx_mime, zip_header ∷ [])
    ∷ (pptx_mime, zip_header ∷ [])
    ∷ []

-- `mime in _ANY_OF_TYPES`
unfoldable pub is_any_of : Text → Bool
unfolding text_eq
is_any_of mime = any (text_eq mime) (gif_mime ∷ zip_mime ∷ [])

-- `mime in _TEXT_TYPES`
unfoldable pub is_text_type : Text → Bool
unfolding text_eq
is_text_type mime = text_eq mime text_mime

-- `_MIME_SIGNATURES.get(mime)`
unfoldable pub patterns_of : Text → List (Text × List MagicPattern) → Option (List MagicPattern)
unfolding text_eq
patterns_of mime [] = none
patterns_of mime ((key, patterns) ∷ table) =
    if text_eq key mime then some patterns else patterns_of mime table

unfoldable pub signature_matches : List ℕ → List MagicPattern → Text → Bool
unfolding is_any_of
signature_matches sniffed patterns mime =
    if is_any_of mime
    then any (λ p. matches p sniffed) patterns
    else all (λ p. matches p sniffed) patterns

-- `max(p.offset + len(p.prefix) for p in patterns)`; the table has no empty tuple
unfoldable pub required_length : List MagicPattern → ℕ
required_length [] = 0
required_length (p ∷ patterns) = max (end_of p) (required_length patterns)

-- the loop of `detect_content_type`
unfoldable pub detect_in : List ℕ → List (Text × List MagicPattern) → Option Text
unfolding signature_matches
detect_in sniffed [] = none
detect_in sniffed ((mime, patterns) ∷ table) =
    if signature_matches sniffed patterns mime then some mime else detect_in sniffed table

abbrev pub is_nil : List ℕ → Bool
is_nil [] = true
is_nil (b ∷ bs) = false

unfoldable pub detect_content_type : List ℕ → Option Text
detect_content_type sniffed = elim (detect_in sniffed mime_signatures) [
  | some mime ↦ some mime
  | none ↦
      if not (is_nil sniffed) && is_decodable_text sniffed
      then some text_mime
      else if is_nil sniffed
      then some text_mime
      else none
]

-- the tests behind the look-up of the patterns
unfoldable pub check_patterns :
    List ℕ → Bool → Text → List MagicPattern → Result FileValidationError (Unit {0})
unfolding signature_matches required_length
check_patterns sniffed stream_exhausted expected patterns = do
  refuse (stream_exhausted && not (leb (required_length patterns) (length sniffed)))
      (truncated_file expected)
  refuse (not (signature_matches sniffed patterns expected)) (mime_type_mismatch expected)

unfoldable pub check_signature :
    List ℕ → Bool → Text → Option (List MagicPattern) → Result FileValidationError (Unit {0})
unfolding check_patterns
check_signature sniffed stream_exhausted expected none = err (mime_type_mismatch expected)
check_signature sniffed stream_exhausted expected (some patterns) =
    check_patterns sniffed stream_exhausted expected patterns

unfoldable pub validate_magic_bytes : List ℕ → Text → Bool → Result FileValidationError (Unit {0})
validate_magic_bytes sniffed declared stream_exhausted =
    let expected = normalize_content_type declared in
    if is_text_type expected
    then refuse (not (is_nil sniffed) && not (is_decodable_text sniffed)) undecodable_content
    else check_signature sniffed stream_exhausted expected (patterns_of expected mime_signatures)
