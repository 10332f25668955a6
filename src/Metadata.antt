-- ===== src/Metadata.antt =====
-- backend/app/analyzers/metadata_analyzer/analyzer.py: the metadata of PDF, PNG and JPEG files. A
-- `raise ValueError` is its message. The digest of `hashlib` is the argument `sha256`.
pub mod Bytes
pub mod Pdf
pub mod Png
pub mod Jpeg
pub mod Frames
use Prim.Native.String.{◌++◌ as append}
use sentinal.Prelude.{
  ℕ, String, Bool, true, false, not, ◌||◌, Option, none, some, List, [], ◌∷◌, ◌++◌, ◌==◌, length,
  is_blank, str_eq, if◌then◌else◌,
}
use sentinal.Prelude.Outcome.{Result, ok, err, ◌>>=◌, ◌>>◌, refuse}
use sentinal.Value.{Confidence, millionths, Scalar, text, number, dict}
use sentinal.Analysis.{AnalysisResult}
use sentinal.Asset.{DigitalAsset, is_file}
use mathlib.Core.List.{flatten}
use sentinal.Metadata.Pdf.{pdf_page_count}
use sentinal.Metadata.Png.{Dimensions, png_dimensions}
use sentinal.Metadata.Jpeg.{jpeg_dimensions}

abbrev pub Fields : Type 0
Fields = List (String × Scalar)

-- `self.mime_type` and the like, where a test has seen that it is a text
abbrev text_of : Option String → String
text_of none = ""
text_of (some s) = s

unfoldable pub file_type : String → String
file_type mime_type =
    if str_eq mime_type "application/pdf"
    then "pdf"
    else if str_eq mime_type "image/png"
    then "png"
    else if str_eq mime_type "image/jpeg"
    then "jpeg"
    else mime_type

abbrev dimension_fields : Dimensions → Fields
dimension_fields d = ("width", number d.width) ∷ ("height", number d.height) ∷ []

-- the fields that the content gives, by its type
unfoldable pub content_fields : (mime_type : String) (content : List ℕ) → Result String Fields
content_fields mime_type content =
    if str_eq mime_type "application/pdf"
    then (do pages ← pdf_page_count content; ok (("page_count", number pages) ∷ []))
    else if str_eq mime_type "image/png"
    then (do d ← png_dimensions content; ok (dimension_fields d))
    else if str_eq mime_type "image/jpeg"
    then (do d ← jpeg_dimensions content; ok (dimension_fields d))
    else err (append "unsupported metadata MIME type: " mime_type)

abbrev is_nil : List ℕ → Bool
is_nil [] = true
is_nil (b ∷ bs) = false

abbrev other_size : Option ℕ → List ℕ → Bool
other_size none content = false
other_size (some n) content = not (n == length content)

unfoldable pub extract :
    (List ℕ → String) → DigitalAsset → (content : List ℕ) → Result String Fields
unfolding file_type content_fields
extract sha256 asset content = do
  refuse (not (is_file asset.asset_type)) "metadata analyzer requires a file asset"
  refuse (is_nil content) "content stream is empty"
  refuse (is_blank asset.mime_type) "file asset MIME type is required"
  refuse (is_blank asset.sha256_hash) "file asset SHA-256 identity is required"
  refuse (other_size asset.size_bytes content) "content size does not match asset metadata"
  refuse (not (str_eq (sha256 content) (text_of asset.sha256_hash)))
      "content hash does not match asset identity"
  fields ← content_fields (text_of asset.mime_type) content
  ok (
      ("file_type", text (file_type (text_of asset.mime_type)))
      ∷ ("mime_type", text (text_of asset.mime_type))
      ∷ ("size_bytes", number (length content))
      ∷ ("sha256_hash", text (text_of asset.sha256_hash))
      ∷ fields)

unfoldable pub verdict_of : Result String Fields → AnalysisResult
verdict_of (err message) = record {
  verdict = "failed";
  evidence = dict (("error", text message) ∷ []);
  confidence = millionths 0;
  recommendation = "Unable to extract metadata; review the input";
}
verdict_of (ok evidence) = record {
  verdict = "informational";
  evidence = dict evidence;
  confidence = millionths 1000000;
  recommendation = "Informational metadata only; no security judgment";
}

unfoldable pub analyze :
    (List ℕ → String) → DigitalAsset → (content_stream : List (List ℕ)) → AnalysisResult
unfolding extract verdict_of
analyze sha256 asset content_stream = verdict_of (extract sha256 asset (flatten content_stream))
