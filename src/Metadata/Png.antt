-- ===== src/Metadata/Png.antt =====
-- `_png_dimensions` of backend/app/analyzers/metadata_analyzer/analyzer.py.
use sentinal.Prelude.{
  ℕ, ◌/◌, ◌%◌, ◌^◌, ◌<◌, ◌≡◌, String, not, ◌||◌, List, [], ◌∷◌, ◌++◌, ◌==◌, ltb, drop, length,
  arith, if◌then◌else◌,
}
use sentinal.Prelude.Outcome.{Result, ok, err}
use sentinal.Validation.MediaType.{codes}
use sentinal.Metadata.Bytes.{starts_with, u32_at}

pub record Dimensions : Type 0 where
  pub width : ℕ
  pub height : ℕ

abbrev pub png_signature : List ℕ
png_signature = 0x89 ∷ b'P' ∷ b'N' ∷ b'G' ∷ 13 ∷ 10 ∷ 0x1a ∷ 10 ∷ []

unfoldable pub png_dimensions : List ℕ → Result String Dimensions
unfolding starts_with u32_at
png_dimensions content =
    if ltb (length content) 24 || not (starts_with png_signature content)
    then err "content is not a valid PNG"
    else if not (starts_with (codes "IHDR") (drop 12 content))
    then err "PNG IHDR chunk is missing"
    else if u32_at 16 content == 0 || u32_at 20 content == 0
    then err "PNG dimensions are invalid"
    else ok (record { width = u32_at 16 content; height = u32_at 20 content })

-- Four bytes, the highest first.
abbrev pub big_endian : ℕ → List ℕ
big_endian n = n / 2 ^ 24 ∷ (n / 2 ^ 16) % 256 ∷ (n / 2 ^ 8) % 256 ∷ n % 256 ∷ []

-- The first bytes of a PNG file: the signature, the length and the name of the header chunk, and
-- the dimensions.
unfoldable pub png_header : Dimensions → List ℕ
png_header d =
    png_signature ++ 0 ∷ 0 ∷ 0 ∷ 13 ∷ codes "IHDR" ++ big_endian d.width ++ big_endian d.height

-- Dimensions that are positive and below 2^32, written as the format says, are read back from the
-- file, whatever follows the header.
pub png_dimensions-png_header :
    (d : Dimensions) (rest : List ℕ)
    → 0 < d.width
    → 0 < d.height
    → d.width < 2 ^ 32
    → d.height < 2 ^ 32
    → png_dimensions (png_header d ++ rest) ≡ ok d
unfolding png_dimensions png_header
png_dimensions-png_header d rest w h w32 h32 = ground arith
