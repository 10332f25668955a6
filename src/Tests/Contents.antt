-- ===== src/Tests/Contents.antt =====
-- The contents of files and digital assets: backend/app/analyzers/metadata_analyzer/analyzer.py and
-- backend/app/domain/entities/digital_asset.py.
use sentinal.Prelude.{ℕ, ◌≡◌, refl, true, none, List, [], ◌∷◌, ◌++◌, arith}
use sentinal.Prelude.Outcome.{ok}
use sentinal.Asset.{DigitalAsset, url, create_ioc, Labels}
use sentinal.Asset.Identity.{Made, as_ioc}
use sentinal.Metadata.Png.{Dimensions, png_dimensions, png_header, png_dimensions-png_header}
use sentinal.Metadata.Jpeg.{jpeg_dimensions}
use sentinal.Metadata.Frames.{Settles, jpeg_terminates}

abbrev labels : Labels
labels = record { display_label = none; metadata_json = none; created_at = none }

abbrev link : DigitalAsset
link = record {
  id = 4;
  user_id = 1;
  asset_type = url;
  normalized_value = "https://a.example/";
  raw_value = "HTTPS://a.example";
  display_label = none;
  metadata_json = none;
  is_active = true;
  sha256_hash = none;
  mime_type = none;
  size_bytes = none;
  storage_key = none;
  created_at = 50;
  updated_at = none;
  deleted_at = none;
}

link-Made : Made link
unfolding create_ioc
link-Made = as_ioc 50 1 url "HTTPS://a.example" "https://a.example/" 4 labels refl

same_link-Made : Made (record link { id = 5; created_at = 60 })
unfolding create_ioc
same_link-Made = as_ioc 60 1 url "HTTPS://a.example" "https://a.example/" 5 labels refl

abbrev screen : Dimensions
screen = record { width = 1920; height = 1080 }

png_dimensions-png_header_example : png_dimensions (png_header screen ++ 8 ∷ 6 ∷ 0 ∷ []) ≡ ok screen
png_dimensions-png_header_example =
    png_dimensions-png_header screen (8 ∷ 6 ∷ 0 ∷ []) (omega arith) (omega arith) (omega arith)
      (omega arith)

-- An application segment, then a frame of 3 lines and 5 columns.
abbrev photo : List ℕ
photo =
    0xff ∷ 0xd8 ∷ 0xff ∷ 0xe0 ∷ 0 ∷ 4 ∷ 1 ∷ 2 ∷ 0xff ∷ 0xc0 ∷ 0 ∷ 11 ∷ 8 ∷ 0 ∷ 3 ∷ 0 ∷ 5 ∷ 1 ∷ 1
    ∷ 0x11 ∷ 0 ∷ []

photo_dimensions : jpeg_dimensions photo ≡ ok (record { width = 5; height = 3 })
unfolding jpeg_dimensions
photo_dimensions = refl

jpeg_terminates_example : Settles photo 21 2
jpeg_terminates_example = jpeg_terminates photo (omega arith)
