-- ===== src/Metadata/Jpeg.antt =====
-- `_jpeg_dimensions` of backend/app/analyzers/metadata_analyzer/analyzer.py. One round of the loop
-- is `read_segment`; the loop runs on fuel, and the length of the content is enough.
use sentinal.Prelude.{
  ℕ, zero, suc, ◌+◌, String, Bool, not, ◌&&◌, ◌||◌, Option, none, some, List, ◌==◌, ltb, leb,
  length, if◌then◌else◌,
}
use sentinal.Prelude.Outcome.{Result, ok, err}
use sentinal.Metadata.Bytes.{byte_at, u16_at}
use sentinal.Metadata.Png.{Dimensions}

-- The loop goes on at a position, returns, or ends without a result.
pub data Segment : Type 0 where
  next : ℕ → Segment
  found : Dimensions → Segment
  ended : Segment

-- `range(0xC0, 0xC4)` and `range(0xC5, 0xC8)`
abbrev pub is_frame : ℕ → Bool
is_frame marker = (leb 0xc0 marker && ltb marker 0xc4) || (leb 0xc5 marker && ltb marker 0xc8)

-- a frame header; `p` is the position of the segment's length
unfoldable pub read_frame : List ℕ → ℕ → Segment
unfolding u16_at
read_frame content p =
    if ltb (u16_at p content) 7
    then ended
    else if u16_at (p + 5) content == 0 || u16_at (p + 3) content == 0
    then ended
    else found (record { width = u16_at (p + 5) content; height = u16_at (p + 3) content })

-- behind the marker
unfoldable pub read_body : List ℕ → (marker p : ℕ) → Segment
unfolding read_frame
read_body content marker p =
    if marker == 0xd8 || marker == 0xd9
    then next p
    else if ltb (length content) (p + 2)
    then ended
    else if ltb (u16_at p content) 2 || ltb (length content) (p + u16_at p content)
    then ended
    else if is_frame marker
    then read_frame content p
    else next (p + u16_at p content)

-- the test of the loop, and one round of it
unfoldable pub read_segment : List ℕ → ℕ → Segment
unfolding read_body byte_at
read_segment content p =
    if not (ltb (p + 3) (length content))
    then ended
    else if not (byte_at p content == 0xff)
    then next (p + 1)
    else read_body content (byte_at (p + 1) content) (p + 2)

-- `none`: the fuel has run out.
unfoldable pub scan : (fuel : ℕ) → List ℕ → ℕ → Option (Result String Dimensions)
scan zero content p = none
scan (suc fuel) content p = elim (read_segment content p) [
  | next q ↦ scan fuel content q
  | found d ↦ some (ok d)
  | ended ↦ some (err "JPEG dimensions could not be read")
]

abbrev finished : Option (Result String Dimensions) → Result String Dimensions
finished none = err "out of fuel"
finished (some r) = r

unfoldable pub jpeg_dimensions : List ℕ → Result String Dimensions
unfolding scan byte_at read_segment
jpeg_dimensions content =
    if ltb (length content) 4 || not (byte_at 0 content == 0xff && byte_at 1 content == 0xd8)
    then err "content is not a valid JPEG"
    else finished (scan (length content) content 2)
