-- ===== src/Metadata/Frames.antt =====
-- The loop of `_jpeg_dimensions` (backend/app/analyzers/metadata_analyzer/analyzer.py): it ends, and
-- what it returns stands in the file.
use sentinal.Prelude.{
  ℕ, zero, suc, ◌+◌, ◌≤◌, ◌<◌, ◌≡◌, ◌⊎◌, inl, inr, refl, ◌∙◌, String, true, Option, some, List,
  length, arith,
}
use sentinal.Prelude.Outcome.{Result, ok, err}
use sentinal.Metadata.Bytes.{byte_at, u16_at}
use sentinal.Metadata.Png.{Dimensions}
use sentinal.Metadata.Jpeg.{Segment, next, found, ended, is_frame, read_segment, scan}

-- Every round moves on, and stays within the content.
read_segment_next :
    (content : List ℕ) (p q : ℕ) → read_segment content p ≡ next q → (p < q) × (q ≤ length content)
unfolding read_segment
read_segment_next content p q h = ground arith

-- A frame header stands at the position `p`, whole and with positive dimensions.
pub record FrameAt (content : List ℕ) (p : ℕ) (d : Dimensions) : Type 0 where
  pub fits : p + 9 ≤ length content
  pub starts : byte_at p content ≡ 0xff
  pub marker : is_frame (byte_at (p + 1) content) ≡ true
  pub height : u16_at (p + 2 + 3) content ≡ d.height
  pub width : u16_at (p + 2 + 5) content ≡ d.width
  pub is_positive : (0 < d.height) × (0 < d.width)

read_segment-FrameAt :
    (content : List ℕ) (p : ℕ) (d : Dimensions)
    → read_segment content p ≡ found d
    → FrameAt content p d
unfolding read_segment
read_segment-FrameAt content p d h = ground arith

-- What a result says of the content.
pub data Verdict (content : List ℕ) : Result String Dimensions → Type 0 where
  framed : (q : ℕ) (d : Dimensions) → FrameAt content q d → Verdict content (ok d)
  unreadable : (message : String) → Verdict content (err message)

-- What the loop has come to, and that more fuel does not change it.
pub record Settles (content : List ℕ) (fuel p : ℕ) : Type 0 where
  pub result : Result String Dimensions
  pub steady : (more : ℕ) → scan (fuel + more) content p ≡ some result
  pub verdict : Verdict content result

scan_next :
    (content : List ℕ) (fuel p q : ℕ)
    → read_segment content p ≡ next q
    → scan (suc fuel) content p ≡ scan fuel content q
unfolding scan
scan_next content fuel p q h = rw (scan, h) refl

scan_found :
    (content : List ℕ) (fuel p : ℕ) (d : Dimensions)
    → read_segment content p ≡ found d
    → scan (suc fuel) content p ≡ some (ok d)
unfolding scan
scan_found content fuel p d h = rw (scan, h) refl

scan_ended :
    (content : List ℕ) (fuel p : ℕ)
    → read_segment content p ≡ ended
    → scan (suc fuel) content p ≡ some (err "JPEG dimensions could not be read")
unfolding scan
scan_ended content fuel p h = rw (scan, h) refl

Segment-cases :
    (s : Segment) → ((q : ℕ) × (s ≡ next q)) ⊎ (((d : Dimensions) × (s ≡ found d)) ⊎ (s ≡ ended))
Segment-cases (next q) = inl (q, refl)
Segment-cases (found d) = inr (inl (d, refl))
Segment-cases ended = inr (inr refl)

at_suc :
    (content : List ℕ) (fuel more p : ℕ) (r : Option (Result String Dimensions))
    → scan (suc (fuel + more)) content p ≡ r
    → scan (suc fuel + more) content p ≡ r
at_suc content fuel more p r h = let e : suc fuel + more ≡ suc (fuel + more) = omega arith in rw e h

scan-Settles :
    (content : List ℕ) (fuel p : ℕ)
    → p ≤ length content
    → length content < fuel + p
    → Settles content fuel p
scan-Settles content zero p within h = absurd (omega arith)
scan-Settles content (suc fuel) p within h = elim (Segment-cases (read_segment content p)) [
  | inl (q, e) ↦
      let moved = read_segment_next content p q e in
      let rest = scan-Settles content fuel q moved.1 (omega (arith, moved.0)) in
      record {
        result = rest.result;
        steady = λ more.
            at_suc content fuel more p _ (scan_next content (fuel + more) p q e ∙ rest.steady more);
        verdict = rest.verdict;
      }
  | inr (inl (d, e)) ↦ record {
    result = ok d;
    steady = λ more. at_suc content fuel more p _ (scan_found content (fuel + more) p d e);
    verdict = framed p d (read_segment-FrameAt content p d e);
  }
  | inr (inr e) ↦ record {
    result = err "JPEG dimensions could not be read";
    steady = λ more. at_suc content fuel more p _ (scan_ended content (fuel + more) p e);
    verdict = unreadable _;
  }
]

-- On content that passes the test in front of the loop, fuel for as many rounds as there are bytes
-- is enough: the loop ends, any more fuel changes nothing, and the dimensions that it returns are
-- positive and stand in a whole frame header at some position of the content.
pub jpeg_terminates : (content : List ℕ) → 4 ≤ length content → Settles content (length content) 2
jpeg_terminates content h = scan-Settles content (length content) 2 (omega arith) (omega arith)
